-- ===== src/Logging/Manager/Roots.antt =====
-- Invariants of the start of `_LogManager` in src/logger.cpp.
use net_base.Base.{
  equals, find, ◌≡◌, refl, ap, List, [], ◌∷◌, Option, none, some, Bytes, codes, ltb, if◌then◌else◌,
  OnSome, OnSome-bind, OnSome-then, length, All, All-append, Bool-cases, inl, inr,
}
use net_base.Logging.Logger.{
  debug, Logger, new_logger, set_formatters, add_one_flusher, set_level, flusher_max,
}
use net_base.Logging.Logger.Formatters.{set_formatters-level}
use net_base.Logging.Manager.{
  with_default, LogConfigData, LogFlusherConfigData, LogManager, empty_manager, insert, assign,
  init_default_logger, add_flushers, init_item, init_loggers, log_manager, get_logger, get_default,
}

-- The default logger is the one named root, and every logger has the level DEBUG.
abbrev pub IsRooted : {F : Type 0} → LogManager F → Type 0
IsRooted m =
    (find (codes "root") m.loggers ≡ m.default_logger) × All (λ l. l.level ≡ debug) m.objects

abbrev default_text : Bytes
default_text = codes "%d{%Y-%m-%d %H:%M:%S}%T%t%T%E%T[%p]%T[%c]%T<%f:%l>%T%m%n"

abbrev HasDebug : {F : Type 0} → Logger F → Type 0
HasDebug l = l.level ≡ debug

module _ {F : Type 0} (get_log_flusher : Bytes → Bytes → Option (Option F)) where
  add_one_flusher-level :
      (o : Option F) (l : Logger F) → HasDebug l → OnSome HasDebug (add_one_flusher o l)
  unfolding add_one_flusher
  add_one_flusher-level none l h = h
  add_one_flusher-level (some f) l h = elim (Bool-cases (ltb l.flusher_count flusher_max)) [
    | inl b ↦ rw b h
    | inr b ↦ rw b tt
  ]

  add_flushers-level :
      (fs : List LogFlusherConfigData) (l : Logger F)
      → HasDebug l
      → OnSome HasDebug (add_flushers get_log_flusher fs l)
  unfolding add_flushers
  add_flushers-level [] l h = h
  add_flushers-level (f ∷ fs) l h =
      OnSome-then HasDebug _ (get_log_flusher f.type f.name_pattern) (λ o.
        OnSome-bind HasDebug HasDebug _ (add_one_flusher o l) (add_one_flusher-level o l h)
          (add_flushers-level fs))

  with_default-IsRooted : (c : Logger F) → IsRooted (with_default c empty_manager)
  unfolding with_default insert set_level
  with_default-IsRooted c = (refl, (refl, tt))

  init_default_logger-IsRooted : OnSome IsRooted (init_default_logger get_log_flusher empty_manager)
  unfolding init_default_logger
  init_default_logger-IsRooted =
      OnSome-bind HasDebug IsRooted _
        (set_formatters {F = F} default_text (new_logger (codes "root")))
        (set_formatters-level {F = F} default_text (new_logger (codes "root")))
        (λ a ha. OnSome-then IsRooted _ (get_log_flusher (codes "ProtectedStdoutFlusher") []) (λ f.
          OnSome-bind HasDebug IsRooted _ (add_one_flusher f a) (add_one_flusher-level f a ha)
            (λ b hb.
              OnSome-then IsRooted _
                (get_log_flusher (codes "ProtectedFileFlusher") (codes "./logs/%H-root-%P.log"))
                (λ g.
                  OnSome-then IsRooted (λ c. some (with_default c empty_manager))
                    (add_one_flusher g b) with_default-IsRooted))))

  init_item-IsRooted :
      (item : LogConfigData) (m : LogManager F)
      → IsRooted m
      → OnSome IsRooted (init_item get_log_flusher item m)
  unfolding init_item assign
  init_item-IsRooted item m (r, h) =
      OnSome-bind HasDebug IsRooted _ (set_formatters item.formatter (new_logger item.name))
        (set_formatters-level item.formatter (new_logger item.name))
        (λ a ha.
          OnSome-bind HasDebug IsRooted _ (add_flushers get_log_flusher item.flushers a)
            (add_flushers-level item.flushers a ha)
            (λ b hb. (
              ap (λ o. if equals item.name (codes "root") then some (length m.objects) else o) r,
              All-append HasDebug m.objects (b ∷ []) h (hb, tt),
            )))

  init_loggers-IsRooted :
      (items : List LogConfigData) (m : LogManager F)
      → IsRooted m
      → OnSome IsRooted (init_loggers get_log_flusher items m)
  unfolding init_loggers
  init_loggers-IsRooted [] m h = h
  init_loggers-IsRooted (item ∷ items) m h =
      OnSome-bind IsRooted IsRooted (init_loggers get_log_flusher items)
        (init_item get_log_flusher item m) (init_item-IsRooted item m h)
        (init_loggers-IsRooted items)

  -- Whatever the configuration, if the manager starts, getLogger finds under the name root what
  -- getDefault returns, and all its loggers have the level DEBUG.
  pub log_manager-IsRooted :
      (log_data : List LogConfigData)
      → OnSome
          (λ m.
            (get_logger (codes "root") m ≡ get_default m) × All (λ l. l.level ≡ debug) m.objects)
          (log_manager get_log_flusher log_data)
  unfolding log_manager get_logger get_default
  log_manager-IsRooted log_data =
      OnSome-bind IsRooted IsRooted (init_loggers get_log_flusher log_data)
        (init_default_logger get_log_flusher empty_manager) init_default_logger-IsRooted
        (init_loggers-IsRooted log_data)
