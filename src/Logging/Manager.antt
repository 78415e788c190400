-- ===== src/Logging/Manager.antt =====
-- `_LogManager` of src/logger.cpp and include/logger.h, and the configuration of loggers in
-- include/logging/logger_data_convert.h. A logger is known by its place in a list, as the code
-- shares it by pointer; the libraries for YAML and JSON give the values of a node's fields, where
-- `none` is a missing field. `get_log_flusher` is FlusherManager's.
pub mod Roots
use net_base.Base.{
  equals, find, ℕ, zero, suc, Bool, true, false, List, [], ◌∷◌, ◌++◌, Option, none, some, Bytes,
  codes, ◌==◌, if◌then◌else◌, ◌>>=◌, length,
}
use net_base.Logging.Logger.{
  Level, debug, level_from_string, Logger, new_logger, set_formatters, add_one_flusher, set_level,
}

pub record LogFlusherConfigData : Type 0 where
  pub type : Bytes
  pub name_pattern : Bytes

pub record LogConfigData : Type 0 where
  pub name : Bytes
  pub level : Level
  pub formatter : Bytes
  pub flushers : List LogFlusherConfigData

abbrev pub default_pattern : Bytes
default_pattern = codes "%H-%p.log"

-- YAML::convert<LogFlusherConfigData>::decode, of the fields `type` and `pattern`
pub decode_flusher :
    Option Bytes → Option Bytes → LogFlusherConfigData → Bool × LogFlusherConfigData
decode_flusher none pattern rhs = (false, rhs)
decode_flusher (some type) none rhs = (true, record rhs { name_pattern = default_pattern })
decode_flusher (some type) (some pattern) rhs = (true, record rhs { name_pattern = pattern })

-- from_json of LogFlusherConfigData
pub flusher_from_json : Option Bytes → Option Bytes → LogFlusherConfigData → LogFlusherConfigData
flusher_from_json none pattern rhs = rhs
flusher_from_json (some type) none rhs = record rhs { type = type; name_pattern = default_pattern }
flusher_from_json (some type) (some pattern) rhs = record rhs {
  type = type;
  name_pattern = pattern;
}

pub level_or_debug : Option Bytes → Level
unfolding level_from_string
level_or_debug none = debug
level_or_debug (some s) = level_from_string s

abbrev pub or_old {ℓ} : {A : Type ℓ} → A → Option A → A
or_old a none = a
or_old a (some b) = b

-- The two conversions of LogConfigData, of the fields `name`, `level`, `formatter`, `flusher`: the
-- value, and whether there is a name.
pub decode_config :
    Option Bytes
    → Option Bytes
    → Option Bytes
    → Option (List LogFlusherConfigData)
    → LogConfigData
    → Bool × LogConfigData
unfolding level_or_debug
decode_config none level formatter flushers rhs = (false, rhs)
decode_config (some name) level formatter flushers rhs = (
  true,
  record {
    name = name;
    level = level_or_debug level;
    formatter = or_old rhs.formatter formatter;
    flushers = or_old rhs.flushers flushers;
  },
)

pub record LogManager (F : Type 0) : Type 0 where
  pub objects : List (Logger F)
  pub default_logger : Option ℕ
  pub loggers : List (Bytes × ℕ)

abbrev pub empty_manager : {F : Type 0} → LogManager F
empty_manager = record { objects = []; default_logger = none; loggers = [] }

-- unordered_map::insert and operator[] =, the newest entry first
pub insert : Bytes → ℕ → List (Bytes × ℕ) → List (Bytes × ℕ)
insert key p loggers = elim (find key loggers) [ none ↦ (key, p) ∷ loggers | some q ↦ loggers ]

pub assign : Bytes → ℕ → List (Bytes × ℕ) → List (Bytes × ℕ)
assign key p loggers = (key, p) ∷ loggers

-- The logger becomes the default one, and is entered under both names.
pub with_default : {F : Type 0} → Logger F → LogManager F → LogManager F
unfolding insert set_level
with_default l m = record {
  objects = m.objects ++ set_level debug l ∷ [];
  default_logger = some (length m.objects);
  loggers =
      insert (codes "system") (length m.objects)
        (insert (codes "root") (length m.objects) m.loggers);
}

module _ {F : Type 0} (get_log_flusher : Bytes → Bytes → Option (Option F)) where
  -- initDefaultLogger
  unfoldable pub init_default_logger : LogManager F → Option (LogManager F)
  unfolding with_default set_formatters add_one_flusher
  init_default_logger m =
      set_formatters (codes "%d{%Y-%m-%d %H:%M:%S}%T%t%T%E%T[%p]%T[%c]%T<%f:%l>%T%m%n")
        (new_logger (codes "root"))
      >>= λ a. get_log_flusher (codes "ProtectedStdoutFlusher") [] >>= λ f.
          add_one_flusher f a >>= λ b.
          get_log_flusher (codes "ProtectedFileFlusher") (codes "./logs/%H-root-%P.log") >>= λ g.
          add_one_flusher g b >>= λ c. some (with_default c m)

  -- The flushers of an item; an unknown type is reported and left out.
  pub add_flushers : List LogFlusherConfigData → Logger F → Option (Logger F)
  unfolding add_one_flusher
  add_flushers [] l = some l
  add_flushers (f ∷ fs) l =
      get_log_flusher f.type f.name_pattern >>= λ o. add_one_flusher o l >>= λ k. add_flushers fs k

  -- One round of initLoggerFromConfig
  pub init_item : LogConfigData → LogManager F → Option (LogManager F)
  unfolding add_flushers assign set_formatters
  init_item item m = set_formatters item.formatter (new_logger item.name) >>= λ a.
      add_flushers item.flushers a >>= λ b. some (record {
        objects = m.objects ++ b ∷ [];
        default_logger =
            if equals item.name (codes "root") then some (length m.objects) else m.default_logger;
        loggers = assign item.name (length m.objects) m.loggers;
      })

  -- initLoggerFromConfig
  pub init_loggers : List LogConfigData → LogManager F → Option (LogManager F)
  unfolding init_item
  init_loggers [] m = some m
  init_loggers (item ∷ items) m = init_item item m >>= init_loggers items

  -- _LogManager, with the list under the configuration's "logs"
  unfoldable pub log_manager : List LogConfigData → Option (LogManager F)
  unfolding init_default_logger init_loggers
  log_manager log_data = init_default_logger empty_manager >>= init_loggers log_data

-- getLogger; `none` is a null pointer.
unfoldable pub get_logger : {F : Type 0} → Bytes → LogManager F → Option ℕ
get_logger key m = find key m.loggers

pub get_default : {F : Type 0} → LogManager F → Option ℕ
get_default m = m.default_logger
