-- ===== src/Logging/Logger/Lines.antt =====
-- `Logger::log` of src/logger.cpp as one line that each flusher of the logger is given.
use net_base.Base.{
  length-append, length-set, ap₂, take, ℕ, suc, ◌+◌, ◌<◌, ◌≡◌, ◌≢◌, refl, ap, ◌∙◌, List, [], ◌∷◌,
  ◌++◌, Option, none, some, Bytes, codes, arith, map, ◌>>=◌, pos, length, set, lt→ltb, le→not-ltb,
}
use net_base.Logging.Stream.{
  StreamBuf, Entry, integer, text, char_, put, put_all, str, free, log_buffer_max_len,
}
use net_base.Logging.Stream.Writing.{all_shown, IsStream, put_all-Adds}
use net_base.Logging.Logger.{
  Level, debug, info, warn, error, fatal, size, LogEvent, Logger, FormatterFunc, format,
  format_each, flush_each, log, level_to_string, add_one_flusher, flusher_max,
}
use net_base.Logging.Logger

abbrev pub level_name : Level → Bytes
level_name debug = codes "DEBUG"
level_name info = codes "INFO"
level_name warn = codes "WARN"
level_name error = codes "ERROR"
level_name fatal = codes "FATAL"
level_name size = []

-- What each formatter prints of an event.
abbrev pub operand : (Bytes → ℕ → Bytes) → LogEvent → FormatterFunc → Entry
operand strftime e Logger.message_formatter = text e.content
operand strftime e Logger.level_formatter = text (level_name e.level)
operand strftime e Logger.elapsed_formatter = integer (pos e.elapsed_ms)
operand strftime e Logger.name_formatter = text e.logger_name
operand strftime e Logger.thread_id_formatter = integer (pos e.thread_id)
operand strftime e Logger.newline_formatter = text (13 ∷ 10 ∷ [])
operand strftime e Logger.date_time_formatter = text (strftime e.datetime_pattern e.time)
operand strftime e Logger.filename_formatter = text e.file_name
operand strftime e Logger.line_number_formatter = integer e.line
operand strftime e Logger.executor_id_formatter = integer (pos e.executor_id)
operand strftime e Logger.tab_formatter = char_ 9
operand strftime e (Logger.string_formatter s) = text s

level_to_string-level_name : (l : Level) → l ≢ size → level_to_string l ≡ some (level_name l)
unfolding level_to_string
level_to_string-level_name debug h = refl
level_to_string-level_name info h = refl
level_to_string-level_name warn h = refl
level_to_string-level_name error h = refl
level_to_string-level_name fatal h = refl
level_to_string-level_name size h = absurd (h refl)

format-put :
    (strftime : Bytes → ℕ → Bytes) (f : FormatterFunc) (e : LogEvent) (b : StreamBuf)
    → e.level ≢ size
    → format strftime f e b ≡ put (operand strftime e f) b
unfolding format
format-put strftime Logger.message_formatter e b h = refl
format-put strftime Logger.level_formatter e b h =
    ap (λ o. o >>= λ s. put (text s) b) (level_to_string-level_name e.level h)
format-put strftime Logger.elapsed_formatter e b h = refl
format-put strftime Logger.name_formatter e b h = refl
format-put strftime Logger.thread_id_formatter e b h = refl
format-put strftime Logger.newline_formatter e b h = refl
format-put strftime Logger.date_time_formatter e b h = refl
format-put strftime Logger.filename_formatter e b h = refl
format-put strftime Logger.line_number_formatter e b h = refl
format-put strftime Logger.executor_id_formatter e b h = refl
format-put strftime Logger.tab_formatter e b h = refl
format-put strftime (Logger.string_formatter s) e b h = refl

-- The flushers that were given to a logger, in order: the first ones of its array.
abbrev pub Flushes : {F : Type 0} → Logger.Logger F → List F → Type 0
Flushes l given =
    (l.flusher_count ≡ length given)
    × (length l.flushers ≡ flusher_max)
    × ((rest : List (Option _)) × (l.flushers ≡ map some given ++ rest))

-- The effect of one line on all of them.
abbrev pub flush_all : {F W : Type 0} → (F → Bytes → W → W) → List F → Bytes → W → W
flush_all flush [] s w = w
flush_all flush (f ∷ fs) s w = flush_all flush fs s (flush f s w)

format_each-put_all :
    (strftime : Bytes → ℕ → Bytes) (fs : List FormatterFunc) (e : LogEvent) (b : StreamBuf)
    → e.level ≢ size
    → format_each strftime fs e b ≡ put_all (map (operand strftime e) fs) b
unfolding format_each put_all
format_each-put_all strftime [] e b h = refl
format_each-put_all strftime (f ∷ fs) e b h =
    let first = format-put strftime f e b h in
    let others = format_each-put_all strftime fs e in λ i. first i >>= λ c. others c h i

module _ {F W : Type 0} (flush : F → Bytes → W → W) where
  flush_each-map :
      (given : List F) (rest : List (Option F)) (s : Bytes) (w : W)
      → flush_each flush (length given) (map some given ++ rest) s w
        ≡ some (flush_all flush given s w)
  unfolding flush_each
  flush_each-map [] rest s w = refl
  flush_each-map (f ∷ given) rest s w = flush_each-map given rest s (flush f s w)

  flush_each-Flushes :
      (l : Logger.Logger F) (given : List F) (s : Bytes) (w : W)
      → Flushes l given
      → flush_each flush l.flusher_count l.flushers s w ≡ some (flush_all flush given s w)
  flush_each-Flushes l given s w (count, n, (rest, e)) =
      ap₂ (λ n fs. flush_each flush n fs s w) count e ∙ flush_each-map given rest s w

  -- The event as the formatters see it.
  abbrev pub named : Logger.Logger F → LogEvent → LogEvent
  named l e = record e { logger_name = l.name; datetime_pattern = l.datetime_pattern }

  -- An event of a proper level is logged by a logger with the flushers it was given, on an empty
  -- buffer into which the line fits: each flusher gets once, in order, what the formatters
  -- print, one behind the other, and the buffer is empty again.
  pub log_line :
      (strftime : Bytes → ℕ → Bytes) (l : Logger.Logger F) (given : List F) (event : LogEvent)
      (b : StreamBuf) (w : W)
      → Flushes l given
      → IsStream b
      → b.pos_ ≡ 0
      → event.level ≢ size
      → length (all_shown (map (operand strftime (named l event)) l.formatters))
        < log_buffer_max_len
      → (c : StreamBuf) × (log strftime flush l event b w
          ≡ some (
            c,
            flush_all flush given
                (all_shown (map (operand strftime (named l event)) l.formatters))
                w,
          ))
        × (c.pos_ ≡ 0)
        × IsStream c
  unfolding log str free
  log_line strftime l given event b w fl v z lv fits =
      let line = all_shown (map (operand strftime (named l event)) l.formatters) in
      let (c, e, t, p, vc) =
        put_all-Adds (map (operand strftime (named l event)) l.formatters) b v
          (omega (arith, z, fits)) in
      (
        free c,
        ap
              (λ o. o >>= λ c.
                flush_each flush l.flusher_count l.flushers (str c) w >>= λ v. some (free c, v))
              (format_each-put_all strftime l.formatters (named l event) b lv ∙ e)
            ∙ ap (λ o. o >>= λ v. some (free c, v)) (flush_each-Flushes l given (str c) w fl)
            ∙ ap (λ s. some (free c, flush_all flush given s w))
                (t ∙ ap (λ n. take n b.buf ++ line) z),
        refl,
        (vc.0, omega arith),
      )

module _ {F : Type 0} where
  set-given :
      (given : List F) (f : F) (x : Option F) (rest : List (Option F))
      → set (map some given ++ x ∷ rest) (length given) (some f)
        ≡ map some (given ++ f ∷ []) ++ rest
  set-given [] f x rest = refl
  set-given (g ∷ given) f x rest = ap (◌∷◌ (some g)) (set-given given f x rest)

  length-map : (given : List F) → length (map some given) ≡ length given
  length-map [] = refl
  length-map (f ∷ given) = ap suc (length-map given)

  has_room :
      (given : List F) (flushers rest : List (Option F))
      → flushers ≡ map some given ++ rest
      → length given < length flushers
      → (x : Option F) × (tail : List (Option F)) × (rest ≡ x ∷ tail)
  has_room given flushers [] e h = absurd (
      omega (
        arith,
        h,
        (ap length e ∙ length-append (map some given) [] ∙ ap (λ n. n + 0) (length-map given)),
      ))
  has_room given flushers (x ∷ tail) e h = (x, tail, refl)

  -- A flusher is put behind those that the logger has, up to ten; an eleventh is written behind
  -- the array's end.
  pub add_one_flusher-Flushes :
      (l : Logger.Logger F) (given : List F) (f : F)
      → Flushes l given
      → (length given < flusher_max
          → (m : Logger.Logger F) × (add_one_flusher (some f) l ≡ some m)
            × Flushes m (given ++ f ∷ []))
        × (length given ≡ flusher_max → add_one_flusher (some f) l ≡ none)
  unfolding add_one_flusher
  add_one_flusher-Flushes l given f (count, n, (rest, e)) = (
    λ h.
        let (x, tail, t) = has_room given l.flushers rest e (omega (arith, n, h)) in
        (
          record l {
            flushers = set l.flushers l.flusher_count (some f);
            flusher_count = suc l.flusher_count;
          },
          rw (lt→ltb l.flusher_count flusher_max (omega (arith, count, h))) refl,
          (
            omega (arith, count, length-append given (f ∷ [])),
            length-set l.flushers l.flusher_count (some f) ∙ n,
            (
              tail,
              ap₂ (λ fs i. set fs i (some f)) (e ∙ ap (λ r. map some given ++ r) t) count
                  ∙ set-given given f x tail,
            ),
          ),
        ),
    λ h. rw (le→not-ltb l.flusher_count flusher_max (omega (arith, count, h))) refl,
  )
