-- ===== src/Logging/Tests.antt =====
-- Concrete patterns, events and loggers, and runs of the operations of src/logger.cpp on them.
use net_base.Base.{
  find, ℕ, ◌≡◌, ◌≢◌, refl, Bool, true, false, List, [], ◌∷◌, ◌++◌, Option, none, some, Bytes, codes,
  arith, pos, negsuc, OnSome, All, map, to_upper, replicate,
}
use net_base.Logging.Pattern
use net_base.Logging.Pattern.{Item, text, keyed, log_pattern_parse}
use net_base.Logging.Pattern.Printing.{print_items, log_pattern_parse-print_items, ArePrintable}
use net_base.Logging.Stream.{StreamBuf, Entry, new_buf, convert, put_all, str}
use net_base.Logging.Stream
use net_base.Logging.Stream.Converting.{convert-printed}
use net_base.Logging.Stream.Writing.{put_all-Adds, Adds, all_shown}
use net_base.Logging.Logger.{
  formatter_for, get_formatter, Logger, LogEvent, debug, error, size, new_logger, set_formatters,
  log, add_one_flusher, level_from_string,
}
use net_base.Logging.Logger.Formatters.{set_formatters-print_items, formatter_of, last_date}
use net_base.Logging.Logger.Lines.{log_line, add_one_flusher-Flushes, Flushes}
use net_base.Logging.Flushers.{
  name_part, Makers, register_flush_maker, get_maker, log_file_name_parse, dir_name,
}
use net_base.Logging.Flushers.Names.{log_file_name_parse-print_items}
use net_base.Logging.Flushers.Registry.{get_maker-register_flush_maker}
use net_base.Logging.Async.{
  Async, Step, Reachable, started, notified, waiting, joining, stopping, entering, woken, at_start,
  after, loop_on, destructor_stop, destructor_notify, wait,
}
use net_base.Logging.Async.Order.{Step-lost, Reachable-Keeps}
use net_base.Logging.Manager.{LogConfigData, log_manager, get_logger, get_default}
use net_base.Logging.Manager.Roots.{log_manager-IsRooted}

usual_pattern :
    log_pattern_parse (codes "%d{%Y-%m}%T[%p] a%n")
    ≡ keyed (codes "d") (codes "%Y-%m")
      ∷ keyed (codes "T") []
      ∷ text (codes "[")
      ∷ keyed (codes "p") []
      ∷ text (codes "] a")
      ∷ keyed (codes "n") []
      ∷ []
unfolding log_pattern_parse
usual_pattern = refl

-- Two `%` at the end leave an empty key behind the text.
doubled_at_end : log_pattern_parse (codes "5%%") ≡ text (codes "5%") ∷ keyed [] [] ∷ []
unfolding log_pattern_parse
doubled_at_end = refl

-- The marker of an error stands before the text that was read ahead of it.
unclosed_brace :
    log_pattern_parse (codes "a%d{b") ≡ text (codes "<<pattern_error>>") ∷ text (codes "ad{b") ∷ []
unfolding log_pattern_parse
unclosed_brace = refl

-- Such a key fails the assertion of setFormatters.
doubled_percent : set_formatters {F = Bool} (codes "5%%") (new_logger []) ≡ none
unfolding set_formatters
doubled_percent = refl

any_case : level_from_string (codes "Error") ≡ error
unfolding level_from_string
any_case = refl

no_directory : dir_name (codes "root.log") ≡ codes "root.log"
unfolding dir_name
no_directory = refl

abbrev level_items : List Item
level_items =
    text (codes "[") ∷ keyed (codes "p") [] ∷ text (codes "] ") ∷ keyed (codes "m") [] ∷ []

level_items-ArePrintable : ArePrintable level_items
unfolding Pattern.key_byte
level_items-ArePrintable = (
  (λ e. cc),
  ((λ e. omega (arith, e)), tt),
  tt,
  (
    (λ e. cc),
    (refl, tt),
    tt,
    refl,
    (
      (λ e. cc),
      ((λ e. omega (arith, e)), ((λ e. omega (arith, e)), tt)),
      tt,
      ((λ e. cc), (refl, tt), tt, tt, tt),
    ),
  ),
)

log_pattern_parse-print_items_example : log_pattern_parse (codes "[%p] %m") ≡ level_items
log_pattern_parse-print_items_example =
    log_pattern_parse-print_items level_items level_items-ArePrintable

convert-printed_example : convert (negsuc 127) ≡ codes "-128"
convert-printed_example = convert-printed (negsuc 127)

abbrev entries : List Entry
entries = Stream.text (codes "line ") ∷ Stream.integer (negsuc 6) ∷ Stream.char_ 10 ∷ []

put_all-Adds_example : Adds new_buf (all_shown entries) (put_all entries new_buf)
put_all-Adds_example = put_all-Adds entries new_buf (refl, omega arith) (omega arith)

set_formatters-print_items_run :
    set_formatters {F = Bool} (print_items level_items) (new_logger (codes "root"))
    ≡ some (record (new_logger (codes "root")) {
      datetime_pattern = last_date [] level_items;
      formatters = map formatter_of level_items;
    })
set_formatters-print_items_run =
    set_formatters-print_items level_items (new_logger (codes "root")) level_items-ArePrintable

abbrev event : LogEvent
event = record {
  file_name = codes "a.cpp";
  line = pos 7;
  level = error;
  thread_id = 1;
  elapsed_ms = 0;
  executor_id = 2;
  logger_name = [];
  datetime_pattern = [];
  content = codes "no route";
  time = 0;
}

-- A logger with one flusher, which appends to the text of its world.
abbrev logger : Logger Bool
logger = record (new_logger (codes "root")) {
  flusher_count = 1;
  flushers = some true ∷ replicate 9 none;
  formatters = map formatter_of level_items;
}

abbrev to_text : Bool → Bytes → Bytes → Bytes
to_text f s w = w ++ s

error_is_proper : error ≢ size
error_is_proper e = cc

abbrev no_time : Bytes → ℕ → Bytes
no_time fmt t = []

log_line_example :
    (c : StreamBuf) × (log no_time to_text logger event new_buf []
      ≡ some (c, codes "[ERROR] no route"))
    × (c.pos_ ≡ 0)
    × Stream.Writing.IsStream c
unfolding formatter_for get_formatter
log_line_example =
    log_line to_text no_time logger (true ∷ []) event new_buf []
      (refl, refl, (replicate 9 none, refl)) (refl, omega arith) refl error_is_proper (omega arith)

add_one_flusher-Flushes_run :
    (m : Logger Bool) × (add_one_flusher (some false) logger ≡ some m)
    × Flushes m (true ∷ false ∷ [])
add_one_flusher-Flushes_run =
    (add_one_flusher-Flushes logger (true ∷ []) false (refl, refl, (replicate 9 none, refl))).0
      (omega arith)

abbrev name_items : List Item
name_items = text (codes "./") ∷ keyed (codes "H") [] ∷ text (codes "-") ∷ []

dated-ArePrintable :
    ArePrintable (name_items ++ keyed (codes "d") (codes "%Y") ∷ text (codes ".log") ∷ [])
unfolding Pattern.key_byte
dated-ArePrintable = (
  (λ e. cc),
  ((λ e. omega (arith, e)), ((λ e. omega (arith, e)), tt)),
  tt,
  (
    (λ e. cc),
    (refl, tt),
    tt,
    refl,
    (
      (λ e. cc),
      ((λ e. omega (arith, e)), tt),
      tt,
      (
        (λ e. cc),
        (refl, tt),
        ((λ e. omega (arith, e)), ((λ e. omega (arith, e)), tt)),
        tt,
        (
          (λ e. cc),
          (
            (λ e. omega (arith, e)),
            ((λ e. omega (arith, e)), ((λ e. omega (arith, e)), ((λ e. omega (arith, e)), tt))),
          ),
          tt,
          tt,
        ),
      ),
    ),
  ),
)

log_file_name_parse-print_items_run :
    log_file_name_parse (codes "host") 42 (codes "./%H-%d{%Y}.log")
    ≡ some (record { prefix = codes "./host-"; postfix = codes ".log"; date_time = codes "%Y" })
unfolding name_part
log_file_name_parse-print_items_run =
    log_file_name_parse-print_items (codes "host") 42 name_items (text (codes ".log") ∷ []) []
      (codes "%Y") dated-ArePrintable ((λ e. omega (arith, e)), tt) tt

-- A registry that knows one name.
abbrev makers : Makers ℕ
makers = (codes "STRINGFLUSHER", 1) ∷ []

get_maker-register_flush_maker_run :
    (find (map to_upper (codes "Null")) makers ≡ none
      → ((register_flush_maker (codes "Null") 2 makers).0 ≡ true)
        × (get_maker (codes "nULL") (register_flush_maker (codes "Null") 2 makers).1 ≡ some 2))
    × ((b : ℕ)
        → find (map to_upper (codes "Null")) makers ≡ some b
        → register_flush_maker (codes "Null") 2 makers ≡ (true, makers))
get_maker-register_flush_maker_run =
    get_maker-register_flush_maker (codes "Null") (codes "nULL") 2 makers refl refl

-- The call for a name that is taken reports success.
taken_name : register_flush_maker (codes "StringFlusher") 2 makers ≡ (true, makers)
unfolding register_flush_maker
taken_name = refl

abbrev quiet : LogConfigData
quiet = record { name = codes "root"; level = error; formatter = codes "%m%n"; flushers = [] }

abbrev null_flusher : Bytes → Bytes → Option (Option Bool)
null_flusher type pattern = some none

log_manager-IsRooted_example :
    OnSome
      (λ m. (get_logger (codes "root") m ≡ get_default m) × All (λ l. l.level ≡ debug) m.objects)
      (log_manager null_flusher (quiet ∷ []))
log_manager-IsRooted_example = log_manager-IsRooted null_flusher (quiet ∷ [])

-- The thread tests `stop_`, the destructor sets it and notifies, and the thread waits.
abbrev lost : Async
lost = record started { stop = true; worker = waiting; owner = joining }

lost-Reachable : Reachable lost
unfolding notified
lost-Reachable =
    after _ lost
      (after _ _
        (after _ _ (after started _ at_start (loop_on started refl refl))
          (destructor_stop (record started { worker = entering }) refl refl))
        (destructor_notify (record started { stop = true; worker = entering; owner = stopping })
          refl))
      (wait (record started { stop = true; worker = entering; owner = joining }) refl)

nothing_wakes : (b : Async) → Step lost b → b ≡ record lost { worker = woken }
nothing_wakes b s = Step-lost lost b s refl refl refl

Reachable-Keeps_example : lost.out ++ lost.log_pool ≡ lost.pushed
Reachable-Keeps_example = Reachable-Keeps lost lost-Reachable
