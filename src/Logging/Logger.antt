-- ===== src/Logging/Logger.antt =====
-- src/logger.cpp, include/logger.h and src/logging/logger_formatters.cpp: a logger, its formatters
-- and flushers, and the macro LON_LOG. `none` is a failed assertion, or a write behind the end of
-- the buffer or of the array of flushers. What `strftime` leaves in its buffer of 64 bytes, and
-- what a flusher `F` does to a world `W`, are parameters.
pub mod Formatters
pub mod Lines
use net_base.Base.{
  equals, ℕ, zero, suc, ◌+◌, ◌≤◌, ◌<◌, Bool, true, false, List, [], ◌∷◌, ◌++◌, Option, none, some,
  Bytes, codes, ltb, leb, ◌==◌, if◌then◌else◌, ◌>>=◌, ℤ, pos, map, to_upper, set, replicate, ◌&&◌,
}
use net_base.Logging.Pattern.{Item, keyed, log_pattern_parse}
use net_base.Logging.Pattern
use net_base.Logging.Stream.{StreamBuf, Entry, integer, text, char_, put, str, free}

pub data Level : Type 0 where
  debug info warn error fatal size : Level

-- The number of an enumerator.
pub rank : Level → ℕ
rank debug = 0
rank info = 1
rank warn = 2
rank error = 3
rank fatal = 4
rank size = 5

-- Logger::levelFromString
unfoldable pub level_from_string : Bytes → Level
level_from_string s =
    let upper = map to_upper s in
    if equals upper (codes "DEBUG")
    then debug
    else if equals upper (codes "INFO")
    then info
    else if equals upper (codes "WARN")
    then warn
    else if equals upper (codes "ERROR")
    then error
    else if equals upper (codes "FATAL")
    then fatal
    else size

-- Logger::levelToString
unfoldable pub level_to_string : Level → Option Bytes
level_to_string debug = some (codes "DEBUG")
level_to_string info = some (codes "INFO")
level_to_string warn = some (codes "WARN")
level_to_string error = some (codes "ERROR")
level_to_string fatal = some (codes "FATAL")
level_to_string size = none

pub record LogEvent : Type 0 where
  pub file_name : Bytes
  pub line : ℤ
  pub level : Level
  pub thread_id : ℕ
  pub elapsed_ms : ℕ
  pub executor_id : ℕ
  pub logger_name : Bytes
  pub datetime_pattern : Bytes
  pub content : Bytes
  pub time : ℕ

-- The functions of logger_formatters.cpp, and StringLogFormatter.
pub data FormatterFunc : Type 0 where
  message_formatter level_formatter elapsed_formatter name_formatter : FormatterFunc
  thread_id_formatter newline_formatter date_time_formatter filename_formatter : FormatterFunc
  line_number_formatter executor_id_formatter tab_formatter : FormatterFunc
  string_formatter : Bytes → FormatterFunc

-- LogFormatterFactory::getFormatter
unfoldable pub get_formatter : ℕ → Option FormatterFunc
get_formatter keyword =
    if keyword == b'm'
    then some message_formatter
    else if keyword == b'p'
    then some level_formatter
    else if keyword == b'r'
    then some elapsed_formatter
    else if keyword == b'c'
    then some name_formatter
    else if keyword == b't'
    then some thread_id_formatter
    else if keyword == b'n'
    then some newline_formatter
    else if keyword == b'd'
    then some date_time_formatter
    else if keyword == b'f'
    then some filename_formatter
    else if keyword == b'l'
    then some line_number_formatter
    else if keyword == b'E'
    then some executor_id_formatter
    else if keyword == b'T'
    then some tab_formatter
    else none

-- A call of a formatter.
pub format : (Bytes → ℕ → Bytes) → FormatterFunc → LogEvent → StreamBuf → Option StreamBuf
unfolding level_to_string
format strftime message_formatter e b = put (text e.content) b
format strftime level_formatter e b = level_to_string e.level >>= λ s. put (text s) b
format strftime elapsed_formatter e b = put (integer (pos e.elapsed_ms)) b
format strftime name_formatter e b = put (text e.logger_name) b
format strftime thread_id_formatter e b = put (integer (pos e.thread_id)) b
format strftime newline_formatter e b = put (text (13 ∷ 10 ∷ [])) b
format strftime date_time_formatter e b = put (text (strftime e.datetime_pattern e.time)) b
format strftime filename_formatter e b = put (text e.file_name) b
format strftime line_number_formatter e b = put (integer e.line) b
format strftime executor_id_formatter e b = put (integer (pos e.executor_id)) b
format strftime tab_formatter e b = put (char_ 9) b
format strftime (string_formatter s) e b = put (text s) b

pub record Logger (F : Type 0) : Type 0 where
  pub level : Level
  pub flusher_count : ℕ
  pub name : Bytes
  pub datetime_pattern : Bytes
  pub flushers : List (Option F)
  pub formatters : List FormatterFunc

abbrev pub flusher_max : ℕ
flusher_max = 10

abbrev pub new_logger : {F : Type 0} → Bytes → Logger F
new_logger name = record {
  level = debug;
  flusher_count = 0;
  name = name;
  datetime_pattern = [];
  flushers = replicate flusher_max none;
  formatters = [];
}

-- The pattern of a `%d`, which all of them share.
unfoldable pub date_pattern : Bytes → Bytes
date_pattern [] = codes "%Y-%m-%d %H:%M:%S"
date_pattern (c ∷ fmt) = c ∷ fmt

-- The formatter of a key, or one that prints an error.
unfoldable pub formatter_for : Bytes → Option FormatterFunc → FormatterFunc
formatter_for key (some f) = f
formatter_for key none = string_formatter (codes "<<error_format%" ++ key ++ codes ">>")

module _ {F : Type 0} where
  -- addOneFlusher, of a pointer that may be null
  unfoldable pub add_one_flusher : Option F → Logger F → Option (Logger F)
  add_one_flusher none l = some l
  add_one_flusher (some f) l =
      if ltb l.flusher_count flusher_max
      then some (record l {
        flushers = set l.flushers l.flusher_count (some f);
        flusher_count = suc l.flusher_count;
      })
      else none

  unfoldable pub set_level : Level → Logger F → Logger F
  set_level level l = record l { level = level }

  pub add_one_formatter : FormatterFunc → Logger F → Logger F
  add_one_formatter f l = record l { formatters = l.formatters ++ f ∷ [] }

  -- One round of the loop of setFormatters.
  pub add_item : Item → Logger F → Option (Logger F)
  unfolding add_one_formatter date_pattern formatter_for get_formatter
  add_item (Pattern.text s) l = some (add_one_formatter (string_formatter s) l)
  add_item (keyed [] fmt) l = none
  add_item (keyed (k ∷ key) fmt) l =
      let pattern = if k == b'd' then date_pattern fmt else l.datetime_pattern in
      let dated = record l { datetime_pattern = pattern } in
      some (add_one_formatter (formatter_for (k ∷ key) (get_formatter k)) dated)

  pub add_items : List Item → Logger F → Option (Logger F)
  unfolding add_item
  add_items [] l = some l
  add_items (i ∷ items) l = add_item i l >>= add_items items

  -- setFormatters
  unfoldable pub set_formatters : Bytes → Logger F → Option (Logger F)
  unfolding add_items log_pattern_parse
  set_formatters pattern l = add_items (log_pattern_parse pattern) (record l { formatters = [] })

-- The loop over the formatters.
pub format_each : (Bytes → ℕ → Bytes) → List FormatterFunc → LogEvent → StreamBuf → Option StreamBuf
unfolding format
format_each strftime [] e b = some b
format_each strftime (f ∷ fs) e b = format strftime f e b >>= format_each strftime fs e

-- The loop over the first `n` flushers; a null pointer is not followed.
pub flush_each : {F W : Type 0} → (F → Bytes → W → W) → ℕ → List (Option F) → Bytes → W → Option W
flush_each flush zero fs s w = some w
flush_each flush (suc n) [] s w = none
flush_each flush (suc n) (none ∷ fs) s w = none
flush_each flush (suc n) (some f ∷ fs) s w = flush_each flush n fs s (flush f s w)

module _ {F W : Type 0} (strftime : Bytes → ℕ → Bytes) (flush : F → Bytes → W → W) where
  -- Logger::log on the thread's buffer, which the stream's destructor empties.
  unfoldable pub log : Logger F → LogEvent → StreamBuf → W → Option (StreamBuf × W)
  unfolding format_each flush_each str free
  log l event b w =
      let e = record event { logger_name = l.name; datetime_pattern = l.datetime_pattern } in
      format_each strftime l.formatters e b >>= λ c.
      flush_each flush l.flusher_count l.flushers (str c) w >>= λ v. some (free c, v)

  -- Whether the process goes on.
  pub data Logged : Type 0 where
    goes_on aborted : StreamBuf → W → Logged

  -- LON_LOG: the destructor of the LogWrapper logs what was written into it.
  unfoldable pub lon_log : Logger F → LogEvent → Bytes → StreamBuf → W → Option Logged
  unfolding log rank
  lon_log l event content b w =
      if leb (rank l.level) (rank event.level)
      then (log l (record event { content = content }) b w >>= λ (c, v).
          some (if rank event.level == 4 then aborted c v else goes_on c v))
      else some (goes_on b w)
