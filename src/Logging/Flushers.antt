-- ===== src/Logging/Flushers.antt =====
-- include/logging/logger_flusher.h and src/logging/logger_filename.cpp: the registry of flushers,
-- and the file that a pattern names. The host's name, the process, and what `strftime` prints of
-- the present time are parameters. The flushers to a file append to a WritableFile of
-- include/base/file.h, the others print to std::cout.
pub mod Names
pub mod Opening
mod Tests
pub mod Registry
use net_base.Base.{
  equals, find, ℕ, zero, suc, Bool, true, false, List, [], ◌∷◌, ◌++◌, Option, none, some, Bytes,
  codes, decimal, ◌==◌, if◌then◌else◌, ◌>>=◌, map, to_upper,
}
use net_base.Logging.Pattern.{Item, text, keyed, log_pattern_parse}

pub record LogFilenameData : Type 0 where
  pub prefix : Bytes
  pub postfix : Bytes
  pub date_time : Bytes

-- The strings of logFileNameParse, and its `in_pre`.
pub record Parsing : Type 0 where
  pub in_pre : Bool
  pub data_ : LogFilenameData

abbrev pub start : Parsing
start = record { in_pre = true; data_ = record { prefix = []; postfix = []; date_time = [] } }

-- Text goes to the prefix, or to the postfix behind a `%d`.
pub add_to : Bool → Bytes → LogFilenameData → LogFilenameData
add_to true s d = record d { prefix = d.prefix ++ s }
add_to false s d = record d { postfix = d.postfix ++ s }

pub add_text : Bytes → Parsing → Parsing
unfolding add_to
add_text s p = record p { data_ = add_to p.in_pre s p.data_ }

pub add_date : Bytes → Parsing → Parsing
add_date fmt p = record {
  in_pre = false;
  data_ = record p.data_ { date_time = p.data_.date_time ++ fmt };
}

module _ (host_name : Bytes) (pid : ℕ) where
  -- What a key other than `d` stands for.
  unfoldable pub name_part : ℕ → Bytes
  name_part k =
      if k == b'H' then host_name else if k == b'P' then decimal pid else codes "_error_pattern_"

  -- One round of the loop; an empty key fails the assertion.
  pub name_item : Item → Parsing → Option Parsing
  unfolding add_text add_date name_part
  name_item (text s) p = some (add_text s p)
  name_item (keyed [] fmt) p = none
  name_item (keyed (k ∷ key) fmt) p =
      if k == b'd' then some (add_date fmt p) else some (add_text (name_part k) p)

  pub name_items : List Item → Parsing → Option Parsing
  unfolding name_item
  name_items [] p = some p
  name_items (i ∷ items) p = name_item i p >>= name_items items

  -- logFileNameParse
  unfoldable pub log_file_name_parse : Bytes → Option LogFilenameData
  unfolding name_items log_pattern_parse
  log_file_name_parse pattern = name_items (log_pattern_parse pattern) start >>= λ p. some p.data_

-- logFileNameGenerate, with what `strftime` leaves in the buffer of 32 bytes
unfoldable pub log_file_name_generate : (Bytes → Bytes) → LogFilenameData → Bytes
log_file_name_generate strftime d = d.prefix ++ (strftime d.date_time ++ d.postfix)

-- What stands before the last `/`, if there is one.
pub before_slash : Bytes → Option Bytes
before_slash [] = none
before_slash (c ∷ s) = elim (before_slash s) [
  | some t ↦ some (c ∷ t)
  | none ↦ if c == b'/' then some [] else none
]

-- The directory that createDir makes; without a `/` it is the whole name.
unfoldable pub dir_name : Bytes → Bytes
unfolding before_slash
dir_name name = elim (before_slash name) [ some t ↦ t | none ↦ name ]

-- The classes of flushers; those to a file hold its name.
pub data Flusher : Type 0 where
  simple_file protected_file async_file : Bytes → Flusher
  simple_stdout protected_stdout async_stdout : Flusher

-- The map `flushers_maker_`, the newest entry first.
abbrev pub Makers : Type 0 → Type 0
Makers A = List (Bytes × A)

module _ {A : Type 0} where
  pub emplace : Bytes → A → Makers A → Makers A
  emplace key a makers = elim (find key makers) [ none ↦ (key, a) ∷ makers | some b ↦ makers ]

  -- rigisterFlushMaker; the key is looked for as it is, and entered in upper case.
  unfoldable pub register_flush_maker : Bytes → A → Makers A → Bool × Makers A
  unfolding emplace
  register_flush_maker key func makers = elim (find key makers) [
    | some a ↦ (false, makers)
    | none ↦ (true, emplace (map to_upper key) func makers)
  ]

  pub register_all : List (Bytes × A) → Makers A → Makers A
  unfolding register_flush_maker
  register_all [] makers = makers
  register_all (e ∷ es) makers = register_all es (register_flush_maker e.0 e.1 makers).1

  -- The maker that getLogFlusher calls.
  unfoldable pub get_maker : Bytes → Makers A → Option A
  get_maker key makers = find (map to_upper key) makers

-- getLogFlusher: no maker is a null pointer; a maker may fail an assertion, which is `none`.
unfoldable pub get_log_flusher :
    Bytes → Bytes → Makers (Bytes → Option Flusher) → Option (Option Flusher)
unfolding get_maker
get_log_flusher key pattern makers = elim (get_maker key makers) [
  | none ↦ some none
  | some func ↦ func pattern >>= λ f. some (some f)
]

module _ (host_name : Bytes) (pid : ℕ) (strftime : Bytes → Bytes) where
  -- The constructor FileFlusher(const String&): the name of its file.
  pub file_name : Bytes → Option Bytes
  unfolding log_file_name_parse log_file_name_generate
  file_name pattern =
      log_file_name_parse host_name pid pattern >>= λ d. some (log_file_name_generate strftime d)

  -- The two kinds of makers.
  pub file_maker : (Bytes → Flusher) → Bytes → Option Flusher
  unfolding file_name
  file_maker kind pattern = file_name pattern >>= λ name. some (kind name)

  pub stdout_maker : Flusher → Bytes → Option Flusher
  stdout_maker kind pattern = some kind

  -- The list that the constructor of _LogFlusherManager registers, in its order.
  pub built_in : List (Bytes × (Bytes → Option Flusher))
  unfolding file_maker stdout_maker
  built_in =
      (codes "SimpleFileFlusher", file_maker simple_file)
      ∷ (codes "ProtectedFileFlusher", file_maker protected_file)
      ∷ (codes "AsyncFileLogFlusher", file_maker async_file)
      ∷ (codes "SimpleStdoutFlusher", stdout_maker simple_stdout)
      ∷ (codes "ProtectedStdoutFlusher", stdout_maker protected_stdout)
      ∷ (codes "AsyncStdoutLogFlusher", stdout_maker async_stdout)
      ∷ []

  -- _LogFlusherManager
  unfoldable pub flusher_makers : Makers (Bytes → Option Flusher)
  unfolding register_all built_in
  flusher_makers = register_all built_in []
