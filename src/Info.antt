-- ===== src/Info.antt =====
-- include/base/info.h and src/base/info.cpp: the host's name, the cached id and the name of a
-- thread, the clock in milliseconds, and the text of a backtrace. The system calls and
-- abi::__cxa_demangle are parameters; an exception is a case of `Name`.
mod Host
mod Frames
mod Tests
use net_base.Base.{
  ℕ, zero, suc, ◌+◌, ◌*◌, ◌/◌, ◌-◌, ◌%◌, Bool, true, false, List, [], ◌∷◌, ◌++◌, Option, none, some,
  Bytes, ◌==◌, if◌then◌else◌, ltb, take, drop, word64, word32, codes,
}

-- A name, or ExecFailed.
pub data Name : Type 0 where
  named : Bytes → Name
  exec_failed : Name

module _ {W : Type 0} (gethostname : W → Option Bytes × W) where
  host_answer : (W → Name × W) → Option Bytes × W → Name × W
  host_answer retry (some name, w) = (named name, w)
  host_answer retry (none, w) = retry w

  -- The loop of getHostWithoutBuffer, with the tries that are left.
  pub host_loop : ℕ → W → Name × W
  unfolding host_answer
  host_loop zero w = (exec_failed, w)
  host_loop (suc tries) w = host_answer (host_loop tries) (gethostname w)

  pub get_host_without_buffer : W → Name × W
  unfolding host_loop
  get_host_without_buffer w = host_loop 5 w

  keep_name : Name × W → Name × Option Bytes × W
  keep_name (named name, w) = (named name, some name, w)
  keep_name (exec_failed, w) = (exec_failed, none, w)

  -- getHostName: the static variable is initialized by the first call that does not throw.
  pub get_host_name : Option Bytes → W → Name × Option Bytes × W
  unfolding get_host_without_buffer keep_name
  get_host_name (some name) w = (named name, some name, w)
  get_host_name none w = keep_name (get_host_without_buffer w)

-- What a thread keeps: G_ThreadId and G_ThreadName; `system_name` is what the system was told.
pub record ThreadInfo : Type 0 where
  pub thread_id : ℕ
  pub thread_name : Bytes
  pub system_name : Bytes

-- getThreadId; `raw` is what gettid returns.
pub get_thread_id : ℕ → ThreadInfo → ℕ × ThreadInfo
get_thread_id raw t =
    let id = if t.thread_id == 0 then raw % word32 else t.thread_id in
    (id, record t { thread_id = id })

pub get_thread_name : ThreadInfo → Bytes
get_thread_name t = t.thread_name

-- setThreadName
pub set_thread_name : Bytes → ThreadInfo → ThreadInfo
set_thread_name name t = record t { thread_name = name; system_name = take 15 name }

-- currentMs, in size_t
pub current_ms : ℕ → ℕ → ℕ
current_ms tv_sec tv_usec = (tv_sec * 1000 + tv_usec / 1000) % word64

-- What the loop over a symbol has seen, behind the byte `c` at position `i`.
pub note : ℕ → ℕ → Option ℕ × Option ℕ → Option ℕ × Option ℕ
note i c (left_par, plus) =
    if c == b'(' then (some i, plus) else if c == b'+' then (left_par, some i) else (left_par, plus)

-- The last '(' and the last '+' of a symbol, from position `i` on.
pub scan : ℕ → Option ℕ × Option ℕ → Bytes → Option ℕ × Option ℕ
unfolding note
scan i seen [] = seen
scan i seen (c ∷ s) = scan (suc i) (note i c seen) s

-- What __cxa_demangle is given: the text behind '(', which ends where '+' stood.
pub mangled : ℕ → ℕ → Bytes → Bytes
mangled left_par plus s =
    let name = drop (suc left_par) s in
    if ltb left_par plus then take (plus - suc left_par) name else name

pub raw_line : Bytes → Bytes
raw_line s = s ++ b'\n' ∷ []

demangled_line : ℕ → ℕ → Bytes → Option Bytes → Bytes
unfolding raw_line
demangled_line left_par plus s none = raw_line s
demangled_line left_par plus s (some name) =
    take (suc left_par) s ++ (name ++ (drop plus s ++ b'\n' ∷ []))

module _ (demangle : Bytes → Option Bytes) where
  pub line_at : Bytes → Option ℕ × Option ℕ → Bytes
  unfolding demangled_line mangled raw_line
  line_at s (some left_par, some plus) =
      demangled_line left_par plus s (demangle (mangled left_par plus s))
  line_at s _ = raw_line s

  -- The body of the loop of backtraceString.
  pub frame_line : Bytes → Bytes
  unfolding line_at scan
  frame_line s = line_at s (scan 0 (none, none) s)

  pub frame_lines : List Bytes → Bytes
  unfolding frame_line
  frame_lines [] = []
  frame_lines (s ∷ symbols) = frame_line s ++ frame_lines symbols

  -- backtraceString; `none` if backtrace_symbols returns null.
  pub backtrace_string : ℕ → Option (List Bytes) → Bytes
  unfolding frame_lines
  backtrace_string skip none = []
  backtrace_string skip (some strings) = frame_lines (drop skip strings)

-- backtraceStacks
pub backtrace_stacks : List Bytes → ℕ → Option (List Bytes) → Bool × List Bytes
backtrace_stacks stacks skip none = (false, stacks)
backtrace_stacks stacks skip (some strings) = (true, stacks ++ drop skip strings)
