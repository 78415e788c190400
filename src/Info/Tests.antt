-- ===== src/Info/Tests.antt =====
-- A host whose name is told at the third try, and a line of a backtrace.
use net_base.Base.{
  ℕ, ◌+◌, ◌≡◌, ◌⊎◌, refl, arith, Option, none, some, Bytes, codes, ltb, if◌then◌else◌,
}
use net_base.Info.{
  named, host_loop, host_answer, get_host_without_buffer, get_host_name, keep_name, ThreadInfo,
  get_thread_id, set_thread_name, frame_line, raw_line,
}
use net_base.Info.Host.{Outcome, get_host_without_buffer-Outcome, get_host_name-again}
use net_base.Info.Frames.{IsPlain, symbol, frame_line-symbol}

-- The world counts the calls.
abbrev third_time : ℕ → Option Bytes × ℕ
third_time w = (if ltb w 2 then none else some (codes "host"), w + 1)

get_host_without_buffer-Outcome_run : Outcome third_time 5 0 (get_host_without_buffer third_time 0)
get_host_without_buffer-Outcome_run = get_host_without_buffer-Outcome third_time 0

third_time_run : get_host_without_buffer third_time 0 ≡ (named (codes "host"), 3)
unfolding get_host_without_buffer host_loop host_answer
third_time_run = refl

again_run :
    get_host_name third_time (get_host_name third_time none 0).1 9
    ≡ (named (codes "host"), some (codes "host"), 9)
unfolding get_host_name get_host_without_buffer host_loop host_answer keep_name
again_run = get_host_name-again third_time 0 9 none (codes "host") refl

abbrev unset_thread : ThreadInfo
unset_thread = record { thread_id = 0; thread_name = codes "UnSet"; system_name = codes "main" }

-- The id is asked for once.
cached_run : (get_thread_id 8 (get_thread_id 7 unset_thread).1).0 ≡ 7
unfolding get_thread_id
cached_run = refl

named_run :
    (set_thread_name (codes "a name of 20 letters") unset_thread).system_name
    ≡ codes "a name of 20 le"
unfolding set_thread_name
named_run = refl

abbrev main_symbol : Bytes → Bytes
main_symbol name = symbol (codes "./app+x") name (codes "0x1b) [0x55]")

abbrev demangle_f : Bytes → Option Bytes
demangle_f name = some (codes "f(int)")

name_IsPlain : IsPlain (codes "_Z1fi")
name_IsPlain = ground arith

rest_IsPlain : IsPlain (codes "0x1b) [0x55]")
rest_IsPlain = ground arith

frame_line-symbol_example :
    ((found : Bytes) × (demangle_f (codes "_Z1fi") ≡ some found)
      × (frame_line demangle_f (main_symbol (codes "_Z1fi")) ≡ raw_line (main_symbol found)))
    ⊎ ((demangle_f (codes "_Z1fi") ≡ none)
        × (frame_line demangle_f (main_symbol (codes "_Z1fi"))
            ≡ raw_line (main_symbol (codes "_Z1fi"))))
frame_line-symbol_example =
    frame_line-symbol demangle_f (codes "./app+x") (codes "_Z1fi") (codes "0x1b) [0x55]")
      name_IsPlain rest_IsPlain
