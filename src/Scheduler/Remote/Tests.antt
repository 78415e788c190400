-- ===== src/Scheduler/Remote/Tests.antt =====
-- Two threads that insert at the same time, the first of which has to try again, and the thread
-- that takes both tasks.
use net_base.Base.{◌≢◌, refl, ℕ, true, false, List, [], ◌∷◌, ◌++◌, Option, some, Perm}
use net_base.Scheduler.{same_ptr}
use net_base.Scheduler.Remote.{
  Event, pushed, took, handed, is_null, set_next, compare_exchange, insert_step, walk_step, System,
  insert_crashed, walk_crashed, at_start, call_insert, after_insert, after_walk, call, insert, walk,
  Trace, begins, goes_on, Atomic, AtomicTrace,
}
use net_base.Scheduler.Remote.Order.{Trace-AtomicTrace, Trace-crashed}
use net_base.Scheduler.Remote.Tasks.{pushed_of, handed_of, pushed_of-handed_of}

abbrev ins : ℕ → System → System
ins i s = after_insert i s (insert_step (s.inserters i) s.memory)

abbrev wlk : System → System
wlk s = after_walk s (walk_step s.walker s.memory)

-- Both threads have read that the list is empty.
abbrev both_loaded : System
both_loaded = ins 1 (ins 0 (ins 0 (call_insert 1 (some 2) 11 (call_insert 0 (some 1) 10 at_start))))

abbrev both_inserted : System
both_inserted = ins 0 (ins 0 (ins 0 (ins 1 (ins 1 both_loaded))))

abbrev all_taken : System
all_taken = wlk (wlk (wlk (wlk (wlk (wlk (wlk (wlk both_inserted)))))))

abbrev shown_inserts : List Event
shown_inserts = pushed (some 2) true ∷ pushed (some 1) false ∷ []

abbrev shown_all : List Event
shown_all = shown_inserts ++ took ∷ handed (some 1) ∷ handed (some 2) ∷ []

inserts : Trace shown_inserts both_inserted
unfolding at_start call_insert insert_step set_next compare_exchange is_null same_ptr
inserts =
    goes_on
      (goes_on
        (goes_on
          (goes_on
            (goes_on
              (goes_on
                (goes_on
                  (goes_on
                    (goes_on (goes_on begins (call 0 10 (some 1) refl refl))
                      (call 1 11 (some 2) refl refl))
                    (insert 0))
                  (insert 0))
                (insert 1))
              (insert 1))
            (insert 1))
          (insert 0))
        (insert 0))
      (insert 0)

takes : Trace shown_all all_taken
unfolding at_start call_insert insert_step set_next compare_exchange is_null same_ptr walk_step
takes =
    goes_on
      (goes_on
        (goes_on (goes_on (goes_on (goes_on (goes_on (goes_on inserts walk) walk) walk) walk) walk)
          walk)
        walk)
      walk

Trace-AtomicTrace_example : (a : Atomic) × AtomicTrace shown_all a
Trace-AtomicTrace_example = Trace-AtomicTrace shown_all all_taken takes

Trace-crashed_example :
    ((i : ℕ) → all_taken.inserters i ≢ insert_crashed) × (all_taken.walker ≢ walk_crashed)
Trace-crashed_example = Trace-crashed shown_all all_taken takes

pushed_of-handed_of_example : Perm {A = Option ℕ} (some 2 ∷ some 1 ∷ []) (some 1 ∷ some 2 ∷ [])
unfolding at_start call_insert insert_step set_next compare_exchange is_null same_ptr walk_step
    pushed_of handed_of
pushed_of-handed_of_example = pushed_of-handed_of shown_all all_taken takes refl refl
