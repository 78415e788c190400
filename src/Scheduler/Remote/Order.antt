-- ===== src/Scheduler/Remote/Order.antt =====
-- The list of remote tasks of include/coroutine/scheduler.h behaves as one that each call changes
-- at once, and no thread touches a node that is deleted.
use net_base.Base.{refl, subst, ◌≢◌, ℕ, List, []}
use net_base.Scheduler.{new_scheduler}
use net_base.Scheduler.Remote.{
  Event, System, at_start, Step, call, insert, walk, Trace, begins, goes_on, Atomic, AtomicTrace,
  atomic_begins, insert_crashed, walk_crashed,
}
use net_base.Scheduler.Remote.Owners.{Owner, nobody, Stands, AtInserter, AtWalker}
use net_base.Scheduler.Remote.Follows.{Follows}
use net_base.Scheduler.Remote.Inserts.{call_insert-Follows, insert_step-Follows}
use net_base.Scheduler.Remote.Walks.{walk_step-Follows}

Step-Follows :
    (s : System) (own : ℕ → Owner) (a : Atomic) (events : List Event) (t : System)
    → Stands s own a
    → Step s events t
    → Follows a events t
Step-Follows s own (sch, tasks) _ _ st (call i p v o e) =
    call_insert-Follows s own sch tasks st i p v e
Step-Follows s own (sch, tasks) _ _ st (insert i) =
    insert_step-Follows s own sch tasks st i (s.inserters i) (st.inserters i)
Step-Follows s own (sch, tasks) _ _ st walk =
    walk_step-Follows s own sch tasks st s.walker st.walker

-- A trace of the threads is one of the atomic list, in a state that the memory stands for.
pub Trace-Stands :
    (shown : List Event) (s : System)
    → Trace shown s
    → (own : ℕ → Owner) × (a : Atomic) × AtomicTrace shown a × Stands s own a
unfolding at_start new_scheduler
Trace-Stands _ _ begins = (
  (λ p. nobody),
  (new_scheduler, []),
  atomic_begins,
  record { list = tt; inserters = λ i. tt; walker = refl; fresh = λ p e. refl },
)
Trace-Stands _ _ (goes_on {shown} {events} {s} {t} r step) =
    let (own, a, atomic, st) = Trace-Stands shown s r in
    let (own', b, extends, st') = Step-Follows s own a events t st step in
    (own', b, extends shown atomic, st')

-- Whatever the order of the steps of the threads in insertFront and of the scheduler's thread in
-- scheduleAll, and whatever deleted addresses `new` returns again: what they show (tasks added,
-- with insertFront's results, lists taken, calls of addExecutor) is what a scheduler shows whose
-- list of remote tasks each of them changes at once.
pub Trace-AtomicTrace :
    (shown : List Event) (s : System) → Trace shown s → (a : Atomic) × AtomicTrace shown a
Trace-AtomicTrace shown s r = let (own, a, atomic, st) = Trace-Stands shown s r in (a, atomic)

-- Whatever the order of the steps, no thread in insertFront or scheduleAll ever reads or writes
-- at an address that holds no node.
pub Trace-crashed :
    (shown : List Event) (s : System)
    → Trace shown s
    → ((i : ℕ) → s.inserters i ≢ insert_crashed) × (s.walker ≢ walk_crashed)
Trace-crashed shown s r =
    let (own, a, atomic, st) = Trace-Stands shown s r in
    (
      λ i e. subst (AtInserter s.memory.heap own i) e (st.inserters i),
      λ e. subst (AtWalker s.memory.heap own a.1) e st.walker,
    )
