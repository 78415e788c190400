-- ===== src/Scheduler/Remote.antt =====
-- include/coroutine/scheduler.h: RemoteTaskList, as steps that the threads that call insertFront
-- and the thread that calls scheduleAll take in any order. Each access of `head` or of a node is
-- one step; memory is sequentially consistent. `new` returns any address that holds no node, one
-- that was deleted before too. An access to an address that holds no node is a crash.
pub mod Owners
pub mod Follows
pub mod Inserts
pub mod Walks
mod Order
mod Tasks
mod Tests
use net_base.Base.{
  update, ℕ, ◌≡◌, Bool, List, [], ◌∷◌, ◌++◌, Option, none, some, ◌==◌, if◌then◌else◌, true, false,
}
use net_base.Scheduler.{Scheduler, new_scheduler, same_ptr, insert_front, add_executor}

pub record Node : Type 0 where
  pub value : Option ℕ
  pub next : Option ℕ

abbrev pub node : Option ℕ → Option ℕ → Node
node v q = record { value = v; next = q }

pub record Memory : Type 0 where
  pub heap : ℕ → Option Node
  pub head : Option ℕ

-- Where a thread is in insertFront, with `executor`, `new_node` and `old_head`: not in it, before
-- the load of `head`, before the store to `next`, or before the exchange.
pub data Inserter : Type 0 where
  outside : Inserter
  loading : (executor : Option ℕ) (new_node : ℕ) → Inserter
  linking swapping : (executor : Option ℕ) (new_node : ℕ) (old_head : Option ℕ) → Inserter
  insert_crashed : Inserter

-- Where the scheduler's thread is in scheduleAll, with `_head` and `temp`: not in it, at the test
-- of the loop, behind addExecutor, before `delete`.
pub data Walker : Type 0 where
  away : Walker
  walking : (at : Option ℕ) → Walker
  leaving : (at : ℕ) → Walker
  deleting : (temp : ℕ) (at : Option ℕ) → Walker
  walk_crashed : Walker

-- What a client sees: insertFront has added a task and returns; scheduleAll has emptied the list;
-- it calls addExecutor.
pub data Event : Type 0 where
  pushed : (executor : Option ℕ) (was_empty : Bool) → Event
  took : Event
  handed : (executor : Option ℕ) → Event

pub is_null : Option ℕ → Bool
is_null none = true
is_null (some p) = false

-- new_node->next = old_head
pub set_next : Option ℕ → ℕ → Option ℕ → Memory → Inserter × Memory × List Event
set_next v p old m = elim (m.heap p) [
  | none ↦ (insert_crashed, m, [])
  | some n ↦
      (swapping v p old, record m { heap = update m.heap p (some (record n { next = old })) }, [])
]

-- head.compare_exchange_strong(old_head, new_node), the test of the loop
pub compare_exchange : Option ℕ → ℕ → Option ℕ → Memory → Inserter × Memory × List Event
unfolding is_null
compare_exchange v p old m =
    if same_ptr m.head old
    then (outside, record m { head = some p }, pushed v (is_null old) ∷ [])
    else (linking v p m.head, m, [])

-- RemoteTaskList::insertFront, behind `new`
pub insert_step : Inserter → Memory → Inserter × Memory × List Event
unfolding set_next compare_exchange
insert_step outside m = (outside, m, [])
insert_step (loading v p) m = (linking v p m.head, m, [])
insert_step (linking v p old) m = set_next v p old m
insert_step (swapping v p old) m = compare_exchange v p old m
insert_step insert_crashed m = (insert_crashed, m, [])

-- RemoteTaskList::scheduleAll
pub walk_step : Walker → Memory → Walker × Memory × List Event
walk_step away m = (walking m.head, record m { head = none }, took ∷ [])
walk_step (walking none) m = (away, m, [])
walk_step (walking (some p)) m = elim (m.heap p) [
  | none ↦ (walk_crashed, m, [])
  | some n ↦ (leaving p, m, handed n.value ∷ [])
]
walk_step (leaving p) m = elim (m.heap p) [
  | none ↦ (walk_crashed, m, [])
  | some n ↦ (deleting p n.next, m, [])
]
walk_step (deleting p q) m = (walking q, record m { heap = update m.heap p none }, [])
walk_step walk_crashed m = (walk_crashed, m, [])

-- Thread `i` is at `inserters i`.
pub record System : Type 0 where
  pub memory : Memory
  pub inserters : ℕ → Inserter
  pub walker : Walker

pub at_start : System
at_start = record {
  memory = record { heap = λ p. none; head = none };
  inserters = λ i. outside;
  walker = away;
}

-- Thread `i` calls insertFront; `p` is what `new` returns.
pub call_insert : ℕ → Option ℕ → ℕ → System → System
call_insert i v p s = record s {
  memory = record s.memory { heap = update s.memory.heap p (some (node v none)) };
  inserters = update s.inserters i (loading v p);
}

abbrev pub after_insert : ℕ → System → Inserter × Memory × List Event → System
after_insert i s (at, m, events) = record s { memory = m; inserters = update s.inserters i at }

abbrev pub after_walk : System → Walker × Memory × List Event → System
after_walk s (at, m, events) = record s { memory = m; walker = at }

pub data Step (s : System) : List Event → System → Type 0 where
  call :
      (i p : ℕ) (v : Option ℕ)
      → s.inserters i ≡ outside
      → s.memory.heap p ≡ none
      → Step s [] (call_insert i v p s)
  insert :
      (i : ℕ)
      → Step s
          (insert_step (s.inserters i) s.memory).2
          (after_insert i s (insert_step (s.inserters i) s.memory))
  walk : Step s (walk_step s.walker s.memory).2 (after_walk s (walk_step s.walker s.memory))

-- What a run shows, the oldest event first.
pub data Trace : List Event → System → Type 0 where
  begins : Trace [] at_start
  goes_on :
      {shown events : List Event} {s t : System}
      → Trace shown s
      → Step s events t
      → Trace (shown ++ events) t

-- The list as one that each call changes in one step: the scheduler whose remote_tasks it is, and
-- the tasks that scheduleAll has taken and not yet added.
abbrev pub Atomic : Type 0
Atomic = Scheduler × List (Option ℕ)

pub data AtomicStep : Atomic → Event → Atomic → Type 0 where
  atomic_insert :
      (v : Option ℕ) (b : Bool) (s : Scheduler) (taken : List (Option ℕ))
      → b ≡ (insert_front v s).0
      → AtomicStep (s, taken) (pushed v b) ((insert_front v s).1, taken)
  atomic_take :
      (s : Scheduler) → AtomicStep (s, []) took (record s { remote_tasks = [] }, s.remote_tasks)
  atomic_add :
      (v : Option ℕ) (s : Scheduler) (taken : List (Option ℕ))
      → AtomicStep (s, v ∷ taken) (handed v) ((add_executor v s).1, taken)

-- A scheduler that is new runs through the events in one step each.
pub data AtomicTrace : List Event → Atomic → Type 0 where
  atomic_begins : AtomicTrace [] (new_scheduler, [])
  atomic_goes_on :
      {shown : List Event} {e : Event} {a b : Atomic}
      → AtomicTrace shown a
      → AtomicStep a e b
      → AtomicTrace (shown ++ e ∷ []) b
