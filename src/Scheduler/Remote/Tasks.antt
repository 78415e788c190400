-- ===== src/Scheduler/Remote/Tasks.antt =====
-- Tasks of other threads in include/coroutine/scheduler.h: each that is inserted reaches
-- addExecutor once; and the list that changes at once is that of the scheduler's model.
use mathlib.Core.List.Perm
use mathlib.Core.List.{perm_append_singleton}
use net_base.Base.{
  ap₂, ◌≡◌, refl, sym, ap, ◌∙◌, subst, List, [], ◌∷◌, ◌++◌, Option, none, ℕ, append-nil,
  append_assoc, Perm, perm_middle, map,
}
use net_base.Scheduler.{
  Scheduler, new_scheduler, insert_front, add_executor, add_each, schedule_all,
}
use net_base.Scheduler.Remote.{
  Node, Event, pushed, took, handed, System, Trace, Atomic, AtomicStep, AtomicTrace, atomic_begins,
  atomic_goes_on, atomic_insert, atomic_take, atomic_add, away,
}
use net_base.Scheduler.Remote.Owners.{Owner, Chain, AtWalker, listed}
use net_base.Scheduler.Remote.Order.{Trace-Stands}
use net_base.Scheduler.Remote.Walks.{add_executor-remote_tasks}

-- The tasks that insertFront has added.
unfoldable pub pushed_of : List Event → List (Option ℕ)
pushed_of [] = []
pushed_of (pushed v b ∷ events) = v ∷ pushed_of events
pushed_of (_ ∷ events) = pushed_of events

-- The tasks with which addExecutor was called.
unfoldable pub handed_of : List Event → List (Option ℕ)
handed_of [] = []
handed_of (handed v ∷ events) = v ∷ handed_of events
handed_of (_ ∷ events) = handed_of events

pushed_of-append : (xs ys : List Event) → pushed_of (xs ++ ys) ≡ pushed_of xs ++ pushed_of ys
unfolding pushed_of
pushed_of-append [] ys = refl
pushed_of-append (pushed v b ∷ xs) ys = ap (λ l. v ∷ l) (pushed_of-append xs ys)
pushed_of-append (took ∷ xs) ys = pushed_of-append xs ys
pushed_of-append (handed v ∷ xs) ys = pushed_of-append xs ys

handed_of-append : (xs ys : List Event) → handed_of (xs ++ ys) ≡ handed_of xs ++ handed_of ys
unfolding handed_of
handed_of-append [] ys = refl
handed_of-append (handed v ∷ xs) ys = ap (λ l. v ∷ l) (handed_of-append xs ys)
handed_of-append (took ∷ xs) ys = handed_of-append xs ys
handed_of-append (pushed v b ∷ xs) ys = handed_of-append xs ys

-- What was added was handed over, is taken, or is in the list.
abbrev Keeps : List Event → Atomic → Type 0
Keeps shown a = Perm (pushed_of shown) (handed_of shown ++ (a.1 ++ a.0.remote_tasks))

insert_perm :
    (v : Option ℕ) (added gone taken tasks : List (Option ℕ))
    → Perm added (gone ++ (taken ++ tasks))
    → Perm (added ++ v ∷ []) (gone ++ (taken ++ v ∷ tasks))
insert_perm v added gone taken tasks p = Perm.trans (perm_append_singleton v added) (
    Perm.trans (Perm.cons v p) (
      subst (λ l. Perm (v ∷ (gone ++ (taken ++ tasks))) l) (append_assoc gone taken (v ∷ tasks))
        (subst (λ l. Perm (v ∷ l) ((gone ++ taken) ++ v ∷ tasks)) (append_assoc gone taken tasks)
          (Perm.symm (perm_middle (gone ++ taken) tasks)))))

AtomicStep-Keeps :
    (shown : List Event) (e : Event) (a b : Atomic)
    → Keeps shown a
    → AtomicStep a e b
    → Keeps (shown ++ e ∷ []) b
unfolding pushed_of handed_of insert_front
AtomicStep-Keeps shown _ _ _ k (atomic_insert v b s taken r) =
    rw (pushed_of-append, handed_of-append, append-nil)
      (insert_perm v (pushed_of shown) (handed_of shown) taken s.remote_tasks k)
AtomicStep-Keeps shown _ _ _ k (atomic_take s) =
    rw
      (
        pushed_of-append,
        handed_of-append,
        append-nil (pushed_of shown),
        append-nil s.remote_tasks,
        append-nil (handed_of shown),
      )
      k
AtomicStep-Keeps shown _ _ _ k (atomic_add v s taken) =
    rw (pushed_of-append, handed_of-append, append-nil, append_assoc, add_executor-remote_tasks) k

AtomicTrace-Keeps : (shown : List Event) (a : Atomic) → AtomicTrace shown a → Keeps shown a
unfolding pushed_of handed_of new_scheduler
AtomicTrace-Keeps _ _ atomic_begins = Perm.refl []
AtomicTrace-Keeps _ _ (atomic_goes_on {shown} {e} {a} {b} r step) =
    AtomicStep-Keeps shown e a b (AtomicTrace-Keeps shown a r) step

no_tasks :
    (heap : ℕ → Option Node) (own : ℕ → Owner) (tasks : List (Option ℕ))
    → Chain heap own listed none tasks
    → tasks ≡ []
no_tasks heap own [] c = refl
no_tasks heap own (v ∷ tasks) c = elim c [ ]

-- Whenever scheduleAll does not run and the list is empty, the tasks that were given to
-- addExecutor are those that insertFront has added, each as often.
pub pushed_of-handed_of :
    (shown : List Event) (s : System)
    → Trace shown s
    → s.walker ≡ away
    → s.memory.head ≡ none
    → Perm (pushed_of shown) (handed_of shown)
pushed_of-handed_of shown s r rest nothing =
    let (own, (sch, tasks), atomic, st) = Trace-Stands shown s r in
    let e : tasks ≡ [] = subst (AtWalker s.memory.heap own tasks) rest st.walker in
    let f : sch.remote_tasks ≡ [] =
      no_tasks s.memory.heap own sch.remote_tasks
        (subst (λ q. Chain s.memory.heap own listed q sch.remote_tasks) nothing st.list) in
    subst (Perm (pushed_of shown))
      (ap₂ (λ x y. handed_of shown ++ (x ++ y)) e f ∙ append-nil (handed_of shown))
      (AtomicTrace-Keeps shown (sch, tasks) atomic)

-- If nothing is taken, the calls of addExecutor for all that is taken at once end in `schedule_all`.
adds_each :
    (shown : List Event) (s : Scheduler) (tasks : List (Option ℕ))
    → AtomicTrace shown (s, tasks)
    → AtomicTrace (shown ++ map handed tasks) (add_each tasks s, [])
unfolding add_each
adds_each shown s [] r = subst (λ l. AtomicTrace l (s, [])) (sym (append-nil shown)) r
adds_each shown s (v ∷ tasks) r =
    subst (λ l. AtomicTrace l (add_each tasks (add_executor v s).1, []))
      (append_assoc shown (handed v ∷ []) (map handed tasks))
      (adds_each (shown ++ handed v ∷ []) (add_executor v s).1 tasks
        (atomic_goes_on r (atomic_add v s tasks)))

-- If nothing is taken, scheduleAll in one step is the taking of the list and a call of addExecutor for each
-- of its tasks.
pub schedule_all-AtomicTrace :
    (shown : List Event) (s : Scheduler)
    → AtomicTrace shown (s, [])
    → AtomicTrace (shown ++ took ∷ map handed s.remote_tasks) (schedule_all s, [])
unfolding schedule_all
schedule_all-AtomicTrace shown s r =
    subst (λ l. AtomicTrace l (schedule_all s, []))
      (append_assoc shown (took ∷ []) (map handed s.remote_tasks))
      (adds_each (shown ++ took ∷ []) (record s { remote_tasks = [] }) s.remote_tasks
        (atomic_goes_on r (atomic_take s)))
