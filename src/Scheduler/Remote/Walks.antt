-- ===== src/Scheduler/Remote/Walks.antt =====
-- Each step of scheduleAll in include/coroutine/scheduler.h, against the list that changes at once.
use net_base.Base.{
  update-same, update, ◌<◌, refl, sym, ◌∙◌, subst, ap, arith, ◌≡◌, ◌≢◌, ℕ, List, [], ◌∷◌, Option,
  none, some, length,
}
use net_base.Scheduler.{Scheduler, add_executor}
use net_base.Scheduler.Remote.{
  Node, Memory, Walker, away, walking, leaving, deleting, walk_crashed, Event, took, walk_step,
  System, after_walk, Atomic, AtomicTrace, atomic_take, atomic_add, atomic_goes_on,
}
use net_base.Scheduler.Remote.Owners.{
  Owner, nobody, listed, taken, Chain, AtWalker, Stands, SameOff, Chain-retag, AtInserter-same,
  Chain-off, AtInserter-off,
}
use net_base.Scheduler.Remote.Follows.{Extends-nil, Follows, fresh-off, updates-off}

pub add_executor-remote_tasks :
    (v : Option ℕ) (sch : Scheduler) → (add_executor v sch).1.remote_tasks ≡ sch.remote_tasks
unfolding add_executor
add_executor-remote_tasks v sch = ground arith

retag : Owner → Owner
retag (listed n) = taken n
retag o = o

abbrev FollowsWalk : System → Atomic → Walker × Memory × List Event → Type 0
FollowsWalk s a r = Follows a r.2 (after_walk s r)

module _ (s : System) (own : ℕ → Owner) (sch : Scheduler) (tasks : List (Option ℕ))
    (st : Stands s own (sch, tasks)) where
  abbrev heap : ℕ → Option Node
  heap = s.memory.heap

  -- scheduleAll takes the list: what was listed is taken.
  exchange-Follows :
      tasks ≡ []
      → FollowsWalk s
          (sch, tasks)
          (walking s.memory.head, record s.memory { head = none }, took ∷ [])
  unfolding retag
  exchange-Follows rest = (
    (λ a. retag (own a)),
    (record sch { remote_tasks = [] }, sch.remote_tasks),
    λ shown t. atomic_goes_on (subst (λ ts. AtomicTrace shown (sch, ts)) rest t) (atomic_take sch),
    record {
      list = tt;
      inserters = λ j.
          AtInserter-same heap heap own (λ a. retag (own a)) j (λ x o. (refl, ap retag o))
            (s.inserters j) (st.inserters j);
      walker =
          Chain-retag heap heap own (λ a. retag (own a)) listed taken s.memory.head sch.remote_tasks
            st.list (λ a n o l. (refl, ap retag o));
      fresh = λ p e. ap retag (st.fresh p e);
    },
  )

  -- The walker goes to `at`, and nothing else changes.
  quiet_walk :
      (at : Walker) (sch' : Scheduler) (tasks' : List (Option ℕ))
      → sch'.remote_tasks ≡ sch.remote_tasks
      → AtWalker heap own tasks' at
      → Stands (record s { walker = at }) own (sch', tasks')
  quiet_walk at sch' tasks' same here = record {
    list = subst (Chain heap own listed s.memory.head) (sym same) st.list;
    inserters = st.inserters;
    walker = here;
    fresh = st.fresh;
  }

  -- The test of the loop and the call of addExecutor, at the first of the tasks taken.
  walking-Follows :
      (q : Option ℕ) (ts : List (Option ℕ))
      → tasks ≡ ts
      → Chain heap own taken q ts
      → FollowsWalk s (sch, tasks) (walk_step (walking q) s.memory)
  unfolding walk_step
  walking-Follows none [] same c =
      (own, (sch, tasks), Extends-nil (sch, tasks), quiet_walk away sch tasks refl same)
  walking-Follows none (v ∷ ts) same c = elim c [ ]
  walking-Follows (some p) [] same c = elim c [ ]
  walking-Follows (some p) (v ∷ ts) same (o, next, e, c) =
      rw (e, walk_step)
        (
          own,
          ((add_executor v sch).1, ts),
          (λ shown t.
              atomic_goes_on (subst (λ l. AtomicTrace shown (sch, l)) same t)
                (atomic_add v sch ts)),
          quiet_walk (leaving p) (add_executor v sch).1 ts (add_executor-remote_tasks v sch)
              (o, v, next, e, c),
        )

  leaving-Follows :
      (p : ℕ)
      → AtWalker heap own tasks (leaving p)
      → FollowsWalk s (sch, tasks) (walk_step (leaving p) s.memory)
  unfolding walk_step
  leaving-Follows p (o, v, next, e, c) =
      rw (e, walk_step)
        (
          own,
          (sch, tasks),
          Extends-nil (sch, tasks),
          quiet_walk (deleting p next) sch tasks refl (o, c),
        )

  taken-ne : (m n : ℕ) → n < m → taken m ≢ taken n
  taken-ne m n l e = ground arith

  deleting-Follows :
      (p : ℕ) (q : Option ℕ)
      → AtWalker heap own tasks (deleting p q)
      → FollowsWalk s (sch, tasks) (walk_step (deleting p q) s.memory)
  unfolding walk_step
  deleting-Follows p q (o, c) =
      let heap' : ℕ → Option Node = update heap p none in
      let own' : ℕ → Owner = update own p nobody in
      let off : SameOff p heap own heap' own' = updates-off p heap own none nobody in
      (
        own',
        (sch, tasks),
        Extends-nil (sch, tasks),
        record {
          list =
              Chain-off p heap heap' own own' off listed s.memory.head sch.remote_tasks
                (λ n l e. ground arith) st.list;
          inserters = λ j.
              AtInserter-off p heap heap' own own' off j (s.inserters j) (λ e. ground arith)
                (st.inserters j);
          walker =
              Chain-off p heap heap' own own' off taken q tasks
                (λ n l e. taken-ne (length tasks) n l (sym o ∙ e)) c;
          fresh = fresh-off p heap heap' own own' off st.fresh (λ e. update-same own p nobody);
        },
      )

  pub walk_step-Follows :
      (at : Walker)
      → AtWalker heap own tasks at
      → FollowsWalk s (sch, tasks) (walk_step at s.memory)
  unfolding walk_step
  walk_step-Follows away h = exchange-Follows h
  walk_step-Follows (walking q) h = walking-Follows q tasks refl h
  walk_step-Follows (leaving p) h = leaving-Follows p h
  walk_step-Follows (deleting p q) h = deleting-Follows p q h
  walk_step-Follows walk_crashed h = elim h [ ]
