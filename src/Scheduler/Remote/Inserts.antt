-- ===== src/Scheduler/Remote/Inserts.antt =====
-- Each step of insertFront in include/coroutine/scheduler.h, against the list that changes at once.
use net_base.Base.{
  update-same, update-other, update, refl, ==_iff, true, inr, Bool-cases, sym, ◌∙◌, subst, ◌⊎◌, ap,
  inl, arith, ◌≡◌, ◌≢◌, ℕ, ℕ_discrete, List, [], ◌∷◌, Option, none, some, length,
}
use net_base.Scheduler.{is_empty, Scheduler, same_ptr, insert_front}
use net_base.Scheduler.Remote.{
  Node, node, Memory, Inserter, outside, loading, linking, swapping, insert_crashed, Event, pushed,
  is_null, set_next, compare_exchange, insert_step, System, call_insert, after_insert, Atomic,
  atomic_insert, atomic_goes_on,
}
use net_base.Scheduler.Remote.Owners.{
  Owner, nobody, listed, held, Chain, AtInserter, Stands, SameOff, Chain-off, AtInserter-off,
  AtWalker-off,
}
use net_base.Scheduler.Remote.Follows.{Extends-nil, Follows, fresh-off, updates-off}

same_ptr→≡ : (p q : Option ℕ) → same_ptr p q ≡ true → p ≡ q
unfolding same_ptr
same_ptr→≡ none none e = refl
same_ptr→≡ (some p) (some q) e = ap some ((==_iff p q).0 e)
same_ptr→≡ none (some q) e = cc
same_ptr→≡ (some p) none e = cc

abbrev FollowsInsert : ℕ → System → Atomic → Inserter × Memory × List Event → Type 0
FollowsInsert i s a r = Follows a r.2 (after_insert i s r)

module _ (s : System) (own : ℕ → Owner) (sch : Scheduler) (tasks : List (Option ℕ))
    (st : Stands s own (sch, tasks)) where
  abbrev heap : ℕ → Option Node
  heap = s.memory.heap

  inserters-update :
      (i : ℕ) (at : Inserter) (heap' : ℕ → Option Node) (own' : ℕ → Owner)
      → AtInserter heap' own' i at
      → ((j : ℕ) → j ≢ i → AtInserter heap' own' j (s.inserters j))
      → (j : ℕ) → AtInserter heap' own' j (update s.inserters i at j)
  inserters-update i at heap' own' here others j = elim (ℕ_discrete j i) [
    | yes same ↦
        subst (λ x. AtInserter heap' own' x (update s.inserters i at x)) (sym same)
          (subst (AtInserter heap' own' i) (sym (update-same s.inserters i at)) here)
    | no other ↦
        subst (AtInserter heap' own' j) (sym (update-other s.inserters i at j other))
          (others j other)
  ]

  -- Thread `i` goes to `at`, and only the node `p`, which is nobody else's, changes.
  inserters-off :
      (i p : ℕ) (at : Inserter) (heap' : ℕ → Option Node) (own' : ℕ → Owner)
      → SameOff p heap own heap' own'
      → ((j : ℕ) → j ≢ i → own p ≢ held j)
      → AtInserter heap' own' i at
      → (j : ℕ) → AtInserter heap' own' j (update s.inserters i at j)
  inserters-off i p at heap' own' off ne here = inserters-update i at heap' own' here (λ j other.
      AtInserter-off p heap heap' own own' off j (s.inserters j) (ne j other) (st.inserters j))

  -- A step of thread `i` that changes at most its own node `p` and shows nothing.
  quiet_insert :
      (i p : ℕ) (at : Inserter) (heap' : ℕ → Option Node) (own' : ℕ → Owner)
      → SameOff p heap own heap' own'
      → (own p ≡ nobody) ⊎ (own p ≡ held i)
      → (heap' p ≡ none → own' p ≡ nobody)
      → AtInserter heap' own' i at
      → Stands (after_insert i s (at, record s.memory { heap = heap' }, [])) own' (sch, tasks)
  quiet_insert i p at heap' own' off mine gone here = record {
    list =
        Chain-off p heap heap' own own' off listed s.memory.head sch.remote_tasks
          (λ n l e. ground arith) st.list;
    inserters = inserters-off i p at heap' own' off (λ j ne e. ground arith) here;
    walker = AtWalker-off p heap heap' own own' off tasks s.walker (λ n e. ground arith) st.walker;
    fresh = fresh-off p heap heap' own own' off st.fresh gone;
  }

  pub call_insert-Follows :
      (i p : ℕ) (v : Option ℕ) → heap p ≡ none → Follows (sch, tasks) [] (call_insert i v p s)
  unfolding call_insert
  call_insert-Follows i p v free = (
    update own p (held i),
    (sch, tasks),
    Extends-nil (sch, tasks),
    quiet_insert i p (loading v p) (update heap p (some (node v none))) (update own p (held i))
        (updates-off p heap own (some (node v none)) (held i)) (inl (st.fresh p free))
        (λ e. absurd (ground (arith, e, update-same heap p (some (node v none)))))
        (update-same own p (held i), none, update-same heap p (some (node v none))),
  )

  loading-Follows :
      (i : ℕ) (v : Option ℕ) (p : ℕ)
      → AtInserter heap own i (loading v p)
      → FollowsInsert i s (sch, tasks) (linking v p s.memory.head, s.memory, [])
  loading-Follows i v p (o, next, e) = (
    own,
    (sch, tasks),
    Extends-nil (sch, tasks),
    quiet_insert i p (linking v p s.memory.head) heap own (λ a ne. (refl, refl)) (inr o)
        (st.fresh p) (o, next, e),
  )

  set_next-Follows :
      (i : ℕ) (v : Option ℕ) (p : ℕ) (old : Option ℕ)
      → AtInserter heap own i (linking v p old)
      → FollowsInsert i s (sch, tasks) (set_next v p old s.memory)
  unfolding set_next
  set_next-Follows i v p old (o, next, e) =
      rw (e, set_next)
        (
          own,
          (sch, tasks),
          Extends-nil (sch, tasks),
          quiet_insert i p (swapping v p old) (update heap p (some (node v old))) own
              (λ a ne. (update-other heap p (some (node v old)) a ne, refl)) (inr o)
              (λ f. absurd (ground (arith, f, update-same heap p (some (node v old)))))
              (o, update-same heap p (some (node v old))),
        )

  is_null-is_empty :
      (q : Option ℕ) (rest : List (Option ℕ))
      → Chain heap own listed q rest
      → is_null q ≡ is_empty rest
  unfolding is_null is_empty
  is_null-is_empty none [] c = refl
  is_null-is_empty none (v ∷ rest) c = elim c [ ]
  is_null-is_empty (some p) [] c = elim c [ ]
  is_null-is_empty (some p) (v ∷ rest) c = refl

  -- The exchange that succeeds: the node `p` becomes the first of the list.
  swap-Follows :
      (i : ℕ) (v : Option ℕ) (p : ℕ) (old : Option ℕ)
      → AtInserter heap own i (swapping v p old)
      → s.memory.head ≡ old
      → FollowsInsert i s
          (sch, tasks)
          (outside, record s.memory { head = some p }, pushed v (is_null old) ∷ [])
  unfolding insert_front
  swap-Follows i v p old (o, e) here =
      let own' : ℕ → Owner = update own p (listed (length sch.remote_tasks)) in
      let off : SameOff p heap own heap own' =
        λ a ne. (refl, update-other own p (listed (length sch.remote_tasks)) a ne) in
      (
        own',
        ((insert_front v sch).1, tasks),
        λ shown t. atomic_goes_on t (
            atomic_insert v (is_null old) sch tasks
              (ap is_null (sym here) ∙ is_null-is_empty s.memory.head sch.remote_tasks st.list)),
        record {
          list = (
            update-same own p (listed (length sch.remote_tasks)),
            old,
            e,
            subst (λ q. Chain heap own' listed q sch.remote_tasks) here
                (Chain-off p heap heap own own' off listed s.memory.head sch.remote_tasks
                  (λ n l f. ground arith) st.list),
          );
          inserters = inserters-off i p outside heap own' off (λ j ne f. ground arith) tt;
          walker =
              AtWalker-off p heap heap own own' off tasks s.walker (λ n f. ground arith) st.walker;
          fresh = fresh-off p heap heap own own' off st.fresh (λ f. absurd (ground arith));
        },
      )

  compare_exchange-Follows :
      (i : ℕ) (v : Option ℕ) (p : ℕ) (old : Option ℕ)
      → AtInserter heap own i (swapping v p old)
      → FollowsInsert i s (sch, tasks) (compare_exchange v p old s.memory)
  unfolding compare_exchange
  compare_exchange-Follows i v p old (o, e) = elim (Bool-cases (same_ptr s.memory.head old)) [
    | inl same ↦ rw same (swap-Follows i v p old (o, e) (same_ptr→≡ s.memory.head old same))
    | inr differs ↦ rw differs (loading-Follows i v p (o, old, e))
  ]

  pub insert_step-Follows :
      (i : ℕ) (at : Inserter)
      → AtInserter heap own i at
      → FollowsInsert i s (sch, tasks) (insert_step at s.memory)
  unfolding insert_step
  insert_step-Follows i outside h = (
    own,
    (sch, tasks),
    Extends-nil (sch, tasks),
    record {
      list = st.list;
      inserters = inserters-update i outside heap own tt (λ j other. st.inserters j);
      walker = st.walker;
      fresh = st.fresh;
    },
  )
  insert_step-Follows i (loading v p) h = loading-Follows i v p h
  insert_step-Follows i (linking v p old) h = set_next-Follows i v p old h
  insert_step-Follows i (swapping v p old) h = compare_exchange-Follows i v p old h
  insert_step-Follows i insert_crashed h = elim h [ ]
