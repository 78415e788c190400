-- ===== src/Scheduler/Remote/Owners.antt =====
-- Who may touch which node of the list of include/coroutine/scheduler.h: each address belongs to
-- nobody, to a position in the list, to a position in the part that was taken, or to the thread
-- that inserts it.
use net_base.Base.{ap, sym, ◌∙◌, arith, ◌≡◌, ◌≢◌, ◌<◌, ℕ, List, [], ◌∷◌, Option, none, some, length}
use net_base.Scheduler.Remote.{
  Node, node, Inserter, outside, loading, linking, swapping, insert_crashed, Walker, away, walking,
  leaving, deleting, walk_crashed, System, Atomic,
}

-- A position is the number of nodes behind it.
pub data Owner : Type 0 where
  nobody : Owner
  listed taken held : ℕ → Owner

-- From `q` on, the nodes hold `tasks`, and each belongs to its position.
abbrev pub Chain :
    (ℕ → Option Node) → (ℕ → Owner) → (ℕ → Owner) → Option ℕ → List (Option ℕ) → Type 0
Chain heap own at none [] = Unit
Chain heap own at (some p) (v ∷ tasks) =
    (own p ≡ at (length tasks))
    × (next : Option ℕ) × (heap p ≡ some (node v next))
    × Chain heap own at next tasks
Chain heap own at _ _ = ⊥

-- Thread `i` holds the node `p`, which has the value `v`.
abbrev pub Holds : (ℕ → Option Node) → (ℕ → Owner) → ℕ → Option ℕ → ℕ → Type 0
Holds heap own i v p = (own p ≡ held i) × (next : Option ℕ) × (heap p ≡ some (node v next))

abbrev pub AtInserter : (ℕ → Option Node) → (ℕ → Owner) → ℕ → Inserter → Type 0
AtInserter heap own i outside = Unit
AtInserter heap own i (loading v p) = Holds heap own i v p
AtInserter heap own i (linking v p old) = Holds heap own i v p
AtInserter heap own i (swapping v p old) = (own p ≡ held i) × (heap p ≡ some (node v old))
AtInserter heap own i insert_crashed = ⊥

abbrev pub AtWalker : (ℕ → Option Node) → (ℕ → Owner) → List (Option ℕ) → Walker → Type 0
AtWalker heap own tasks away = tasks ≡ []
AtWalker heap own tasks (walking q) = Chain heap own taken q tasks
AtWalker heap own tasks (leaving p) =
    (own p ≡ taken (length tasks))
    × (v : Option ℕ) × (next : Option ℕ) × (heap p ≡ some (node v next))
    × Chain heap own taken next tasks
AtWalker heap own tasks (deleting p q) =
    (own p ≡ taken (length tasks)) × Chain heap own taken q tasks
AtWalker heap own tasks walk_crashed = ⊥

-- The system `s`, whose nodes belong to `own`, stands for the atomic list `a`.
pub record Stands (s : System) (own : ℕ → Owner) (a : Atomic) : Type 0 where
  pub list : Chain s.memory.heap own listed s.memory.head a.0.remote_tasks
  pub inserters : (i : ℕ) → AtInserter s.memory.heap own i (s.inserters i)
  pub walker : AtWalker s.memory.heap own a.1 s.walker
  pub fresh : (p : ℕ) → s.memory.heap p ≡ none → own p ≡ nobody

-- `heap'` and `own'` differ from `heap` and `own` at most at `p`.
abbrev pub SameOff : ℕ → (ℕ → Option Node) → (ℕ → Owner) → (ℕ → Option Node) → (ℕ → Owner) → Type 0
SameOff p heap own heap' own' = (a : ℕ) → a ≢ p → (heap' a ≡ heap a) × (own' a ≡ own a)

pub Chain-retag :
    (heap heap' : ℕ → Option Node) (own own' at at' : ℕ → Owner) (q : Option ℕ)
    (tasks : List (Option ℕ))
    → Chain heap own at q tasks
    → ((a n : ℕ) → own a ≡ at n → n < length tasks → (heap' a ≡ heap a) × (own' a ≡ at' n))
    → Chain heap' own' at' q tasks
Chain-retag heap heap' own own' at at' none [] c f = tt
Chain-retag heap heap' own own' at at' none (v ∷ tasks) c f = elim c [ ]
Chain-retag heap heap' own own' at at' (some p) [] c f = elim c [ ]
Chain-retag heap heap' own own' at at' (some p) (v ∷ tasks) (o, next, e, c) f =
    let (same, o') = f p (length tasks) o (omega arith) in
    (
      o',
      next,
      same ∙ e,
      Chain-retag heap heap' own own' at at' next tasks c (λ a n m l. f a n m (omega (arith, l))),
    )

module _ (heap heap' : ℕ → Option Node) (own own' : ℕ → Owner) (i : ℕ)
    (same : (x : ℕ) → own x ≡ held i → (heap' x ≡ heap x) × (own' x ≡ held i)) where
  Holds-same : (v : Option ℕ) (x : ℕ) → Holds heap own i v x → Holds heap' own' i v x
  Holds-same v x (o, next, e) = let (h, w) = same x o in (w, next, h ∙ e)

  pub AtInserter-same : (at : Inserter) → AtInserter heap own i at → AtInserter heap' own' i at
  AtInserter-same outside h = tt
  AtInserter-same (loading v x) h = Holds-same v x h
  AtInserter-same (linking v x old) h = Holds-same v x h
  AtInserter-same (swapping v x old) (o, e) = let (h, w) = same x o in (w, h ∙ e)
  AtInserter-same insert_crashed h = h

module _ (p : ℕ) (heap heap' : ℕ → Option Node) (own own' : ℕ → Owner)
    (off : SameOff p heap own heap' own') where
  off_of : (o : Owner) → own p ≢ o → (a : ℕ) → own a ≡ o → (heap' a ≡ heap a) × (own' a ≡ o)
  off_of o ne a e = let (h, w) = off a (λ same. ne (sym (ap own same) ∙ e)) in (h, w ∙ e)

  pub Chain-off :
      (at : ℕ → Owner) (q : Option ℕ) (tasks : List (Option ℕ))
      → ((n : ℕ) → n < length tasks → own p ≢ at n)
      → Chain heap own at q tasks
      → Chain heap' own' at q tasks
  Chain-off at q tasks ne c =
      Chain-retag heap heap' own own' at at q tasks c (λ a n e l. off_of (at n) (ne n l) a e)

  pub AtInserter-off :
      (i : ℕ) (at : Inserter)
      → own p ≢ held i
      → AtInserter heap own i at
      → AtInserter heap' own' i at
  AtInserter-off i at ne = AtInserter-same heap heap' own own' i (off_of (held i) ne) at

  pub AtWalker-off :
      (tasks : List (Option ℕ)) (at : Walker)
      → ((n : ℕ) → own p ≢ taken n)
      → AtWalker heap own tasks at
      → AtWalker heap' own' tasks at
  AtWalker-off tasks away ne h = h
  AtWalker-off tasks (walking q) ne h = Chain-off taken q tasks (λ n l. ne n) h
  AtWalker-off tasks (leaving x) ne (o, v, next, e, c) =
      let (h, w) = off_of (taken (length tasks)) (ne (length tasks)) x o in
      (w, v, next, h ∙ e, Chain-off taken next tasks (λ n l. ne n) c)
  AtWalker-off tasks (deleting x q) ne (o, c) =
      let (h, w) = off_of (taken (length tasks)) (ne (length tasks)) x o in
      (w, Chain-off taken q tasks (λ n l. ne n) c)
  AtWalker-off tasks walk_crashed ne h = h
