-- ===== src/FdManager/Contexts.antt =====
-- Storing, reading and deleting the contexts of include/io/fd_manager.h.
use net_base.Base.{
  ◌>>=◌, ap, true, sym, ℕ, ◌*◌, ◌/◌, ◌≤◌, ◌<◌, ◌≡◌, ◌≢◌, ◌⊎◌, inl, inr, refl, ◌∙◌, Option, none,
  some, length, get_elem?, set, grow, ltb, pos, arith, length-grow, get_elem?-grow, get_elem?-some,
  length-set, get_elem?-set_self, get_elem?-set_ne, Bool-cases, ltb→lt, not-ltb→le, lt→ltb,
  le→not-ltb,
}
use net_base.FdManager.{
  is_set, has_fd, FdContext, Contexts, store, resize_for, set_context, get_context, del_context,
}

resize_for-enough :
    (fd : ℕ) (contexts : Contexts)
    → (fd < length contexts) ⊎ (2 ≤ fd)
    → fd < length (resize_for fd contexts)
unfolding resize_for
resize_for-enough fd contexts h = elim (Bool-cases (ltb fd (length contexts))) [
  | inl lt ↦ rw lt (ltb→lt _ _ lt)
  | inr ge ↦
      let ge' = not-ltb→le fd (length contexts) ge in
      rw ge (omega (arith, h, ge', length-grow (fd * 3 / 2) none contexts))
]

get_elem?-resize_for :
    (fd i : ℕ) (contexts : Contexts)
    → i < length contexts
    → get_elem? (resize_for fd contexts) i ≡ get_elem? contexts i
unfolding resize_for
get_elem?-resize_for fd i contexts h = elim (Bool-cases (ltb fd (length contexts))) [
  | inl lt ↦ rw lt
  | inr ge ↦ rw ge (get_elem?-grow (fd * 3 / 2) none contexts i h)
]

store-some :
    (fd : ℕ) (c : Option FdContext) (contexts : Contexts)
    → fd < length contexts
    → store fd c contexts ≡ some (set contexts fd c)
unfolding store
store-some fd c contexts h = rw (lt→ltb _ _ h)

get_context-set :
    (fd : ℕ) (c : Option FdContext) (contexts : Contexts)
    → fd < length contexts
    → get_context (pos fd) (set contexts fd c) ≡ some c
unfolding get_context
get_context-set fd c contexts h =
    rw (lt→ltb fd (length (set contexts fd c)) (omega (arith, length-set contexts fd c)))
      (get_elem?-set_self contexts fd c h)

-- For a descriptor from 2 on, or one that has a place in the vector, setContext succeeds,
-- getContext then finds the context, and every other entry that was there stays.
pub get_context-set_context :
    (fd : ℕ) (context : FdContext) (contexts : Contexts)
    → (fd < length contexts) ⊎ (2 ≤ fd)
    → (after : Contexts) × (set_context fd context contexts ≡ some after)
      × (get_context (pos fd) after ≡ some (some context))
      × ((i : ℕ) → i ≢ fd → i < length contexts → get_elem? after i ≡ get_elem? contexts i)
unfolding set_context
get_context-set_context fd context contexts h =
    let room = resize_for-enough fd contexts h in
    (
      set (resize_for fd contexts) fd (some context),
      store-some fd (some context) (resize_for fd contexts) room,
      get_context-set fd (some context) (resize_for fd contexts) room,
      λ i ne l.
          get_elem?-set_ne (resize_for fd contexts) (some context) (λ e. ne (sym e))
          ∙ get_elem?-resize_for fd i contexts l,
    )

-- For descriptor 0 or 1 without a place in the vector, setContext writes outside the vector.
pub set_context_outside :
    (fd : ℕ) (context : FdContext) (contexts : Contexts)
    → fd < 2
    → length contexts ≤ fd
    → set_context fd context contexts ≡ none
unfolding set_context store resize_for
set_context_outside fd context contexts h l = rw (
  le→not-ltb fd (length contexts) l,
  le→not-ltb fd (length (grow (fd * 3 / 2) none contexts))
      (omega (arith, length-grow (fd * 3 / 2) none contexts)),
)

abbrev Deleted : ℕ → Contexts → Type 0
Deleted fd contexts =
    (after : Contexts) × (del_context (pos fd) contexts ≡ some after)
    × (get_context (pos fd) after ≡ some none)
    × ((i : ℕ) → i ≢ fd → get_elem? after i ≡ get_elem? contexts i)

del_context-null :
    (fd : ℕ) (contexts : Contexts) → get_context (pos fd) contexts ≡ some none → Deleted fd contexts
unfolding del_context
del_context-null fd contexts e = (contexts, rw e, e, λ i ne. refl)

del_context-set :
    (fd : ℕ) (contexts : Contexts) (c : FdContext)
    → fd < length contexts
    → get_context (pos fd) contexts ≡ some (some c)
    → Deleted fd contexts
unfolding del_context
del_context-set fd contexts c l e = (
  set contexts fd none,
  rw e (store-some fd none contexts l),
  get_context-set fd none contexts l,
  λ i ne. get_elem?-set_ne contexts none (λ q. ne (sym q)),
)

get_context-inside :
    (fd : ℕ) (contexts : Contexts)
    → fd < length contexts
    → get_context (pos fd) contexts ≡ get_elem? contexts fd
unfolding get_context
get_context-inside fd contexts h = rw (lt→ltb _ _ h)

get_context-outside :
    (fd : ℕ) (contexts : Contexts)
    → length contexts ≤ fd
    → get_context (pos fd) contexts ≡ some none
unfolding get_context
get_context-outside fd contexts h = rw (le→not-ltb _ _ h)

del_context-inside :
    (fd : ℕ) (contexts : Contexts) (c : Option FdContext)
    → fd < length contexts
    → get_context (pos fd) contexts ≡ some c
    → Deleted fd contexts
del_context-inside fd contexts none l e = del_context-null fd contexts e
del_context-inside fd contexts (some c) l e = del_context-set fd contexts c l e

-- For every descriptor that is not negative delContext is defined, getContext then finds
-- nothing, and the other entries stay as they were.
pub get_context-del_context :
    (fd : ℕ) (contexts : Contexts)
    → (after : Contexts) × (del_context (pos fd) contexts ≡ some after)
      × (get_context (pos fd) after ≡ some none)
      × ((i : ℕ) → i ≢ fd → get_elem? after i ≡ get_elem? contexts i)
get_context-del_context fd contexts = elim (Bool-cases (ltb fd (length contexts))) [
  | inl lt ↦
      let l = ltb→lt fd (length contexts) lt in
      let (c, e) = get_elem?-some contexts fd l in
      del_context-inside fd contexts c l (get_context-inside fd contexts l ∙ e)
  | inr ge ↦
      del_context-null fd contexts
        (get_context-outside fd contexts (not-ltb→le fd (length contexts) ge))
]

lt_of_context :
    (fd : ℕ) (contexts : Contexts) (c : FdContext)
    → get_context (pos fd) contexts ≡ some (some c)
    → fd < length contexts
lt_of_context fd contexts c e = elim (Bool-cases (ltb fd (length contexts))) [
  | inl lt ↦ ltb→lt fd (length contexts) lt
  | inr ge ↦ ground (arith, e, get_context-outside fd contexts (not-ltb→le fd (length contexts) ge))
]

-- A context is changed through its pointer.
pub get_context-update :
    (fd : ℕ) (c d : FdContext) (contexts : Contexts)
    → get_context (pos fd) contexts ≡ some (some c)
    → get_context (pos fd) (set contexts fd (some d)) ≡ some (some d)
get_context-update fd c d contexts e =
    get_context-set fd (some d) contexts (lt_of_context fd contexts c e)

pub has_fd-get_context :
    (fd : ℕ) (contexts : Contexts) (c : FdContext)
    → get_context (pos fd) contexts ≡ some (some c)
    → has_fd (pos fd) contexts ≡ some true
unfolding has_fd is_set
has_fd-get_context fd contexts c e = ap (λ o. o >>= λ c. some (is_set c)) e
