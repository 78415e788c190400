-- ===== src/Executor/Moves.antt =====
-- How storing an executor and switching contexts in src/coroutine/executor.cpp change the states of
-- the executors of a thread.
use mathlib.Core.Option
use net_base.Base.{
  ℕ, ◌≡◌, refl, sym, ap, ◌∙◌, Bool, true, false, Option, none, some, inl, inr, ◌==◌, if◌then◌else◌,
  >>=-eq-some, arith, Bool-cases, ==_iff,
}
use net_base.Executor.{
  State, init, exec, ready, hold_up, terminal, aborted, Context, Executor, Thread, put,
  swap_context, run_now, dispatch, do_exec, is_exec, make_context, suspended, ContextType, ucontext,
  fcontext, store, switch_ucontext, switch_fcontext,
}

abbrev pub state_of : Thread → ℕ → Option State
state_of t q = Option.map (λ e. e.state) (t.objects q)

pub none≢some : {A : Type 0} {a : A} → ¬ (none ≡ some a)
none≢some h = cc

pub of_some : {A : Type 0} {a b : A} → some a ≡ some b → a ≡ b
of_some h = cc

module _ (build : ContextType) where
  store-states :
      (p : ℕ) (c : Context) (t u : Thread) (q : ℕ)
      → store p c t ≡ some u
      → state_of u q ≡ state_of t q
  unfolding store
  store-states p c t u q h = ground arith

  switch_ucontext-states :
      (saved : ℕ → Context) (s d : ℕ) (t u : Thread) (q : ℕ)
      → switch_ucontext saved s d t ≡ some u
      → state_of u q ≡ state_of t q
  unfolding switch_ucontext store
  switch_ucontext-states saved s d t u q h = ground arith

  switch_fcontext-states :
      (saved : ℕ → Context) (s d : ℕ) (t u : Thread) (q : ℕ)
      → switch_fcontext saved s d t ≡ some u
      → state_of u q ≡ state_of t q
  unfolding switch_fcontext store
  switch_fcontext-states saved s d t u q h = ground arith

  -- Switching contexts changes no state.
  pub state_of-swap_context :
      (saved : ℕ → Context) (s d : Option ℕ) (t u : Thread) (q : ℕ)
      → swap_context build saved s d t ≡ some u
      → state_of u q ≡ state_of t q
  unfolding swap_context
  state_of-swap_context saved none d t u q h = cc
  state_of-swap_context saved (some s) none t u q h = cc
  state_of-swap_context saved (some s) (some d) t u q h =
      elim build
          as (λ b.
            swap_context b saved (some s) (some d) t ≡ some u → state_of u q ≡ state_of t q) [
              | ucontext ↦ switch_ucontext-states saved s d t u q
              | fcontext ↦ switch_fcontext-states saved s d t u q
            ]
        h

-- The diagram: Init, HoldUp and Ready go to Exec, Exec goes to HoldUp, anything to Terminal, and
-- a terminated executor with a callback to Ready.
abbrev pub started : State → State
started init = exec
started ready = exec
started hold_up = exec
started exec = exec
started terminal = terminal
started aborted = aborted

abbrev pub held : State → State
held exec = hold_up
held s = s

abbrev pub reused : Bool → State → State
reused true terminal = ready
reused _ s = s

held_exec : (s : State) → is_exec s ≡ true → held s ≡ hold_up
unfolding is_exec
held_exec s h = ground arith

held_other : (s : State) → is_exec s ≡ false → held s ≡ s
unfolding is_exec
held_other s h = ground arith

module _ (build : ContextType) where
  run_now-states :
      (is_main : Bool) (p : ℕ) (e : Executor) (t u : Thread) (q : ℕ)
      → run_now build is_main p e t ≡ some u
      → state_of u q ≡ (if p == q then some exec else state_of t q)
  unfolding run_now
  run_now-states true p e t u q h =
      state_of-swap_context build suspended t.base (some p)
        (record (put t p (record e { state = exec })) { cur = some p }) u q h
      ∙ ground arith
  run_now-states false p e t u q h =
      state_of-swap_context build suspended t.main (some p)
        (record (put t p (record e { state = exec })) { cur = some p }) u q h
      ∙ ground arith

-- What an address that holds an executor in state `s` shows, when nothing changes.
unchanged :
    (p : ℕ) (e : Executor) (t : Thread) (q : ℕ)
    → t.objects p ≡ some e
    → state_of t q ≡ (if p == q then some e.state else state_of t q)
unchanged p e t q a = elim (Bool-cases (p == q)) [
  | inl same ↦
      rw same
        (ap (λ r. state_of t r) (sym ((==_iff p q).0 same)) ∙ ap (Option.map (λ e. e.state)) a)
  | inr other ↦ rw other
]

module _ (build : ContextType) where
  dispatch-states :
      (s : State) (is_main : Bool) (p : ℕ) (e : Executor) (t u : Thread) (q : ℕ)
      → e.state ≡ s
      → t.objects p ≡ some e
      → dispatch build s is_main p e t ≡ some u
      → state_of u q ≡ (if p == q then some (started s) else state_of t q)
  unfolding dispatch
  dispatch-states init is_main p e t u q c a h =
      let (made, z, k) =
        >>=-eq-some (make_context e)
          (λ made. run_now build is_main p (record made { state = ready }) t) h in
      run_now-states build is_main p (record made { state = ready }) t u q k
  dispatch-states ready is_main p e t u q c a h = run_now-states build is_main p e t u q h
  dispatch-states hold_up is_main p e t u q c a h = run_now-states build is_main p e t u q h
  dispatch-states exec is_main p e t u q c a h = cc (unchanged p e t q a)
  dispatch-states terminal is_main p e t u q c a h = cc (unchanged p e t q a)
  dispatch-states aborted is_main p e t u q c a h = cc (unchanged p e t q a)

  pub do_exec-states :
      (is_main : Bool) (p : ℕ) (t u : Thread) (q : ℕ)
      → do_exec build is_main p t ≡ some u
      → state_of u q
        ≡ (if p == q then Option.map (λ e. started e.state) (t.objects p) else state_of t q)
  unfolding do_exec
  do_exec-states is_main p t u q h =
      let (e, a, k) = >>=-eq-some (t.objects p) (λ e. dispatch build e.state is_main p e t) h in
      rw a (dispatch-states e.state is_main p e t u q refl a k)

-- `set` changes the state of one executor.
pub put-states :
    (p : ℕ) (e : Executor) (t : Thread) (q : ℕ)
    → state_of (put t p e) q ≡ (if p == q then some e.state else state_of t q)
put-states p e t q = ground arith

module _ (build : ContextType) where
  -- Storing an executor and then switching contexts changes the state of that executor.
  pub switched-states :
      (saved : ℕ → Context) (s d c : Option ℕ) (p : ℕ) (e : Executor) (t u : Thread) (q : ℕ)
      → swap_context build saved s d (record (put t p e) { cur = c }) ≡ some u
      → state_of u q ≡ (if p == q then some e.state else state_of t q)
  switched-states saved s d c p e t u q h =
      state_of-swap_context build saved s d (record (put t p e) { cur = c }) u q h
      ∙ put-states p e t q

pub unless :
    {A : Type 0} (b : Bool) {m : Option A} {a : A} → (if b then none else m) ≡ some a → m ≡ some a
unless true h = cc
unless false h = h

module _ (build : ContextType) where
  -- An operation that acts on an executing executor only.
  pub paused-states :
      (s d : Option ℕ) (p : ℕ) (e : Executor) (t u : Thread) (q : ℕ)
      → t.objects p ≡ some e
      → (if is_exec e.state
          then swap_context build suspended s d
              (record (put t p (record e { state = hold_up })) { cur = d })
          else some t)
        ≡ some u
      → state_of u q ≡ (if p == q then some (held e.state) else state_of t q)
  unfolding is_exec
  paused-states s d p e t u q a h = elim (Bool-cases (is_exec e.state)) [
    | inl x ↦
        rw (held_exec e.state x)
          (switched-states build suspended s d d p (record e { state = hold_up }) t u q (rw x at h))
    | inr x ↦
        rw (held_other e.state x)
          (ap (λ v. state_of v q) (sym (of_some (rw x at h))) ∙ unchanged p e t q a)
  ]
