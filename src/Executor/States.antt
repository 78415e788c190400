-- ===== src/Executor/States.antt =====
-- The state machine of include/coroutine/executor.h: what each operation of an executor does to
-- the state of every executor of the thread.
use mathlib.Core.Option
use net_base.Base.{
  ℕ, ◌≡◌, sym, ap, ◌∙◌, true, false, Option, none, some, inl, inr, ◌==◌, if◌then◌else◌, >>=-eq-some,
  arith, Bool-cases,
}
use net_base.Executor.{
  State, hold_up, terminal, ContextType, Executor, Thread, put, exec_on, main_exec, yield_on,
  main_yield, kill, finish, reset_on, reuse_on, is_exec, yield_inner, main_yield_inner,
  terminal_inner, same_ptr, suspended, finished,
}
use net_base.Executor.Moves.{
  state_of, started, held, reused, none≢some, of_some, do_exec-states, put-states, switched-states,
  unless, paused-states,
}

-- The operations on the executor at an address.
pub data Op : Type 0 where
  execs main_execs yields main_yields kills finishes : ℕ → Op
  resets reuses : ℕ → Op

unfoldable pub apply : ContextType → Op → Thread → Option Thread
apply build (execs p) t = exec_on build p t
apply build (main_execs p) t = main_exec build p t
apply build (yields p) t = yield_on build p t
apply build (main_yields p) t = main_yield build p t
apply build (kills p) t = kill build p t
apply build (finishes p) t = finish build p t
apply build (resets p) t = reset_on build p t
apply build (reuses p) t = reuse_on build p t

abbrev pub target : Op → ℕ
target (execs p) = p
target (main_execs p) = p
target (yields p) = p
target (main_yields p) = p
target (kills p) = p
target (finishes p) = p
target (resets p) = p
target (reuses p) = p

abbrev pub follow : Op → Executor → State
follow (execs p) e = started e.state
follow (main_execs p) e = started e.state
follow (yields p) e = held e.state
follow (main_yields p) e = held e.state
follow (kills p) e = terminal
follow (finishes p) e = terminal
follow (resets p) e = e.state
follow (reuses p) e = reused e.is_call_back_type e.state

exec_on-states :
    (build : ContextType) (p : ℕ) (t u : Thread) (q : ℕ)
    → exec_on build p t ≡ some u
    → state_of u q
      ≡ (if p == q then Option.map (λ e. started e.state) (t.objects p) else state_of t q)
unfolding exec_on
exec_on-states build p t u q h = do_exec-states build false p t u q (unless (same_ptr p t.main) h)

main_exec-states :
    (build : ContextType) (p : ℕ) (t u : Thread) (q : ℕ)
    → main_exec build p t ≡ some u
    → state_of u q
      ≡ (if p == q then Option.map (λ e. started e.state) (t.objects p) else state_of t q)
unfolding main_exec
main_exec-states build p t u q h = do_exec-states build true p t u q h

yield_on-states :
    (build : ContextType) (p : ℕ) (t u : Thread) (q : ℕ)
    → yield_on build p t ≡ some u
    → state_of u q ≡ (if p == q then Option.map (λ e. held e.state) (t.objects p) else state_of t q)
unfolding yield_on
yield_on-states build p t u q h =
    let (e, a, k) =
      >>=-eq-some (t.objects p)
        (λ e.
          if is_exec e.state
          then yield_inner build p (put t p (record e { state = hold_up }))
          else some t)
        h in
    rw a (paused-states build (some p) t.main p e t u q a k)

main_yield-states :
    (build : ContextType) (p : ℕ) (t u : Thread) (q : ℕ)
    → main_yield build p t ≡ some u
    → state_of u q ≡ (if p == q then Option.map (λ e. held e.state) (t.objects p) else state_of t q)
unfolding main_yield
main_yield-states build p t u q h =
    let (e, a, k) =
      >>=-eq-some (t.objects p)
        (λ e.
          if is_exec e.state
          then main_yield_inner build p (put t p (record e { state = hold_up }))
          else some t)
        h in
    rw a (paused-states build (some p) t.base p e t u q a k)

kill-states :
    (build : ContextType) (p : ℕ) (t u : Thread) (q : ℕ)
    → kill build p t ≡ some u
    → state_of u q ≡ (if p == q then Option.map (λ e. terminal) (t.objects p) else state_of t q)
unfolding kill
kill-states build p t u q h =
    let (e, a, k) =
      >>=-eq-some (t.objects p)
        (λ e.
          let v = put t p (record e { state = terminal }) in
          if is_exec e.state then terminal_inner build suspended p v else some v)
        h in
    elim (Bool-cases (is_exec e.state)) [
      | inl x ↦ rw a (
          switched-states build suspended (some p) t.main t.main p (record e { state = terminal }) t
            u q (rw x at k))
      | inr x ↦ rw a (
          ap (λ v. state_of v q) (sym (of_some (rw x at k)))
          ∙ put-states p (record e { state = terminal }) t q)
    ]

finish-states :
    (build : ContextType) (p : ℕ) (t u : Thread) (q : ℕ)
    → finish build p t ≡ some u
    → state_of u q ≡ (if p == q then Option.map (λ e. terminal) (t.objects p) else state_of t q)
unfolding finish
finish-states build p t u q h =
    let (e, a, k) =
      >>=-eq-some (t.objects p)
        (λ e.
          if is_exec e.state
          then terminal_inner build (λ d. finished) p (put t p (record e { state = terminal }))
          else none)
        h in
    elim (Bool-cases (is_exec e.state)) [
      | inl x ↦ rw a (
          switched-states build (λ d. finished) (some p) t.main t.main p
            (record e { state = terminal }) t u q (rw x at k))
      | inr x ↦ absurd (none≢some (rw x at k))
    ]

reset_on-states :
    (build : ContextType) (p : ℕ) (t u : Thread) (q : ℕ)
    → reset_on build p t ≡ some u
    → state_of u q ≡ (if p == q then Option.map (λ e. e.state) (t.objects p) else state_of t q)
unfolding reset_on
reset_on-states build p t u q h = ground arith

reuse_on-states :
    (build : ContextType) (p : ℕ) (t u : Thread) (q : ℕ)
    → reuse_on build p t ≡ some u
    → state_of u q ≡ (
        if p == q
        then Option.map (λ e. reused e.is_call_back_type e.state) (t.objects p)
        else state_of t q)
unfolding reuse_on
reuse_on-states build p t u q h = ground arith

-- With ucontext or fcontext: where an operation is defined, it changes the state of its own
-- executor along the diagram of executor.h, and the state of no other executor.
pub apply-states :
    (build : ContextType) (op : Op) (t u : Thread) (q : ℕ)
    → apply build op t ≡ some u
    → state_of u q
      ≡ (if target op == q then Option.map (follow op) (t.objects (target op)) else state_of t q)
unfolding apply
apply-states build (execs p) t u q h = exec_on-states build p t u q h
apply-states build (main_execs p) t u q h = main_exec-states build p t u q h
apply-states build (yields p) t u q h = yield_on-states build p t u q h
apply-states build (main_yields p) t u q h = main_yield-states build p t u q h
apply-states build (kills p) t u q h = kill-states build p t u q h
apply-states build (finishes p) t u q h = finish-states build p t u q h
apply-states build (resets p) t u q h = reset_on-states build p t u q h
apply-states build (reuses p) t u q h = reuse_on-states build p t u q h
