-- ===== src/Executor.antt =====
-- include/coroutine/executor.h and src/coroutine/executor.cpp: the coroutines of one thread.
-- An `Executor::Ptr` is an address in `objects`; the thread-local pointers `t_cur_executor`,
-- `t_main_executor` and `t_base_executor` are `cur`, `main` and `base`. `control` is the executor
-- whose machine context runs: where a coroutine executes another one, the point that it leaves
-- becomes the context of the main executor. `build` is LON_CONTEXT_TYPE. `none` is undefined
-- behaviour or a failed assertion. fixStackUnwinding, which writes for debuggers, is left out.
mod Moves
mod Endings
mod States
mod Memory
mod Tests
use net_base.Base.{
  ◌>>=◌, ℕ, suc, ◌+◌, ◌*◌, ◌≤◌, ◌≡◌, Bool, true, false, ◌&&◌, Option, none, some, ◌==◌,
  if◌then◌else◌, add64, sub64,
}

-- Executor::State
pub data State : Type 0 where
  init exec ready hold_up terminal aborted : State

-- LON_CONTEXT_TYPE
pub data ContextType : Type 0 where
  ucontext fcontext : ContextType

-- What is saved in `context_`: nothing, the entry of `executorMainFunc`, a point inside a switch to
-- the executor at an address, the point behind the call of `terminal` at the end of
-- `executorMainFunc`, or a point on a stack that has been zeroed since.
pub data Context : Type 0 where
  unset entry : Context
  suspended : ℕ → Context
  finished wiped : Context

-- `stack_`: null, memory that is allocated, or memory that has been freed.
pub data Stack : Type 0 where
  null allocated dangling : Stack

pub record Executor : Type 0 where
  pub is_call_back_type : Bool
  pub state : State
  pub id : ℕ
  pub stack_size : ℕ
  pub stack : Stack
  pub context : Context

pub record Thread : Type 0 where
  pub objects : ℕ → Option Executor
  pub next : ℕ
  pub cur : Option ℕ
  pub main : Option ℕ
  pub base : Option ℕ
  pub control : Option ℕ
  pub least_unallocated_id : ℕ
  pub executor_count : ℕ

-- DefaultStackSize
abbrev pub default_stack_size : ℕ
default_stack_size = 65536

abbrev pub update : (ℕ → Option Executor) → ℕ → Executor → ℕ → Option Executor
update objects p e q = if p == q then some e else objects q

abbrev put : Thread → ℕ → Executor → Thread
put t p e = record t { objects = update t.objects p e }

-- executor_info::idGenerate and createUpdateData, and the object that was made.
allocate : Thread → Executor → Thread
allocate t e = record t {
  objects = update t.objects t.next e;
  next = suc t.next;
  least_unallocated_id = add64 t.least_unallocated_id 1;
  executor_count = add64 t.executor_count 1;
}

-- The constructor from the current context.
pub new_current : Thread → Thread
unfolding allocate
new_current t = allocate t (record {
  is_call_back_type = false;
  state = ready;
  id = add64 t.least_unallocated_id 1;
  stack_size = 0;
  stack = null;
  context = unset;
})

-- The constructor from a callback.
pub new_callback : ℕ → Thread → Thread
unfolding allocate
new_callback stack_size t = allocate t (record {
  is_call_back_type = true;
  state = init;
  id = add64 t.least_unallocated_id 1;
  stack_size = stack_size;
  stack = null;
  context = unset;
})

-- Executor::getCurrent
pub get_current : Thread → Thread
unfolding new_current
get_current t = elim t.cur [
  | some c ↦ t
  | none ↦ record (new_current t) {
    cur = some t.next;
    base = some t.next;
    main = elim t.main [ none ↦ some t.next | some m ↦ some m ];
    control = some t.next;
  }
]

-- free(stack_) leaves the pointer as it was; the second free of it is undefined.
make_stack : Stack → Option Stack
make_stack null = some allocated
make_stack allocated = some dangling
make_stack dangling = none

pub make_context : Executor → Option Executor
unfolding make_stack
make_context e = make_stack e.stack >>= λ s. some (record e {
  stack_size = if e.stack_size == 0 then default_stack_size else e.stack_size;
  stack = s;
  context = entry;
})

-- The new context of a stack that has been zeroed. With ucontext it goes to where `context_`
-- points. With fcontext it is written to the upper end of the stack, where the first one was, and
-- the pointer to it is dropped: any other saved point is lost.
rebuild : ContextType → Context → Executor → Option Executor
rebuild ucontext unset e = none
rebuild ucontext _ e = some (record e { context = entry })
rebuild fcontext unset e = some e
rebuild fcontext entry e = some e
rebuild fcontext _ e = some (record e { context = wiped })

-- It writes to the whole stack, which must be there and must not be the one that runs.
pub reset_context : ContextType → (running : Bool) → Executor → Option Executor
unfolding rebuild
reset_context build true e = none
reset_context build false e = elim e.stack [ allocated ↦ rebuild build e.context e | _ ↦ none ]

pub reset : ContextType → (running : Bool) → Executor → Option Executor
unfolding make_context reset_context
reset build running e = elim e.stack [ null ↦ make_context e | _ ↦ reset_context build running e ]

-- Only a terminated executor with a callback can be used again.
is_terminal : State → Bool
is_terminal terminal = true
is_terminal _ = false

pub is_exec : State → Bool
is_exec exec = true
is_exec _ = false

pub reuse : ContextType → (running : Bool) → Executor → Option Executor
unfolding is_terminal reset_context
reuse build running e =
    if e.is_call_back_type && is_terminal e.state
    then reset_context build running (record e { state = ready })
    else some e

-- A context can be run if it was made or saved, and its stack has been neither zeroed nor freed.
pub runnable : Context → Stack → Bool
runnable unset s = false
runnable finished s = false
runnable wiped s = false
runnable entry dangling = false
runnable (suspended d) dangling = false
runnable entry _ = true
runnable (suspended d) _ = true

store : ℕ → Context → Thread → Option Thread
store p context t = t.objects p >>= λ e. some (put t p (record e { context = context }))

-- ::swapcontext saves the running context in `src` and runs what is then in `dst`.
switch_ucontext : (ℕ → Context) → ℕ → ℕ → Thread → Option Thread
unfolding runnable store
switch_ucontext saved src dst t = store src (saved dst) t >>= λ u. u.objects dst >>= λ d.
    if runnable d.context d.stack then some (record u { control = some dst }) else none

-- jump_fcontext runs the context in `dst` and hands it the one that it leaves, which
-- executorMainFunc stores in `src`, and a suspended switch in the executor that it had gone to.
receiver : ℕ → Context → ℕ
receiver src (suspended x) = x
receiver src _ = src

switch_fcontext : (ℕ → Context) → ℕ → ℕ → Thread → Option Thread
unfolding runnable store receiver
switch_fcontext saved src dst t = t.objects dst >>= λ d.
    if runnable d.context d.stack
    then (store (receiver src d.context) (saved dst) t >>= λ u.
        some (record u { control = some dst }))
    else none

-- The Boolean test of pointers, of which one may be null.
same_ptr : ℕ → Option ℕ → Bool
same_ptr p none = false
same_ptr p (some q) = p == q

-- Executor::swapContext; `saved` is the point that is left, by the executor that is switched to.
pub swap_context : ContextType → (ℕ → Context) → Option ℕ → Option ℕ → Thread → Option Thread
unfolding switch_ucontext switch_fcontext
swap_context build saved none dst t = none
swap_context build saved (some s) none t = none
swap_context ucontext saved (some s) (some d) t = switch_ucontext saved s d t
swap_context fcontext saved (some s) (some d) t = switch_fcontext saved s d t

-- How a callback ends: an exception does not leave `executorMainFunc`.
pub data CallbackEnd : Type 0 where
  returns throws_exception throws_other : CallbackEnd

-- Whether an error is logged.
pub is_logged : CallbackEnd → Bool
is_logged returns = false
is_logged _ = true

module _ (build : ContextType) where
  exec_inner : ℕ → Thread → Option Thread
  unfolding swap_context
  exec_inner p t = swap_context build suspended t.main (some p) (record t { cur = some p })

  main_exec_inner : ℕ → Thread → Option Thread
  unfolding swap_context
  main_exec_inner p t = swap_context build suspended t.base (some p) (record t { cur = some p })

  yield_inner : ℕ → Thread → Option Thread
  unfolding swap_context
  yield_inner p t = swap_context build suspended (some p) t.main (record t { cur = t.main })

  main_yield_inner : ℕ → Thread → Option Thread
  unfolding swap_context
  main_yield_inner p t = swap_context build suspended (some p) t.base (record t { cur = t.base })

  terminal_inner : (ℕ → Context) → ℕ → Thread → Option Thread
  unfolding swap_context
  terminal_inner saved p t = swap_context build saved (some p) t.main (record t { cur = t.main })

  -- The case of `doExec` that runs the executor.
  run_now : Bool → ℕ → Executor → Thread → Option Thread
  unfolding exec_inner main_exec_inner
  run_now is_main p e t =
      let u = put t p (record e { state = exec }) in
      if is_main then main_exec_inner p u else exec_inner p u

  -- The switch of `doExec`.
  dispatch : State → Bool → ℕ → Executor → Thread → Option Thread
  unfolding run_now make_context
  dispatch init is_main p e t =
      make_context e >>= λ made. run_now is_main p (record made { state = ready }) t
  dispatch hold_up is_main p e t = run_now is_main p e t
  dispatch ready is_main p e t = run_now is_main p e t
  dispatch exec is_main p e t = some t
  dispatch terminal is_main p e t = some t
  dispatch aborted is_main p e t = some t

  pub do_exec : Bool → ℕ → Thread → Option Thread
  unfolding dispatch
  do_exec is_main p t = t.objects p >>= λ e. dispatch e.state is_main p e t

  -- Executor::exec: the main executor is not to be run so.
  pub exec_on : ℕ → Thread → Option Thread
  unfolding do_exec same_ptr
  exec_on p t = if same_ptr p t.main then none else do_exec false p t

  pub main_exec : ℕ → Thread → Option Thread
  unfolding do_exec
  main_exec p t = do_exec true p t

  -- Executor::yield
  pub yield_on : ℕ → Thread → Option Thread
  unfolding yield_inner is_exec
  yield_on p t = t.objects p >>= λ e.
      if is_exec e.state then yield_inner p (put t p (record e { state = hold_up })) else some t

  pub main_yield : ℕ → Thread → Option Thread
  unfolding main_yield_inner is_exec
  main_yield p t = t.objects p >>= λ e.
      if is_exec e.state
      then main_yield_inner p (put t p (record e { state = hold_up }))
      else some t

  -- Executor::kill
  pub kill : ℕ → Thread → Option Thread
  unfolding terminal_inner is_exec
  kill p t = t.objects p >>= λ e.
      let u = put t p (record e { state = terminal }) in
      if is_exec e.state then terminal_inner suspended p u else some u

  -- Executor::terminal, at the end of `executorMainFunc`.
  pub finish : ℕ → Thread → Option Thread
  unfolding terminal_inner is_exec
  finish p t = t.objects p >>= λ e.
      if is_exec e.state
      then terminal_inner (λ d. finished) p (put t p (record e { state = terminal }))
      else none

  -- Executor::executorMainFunc behind the callback of the current executor.
  pub executor_main_func : CallbackEnd → Thread → Option (Bool × Thread)
  unfolding is_logged finish
  executor_main_func end t = t.cur >>= λ p. finish p t >>= λ u. some (is_logged end, u)

-- Executor::getCurrentId, totalExecutorCount and setId
pub get_current_id : Thread → Option ℕ
get_current_id t = elim t.cur [ none ↦ some 0 | some c ↦ t.objects c >>= λ e. some e.id ]

pub total_executor_count : Thread → ℕ
total_executor_count t = t.executor_count

pub set_id : ℕ → ℕ → Thread → Option Thread
set_id p id t = t.objects p >>= λ e. some (put t p (record e { id = id }))

pub set_main_executor : ℕ → Thread → Thread
set_main_executor p t = record t { main = some p }

-- Executor::reset and Executor::reuse on the executor at an address.
pub reset_on : ContextType → ℕ → Thread → Option Thread
unfolding reset same_ptr
reset_on build p t =
    t.objects p >>= λ e. reset build (same_ptr p t.control) e >>= λ f. some (put t p f)

pub reuse_on : ContextType → ℕ → Thread → Option Thread
unfolding reuse same_ptr
reuse_on build p t =
    t.objects p >>= λ e. reuse build (same_ptr p t.control) e >>= λ f. some (put t p f)

-- The destructor: the id is not given back, the count is.
pub destroy : ℕ → Thread → Thread
destroy p t = record t {
  objects = λ q. if p == q then none else t.objects q;
  executor_count = sub64 t.executor_count 1;
}

-- A thread before its first executor.
pub new_thread : Thread
new_thread = record {
  objects = λ p. none;
  next = 0;
  cur = none;
  main = none;
  base = none;
  control = none;
  least_unallocated_id = 0;
  executor_count = 0;
}
