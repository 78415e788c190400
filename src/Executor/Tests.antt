-- ===== src/Executor/Tests.antt =====
-- The theorems on src/coroutine/executor.cpp at a thread with one coroutine.
use net_base.Base.{ℕ, ◌≡◌, refl, true, false, Option, none, some, ◌>>=◌, arith}
use mathlib.Core.Option
use net_base.Executor.Endings.{executor_main_func-finish, behind}
use net_base.Executor.{
  kill, executor_main_func, throws_exception, is_logged, State, init, exec, ready, terminal,
  ucontext, fcontext, entry, unset, suspended, finished, null, allocated, Executor, Thread,
  new_thread, new_callback, get_current, exec_on, yield_on, finish, reset_on, reuse_on, update, put,
}
use net_base.Executor.Moves.{state_of}
use net_base.Executor.States.{execs, apply, apply-states}
use net_base.Executor.Memory.{
  exec_on-init, reset_on-init_undefined, reuse_on-exec_ucontext, reuse_on-exec_fcontext,
  reuse_on-killed,
}

-- The executor of the thread itself, at 0, and a coroutine at 1.
two : Thread
unfolding get_current new_callback new_thread
two = new_callback 0 (get_current new_thread)

abbrev first : Executor
first = record {
  is_call_back_type = false;
  state = ready;
  id = 1;
  stack_size = 0;
  stack = null;
  context = unset;
}

abbrev second : Executor
second = record {
  is_call_back_type = true;
  state = init;
  id = 2;
  stack_size = 0;
  stack = null;
  context = unset;
}

-- The coroutine runs, yields, runs again and ends, as in test/coroutine_test.cpp.
interleaved :
    Option.map {B = Option State × Option ℕ}
      (λ t. (state_of t 1, t.control))
      (exec_on fcontext 1 two >>= yield_on fcontext 1 >>= exec_on fcontext 1 >>= finish fcontext 1)
    ≡ some (some terminal, some 0)
unfolding two exec_on yield_on finish
interleaved = refl

abbrev ended : Thread
ended =
    put two 1 (record second {
      state = terminal;
      stack_size = 65536;
      stack = allocated;
      context = finished;
    })

abbrev active : Executor
active = record second { state = exec; stack_size = 65536; stack = allocated; context = entry }

abbrev running : Thread
running = record two {
  objects =
      update
        (update two.objects 1
          (record second { state = exec; stack_size = 65536; stack = allocated; context = entry }))
        0 (record first { context = suspended 1 });
  cur = some 1;
  control = some 1;
}

apply-states_example : state_of running 1 ≡ some exec
unfolding two apply exec_on
apply-states_example = apply-states fcontext (execs 1) two running 1 refl

exec_on-init_run :
    (u : Thread) × (exec_on fcontext 1 two ≡ some u)
    × (u.control ≡ some 1)
    × (u.cur ≡ some 1)
    × (u.objects 1
        ≡ some (record second {
          state = exec;
          stack_size = 65536;
          stack = allocated;
          context = entry;
        }))
unfolding two
exec_on-init_run =
    exec_on-init 1 0 two second first refl refl refl (λ e. omega arith) fcontext refl refl

reset_on-init_undefined_run : (reset_on fcontext 1 two >>= exec_on fcontext 1) ≡ none
unfolding two
reset_on-init_undefined_run =
    reset_on-init_undefined 1 0 two second first refl refl refl (λ e. omega arith) fcontext refl
      refl

reuse_on-exec_ucontext_run :
    (u : Thread) × ((reuse_on ucontext 1 ended >>= exec_on ucontext 1) ≡ some u)
    × (u.control ≡ some 1)
    × (u.objects 1
        ≡ some (record second {
          state = exec;
          stack_size = 65536;
          stack = allocated;
          context = entry;
        }))
unfolding two
reuse_on-exec_ucontext_run =
    reuse_on-exec_ucontext 1 0 ended
      (record second {
        state = terminal;
        stack_size = 65536;
        stack = allocated;
        context = finished;
      })
      first refl refl refl (λ e. omega arith) refl refl refl refl refl

reuse_on-exec_fcontext_run : (reuse_on fcontext 1 ended >>= exec_on fcontext 1) ≡ none
unfolding two
reuse_on-exec_fcontext_run =
    reuse_on-exec_fcontext 1 0 ended
      (record second {
        state = terminal;
        stack_size = 65536;
        stack = allocated;
        context = finished;
      })
      first refl refl refl (λ e. omega arith) refl refl refl

reuse_on-killed_run : (kill fcontext 1 two >>= reuse_on fcontext 1) ≡ none
unfolding two
reuse_on-killed_run =
    reuse_on-killed 1 0 two second first refl refl refl (λ e. omega arith) fcontext refl refl refl

executor_main_func-finish_run :
    executor_main_func fcontext throws_exception running ≡ some (true, behind 1 0 active running)
unfolding two is_logged
executor_main_func-finish_run =
    executor_main_func-finish fcontext throws_exception 1 0 active
      (record first { context = suspended 1 }) running refl refl (λ e. omega (arith, e)) refl refl
      refl refl refl
