-- ===== src/Executor/Memory.antt =====
-- Stacks and contexts of src/coroutine/executor.cpp: when `exec` can run an executor.
use net_base.Base.{ℕ, ◌≡◌, ◌≢◌, true, none, some, ◌==◌, if◌then◌else◌, ◌>>=◌, arith}
use net_base.Executor.{
  init, exec, ready, terminal, ContextType, ucontext, fcontext, entry, suspended, finished, null,
  allocated, Executor, Thread, update, put, exec_on, reset_on, reuse_on, kill,
}

module _ (p m : ℕ) (t : Thread) (e f : Executor) (held : t.objects p ≡ some e)
    (main_is : t.main ≡ some m) (main_held : t.objects m ≡ some f) (apart : p ≢ m) where
  -- The thread once `g`, stored at `p`, runs, and the main executor is suspended.
  switched : Thread → Executor → Thread
  switched u g = record u {
    objects = update (update u.objects p g) m (record f { context = suspended p });
    cur = some p;
    control = some p;
  }

  -- On a thread with a main executor, for another executor that was never run and has no stack
  -- yet: exec gives it a stack of its size (64 KiB for 0), starts it at its entry and makes it
  -- the current one.
  pub exec_on-init :
      (build : ContextType)
      → e.state ≡ init
      → e.stack ≡ null
      → (u : Thread) × (exec_on build p t ≡ some u)
        × (u.control ≡ some p)
        × (u.cur ≡ some p)
        × (u.objects p
            ≡ some (record e {
              state = exec;
              stack_size = if e.stack_size == 0 then 65536 else e.stack_size;
              stack = allocated;
              context = entry;
            }))
  unfolding exec_on switched
  exec_on-init build a b = (
    switched t (record e {
      state = exec;
      stack_size = if e.stack_size == 0 then 65536 else e.stack_size;
      stack = allocated;
      context = entry;
    }),
    ground arith,
    ground arith,
    ground arith,
    ground arith,
  )

  -- On a thread with a main executor, for another executor that was never run and has no stack:
  -- reset and then exec free the new stack and keep the pointer to it, so that the switch to
  -- that stack is undefined.
  pub reset_on-init_undefined :
      (build : ContextType)
      → e.state ≡ init
      → e.stack ≡ null
      → (reset_on build p t >>= exec_on build p) ≡ none
  unfolding exec_on reset_on
  reset_on-init_undefined build a b = ground arith

  -- With ucontext, on a thread with a main executor, another, terminated executor of a callback
  -- with a stack that is used again and executed runs from its entry on.
  pub reuse_on-exec_ucontext :
      e.is_call_back_type ≡ true
      → e.state ≡ terminal
      → e.stack ≡ allocated
      → e.context ≡ finished
      → t.control ≡ some m
      → (u : Thread) × ((reuse_on ucontext p t >>= exec_on ucontext p) ≡ some u)
        × (u.control ≡ some p)
        × (u.objects p ≡ some (record e { state = exec; context = entry }))
  unfolding exec_on reuse_on switched
  reuse_on-exec_ucontext a b c d r = (
    switched (put t p (record e { state = ready; context = entry }))
        (record e { state = exec; context = entry }),
    ground arith,
    ground arith,
    ground arith,
  )

  -- With fcontext, on a thread with a main executor: another, terminated executor of a callback,
  -- used again and executed, has no context to go on with, which is undefined.
  pub reuse_on-exec_fcontext :
      e.is_call_back_type ≡ true
      → e.state ≡ terminal
      → e.context ≡ finished
      → (reuse_on fcontext p t >>= exec_on fcontext p) ≡ none
  unfolding exec_on reuse_on
  reuse_on-exec_fcontext a b c = ground arith

  -- A callback's executor that was killed before it ever ran has no stack: reuse writes to the null
  -- pointer.
  pub reuse_on-killed :
      (build : ContextType)
      → e.is_call_back_type ≡ true
      → e.state ≡ init
      → e.stack ≡ null
      → (kill build p t >>= reuse_on build p) ≡ none
  unfolding kill reuse_on
  reuse_on-killed build a b c = ground arith
