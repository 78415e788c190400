-- ===== src/Executor/Endings.antt =====
-- The end of a callback in src/coroutine/executor.cpp.
use net_base.Base.{arith, ℕ, ◌≡◌, ◌≢◌, refl, Option, some, ==_refl, ==-ne}
use net_base.Executor.{
  ucontext, fcontext, suspended, null, ContextType, Executor, Thread, exec, terminal, finished,
  CallbackEnd, is_logged, executor_main_func, update,
}

update-here : (objects : ℕ → Option Executor) (p : ℕ) (e : Executor) → update objects p e p ≡ some e
update-here objects p e = rw (==_refl p) refl

update-there :
    (objects : ℕ → Option Executor) (p q : ℕ) (e : Executor)
    → p ≢ q
    → update objects p e q ≡ objects q
update-there objects p q e ne = rw (==-ne p q ne) refl

-- The thread behind the end of the executor `e` at `p`, with the main executor `q`.
abbrev pub behind : ℕ → ℕ → Executor → Thread → Thread
behind p q e t = record t {
  objects =
      update (update t.objects p (record e { state = terminal })) p
        (record e { state = terminal; context = finished });
  cur = some q;
  control = some q;
}

-- Whether the callback of the current executor returns or throws, that executor, which is not the
-- main one, ends: it is Terminal, and the main executor, which waits in its switch to it on the
-- thread's own stack, goes on.
pub executor_main_func-finish :
    (build : ContextType) (end : CallbackEnd) (p q : ℕ) (e d : Executor) (t : Thread)
    → t.cur ≡ some p
    → t.main ≡ some q
    → p ≢ q
    → t.objects p ≡ some e
    → e.state ≡ exec
    → t.objects q ≡ some d
    → d.context ≡ suspended p
    → d.stack ≡ null
    → executor_main_func build end t ≡ some (is_logged end, behind p q e t)
unfolding executor_main_func
executor_main_func-finish ucontext end p q e d t cur main ne here running there at own =
    ground arith
executor_main_func-finish fcontext end p q e d t cur main ne here running there at own =
    ground arith
