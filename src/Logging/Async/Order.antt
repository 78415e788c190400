-- ===== src/Logging/Async/Order.antt =====
-- What every interleaving of flush, the thread and the destructor of an asynchronous flusher of
-- include/logging/logger_flusher.h keeps.
use net_base.Base.{
  arith, ◌≡◌, refl, sym, ap, ◌∙◌, List, [], ◌∷◌, ◌++◌, append_assoc, append-nil, Bytes,
}
use net_base.Logging.Async.{
  Async, testing, entering, waiting, woken, ended, using_, stopping, joining, push, print_all,
  do_flush, Step, flush_push, flush_notify, loop_on, loop_end, wait, wake, work, destructor_stop,
  destructor_notify, destructor_join, Reachable, at_start, after,
}

print_all-append : (out pool : List Bytes) → print_all out pool ≡ out ++ pool
unfolding print_all
print_all-append out [] = sym (append-nil out)
print_all-append out (s ∷ pool) =
    print_all-append (out ++ s ∷ []) pool ∙ append_assoc out (s ∷ []) pool

-- What is printed and what waits is what was pushed.
abbrev pub Keeps : Async → Type 0
Keeps a = a.out ++ a.log_pool ≡ a.pushed

Step-Keeps : (a b : Async) → Step a b → Keeps a → Keeps b
unfolding push do_flush
Step-Keeps _ _ (flush_push a s o) h =
    sym (append_assoc a.out a.log_pool (s ∷ [])) ∙ ap (λ t. t ++ s ∷ []) h
Step-Keeps _ _ (flush_notify a n p) h = h
Step-Keeps _ _ (loop_on a w s) h = h
Step-Keeps _ _ (loop_end a w s) h = h
Step-Keeps _ _ (wait a w) h = h
Step-Keeps _ _ (wake a w) h = h
Step-Keeps _ _ (work a w) h =
    append-nil (print_all a.out a.log_pool) ∙ print_all-append a.out a.log_pool ∙ h
Step-Keeps _ _ (destructor_stop a o p) h = h
Step-Keeps _ _ (destructor_notify a o) h = h
Step-Keeps _ _ (destructor_join a o w) h = h

-- However flush, the thread and the destructor interleave, what the thread has printed and what
-- waits in the pool are, together, the lines that flush was given, each once and in their order.
pub Reachable-Keeps : (a : Async) → Reachable a → a.out ++ a.log_pool ≡ a.pushed
Reachable-Keeps _ at_start = refl
Reachable-Keeps _ (after a b r s) = Step-Keeps a b s (Reachable-Keeps a r)

joining-using : (joining ≡ using_) → ⊥
joining-using e = cc

joining-stopping : (joining ≡ stopping) → ⊥
joining-stopping e = cc

waiting-testing : (waiting ≡ testing) → ⊥
waiting-testing e = cc

waiting-entering : (waiting ≡ entering) → ⊥
waiting-entering e = cc

waiting-woken : (waiting ≡ woken) → ⊥
waiting-woken e = cc

waiting-ended : (waiting ≡ ended) → ⊥
waiting-ended e = cc

-- Once the destructor joins a thread that waits, nothing but a return of `wait` by itself happens.
pub Step-lost :
    (a b : Async)
    → Step a b
    → a.owner ≡ joining
    → a.worker ≡ waiting
    → a.pending ≡ 0
    → b ≡ record a { worker = woken }
Step-lost _ _ (flush_push a s e) o w p = absurd (joining-using (sym o ∙ e))
Step-lost _ _ (flush_notify a n e) o w p = absurd (omega (arith, p, e))
Step-lost _ _ (loop_on a e s) o w p = absurd (waiting-testing (sym w ∙ e))
Step-lost _ _ (loop_end a e s) o w p = absurd (waiting-testing (sym w ∙ e))
Step-lost _ _ (wait a e) o w p = absurd (waiting-entering (sym w ∙ e))
Step-lost _ _ (wake a e) o w p = refl
Step-lost _ _ (work a e) o w p = absurd (waiting-woken (sym w ∙ e))
Step-lost _ _ (destructor_stop a e n) o w p = absurd (joining-using (sym o ∙ e))
Step-lost _ _ (destructor_notify a e) o w p = absurd (joining-stopping (sym o ∙ e))
Step-lost _ _ (destructor_join a e f) o w p = absurd (waiting-ended (sym w ∙ f))
