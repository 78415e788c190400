-- ===== src/Logging/Async.antt =====
-- include/logging/logger_flusher.h: AsyncFlusher and the thread of AsyncStdoutLogFlusher and
-- AsyncFileLogFlusher, as steps that the threads take in any order. What a lock guards is one
-- step; `wait` may also return by itself. Each line that was pushed is followed by one
-- notification, at any later time.
pub mod Order
use net_base.Base.{◌≡◌, ℕ, zero, suc, Bool, true, false, List, [], ◌∷◌, ◌++◌, Bytes}

-- Where the thread is: before the test of `stop_`, before `wait`, in it, behind it, or at its end.
pub data Worker : Type 0 where
  testing entering waiting woken ended : Worker

-- Where the owner is: using the flusher, or in the destructor, behind `stop_ = true`, at the join,
-- or behind it.
pub data Owner : Type 0 where
  using_ stopping joining destroyed : Owner

-- `out` is what doFlush has printed; `pushed` keeps all lines that flush was given.
pub record Async : Type 0 where
  pub stop : Bool
  pub log_pool : List Bytes
  pub out : List Bytes
  pub pushed : List Bytes
  pub pending : ℕ
  pub worker : Worker
  pub owner : Owner

abbrev pub started : Async
started = record {
  stop = false;
  log_pool = [];
  out = [];
  pushed = [];
  pending = 0;
  worker = testing;
  owner = using_;
}

-- notify_one wakes the thread only if it waits.
unfoldable pub notified : Worker → Worker
notified waiting = woken
notified w = w

-- flush, under the lock
pub push : Bytes → Async → Async
push s a = record a {
  log_pool = a.log_pool ++ s ∷ [];
  pushed = a.pushed ++ s ∷ [];
  pending = suc a.pending;
}

-- The loop of doFlush: from the front on, until the pool is empty.
pub print_all : List Bytes → List Bytes → List Bytes
print_all out [] = out
print_all out (s ∷ pool) = print_all (out ++ s ∷ []) pool

pub do_flush : Async → Async
unfolding print_all
do_flush a = record a { out = print_all a.out a.log_pool; log_pool = []; worker = testing }

pub data Step : Async → Async → Type 0 where
  flush_push : (a : Async) (s : Bytes) → a.owner ≡ using_ → Step a (push s a)
  flush_notify :
      (a : Async) (n : ℕ)
      → a.pending ≡ suc n
      → Step a (record a { pending = n; worker = notified a.worker })
  loop_on :
      (a : Async) → a.worker ≡ testing → a.stop ≡ false → Step a (record a { worker = entering })
  loop_end : (a : Async) → a.worker ≡ testing → a.stop ≡ true → Step a (record a { worker = ended })
  wait : (a : Async) → a.worker ≡ entering → Step a (record a { worker = waiting })
  wake : (a : Async) → a.worker ≡ waiting → Step a (record a { worker = woken })
  work : (a : Async) → a.worker ≡ woken → Step a (do_flush a)
  destructor_stop :
      (a : Async)
      → a.owner ≡ using_
      → a.pending ≡ 0
      → Step a (record a { stop = true; owner = stopping })
  destructor_notify :
      (a : Async)
      → a.owner ≡ stopping
      → Step a (record a { worker = notified a.worker; owner = joining })
  destructor_join :
      (a : Async) → a.owner ≡ joining → a.worker ≡ ended → Step a (record a { owner = destroyed })

pub data Reachable : Async → Type 0 where
  at_start : Reachable started
  after : (a b : Async) → Reachable a → Step a b → Reachable b
