-- ===== src/Scheduler/Remote/Follows.antt =====
-- What is shared by the steps of insertFront and scheduleAll in include/coroutine/scheduler.h.
use mathlib.Core.List.{append-nil}
use net_base.Base.{
  update, update-other, sym, ◌∙◌, subst, ap, ◌≡◌, ℕ, ℕ_discrete, List, [], ◌++◌, Option, none,
}
use net_base.Scheduler.Remote.{Node, Event, System, Atomic, AtomicTrace}
use net_base.Scheduler.Remote.Owners.{Owner, nobody, Stands, SameOff}

-- Whatever led to `a`, these events lead on to `b`.
abbrev pub Extends : Atomic → List Event → Atomic → Type 0
Extends a events b = (shown : List Event) → AtomicTrace shown a → AtomicTrace (shown ++ events) b

pub Extends-nil : (a : Atomic) → Extends a [] a
Extends-nil a shown t = subst (λ l. AtomicTrace l a) (sym (append-nil shown)) t

-- The atomic list can follow.
abbrev pub Follows : Atomic → List Event → System → Type 0
Follows a events t = (own : ℕ → Owner) × (b : Atomic) × Extends a events b × Stands t own b

pub fresh-off :
    (p : ℕ) (heap heap' : ℕ → Option Node) (own own' : ℕ → Owner)
    → SameOff p heap own heap' own'
    → ((x : ℕ) → heap x ≡ none → own x ≡ nobody)
    → (heap' p ≡ none → own' p ≡ nobody)
    → (x : ℕ) → heap' x ≡ none
    → own' x ≡ nobody
fresh-off p heap heap' own own' off fresh here x e = elim (ℕ_discrete x p) [
  | yes same ↦ ap own' same ∙ here (sym (ap heap' same) ∙ e)
  | no ne ↦ let (h, w) = off x ne in w ∙ fresh x (sym h ∙ e)
]

pub updates-off :
    (p : ℕ) (heap : ℕ → Option Node) (own : ℕ → Owner) (n : Option Node) (o : Owner)
    → SameOff p heap own (update heap p n) (update own p o)
updates-off p heap own n o a ne = (update-other heap p n a ne, update-other own p o a ne)
