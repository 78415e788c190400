-- ===== src/IoManager/Epoll.antt =====
-- Sets of EPOLL flags, and what calls of ::epoll_ctl leave of interest (epoll_ctl(2)).
use net_base.Base.{
  ℕ, Bool, true, false, not, ◌&&◌, ◌||◌, List, [], ◌∷◌, Option, none, some, ◌==◌, if◌then◌else◌,
}

pub record Events : Type 0 where
  pub in_ : Bool
  pub out_ : Bool
  pub err : Bool
  pub hup : Bool
  pub et : Bool

abbrev pub no_events : Events
no_events = record { in_ = false; out_ = false; err = false; hup = false; et = false }

-- EPOLLIN and EPOLLOUT
abbrev pub in_events : Events
in_events = record no_events { in_ = true }

abbrev pub out_events : Events
out_events = record no_events { out_ = true }

-- a | b
abbrev pub union : Events → Events → Events
union a b = record {
  in_ = a.in_ || b.in_;
  out_ = a.out_ || b.out_;
  err = a.err || b.err;
  hup = a.hup || b.hup;
  et = a.et || b.et;
}

-- a & ~b
abbrev pub without : Events → Events → Events
without a b = record {
  in_ = a.in_ && not b.in_;
  out_ = a.out_ && not b.out_;
  err = a.err && not b.err;
  hup = a.hup && not b.hup;
  et = a.et && not b.et;
}

-- a & b is not 0
abbrev pub intersects : Events → Events → Bool
intersects a b =
    a.in_ && b.in_ || (a.out_ && b.out_ || (a.err && b.err || (a.hup && b.hup || a.et && b.et)))

abbrev pub is_empty : Events → Bool
is_empty a = not (a.in_ || (a.out_ || (a.err || (a.hup || a.et))))

abbrev bit_eq : Bool → Bool → Bool
bit_eq true b = b
bit_eq false b = not b

abbrev pub same_events : Events → Events → Bool
same_events a b =
    bit_eq a.in_ b.in_
    && (bit_eq a.out_ b.out_ && (bit_eq a.err b.err && (bit_eq a.hup b.hup && bit_eq a.et b.et)))

-- Calls of ::epoll_ctl, by their operation.
pub data EpollCall : Type 0 where
  adds mods : ℕ → Events → EpollCall
  dels : ℕ → EpollCall

-- What the kernel watches of a descriptor behind the calls, the newest of which stands first.
abbrev pub interest : List EpollCall → ℕ → Option Events
interest [] fd = none
interest (adds g events ∷ calls) fd = if g == fd then some events else interest calls fd
interest (mods g events ∷ calls) fd = if g == fd then some events else interest calls fd
interest (dels g ∷ calls) fd = if g == fd then none else interest calls fd

abbrev pub is_watched : Option Events → Bool
is_watched none = false
is_watched (some events) = true

-- EPOLL_CTL_ADD wants a descriptor that is not watched, the others one that is.
abbrev pub is_accepted : List EpollCall → Bool
is_accepted [] = true
is_accepted (adds fd events ∷ calls) = not (is_watched (interest calls fd)) && is_accepted calls
is_accepted (mods fd events ∷ calls) = is_watched (interest calls fd) && is_accepted calls
is_accepted (dels fd ∷ calls) = is_watched (interest calls fd) && is_accepted calls
