-- ===== src/CoIo/Options.antt =====
-- `co_socket`, `co_accept`, `co_fcntl` (F_SETFL and F_GETFL), `co_ioctl` (FIONBIO),
-- `co_setsockopt` (the time-outs) and `co_close` of src/io/co_io_function.cpp. A context is changed
-- through its pointer, which stores in its place of the table. `none` is undefined behaviour.
pub mod Nonblocking
use net_base.Base.{
  ℕ, ◌+◌, ◌*◌, ◌/◌, ◌%◌, ◌≡◌, Bool, true, false, ◌||◌, List, Option, none, some, if◌then◌else◌,
  ◌>>=◌, pos, set, word64,
}
use net_base.FdManager.{
  FdContext, Contexts, new_context, set_context, get_context, has_fd, del_context,
}
use net_base.IoManager.{IoManager, remove_event}
use net_base.IoManager.Epoll.{union, in_events, out_events}

-- The flags of a descriptor: O_NONBLOCK, and the others.
pub record Flags : Type 0 where
  pub nonblock : Bool
  pub others : ℕ

-- The system calls: F_GETFL, F_SETFL, FIONBIO, setsockopt and close.
pub record Kernel : Type 1 where
  pub World : Type 0
  pub get_flags_sys : ℕ → World → Flags × World
  pub set_flags_sys : ℕ → Flags → World → Bool × World
  pub ioctl_sys : ℕ → Bool → World → Bool × World
  pub close_sys : ℕ → World → Bool × World

-- fcntl(2): after F_SETFL succeeds, F_GETFL reports the flags that were set.
pub record KernelLaws (k : Kernel) : Type 0 where
  pub get_flags_sys-set_flags_sys :
      (fd : ℕ) (f : Flags) (w : k.World)
      → (k.set_flags_sys fd f w).0 ≡ true
      → (k.get_flags_sys fd (k.set_flags_sys fd f w).1).0 ≡ f

-- *context = c
abbrev pub update : ℕ → FdContext → Contexts → Contexts
update fd c contexts = set contexts fd (some c)

module _ (k : Kernel) where
  open k use {World, get_flags_sys, set_flags_sys, ioctl_sys, close_sys}

  unfoldable pub ensure_nonblock : ℕ → Flags × World → World
  ensure_nonblock fd (flags, w) =
      if flags.nonblock then w else (set_flags_sys fd (record flags { nonblock = true }) w).1

  -- What `co_socket` and `co_accept` do with a descriptor that the system gave them.
  unfoldable pub adopt : ℕ → Contexts → World → Option Contexts × World
  unfolding ensure_nonblock
  adopt fd contexts w = (
    set_context fd (record (new_context true) { is_sys_non_block = true }) contexts,
    ensure_nonblock fd (get_flags_sys fd w),
  )

  pub set_flags_of : ℕ → Flags → Contexts → World → Option FdContext → (Bool × World) × Contexts
  set_flags_of fd flags contexts w none = (set_flags_sys fd flags w, contexts)
  set_flags_of fd flags contexts w (some c) =
      if c.is_socket then (set_flags_sys fd flags w, contexts) else (
        set_flags_sys fd (record flags { nonblock = true }) w,
        update fd (record c { is_user_non_block = flags.nonblock; is_sys_non_block = true })
            contexts,
      )

  -- co_fcntl with F_SETFL
  unfoldable pub set_flags : ℕ → Flags → Contexts → World → Option ((Bool × World) × Contexts)
  unfolding set_flags_of
  set_flags fd flags contexts w =
      get_context (pos fd) contexts >>= λ o. some (set_flags_of fd flags contexts w o)

  pub seen_flags : Flags → Option FdContext → Flags
  seen_flags flags none = flags
  seen_flags flags (some c) =
      if c.is_socket then flags else record flags { nonblock = c.is_user_non_block }

  -- co_fcntl with F_GETFL
  pub get_flags : ℕ → Contexts → World → Option (Flags × World)
  unfolding seen_flags
  get_flags fd contexts w =
      let (flags, v) = get_flags_sys fd w in
      get_context (pos fd) contexts >>= λ o. some (seen_flags flags o, v)

  pub user_nonblock : ℕ → Bool → Contexts → Option FdContext → Contexts
  user_nonblock fd b contexts none = contexts
  user_nonblock fd b contexts (some c) =
      if c.is_socket then update fd (record c { is_user_non_block = b }) contexts else contexts

  -- co_ioctl with FIONBIO
  pub set_nonblock : ℕ → Bool → Contexts → World → Option ((Bool × World) × Contexts)
  unfolding user_nonblock
  set_nonblock fd b contexts w =
      get_context (pos fd) contexts >>= λ o. some (ioctl_sys fd b w, user_nonblock fd b contexts o)

  pub close_known : Bool → ℕ → Contexts → IoManager → Option (Contexts × IoManager)
  close_known false fd contexts m = some (contexts, m)
  close_known true fd contexts m = del_context (pos fd) contexts >>= λ after.
      some (after, remove_event fd (union in_events out_events) m)

  -- co_close
  pub co_close : ℕ → Contexts → IoManager → World → Option ((Bool × World) × Contexts × IoManager)
  unfolding close_known
  co_close fd contexts m w = has_fd (pos fd) contexts >>= λ known.
      close_known known fd contexts m >>= λ a. some (close_sys fd w, a.0, a.1)

-- Which of the two time-outs.
pub data TimeoutOption : Type 0 where
  so_rcvtimeo so_sndtimeo : TimeoutOption

pub timeout_of : TimeoutOption → ℕ → FdContext → FdContext
timeout_of so_rcvtimeo ms c = record c { read_timeout = ms }
timeout_of so_sndtimeo ms c = record c { write_timeout = ms }

-- What co_setsockopt keeps of a time-out of `sec` seconds and `usec` microseconds.
pub keep_timeout : ℕ → TimeoutOption → ℕ → ℕ → Contexts → Option Contexts
unfolding timeout_of
keep_timeout fd option sec usec contexts = get_context (pos fd) contexts >>= λ o.
    elim o as (λ x. Option Contexts) [
      | none ↦ some contexts
      | some c ↦
          some (update fd (timeout_of option ((sec * 1000 + usec / 1000) % word64) c) contexts)
    ]
