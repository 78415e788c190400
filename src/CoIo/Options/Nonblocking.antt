-- ===== src/CoIo/Options/Nonblocking.antt =====
-- What the calls of src/io/co_io_function.cpp that change a descriptor's flags, time-outs or
-- life mean for `ioInner` and for the IOManager.
use net_base.Base.{
  false, inr, >>=-eq-some, sym, inl, subst, inl, Bool-cases, ℕ, ◌+◌, ◌*◌, ◌/◌, ◌%◌, ◌≡◌, ◌<◌, refl,
  ap, ◌∙◌, Bool, true, Option, none, some, if◌then◌else◌, ◌>>=◌, pos, word64, arith,
}
use net_base.FdManager.{FdContext, Contexts, get_context, del_context}
use net_base.FdManager.Contexts.{get_context-update, has_fd-get_context, get_context-del_context}
use net_base.IoManager.{IoManager, EventType, read, write, has_event, remove_event}
use net_base.IoManager.Epoll.{union, in_events, out_events}
use net_base.IoManager.Remove.{has_event-remove_event}
use net_base.CoIo.{is_direct, time_out_ms}
use net_base.CoIo.Options.{
  KernelLaws, seen_flags, get_flags, Flags, Kernel, update, set_flags, set_flags_of, user_nonblock,
  set_nonblock, close_known, co_close, keep_timeout, timeout_of, so_rcvtimeo,
}

abbrev with_nonblock : Bool → Flags → Flags
with_nonblock b g = record g { nonblock = b }

module _ (k : Kernel) where
  open k use {World, get_flags_sys, set_flags_sys, ioctl_sys, close_sys}

  -- For a known socket, FIONBIO passes the wish on to the system, and calls are then made
  -- directly if and only if the wish was to be non-blocking.
  pub is_direct-set_nonblock :
      (fd : ℕ) (b : Bool) (contexts : Contexts) (c : FdContext) (w : World)
      → get_context (pos fd) contexts ≡ some (some c)
      → c.is_socket ≡ true
      → (after : Contexts) × (d : FdContext) × (set_nonblock k fd b contexts w
          ≡ some (ioctl_sys fd b w, after))
        × (get_context (pos fd) after ≡ some (some d))
        × (is_direct (some d) ≡ b)
  unfolding set_nonblock user_nonblock is_direct
  is_direct-set_nonblock fd b contexts c w e socket =
      let d = record c { is_user_non_block = b } in
      (
        update fd d contexts,
        d,
        ap (λ o. o >>= λ o. some (ioctl_sys fd b w, user_nonblock k fd b contexts o)) e
            ∙ ap (λ s. some (ioctl_sys fd b w, if s then update fd d contexts else contexts))
                socket,
        get_context-update fd c d contexts e,
        rw socket refl,
      )

  -- For a known socket, F_SETFL passes the flags on to the system, and, whatever they are, calls
  -- are then made directly or not as before.
  pub is_direct-set_flags :
      (fd : ℕ) (flags : Flags) (contexts : Contexts) (c : FdContext) (w : World)
      → get_context (pos fd) contexts ≡ some (some c)
      → c.is_socket ≡ true
      → (after : Contexts) × (set_flags k fd flags contexts w
          ≡ some (set_flags_sys fd flags w, after))
        × (d : FdContext) × (get_context (pos fd) after ≡ some (some d))
        × (is_direct (some d) ≡ is_direct (some c))
  unfolding set_flags set_flags_of
  is_direct-set_flags fd flags contexts c w e socket = (
    contexts,
    ap (λ o. o >>= λ o. some (set_flags_of k fd flags contexts w o)) e
        ∙ ap
            (λ s. some (
              if s then (set_flags_sys fd flags w, contexts) else (
                set_flags_sys fd (record flags { nonblock = true }) w,
                update fd (record c { is_user_non_block = flags.nonblock; is_sys_non_block = true })
                    contexts,
              )))
            socket,
    c,
    e,
    refl,
  )

  set_flags-context :
      (fd : ℕ) (flags : Flags) (contexts : Contexts) (o : Option FdContext) (w : World)
      → get_context (pos fd) contexts ≡ some o
      → set_flags k fd flags contexts w ≡ some (set_flags_of k fd flags contexts w o)
  unfolding set_flags
  set_flags-context fd flags contexts o w e =
      ap (λ o. o >>= λ o. some (set_flags_of k fd flags contexts w o)) e

  get_flags-context :
      (fd : ℕ) (contexts : Contexts) (o : Option FdContext) (w : World)
      → get_context (pos fd) contexts ≡ some o
      → get_flags k fd contexts w
        ≡ some (seen_flags k (get_flags_sys fd w).0 o, (get_flags_sys fd w).1)
  unfolding get_flags
  get_flags-context fd contexts o w e =
      ap (λ o. o >>= λ o. some (seen_flags k (get_flags_sys fd w).0 o, (get_flags_sys fd w).1)) e

  -- What F_GETFL shows behind the result `s` of F_SETFL, if that succeeded.
  abbrev Shows : ℕ → Flags → (Bool × World) × Contexts → Type 0
  Shows fd flags s =
      s.0.0 ≡ true
      → (d : Option FdContext) × (get_context (pos fd) s.1 ≡ some d)
        × (seen_flags k (get_flags_sys fd s.0.1).0 d ≡ flags)

  seen_flags-some :
      (g : Flags) (c : FdContext) (b : Bool)
      → c.is_socket ≡ b
      → seen_flags k g (some c) ≡ (if b then g else record g { nonblock = c.is_user_non_block })
  unfolding seen_flags
  seen_flags-some g c b e = ap (λ b. if b then g else record g { nonblock = c.is_user_non_block }) e

  set_flags_of-some :
      (fd : ℕ) (flags : Flags) (contexts : Contexts) (c : FdContext) (w : World) (b : Bool)
      → c.is_socket ≡ b
      → set_flags_of k fd flags contexts w (some c) ≡ (
          if b then (set_flags_sys fd flags w, contexts) else (
            set_flags_sys fd (record flags { nonblock = true }) w,
            update fd
                (record c { is_user_non_block = flags.nonblock; is_sys_non_block = true })
                contexts,
          ))
  unfolding set_flags_of
  set_flags_of-some fd flags contexts c w b e =
      ap
        (λ b. if b then (set_flags_sys fd flags w, contexts) else (
          set_flags_sys fd (record flags { nonblock = true }) w,
          update fd (record c { is_user_non_block = flags.nonblock; is_sys_non_block = true })
              contexts,
        ))
        e

  seen-set_flags_of :
      (laws : KernelLaws k) (fd : ℕ) (flags : Flags) (contexts : Contexts) (o : Option FdContext)
      (w : World)
      → get_context (pos fd) contexts ≡ some o
      → Shows fd flags (set_flags_of k fd flags contexts w o)
  unfolding set_flags_of seen_flags
  seen-set_flags_of laws fd flags contexts none w e =
      λ h. (none, e, laws.get_flags_sys-set_flags_sys fd flags w h)
  seen-set_flags_of laws fd flags contexts (some c) w e = elim (Bool-cases c.is_socket) [
    | inl socket ↦
        subst (Shows fd flags) (sym (set_flags_of-some fd flags contexts c w true socket)) (λ h. (
          some c,
          e,
          seen_flags-some _ c true socket ∙ laws.get_flags_sys-set_flags_sys fd flags w h,
        ))
    | inr plain ↦
        let d = record c { is_user_non_block = flags.nonblock; is_sys_non_block = true } in
        subst (Shows fd flags) (sym (set_flags_of-some fd flags contexts c w false plain)) (λ h. (
          some d,
          get_context-update fd c d contexts e,
          seen_flags-some _ d false plain
              ∙ ap (with_nonblock flags.nonblock)
                  (laws.get_flags_sys-set_flags_sys fd (record flags { nonblock = true }) w h),
        ))
  ]

  -- With fcntl(2) as documented, after F_SETFL succeeds F_GETFL reports exactly the flags that
  -- were set, for every descriptor that is not negative, a socket or not.
  pub get_flags-set_flags :
      (laws : KernelLaws k) (fd : ℕ) (flags : Flags) (contexts after : Contexts) (w v : World)
      → set_flags k fd flags contexts w ≡ some ((true, v), after)
      → (u : World) × (get_flags k fd after v ≡ some (flags, u))
  unfolding set_flags
  get_flags-set_flags laws fd flags contexts after w v h =
      let (o, e, q) =
        >>=-eq-some (get_context (pos fd) contexts)
          (λ o. some (set_flags_of k fd flags contexts w o)) h in
      let same : set_flags_of k fd flags contexts w o ≡ ((true, v), after) = cc q in
      let (d, at, sees) =
        subst (Shows fd flags) same (seen-set_flags_of laws fd flags contexts o w e) refl in
      (
        (get_flags_sys fd v).1,
        get_flags-context fd after d v at ∙ ap (λ f. some (f, (get_flags_sys fd v).1)) sees,
      )

  close_known-true :
      (fd : ℕ) (contexts after : Contexts) (m : IoManager)
      → del_context (pos fd) contexts ≡ some after
      → close_known k true fd contexts m
        ≡ some (after, remove_event fd (union in_events out_events) m)
  unfolding close_known
  close_known-true fd contexts after m q =
      ap (λ o. o >>= λ after. some (after, remove_event fd (union in_events out_events) m)) q

  -- Closing a known descriptor is defined, calls ::close once and forgets the context, but
  -- hasEvent answers for the descriptor and every event as before.
  pub has_event-co_close :
      (fd : ℕ) (contexts : Contexts) (c : FdContext) (m : IoManager) (w : World)
      → get_context (pos fd) contexts ≡ some (some c)
      → (after : Contexts) × (n : IoManager) × (co_close k fd contexts m w
          ≡ some (close_sys fd w, after, n))
        × (get_context (pos fd) after ≡ some none)
        × ((type : EventType) → has_event fd type n ≡ has_event fd type m)
  unfolding co_close
  has_event-co_close fd contexts c m w e =
      let (after, q, gone, same) = get_context-del_context fd contexts in
      (
        after,
        remove_event fd (union in_events out_events) m,
        ap
              (λ o. o >>= λ known.
                close_known k known fd contexts m >>= λ a. some (close_sys fd w, a.0, a.1))
              (has_fd-get_context fd contexts c e)
            ∙ ap (λ o. o >>= λ a. some (close_sys fd w, a.0, a.1))
                (close_known-true fd contexts after m q),
        gone,
        λ type. has_event-remove_event fd fd (union in_events out_events) type m,
      )

-- For a descriptor with a context, the reading time-out that setsockopt was given, if it is
-- below 2 ^ 64 milliseconds, is the one that reading then waits for, and that of writing stays.
pub time_out_ms-keep_timeout :
    (fd sec usec : ℕ) (contexts : Contexts) (c : FdContext)
    → get_context (pos fd) contexts ≡ some (some c)
    → sec * 1000 + usec / 1000 < word64
    → (after : Contexts) × (d : FdContext) × (keep_timeout fd so_rcvtimeo sec usec contexts
        ≡ some after)
      × (get_context (pos fd) after ≡ some (some d))
      × (time_out_ms read d ≡ sec * 1000 + usec / 1000)
      × (time_out_ms write d ≡ time_out_ms write c)
unfolding keep_timeout timeout_of time_out_ms
time_out_ms-keep_timeout fd sec usec contexts c e l =
    let d = timeout_of so_rcvtimeo ((sec * 1000 + usec / 1000) % word64) c in
    (
      update fd d contexts,
      d,
      ap
          (λ o. o >>= λ o. elim o as (λ x. Option Contexts) [
            | none ↦ some contexts
            | some c ↦ some (
                update fd (timeout_of so_rcvtimeo ((sec * 1000 + usec / 1000) % word64) c) contexts)
          ])
          e,
      get_context-update fd c d contexts e,
      omega (arith, l),
      refl,
    )
