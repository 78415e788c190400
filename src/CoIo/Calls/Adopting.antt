-- ===== src/CoIo/Calls/Adopting.antt =====
-- `co_accept` of src/io/co_io_function.cpp, and the calls on the descriptor that it returns.
use net_base.Base.{
  ℕ, ◌≡◌, ◌≤◌, ◌⊎◌, refl, ap, ◌∙◌, true, false, some, [], ◌∷◌, All, pos, Bool-cases, inl, inr,
}
use net_base.FdManager.{get_context, FdContext, Contexts, new_context}
use net_base.FdManager.Contexts.{get_context-set_context}
use net_base.IoManager.{IoManager, EventType, read, write}
use net_base.CoIo.{IoResult, done, returned, Caller, io_inner, io_loop, time_out_ms}
use net_base.CoIo.Waiting.{io_inner-waits}
use net_base.CoIo.Options.{Kernel, adopt, ensure_nonblock}
use net_base.Timer.{max_stamp}
use net_base.CoIo.Calls.{
  IoCall, accept_call, read_call, readv_call, recv_call, recvfrom_call, recvmsg_call, write_call,
  writev_call, send_call, sendto_call, sendmsg_call, event_of, co_call, co_accept, adopt_result,
}

module _ (k : Kernel) where
  open k use {World, get_flags_sys, set_flags_sys}

  abbrev adopted : FdContext
  adopted = record (new_context true) { is_sys_non_block = true }

  -- O_NONBLOCK was set already, or F_SETFL is called to add it to the flags that F_GETFL gave.
  abbrev pub SetsNonblock : ℕ → World → World → Type 0
  SetsNonblock fd w v =
      (((get_flags_sys fd w).0.nonblock ≡ true) × (v ≡ (get_flags_sys fd w).1))
      ⊎ (((get_flags_sys fd w).0.nonblock ≡ false)
          × (v
              ≡ (set_flags_sys fd (record (get_flags_sys fd w).0 { nonblock = true })
                  (get_flags_sys fd w).1).1))

  ensure_nonblock-SetsNonblock :
      (fd : ℕ) (w : World) → SetsNonblock fd w (ensure_nonblock k fd (get_flags_sys fd w))
  unfolding ensure_nonblock
  ensure_nonblock-SetsNonblock fd w = elim (Bool-cases (get_flags_sys fd w).0.nonblock) [
    | inl on ↦ inl (on, rw on refl)
    | inr off ↦ inr (off, rw off refl)
  ]

  module _ (sys : IoCall → World → IoResult × World) (thread : Caller World) (fd current expiry : ℕ)
      (after : Contexts) where
    -- The call goes into the loop of ioInner for that event, with the largest time-out.
    abbrev pub Waits : EventType → IoCall → Type 0
    Waits type call =
        (fuel : ℕ) (o : IoManager) (x : World)
        → co_call sys thread fuel call fd current expiry after o x
          ≡ io_loop (record thread { func = sys call }) fd type current expiry max_stamp fuel o x

    -- By the manual pages of the calls: for which of them a descriptor must be readable, and for
    -- which it must be writable.
    abbrev pub WaitAsDocumented : Type 0
    WaitAsDocumented =
        All (Waits read)
          (accept_call ∷ read_call ∷ readv_call ∷ recv_call ∷ recvfrom_call ∷ recvmsg_call ∷ [])
        × All (Waits write) (write_call ∷ writev_call ∷ send_call ∷ sendto_call ∷ sendmsg_call ∷ [])

    adopted-WaitAsDocumented : get_context (pos fd) after ≡ some (some adopted) → WaitAsDocumented
    unfolding co_call event_of time_out_ms new_context
    adopted-WaitAsDocumented found = (
      (
        loops read accept_call,
        (
          loops read read_call,
          (
            loops read readv_call,
            (loops read recv_call, (loops read recvfrom_call, (loops read recvmsg_call, tt))),
          ),
        ),
      ),
      (
        loops write write_call,
        (
          loops write writev_call,
          (loops write send_call, (loops write sendto_call, (loops write sendmsg_call, tt))),
        ),
      ),
    )
      where
        loops :
            (type : EventType) (call : IoCall) (fuel : ℕ) (o : IoManager) (x : World)
            → io_inner (record thread { func = sys call }) fuel fd type current expiry after o x
              ≡ io_loop
                  (record thread { func = sys call })
                  fd
                  type
                  current
                  expiry
                  (time_out_ms type adopted)
                  fuel
                  o
                  x
        loops type call fuel o x =
            io_inner-waits (record thread { func = sys call }) fuel fd type current expiry after o x
              adopted found refl refl

  -- If accept gives a descriptor from 2 on, co_accept returns it with O_NONBLOCK set, or F_SETFL
  -- called to add it to the flags, and afterwards each of the eleven calls on the descriptor
  -- goes into the loop of ioInner with the largest time-out: accept, read, readv, recv, recvfrom
  -- and recvmsg wait for the reading event, write, writev, send, sendto and sendmsg for the
  -- writing event.
  pub co_accept-adopts :
      (sys : IoCall → World → IoResult × World) (thread : Caller World) (fuel s current expiry : ℕ)
      (contexts later : Contexts) (m n : IoManager) (w v : World) (fd : ℕ)
      → co_call sys thread fuel accept_call s current expiry contexts m w ≡ returned (done fd) n v
      → 2 ≤ fd
      → (after : Contexts) × (u : World) × (co_accept k sys thread fuel s current expiry contexts
            later m w
          ≡ (returned (done fd) n u, some after))
        × SetsNonblock fd v u
        × WaitAsDocumented sys thread fd current expiry after
  unfolding co_accept adopt_result adopt new_context
  co_accept-adopts sys thread fuel s current expiry contexts later m n w v fd e high =
      let (after, set, found, kept) = get_context-set_context fd adopted later (inr high) in
      (
        after,
        ensure_nonblock k fd (get_flags_sys fd v),
        ap (adopt_result k later) e
            ∙ ap (λ c. (returned (done fd) n (ensure_nonblock k fd (get_flags_sys fd v)), c)) set,
        ensure_nonblock-SetsNonblock fd v,
        adopted-WaitAsDocumented sys thread fd current expiry after found,
      )
