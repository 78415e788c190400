-- ===== src/Hook.antt =====
-- src/io/hook.cpp: the functions that stand before the system calls of the same names. What a
-- system call and what its version for coroutines do to a world `W` are parameters; both go
-- through the pointers that hook_init looks up, so `none` is a call of a null pointer. The
-- variadic arguments of fcntl and ioctl are left out.
pub mod Routes
mod Tests
use net_base.Base.{Bool, true, false, not, ◌||◌, Option, none, some, if◌then◌else◌}

-- HOOK_FUN
pub data Call : Type 0 where
  sleep usleep nanosleep socket connect accept : Call
  read readv recv recvfrom recvmsg : Call
  write writev send sendto sendmsg : Call
  close fcntl ioctl getsockopt setsockopt : Call

-- G_hookEnabled and G_hookInited
pub record Hooks : Type 0 where
  pub enabled : Bool
  pub inited : Bool

abbrev pub initial_hooks : Hooks
initial_hooks = record { enabled = true; inited = false }

pub set_hook_enabled : Bool → Hooks → Hooks
set_hook_enabled enable h = record h { enabled = enable }

pub hook_init : Hooks → Hooks
hook_init h = if h.inited then h else record h { inited = true }

-- A call through the pointers.
pub through : {R W : Type 0} → (Call → W → R × W) → Call → Hooks → W → Option (R × Hooks × W)
through f c h w = let (r, v) = f c w in if h.inited then some (r, h, v) else none

module _ {R W : Type 0} (sys co : Call → W → R × W) where
  -- A function that asks isHookEnabled, and one that does not.
  pub asking : Call → Hooks → W → Option (R × Hooks × W)
  unfolding through hook_init
  asking c h w =
      if not (hook_init h).enabled
      then through sys c (hook_init h) w
      else through co c (hook_init h) w

  pub not_asking : Call → Hooks → W → Option (R × Hooks × W)
  unfolding through hook_init
  not_asking c h w = through co c (hook_init h) w

  unfoldable pub call : Call → Hooks → W → Option (R × Hooks × W)
  unfolding asking not_asking
  call sleep = asking sleep
  call usleep = not_asking usleep
  call nanosleep = asking nanosleep
  call socket = asking socket
  call connect = asking connect
  call accept = asking accept
  call read = asking read
  call readv = asking readv
  call recv = asking recv
  call recvfrom = asking recvfrom
  call recvmsg = asking recvmsg
  call write = asking write
  call writev = asking writev
  call send = not_asking send
  call sendto = asking sendto
  call sendmsg = asking sendmsg
  call close = asking close
  call fcntl = not_asking fcntl
  call ioctl = not_asking ioctl
  call getsockopt = asking getsockopt
  call setsockopt = asking setsockopt
