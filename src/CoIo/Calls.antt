-- ===== src/CoIo/Calls.antt =====
-- src/io/co_io_function.cpp: `co_accept`, `co_socket`, the ten calls that read and write, and the
-- arguments that `co_fcntl` hands on, over `ioInner`. While a coroutine is suspended others may
-- change the contexts of descriptors: `later` are those behind the suspension.
pub mod Adopting
use mathlib.Core.Option
use net_base.Base.{ℕ, Bool, true, false, Option, none, some, if◌then◌else◌}
use net_base.FdManager.{Contexts}
use net_base.IoManager.{IoManager, EventType, read, write}
use net_base.CoIo.{IoResult, done, Outcome, returned, Caller, io_inner}
use net_base.CoIo.Options.{Kernel, adopt}

-- The calls that `ioInner` makes, by their system call.
pub data IoCall : Type 0 where
  accept_call read_call readv_call recv_call recvfrom_call recvmsg_call : IoCall
  write_call writev_call send_call sendto_call sendmsg_call : IoCall

-- The event that a call waits for.
unfoldable pub event_of : IoCall → EventType
event_of accept_call = read
event_of read_call = read
event_of readv_call = read
event_of recv_call = read
event_of recvfrom_call = read
event_of recvmsg_call = read
event_of write_call = write
event_of writev_call = write
event_of send_call = write
event_of sendto_call = write
event_of sendmsg_call = write

-- co_read, co_readv, co_recv, co_recvfrom, co_recvmsg, co_write, co_writev, co_send, co_sendto and
-- co_sendmsg; `sys` has the system calls with their arguments.
unfoldable pub co_call :
    {W : Type 0}
    → (IoCall → W → IoResult × W)
    → Caller W
    → ℕ
    → IoCall
    → (fd current expiry : ℕ) → Contexts
    → IoManager
    → W
    → Outcome W
unfolding event_of
co_call sys thread fuel call fd current expiry contexts m w =
    io_inner (record thread { func = sys call }) fuel fd (event_of call) current expiry contexts m w

module _ (k : Kernel) where
  open k use {World}

  -- A descriptor that the system gave; `none` for the contexts is undefined behaviour.
  adopt_result : Contexts → Outcome World → Outcome World × Option Contexts
  adopt_result later (returned (done fd) m w) =
      let (after, v) = adopt k fd later w in (returned (done fd) m v, after)
  adopt_result later o = (o, some later)

  pub co_accept :
      (IoCall → World → IoResult × World)
      → Caller World
      → (fuel s current expiry : ℕ) → (contexts later : Contexts) → IoManager
      → World
      → Outcome World × Option Contexts
  unfolding adopt_result co_call
  co_accept sys thread fuel s current expiry contexts later m w =
      adopt_result later (co_call sys thread fuel accept_call s current expiry contexts m w)

  adopt_socket : Contexts → Option ℕ × World → Option ℕ × Option Contexts × World
  adopt_socket contexts (none, w) = (none, some contexts, w)
  adopt_socket contexts (some fd, w) = let (after, v) = adopt k fd contexts w in (some fd, after, v)

  pub co_socket : (World → Option ℕ × World) → Contexts → World → Option ℕ × Option Contexts × World
  unfolding adopt_socket
  co_socket socket_sys contexts w = adopt_socket contexts (socket_sys w)

-- Commands of fcntl but F_SETFL and F_GETFL; `other_cmd` is any that the switch does not name.
pub data Command : Type 0 where
  dupfd dupfd_cloexec setfd setown setsig setlease notify setpipe_sz : Command
  getfd getown getsig getlease getpipe_sz : Command
  setlk setlkw getlk : Command
  getown_ex setown_ex : Command
  other_cmd : ℕ → Command

-- What the caller has passed behind the command.
pub data Argument : Type 0 where
  no_argument : Argument
  int_argument lock_argument owner_argument : ℕ → Argument

-- The kinds of argument that the switch reads.
pub data Kind : Type 0 where
  reads_int reads_nothing reads_lock reads_owner : Kind

unfoldable pub kind_of : Command → Kind
kind_of dupfd = reads_int
kind_of dupfd_cloexec = reads_int
kind_of setfd = reads_int
kind_of setown = reads_int
kind_of setsig = reads_int
kind_of setlease = reads_int
kind_of notify = reads_int
kind_of setpipe_sz = reads_int
kind_of setlk = reads_lock
kind_of setlkw = reads_lock
kind_of getlk = reads_lock
kind_of getown_ex = reads_owner
kind_of setown_ex = reads_owner
kind_of _ = reads_nothing

-- va_arg with another type than the argument's is undefined: `none`.
unfoldable pub hand_on : Kind → Argument → Option Argument
hand_on reads_nothing a = some no_argument
hand_on reads_int (int_argument n) = some (int_argument n)
hand_on reads_lock (lock_argument p) = some (lock_argument p)
hand_on reads_owner (owner_argument p) = some (owner_argument p)
hand_on _ _ = none

-- co_fcntl for these commands: fcntl_sys, with what is handed on.
unfoldable pub co_fcntl : {R : Type 0} → (Command → Argument → R) → Command → Argument → Option R
unfolding kind_of hand_on
co_fcntl fcntl_sys cmd a = Option.map (fcntl_sys cmd) (hand_on (kind_of cmd) a)
