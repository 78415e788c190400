-- ===== src/FdManager.antt =====
-- include/io/fd_manager.h: what the hooks know of each descriptor. The vector of pointers is a
-- list whose entries are null, `none`, or the context pointed to. The lock makes every operation
-- atomic. `none` as the result of an operation is an access outside the vector.
pub mod Contexts
mod Tests
use net_base.Base.{
  ℕ, ◌+◌, ◌*◌, ◌/◌, Bool, true, false, List, [], Option, none, some, length, get_elem?, set, grow,
  ltb, if◌then◌else◌, ℤ, pos, negsuc, ◌>>=◌, word64, ◌-◌,
}

pub record FdContext : Type 0 where
  pub is_socket : Bool
  pub is_initialized : Bool
  pub is_user_non_block : Bool
  pub is_sys_non_block : Bool
  pub read_timeout : ℕ
  pub write_timeout : ℕ

-- The constructor from `is_socket`.
unfoldable pub new_context : Bool → FdContext
new_context is_socket = record {
  is_socket = is_socket;
  is_initialized = true;
  is_user_non_block = false;
  is_sys_non_block = false;
  read_timeout = word64 - 1;
  write_timeout = word64 - 1;
}

abbrev pub Contexts : Type 0
Contexts = List (Option FdContext)

-- contexts_[fd] = value
store : ℕ → Option FdContext → Contexts → Option Contexts
store fd value contexts = if ltb fd (length contexts) then some (set contexts fd value) else none

-- contexts_.resize(static_cast<size_t>(fd * 1.5), nullptr), where `fd` is not below the size.
resize_for : ℕ → Contexts → Contexts
resize_for fd contexts =
    if ltb fd (length contexts) then contexts else grow (fd * 3 / 2) none contexts

pub set_context : ℕ → FdContext → Contexts → Option Contexts
unfolding store resize_for
set_context fd context contexts = store fd (some context) (resize_for fd contexts)

-- A negative descriptor is below every size, and stands before the vector.
unfoldable pub get_context : ℤ → Contexts → Option (Option FdContext)
get_context (pos fd) contexts =
    if ltb fd (length contexts) then get_elem? contexts fd else some none
get_context (negsuc n) contexts = none

is_set : Option FdContext → Bool
is_set none = false
is_set (some context) = true

pub has_fd : ℤ → Contexts → Option Bool
unfolding get_context is_set
has_fd fd contexts = get_context fd contexts >>= λ c. some (is_set c)

pub del_context : ℤ → Contexts → Option Contexts
unfolding store has_fd
del_context (negsuc n) contexts = none
del_context (pos fd) contexts =
    has_fd (pos fd) contexts >>= λ h. if h then store fd none contexts else some contexts
