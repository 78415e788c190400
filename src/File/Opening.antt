-- ===== src/File/Opening.antt =====
-- include/base/file.h: the constructor of a WritableFile that opens it, and `createDir`. The
-- system calls are the parameter `FileSystem`.
use net_base.Base.{ℕ, Bool, true, false, Option, none, some, Bytes}
use net_base.File.{WritableFile, open_file}

-- Whether ::stat finds something; ::mkdir with its mode; ::open to append to a file that is made
-- if it is missing.
pub record FileSystem : Type 1 where
  pub World : Type 0
  pub stat_sys : Bytes → World → Bool
  pub mkdir_sys : Bytes → ℕ → World → Bool × World
  pub open_sys : Bytes → World → Option ℕ × World

module _ (system : FileSystem) where
  open system use {World, stat_sys, mkdir_sys, open_sys}

  -- The mode of ::mkdir is 0700.
  unfoldable pub make_missing : Bytes → Bool → World → Bool × World
  make_missing name true w = (true, w)
  make_missing name false w = mkdir_sys name 448 w

  -- createDir; `true` is 0.
  unfoldable pub create_dir : Bytes → World → Bool × World
  unfolding make_missing
  create_dir name w = make_missing name (stat_sys name w) w

  -- The file with its descriptor; `none` is the exception ExecFailed.
  unfoldable pub opened : ℕ → Option ℕ → Option WritableFile
  unfolding open_file
  opened buffer_size none = none
  opened buffer_size (some fd) = some (open_file buffer_size (some fd))

  unfoldable pub open_named : ℕ → Bytes → World → Option WritableFile × World
  unfolding opened
  open_named buffer_size name w = let (fd, v) = open_sys name w in (opened buffer_size fd, v)
