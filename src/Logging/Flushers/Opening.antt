-- ===== src/Logging/Flushers/Opening.antt =====
-- include/logging/logger_flusher.h: the constructors of `FileFlusher`, over the file system of
-- include/base/file.h.
use net_base.Base.{
  ℕ, ◌≡◌, ◌≢◌, refl, ap, true, false, [], ◌∷◌, Option, none, some, Bytes, All, ◌>>=◌, ==-ne,
}
use net_base.File.{WritableFile}
use net_base.File.Opening.{FileSystem, create_dir, make_missing, open_named, opened}
use net_base.Logging.Flushers.{before_slash, dir_name, file_name}

before_slash-none : (s : Bytes) → All (λ c. c ≢ b'/') s → before_slash s ≡ none
unfolding before_slash
before_slash-none [] h = refl
before_slash-none (c ∷ s) (ne, h) = rw (before_slash-none s h, ==-ne c b'/' ne)

dir_name-whole : (s : Bytes) → All (λ c. c ≢ b'/') s → dir_name s ≡ s
unfolding dir_name
dir_name-whole s h = ap (λ o. elim o [ some t ↦ t | none ↦ s ]) (before_slash-none s h)

-- What Linux documents: a directory is made where ::mkdir succeeds, and is not opened for writing.
pub record FileSystemLaws (system : FileSystem) : Type 1 where
  pub IsDirectory : Bytes → system.World → Type 0
  pub mkdir_law :
      (name : Bytes) (mode : ℕ) (w : system.World)
      → (system.mkdir_sys name mode w).0 ≡ true
      → IsDirectory name (system.mkdir_sys name mode w).1
  pub open_law :
      (name : Bytes) (w : system.World) → IsDirectory name w → (system.open_sys name w).0 ≡ none

module _ (system : FileSystem) (buffer_size : ℕ) where
  open system use {World, stat_sys, mkdir_sys, open_sys}

  -- FileFlusher(const char*); that createDir fails is only reported.
  unfoldable pub named_flusher : Bytes → World → Option WritableFile × World
  unfolding dir_name create_dir open_named
  named_flusher name w = open_named system buffer_size name (create_dir system (dir_name name) w).1

  -- FileFlusher(const String&); `none` is a failed assertion on the pattern.
  pub pattern_flusher :
      (host_name : Bytes) (pid : ℕ) (strftime : Bytes → Bytes)
      → Bytes
      → World
      → Option (Option WritableFile × World)
  unfolding file_name named_flusher
  pattern_flusher host_name pid strftime pattern w =
      file_name host_name pid strftime pattern >>= λ name. some (named_flusher name w)

  -- A log file whose name has no `/`, where nothing has that name yet and a directory can be made,
  -- is not opened: the constructor throws.
  pub named_flusher-none :
      (laws : FileSystemLaws system) (name : Bytes) (w : World)
      → All (λ c. c ≢ b'/') name
      → stat_sys name w ≡ false
      → (mkdir_sys name 448 w).0 ≡ true
      → (named_flusher name w).0 ≡ none
  unfolding named_flusher create_dir make_missing open_named opened
  named_flusher-none laws name w h missing made = rw (
    dir_name-whole name h,
    missing,
    laws.open_law name (mkdir_sys name 448 w).1 (laws.mkdir_law name 448 w made),
  )
