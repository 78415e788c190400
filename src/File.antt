-- ===== src/File.antt =====
-- include/base/file.h: `WritableFile`, the buffered file that the file loggers write to.
-- `buf_` is a list of bytes, `pos_` the number of bytes in use. The capacity `G_FileBufferSize`
-- is the argument `buffer_size` of each operation. The descriptor -1 is `none`.
-- ::write and ::close are the parameter `Kernel`; its documented behaviour is `KernelLaws`.
pub mod Write
pub mod Flush
pub mod Append
pub mod Close
pub mod Errors
pub mod Opening
mod Tests
use net_base.Base.{
  ℕ, zero, suc, ◌+◌, ◌≤◌, ◌<◌, ◌≡◌, min, Bool, true, false, ◌&&◌, List, [], ◌∷◌, ◌++◌, Option, none,
  some, length, take, drop, replicate, ltb, ◌==◌, if◌then◌else◌, sub64,
}

-- What ::write reports: a count, -1 with EINTR, or -1 with another errno.
pub data WriteResult : Type 0 where
  wrote : ℕ → WriteResult
  interrupted failed : WriteResult

-- The operating system: its state, ::write and ::close.
pub record Kernel : Type 1 where
  pub World : Type 0
  pub sys_write : World → Option ℕ → List ℕ → WriteResult × World
  pub sys_close : World → Option ℕ → Bool × World

-- What a call of ::write did to the file's contents, and to the number of signals still to come.
abbrev pub Written : {W : Type 0} → (W → List ℕ) → (W → ℕ) → W → List ℕ → WriteResult → W → Type 0
Written content signals w bytes (wrote n) v =
    (0 < n) × (n ≤ length bytes) × (content v ≡ content w ++ take n bytes) × (signals v ≤ signals w)
Written content signals w bytes interrupted v =
    (content v ≡ content w) × (suc (signals v) ≤ signals w)
Written content signals w bytes failed v = (content v ≡ content w) × (signals v ≤ signals w)

-- ::write on a descriptor opened with O_APPEND appends a non-empty prefix of what it is given, is
-- interrupted by one of finitely many signals, or fails; ::close changes no contents.
pub record KernelLaws (k : Kernel) : Type 1 where
  pub content : Option ℕ → k.World → List ℕ
  pub signals : k.World → ℕ
  pub write_law :
      (w : k.World) (fd : Option ℕ) (bytes : List ℕ)
      → 0 < length bytes
      → Written (content fd) signals w bytes (k.sys_write w fd bytes).0 (k.sys_write w fd bytes).1
  pub close_law : (w : k.World) (fd : Option ℕ) → content fd (k.sys_close w fd).1 ≡ content fd w

pub record WritableFile : Type 0 where
  pub buf : List ℕ
  pub pos : ℕ
  pub fd : Option ℕ

-- G_FileBufferSize
abbrev pub g_file_buffer_size : ℕ
g_file_buffer_size = 65535

-- memcpy(dst + at, src, length src)
unfoldable pub memcpy : List ℕ → ℕ → List ℕ → List ℕ
memcpy dst at src = take at dst ++ (src ++ drop (at + length src) dst)

-- The constructor, with what ::open returned.
unfoldable pub open_file : ℕ → Option ℕ → WritableFile
open_file buffer_size fd = record { buf = replicate buffer_size 0; pos = 0; fd = fd }

-- The part of a text that still fits, put behind the bytes in the buffer.
pub copy_in : WritableFile → List ℕ → WritableFile
copy_in f str = record f { buf = memcpy f.buf f.pos str; pos = f.pos + length str }

module _ (k : Kernel) where
  open k use {World, sys_write, sys_close}

  -- The body of the loop of `write`: go on behind the bytes written, retry, or give up.
  pub resume :
      (World → Option ℕ → List ℕ → Option (Bool × World))
      → Option ℕ
      → List ℕ
      → WriteResult × World
      → Option (Bool × World)
  resume rest fd bytes (wrote n, w) = rest w fd (drop n bytes)
  resume rest fd bytes (interrupted, w) = rest w fd bytes
  resume rest fd bytes (failed, w) = some (false, w)

  -- `none`: the fuel ran out.
  pub write : ℕ → World → Option ℕ → List ℕ → Option (Bool × World)
  write zero w fd [] = some (true, w)
  write zero w fd (b ∷ bytes) = none
  write (suc fuel) w fd [] = some (true, w)
  write (suc fuel) w fd (b ∷ bytes) =
      resume (write fuel) fd (b ∷ bytes) (sys_write w fd (b ∷ bytes))

  -- The result of an operation of the file: its Boolean, the system and the file after it.
  abbrev pub Outcome : Type 0
  Outcome = Option (Bool × World × WritableFile)

  -- The buffer is emptied whether or not it could be written.
  pub after_flush : WritableFile → Option (Bool × World) → Outcome
  after_flush f none = none
  after_flush f (some (ok, w)) = some (ok, w, record f { pos = 0 })

  pub flush_buffer : ℕ → World → WritableFile → Outcome
  unfolding after_flush
  flush_buffer fuel w f = after_flush f (write fuel w f.fd (take f.pos f.buf))

  pub after_write : WritableFile → Option (Bool × World) → Outcome
  after_write f none = none
  after_write f (some (ok, w)) = some (ok, w, f)

  -- `append` behind its flush: a short rest is buffered, a long one is written.
  pub append_rest : ℕ → ℕ → List ℕ → Outcome → Outcome
  append_rest buffer_size fuel rest none = none
  append_rest buffer_size fuel rest (some (false, w, f)) = some (false, w, f)
  append_rest buffer_size fuel rest (some (true, w, f)) =
      if ltb (length rest) buffer_size
      then some (true, w, record f { buf = memcpy f.buf 0 rest; pos = length rest })
      else after_write f (write fuel w f.fd rest)

  pub append : ℕ → ℕ → World → WritableFile → List ℕ → Outcome
  append buffer_size fuel w f str =
      let copy_size = min (length str) (sub64 buffer_size f.pos) in
      let g = copy_in f (take copy_size str) in
      let rest = drop copy_size str in
      if length rest == 0
      then some (true, w, g)
      else append_rest buffer_size fuel rest (flush_buffer fuel w g)

  -- `closeFile` behind its flush.
  after_close : Bool → WritableFile → Bool × World → Outcome
  after_close flushed f (closed, w) = some (closed && flushed, w, f)

  close_rest : Outcome → Outcome
  close_rest none = none
  close_rest (some (ok, w, f)) = after_close ok f (sys_close w f.fd)

  pub close_file : ℕ → World → WritableFile → Outcome
  unfolding close_rest after_close
  close_file fuel w f = close_rest (flush_buffer fuel w f)

-- Move construction and move assignment: what is returned is `*this` and `_other`.
pub move_file : WritableFile → WritableFile × WritableFile
move_file other = (other, record other { fd = none })
