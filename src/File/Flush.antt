-- ===== src/File/Flush.antt =====
-- The buffer of include/base/file.h, and what `flushBuffer` does with it.
use net_base.Base.{
  ℕ, ◌+◌, ◌≤◌, ◌<◌, ◌≡◌, refl, ap, ◌∙◌, Bool, true, false, List, [], ◌++◌, Option, some, length,
  take, arith, length-take, length-replicate,
}
use net_base.File.{
  Kernel, KernelLaws, WritableFile, Outcome, after_flush, flush_buffer, copy_in, open_file,
}
use net_base.File.Write.{length-memcpy, take-memcpy, WroteBytes, write-Writes}

-- The bytes that wait in the buffer.
abbrev pub buffered : WritableFile → List ℕ
buffered f = take f.pos f.buf

pub record IsValid (buffer_size : ℕ) (f : WritableFile) : Type 0 where
  pub allocated : length f.buf ≡ buffer_size
  pub within : f.pos ≤ buffer_size

pub open_file-IsValid : (n : ℕ) (fd : Option ℕ) → IsValid n (open_file n fd)
unfolding open_file
open_file-IsValid n fd = record { allocated = length-replicate n 0; within = omega arith }

pub buffered-open_file : (n : ℕ) (fd : Option ℕ) → buffered (open_file n fd) ≡ []
unfolding open_file
buffered-open_file n fd = refl

pub copy_in-IsValid :
    (n : ℕ) (f : WritableFile) (str : List ℕ)
    → IsValid n f
    → f.pos + length str ≤ n
    → IsValid n (copy_in f str)
unfolding copy_in
copy_in-IsValid n f str v h = record {
  allocated = omega (arith, v, length-memcpy f.buf f.pos str);
  within = h;
}

pub buffered-copy_in :
    (n : ℕ) (f : WritableFile) (str : List ℕ)
    → IsValid n f
    → buffered (copy_in f str) ≡ buffered f ++ str
unfolding copy_in
buffered-copy_in n f str v = take-memcpy f.buf f.pos str (omega (arith, v))

module _ (k : Kernel) (laws : KernelLaws k) (buffer_size : ℕ) where
  open k use {World, sys_close}
  open laws use {content, signals, close_law}

  -- What an operation keeps that starts from the contents in `w` and has the bytes `total` to
  -- store. After success the contents and then the buffer hold them. After a failure the contents
  -- grew by a proper prefix of them, and the buffer is empty.
  abbrev pub Keeps : World → Option ℕ → List ℕ → Bool × World × WritableFile → Type 0
  Keeps w fd total (true, v, g) =
      IsValid buffer_size g
      × (g.fd ≡ fd)
      × (signals v ≤ signals w)
      × (content fd v ++ buffered g ≡ content fd w ++ total)
  Keeps w fd total (false, v, g) =
      IsValid buffer_size g
      × (g.fd ≡ fd)
      × (signals v ≤ signals w)
      × (buffered g ≡ [])
      × ((n : ℕ) × (n < length total) × (content fd v ≡ content fd w ++ take n total))

  abbrev pub KeepsAll : World → Option ℕ → List ℕ → Outcome k → Type 0
  KeepsAll w fd total r = (s : Bool × World × WritableFile) × (r ≡ some s) × Keeps w fd total s

  -- A flush that succeeds leaves nothing in the buffer.
  abbrev pub Flushed : World → WritableFile → Bool × World × WritableFile → Type 0
  Flushed w f (true, v, g) =
      IsValid buffer_size g
      × (g.fd ≡ f.fd)
      × (signals v ≤ signals w)
      × (g.pos ≡ 0)
      × (content f.fd v ≡ content f.fd w ++ buffered f)
  Flushed w f (false, v, g) = Keeps w f.fd (buffered f) (false, v, g)

  after_flush-Flushed :
      (w : World) (f : WritableFile) (s : Bool × World)
      → IsValid buffer_size f
      → WroteBytes k laws f.fd w (buffered f) s
      → (t : Bool × World × WritableFile) × (after_flush k f (some s) ≡ some t) × Flushed w f t
  unfolding after_flush
  after_flush-Flushed w f (true, v) h (c, d) =
      ((true, v, record f { pos = 0 }), refl, (ground arith, refl, d, refl, c))
  after_flush-Flushed w f (false, v) h (n, l, c, d) =
      ((false, v, record f { pos = 0 }), refl, (ground arith, refl, d, refl, (n, l, c)))

  pub flush_buffer-Flushed :
      (fuel : ℕ) (w : World) (f : WritableFile)
      → IsValid buffer_size f
      → f.pos + signals w ≤ fuel
      → (t : Bool × World × WritableFile) × (flush_buffer k fuel w f ≡ some t) × Flushed w f t
  unfolding flush_buffer
  flush_buffer-Flushed fuel w f h e =
      let (s, p, o) =
        write-Writes k laws fuel w f.fd (buffered f) (omega (arith, length-take f.pos f.buf)) in
      let (t, q, r) = after_flush-Flushed w f s h o in (t, ap (after_flush k f) p ∙ q, r)
