-- ===== src/File/Errors.antt =====
-- The operations of include/base/file.h over a system whose ::write does not fail.
use net_base.Base.{
  ℕ, zero, suc, ◌≡◌, ◌≢◌, refl, Bool, true, false, List, [], ◌∷◌, Option, none, some, ltb, ◌==◌,
  if_both, OnSome, length, take, drop, min, sub64,
}
use net_base.File.{
  WriteResult, wrote, interrupted, failed, Kernel, WritableFile, resume, write, after_flush,
  flush_buffer, after_write, append_rest, append, copy_in, Outcome,
}

module _ (k : Kernel) where
  open k use {World, sys_write}

  abbrev pub NeverFails : Type 0
  NeverFails = (w : World) (fd : Option ℕ) (bytes : List ℕ) → (sys_write w fd bytes).0 ≢ failed

  abbrev IsTrue : Option (Bool × World) → Type 0
  IsTrue o = OnSome (λ r. r.0 ≡ true) o

  abbrev Succeeds : Outcome k → Type 0
  Succeeds o = OnSome (λ r. r.0 ≡ true) o

  resume-IsTrue :
      (rest : World → Option ℕ → List ℕ → Option (Bool × World)) (fd : Option ℕ) (bytes : List ℕ)
      (r : WriteResult × World)
      → ((w : World) (bytes : List ℕ) → IsTrue (rest w fd bytes))
      → r.0 ≢ failed
      → IsTrue (resume k rest fd bytes r)
  unfolding resume
  resume-IsTrue rest fd bytes (wrote n, w) h ne = h w (drop n bytes)
  resume-IsTrue rest fd bytes (interrupted, w) h ne = h w bytes
  resume-IsTrue rest fd bytes (failed, w) h ne = absurd (ne refl)

  module _ (never : NeverFails) where
    write-IsTrue :
        (fuel : ℕ) (w : World) (fd : Option ℕ) (bytes : List ℕ) → IsTrue (write k fuel w fd bytes)
    unfolding write
    write-IsTrue zero w fd [] = refl
    write-IsTrue zero w fd (b ∷ bytes) = tt
    write-IsTrue (suc fuel) w fd [] = refl
    write-IsTrue (suc fuel) w fd (b ∷ bytes) =
        resume-IsTrue (write k fuel) fd (b ∷ bytes) (sys_write w fd (b ∷ bytes))
          (λ w bytes. write-IsTrue fuel w fd bytes) (never w fd (b ∷ bytes))

    after_flush-Succeeds :
        (f : WritableFile) (o : Option (Bool × World)) → IsTrue o → Succeeds (after_flush k f o)
    unfolding after_flush
    after_flush-Succeeds f none h = tt
    after_flush-Succeeds f (some (ok, w)) h = h

    after_write-Succeeds :
        (f : WritableFile) (o : Option (Bool × World)) → IsTrue o → Succeeds (after_write k f o)
    unfolding after_write
    after_write-Succeeds f none h = tt
    after_write-Succeeds f (some (ok, w)) h = h

    flush_buffer-Succeeds :
        (fuel : ℕ) (w : World) (f : WritableFile) → Succeeds (flush_buffer k fuel w f)
    unfolding flush_buffer
    flush_buffer-Succeeds fuel w f =
        after_flush-Succeeds f (write k fuel w f.fd (take f.pos f.buf))
          (write-IsTrue fuel w f.fd (take f.pos f.buf))

    append_rest-Succeeds :
        (buffer_size fuel : ℕ) (rest : List ℕ) (o : Outcome k)
        → Succeeds o
        → Succeeds (append_rest k buffer_size fuel rest o)
    unfolding append_rest
    append_rest-Succeeds buffer_size fuel rest none h = tt
    append_rest-Succeeds buffer_size fuel rest (some (false, w, f)) h = h
    append_rest-Succeeds buffer_size fuel rest (some (true, w, f)) h =
        if_both Succeeds (ltb (length rest) buffer_size) refl
          (after_write-Succeeds f (write k fuel w f.fd rest) (write-IsTrue fuel w f.fd rest))

    pub append-Succeeds :
        (buffer_size fuel : ℕ) (w : World) (f : WritableFile) (str : List ℕ)
        → OnSome (λ r. r.0 ≡ true) (append k buffer_size fuel w f str)
    unfolding append
    append-Succeeds buffer_size fuel w f str =
        let n = min (length str) (sub64 buffer_size f.pos) in
        if_both Succeeds (length (drop n str) == 0) refl (
          append_rest-Succeeds buffer_size fuel (drop n str)
            (flush_buffer k fuel w (copy_in f (take n str)))
            (flush_buffer-Succeeds fuel w (copy_in f (take n str))))
