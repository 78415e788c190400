-- ===== src/File/Write.antt =====
-- The write loop and the buffer copy of include/base/file.h.
use mathlib.Core.List.{append_assoc, append-nil}
use native.Mathlib.Nat.{zero-add, suc-add}
use net_base.Base.{
  ℕ, zero, suc, ◌+◌, ◌≤◌, ◌<◌, ◌≡◌, refl, sym, ap, ◌∙◌, Bool, true, false, List, [], ◌∷◌, ◌++◌,
  Option, some, length, take, drop, arith, length-drop, length-take, length-append,
  take-append-drop, take-append_exact,
}
use net_base.File.{
  WriteResult, wrote, interrupted, failed, Kernel, KernelLaws, Written, memcpy, resume, write,
}

pub length-memcpy :
    (dst : List ℕ) (at : ℕ) (src : List ℕ)
    → at + length src ≤ length dst
    → length (memcpy dst at src) ≡ length dst
unfolding memcpy
length-memcpy dst at src h = omega (
  arith,
  length-append (take at dst) (src ++ drop (at + length src) dst),
  length-append src (drop (at + length src) dst),
  length-take at dst,
  length-drop (at + length src) dst,
)

pub take-memcpy :
    (dst : List ℕ) (at : ℕ) (src : List ℕ)
    → at ≤ length dst
    → take (at + length src) (memcpy dst at src) ≡ take at dst ++ src
unfolding memcpy
take-memcpy dst at src h =
    ap (take (at + length src)) (sym (append_assoc (take at dst) src _))
    ∙ take-append_exact (at + length src) (take at dst ++ src) _
        (omega (arith, length-append (take at dst) src, length-take at dst))

take-take-drop :
    (n m : ℕ) (bytes : List ℕ)
    → n ≤ length bytes
    → take n bytes ++ take m (drop n bytes) ≡ take (n + m) bytes
take-take-drop zero m bytes h = rw zero-add
take-take-drop (suc n) m [] h = absurd (omega arith)
take-take-drop (suc n) m (b ∷ bytes) h =
    rw suc-add (ap (◌∷◌ b) (take-take-drop n m bytes (omega arith)))

module _ (k : Kernel) (laws : KernelLaws k) where
  open k use {World, sys_write}
  open laws use {content, signals, write_law}

  -- All bytes arrived, or, after an error, a proper prefix of them.
  abbrev pub WroteBytes : Option ℕ → World → List ℕ → Bool × World → Type 0
  WroteBytes fd w bytes (true, v) = (content fd v ≡ content fd w ++ bytes) × (signals v ≤ signals w)
  WroteBytes fd w bytes (false, v) =
      (n : ℕ) × (n < length bytes)
      × (content fd v ≡ content fd w ++ take n bytes)
      × (signals v ≤ signals w)

  abbrev pub Writes : Option ℕ → World → List ℕ → Option (Bool × World) → Type 0
  Writes fd w bytes r = (s : Bool × World) × (r ≡ some s) × WroteBytes fd w bytes s

  -- What the rest of the loop does, seen from before a step that wrote `n` bytes.
  WroteBytes-shift :
      (fd : Option ℕ) (w v : World) (bytes : List ℕ) (n : ℕ) (s : Bool × World)
      → n ≤ length bytes
      → content fd v ≡ content fd w ++ take n bytes
      → signals v ≤ signals w
      → WroteBytes fd v (drop n bytes) s
      → WroteBytes fd w bytes s
  WroteBytes-shift fd w v bytes n (true, u) h e q (c, d) =
      (rw (c, e, append_assoc, take-append-drop n bytes), omega arith)
  WroteBytes-shift fd w v bytes n (false, u) h e q (m, l, c, d) = (
    n + m,
    omega (arith, length-drop n bytes),
    rw (c, e, append_assoc) (ap (◌++◌ (content fd w)) (take-take-drop n m bytes h)),
    omega arith,
  )

  -- One round of the loop, from the law of ::write and the rounds that follow.
  resume-Writes :
      (fuel : ℕ) (fd : Option ℕ) (w : World) (bytes : List ℕ) (r : WriteResult) (v : World)
      → ((u : World) (rest : List ℕ)
          → length rest + signals u ≤ fuel
          → Writes fd u rest (write k fuel u fd rest))
      → 0 < length bytes
      → length bytes + signals w ≤ suc fuel
      → Written (content fd) signals w bytes r v
      → Writes fd w bytes (resume k (write k fuel) fd bytes (r, v))
  unfolding resume
  resume-Writes fuel fd w bytes (wrote n) v ih p h law =
      let (s, e, o) = ih v (drop n bytes) (omega (arith, length-drop n bytes)) in
      (s, e, WroteBytes-shift fd w v bytes n s law.1 law.2 law.3 o)
  resume-Writes fuel fd w bytes interrupted v ih p h law =
      let (s, e, o) = ih v bytes (omega arith) in
      (
        s,
        e,
        WroteBytes-shift fd w v bytes 0 s (omega arith) (law.0 ∙ sym (append-nil (content fd w)))
            (omega arith) o,
      )
  resume-Writes fuel fd w bytes failed v ih p h law =
      ((false, v), refl, (0, p, law.0 ∙ sym (append-nil (content fd w)), law.1))

  -- With fuel for every byte and every interrupting signal the loop around ::write returns: with
  -- success all bytes are written behind the contents, with failure a proper prefix of them.
  pub write-Writes :
      (fuel : ℕ) (w : World) (fd : Option ℕ) (bytes : List ℕ)
      → length bytes + signals w ≤ fuel
      → Writes fd w bytes (write k fuel w fd bytes)
  unfolding write
  write-Writes zero w fd [] h = ((true, w), refl, (sym (append-nil (content fd w)), omega arith))
  write-Writes zero w fd (b ∷ bytes) h = absurd (omega arith)
  write-Writes (suc fuel) w fd [] h =
      ((true, w), refl, (sym (append-nil (content fd w)), omega arith))
  write-Writes (suc fuel) w fd (b ∷ bytes) h =
      resume-Writes fuel fd w (b ∷ bytes) _ _ (λ u rest. write-Writes fuel u fd rest) (omega arith)
        h (write_law w fd (b ∷ bytes) (omega arith))
