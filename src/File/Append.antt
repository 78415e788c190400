-- ===== src/File/Append.antt =====
-- `append` of include/base/file.h against the bytes that a file was given.
use mathlib.Core.List.{append_assoc, append-nil}
use mathlib.Core.Path.{subst}
use net_base.Base.{
  ℕ, ◌+◌, ◌≤◌, ◌<◌, ◌≡◌, refl, sym, ap, ◌∙◌, inl, inr, Bool, true, false, List, ◌++◌, some, length,
  take, drop, min, arith, ltb, ◌==◌, if◌then◌else◌, sub64, word64, Bool-cases, ltb→lt, ==_iff,
  length-drop, length-take, length-append, take-append-drop, take-append_add, take-append_le,
  take_all,
}
use net_base.File.{
  Kernel, KernelLaws, WritableFile, memcpy, flush_buffer, after_write, append_rest, copy_in, append,
}
use net_base.File.Write.{length-memcpy, take-memcpy, WroteBytes, write-Writes}
use net_base.File.Flush.{
  buffered, IsValid, copy_in-IsValid, buffered-copy_in, Keeps, KeepsAll, Flushed,
  flush_buffer-Flushed,
}

module _ (k : Kernel) (laws : KernelLaws k) (buffer_size : ℕ) where
  open k use {World, sys_close}
  open laws use {content, signals, close_law}

  -- A long rest is written behind the flushed buffer.
  after_write-Keeps :
      (w v : World) (f : WritableFile) (old rest : List ℕ) (s : Bool × World)
      → IsValid buffer_size f
      → f.pos ≡ 0
      → signals v ≤ signals w
      → content f.fd v ≡ content f.fd w ++ old
      → WroteBytes k laws f.fd v rest s
      → KeepsAll k laws buffer_size w f.fd (old ++ rest) (after_write k f (some s))
  unfolding after_write
  after_write-Keeps w v f old rest (true, u) h z q c (d, e) = (
    (true, u, f),
    refl,
    (h, refl, omega arith, rw (z, append-nil (content f.fd u), d, c) (append_assoc _ old rest)),
  )
  after_write-Keeps w v f old rest (false, u) h z q c (n, l, d, e) = (
    (false, u, f),
    refl,
    (
      h,
      refl,
      omega arith,
      rw z,
      (
        length old + n,
        omega (arith, length-append old rest),
        rw (d, c, take-append_add old rest n) (append_assoc _ old (take n rest)),
      ),
    ),
  )

  -- A short rest is copied to the start of the flushed buffer.
  rebuffer-Keeps :
      (w v : World) (f : WritableFile) (old rest : List ℕ)
      → IsValid buffer_size f
      → signals v ≤ signals w
      → content f.fd v ≡ content f.fd w ++ old
      → length rest < buffer_size
      → Keeps k laws buffer_size w f.fd
          (old ++ rest)
          (true, v, record f { buf = memcpy f.buf 0 rest; pos = length rest })
  rebuffer-Keeps w v f old rest h q c l = (
    record { allocated = omega (arith, h, length-memcpy f.buf 0 rest); within = omega arith },
    refl,
    q,
    rw (copied, c) (append_assoc _ old rest),
  )
    where
      copied : take (length rest) (memcpy f.buf 0 rest) ≡ rest
      copied =
          ap (λ n. take n (memcpy f.buf 0 rest)) (omega arith)
          ∙ take-memcpy f.buf 0 rest (omega arith)

  append_rest-Keeps :
      (fuel : ℕ) (w : World) (f : WritableFile) (rest : List ℕ) (t : Bool × World × WritableFile)
      → IsValid buffer_size f
      → Flushed k laws buffer_size w f t
      → 0 < length rest
      → length rest + signals w ≤ fuel
      → KeepsAll k laws buffer_size w f.fd
          (buffered f ++ rest)
          (append_rest k buffer_size fuel rest (some t))
  unfolding append_rest
  append_rest-Keeps fuel w f rest (false, v, g) h (a, b, c, d, (n, l, e)) p q = (
    (false, v, g),
    refl,
    (
      a,
      b,
      c,
      d,
      (
        n,
        omega (arith, length-append (buffered f) rest),
        rw e (ap (◌++◌ (content f.fd w)) (sym (take-append_le n (buffered f) rest (omega arith)))),
      ),
    ),
  )
  append_rest-Keeps fuel w f rest (true, v, g) h (a, b, c, d, e) p q =
      elim (Bool-cases (ltb (length rest) buffer_size)) [
        | inl short ↦ rw short (
          (true, v, record g { buf = memcpy g.buf 0 rest; pos = length rest }),
          refl,
          subst
              (λ x.
                Keeps k laws buffer_size w x (buffered f ++ rest)
                  (true, v, record g { buf = memcpy g.buf 0 rest; pos = length rest }))
              b (rebuffer-Keeps w v g (buffered f) rest a c (rw b e) (ltb→lt _ _ short)),
        )
        | inr long ↦
            let (s, x, o) = write-Writes k laws fuel v g.fd rest (omega arith) in
            rw (long, x)
              (subst
                (λ x.
                  KeepsAll k laws buffer_size w x (buffered f ++ rest) (after_write k g (some s)))
                b (after_write-Keeps w v g (buffered f) rest s a d c (rw b e) o))
      ]

  -- The buffer takes what fits; the rest goes to a flushed buffer or to the file.
  split-Keeps :
      (fuel n : ℕ) (w : World) (f : WritableFile) (str : List ℕ)
      → IsValid buffer_size f
      → buffer_size + length str + signals w ≤ fuel
      → f.pos + length (take n str) ≤ buffer_size
      → let g = copy_in f (take n str) in
        let rest = drop n str in
        KeepsAll k laws buffer_size w f.fd (buffered f ++ str) (
          if length rest == 0
          then some (true, w, g)
          else append_rest k buffer_size fuel rest (flush_buffer k fuel w g))
  split-Keeps fuel n w f str h e c = elim (Bool-cases (length (drop n str) == 0)) [
    | inl fits ↦ rw fits (
      (true, w, g),
      refl,
      (
        g_valid,
        unfold copy_in in refl,
        omega arith,
        ap (◌++◌ (content f.fd w)) (
            g_holds
            ∙ ap (◌++◌ (buffered f))
                (take_all n str (omega (arith, (==_iff _ _).0 fits, length-drop n str)))),
      ),
    )
    | inr over ↦
        let (t, p, o) =
          flush_buffer-Flushed k laws buffer_size fuel w g g_valid
            (unfold copy_in in omega arith) in
        rw (over, p)
          (subst
            (λ x.
              KeepsAll k laws buffer_size w f.fd x
                (append_rest k buffer_size fuel (drop n str) (some t)))
            total
            (unfold copy_in in
              append_rest-Keeps fuel w g (drop n str) t g_valid o
                (ground (arith, (==_iff (length (drop n str)) 0)))
                (omega (arith, length-drop n str))))
  ]
    where
      g : WritableFile
      g = copy_in f (take n str)

      g_valid : IsValid buffer_size g
      g_valid = copy_in-IsValid buffer_size f (take n str) h c

      g_holds : buffered g ≡ buffered f ++ take n str
      g_holds = buffered-copy_in buffer_size f (take n str) h

      total : buffered g ++ drop n str ≡ buffered f ++ str
      total = rw (g_holds, append_assoc) (ap (◌++◌ (buffered f)) (take-append-drop n str))

  -- For a valid file whose capacity is below 2 ^ 64, with fuel for the capacity, the bytes and
  -- the signals, append returns. After success the contents and then the buffer hold the old
  -- bytes and the new ones, in order; after a failure the contents have grown by a proper prefix
  -- of these and the buffer is empty.
  pub append-Keeps :
      (fuel : ℕ) (w : World) (f : WritableFile) (str : List ℕ)
      → buffer_size < word64
      → IsValid buffer_size f
      → buffer_size + length str + signals w ≤ fuel
      → KeepsAll k laws buffer_size w f.fd (buffered f ++ str) (append k buffer_size fuel w f str)
  unfolding append
  append-Keeps fuel w f str b h e =
      split-Keeps fuel (min (length str) (sub64 buffer_size f.pos)) w f str h e
        (omega (arith, h, length-take (min (length str) (sub64 buffer_size f.pos)) str))
