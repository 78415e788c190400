-- ===== src/File/Close.antt =====
-- `closeFile` of include/base/file.h against the bytes in the buffer.
use net_base.Base.{
  ℕ, ◌+◌, ◌≤◌, ◌≡◌, refl, sym, ap, ◌∙◌, Bool, true, false, ◌++◌, Option, some, take, arith,
  length-take, take_all,
}
use net_base.File.{Kernel, KernelLaws, WritableFile, after_close, close_rest, close_file}
use net_base.File.Flush.{buffered, IsValid, Flushed, flush_buffer-Flushed}

module _ (k : Kernel) (laws : KernelLaws k) (buffer_size : ℕ) where
  open k use {World, sys_close}
  open laws use {content, signals, close_law}

  -- The state that `closeFile` ends in: success means that the contents hold all the bytes.
  abbrev pub Closed : World → WritableFile → Bool × World × WritableFile → Type 0
  Closed w f (true, v, g) = content f.fd v ≡ content f.fd w ++ buffered f
  Closed w f (false, v, g) =
      (n : ℕ) × (n ≤ f.pos) × (content f.fd v ≡ content f.fd w ++ take n (buffered f))

  content-close :
      (v : World) (fd fd' : Option ℕ) (c : Bool × World)
      → c ≡ sys_close v fd'
      → fd' ≡ fd
      → content fd c.1 ≡ content fd v
  content-close v fd fd' c p b =
      ap (λ y. content fd y.1) p ∙ ap (λ q. content fd (sys_close v q).1) b ∙ close_law v fd

  after_close-Closed :
      (w : World) (f : WritableFile) (t : Bool × World × WritableFile) (c : Bool × World)
      → c ≡ sys_close t.1 t.2.fd
      → IsValid buffer_size f
      → Flushed k laws buffer_size w f t
      → (u : Bool × World × WritableFile) × (close_rest k (some t) ≡ some u) × Closed w f u
  unfolding close_rest after_close
  after_close-Closed w f (true, v, g) (true, x) p h (a, b, d, z, e) =
      ((true, x, g), rw (← p), content-close v f.fd g.fd (true, x) p b ∙ e)
  after_close-Closed w f (true, v, g) (false, x) p h (a, b, d, z, e) = (
    (false, x, g),
    rw (← p),
    (
      f.pos,
      omega arith,
      content-close v f.fd g.fd (false, x) p b
          ∙ e
          ∙ ap (◌++◌ (content f.fd w))
              (sym (take_all f.pos (buffered f) (omega (arith, length-take f.pos f.buf)))),
    ),
  )
  after_close-Closed w f (false, v, g) (true, x) p h (a, b, d, z, (n, l, e)) = (
    (false, x, g),
    rw (← p),
    (n, omega (arith, length-take f.pos f.buf), content-close v f.fd g.fd (true, x) p b ∙ e),
  )
  after_close-Closed w f (false, v, g) (false, x) p h (a, b, d, z, (n, l, e)) = (
    (false, x, g),
    rw (← p),
    (n, omega (arith, length-take f.pos f.buf), content-close v f.fd g.fd (false, x) p b ∙ e),
  )

  -- For a valid file, with fuel for the buffer and the signals, closeFile returns: with success
  -- the contents have grown by the whole buffer, with failure by a prefix of it.
  pub close_file-Closed :
      (fuel : ℕ) (w : World) (f : WritableFile)
      → IsValid buffer_size f
      → f.pos + signals w ≤ fuel
      → (t : Bool × World × WritableFile) × (close_file k fuel w f ≡ some t) × Closed w f t
  unfolding close_file
  close_file-Closed fuel w f h e =
      let (t, p, o) = flush_buffer-Flushed k laws buffer_size fuel w f h e in
      let (u, q, r) = after_close-Closed w f t _ refl h o in (u, ap (close_rest k) p ∙ q, r)
