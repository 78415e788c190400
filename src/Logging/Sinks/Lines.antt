-- ===== src/Logging/Sinks/Lines.antt =====
-- The texts that a flusher to a file of include/logging/logger_flusher.h is given, and what is in
-- the file behind its destructor.
use net_base.Base.{
  inr, inl, Option-cases, ℕ, ◌+◌, ◌≤◌, ◌<◌, ◌≡◌, refl, sym, ap, ◌∙◌, subst, Bool, true, false, List,
  [], ◌∷◌, ◌++◌, Option, some, Bytes, ◌>>=◌, length, arith, append_assoc, append-nil, OnSome-here,
  word64, length-append,
}
use net_base.File.{Kernel, KernelLaws, WritableFile, append}
use net_base.File.Flush.{buffered, IsValid, Keeps}
use net_base.File.Append.{append-Keeps}
use net_base.File.Close.{Closed, close_file-Closed}
use net_base.File.Errors.{NeverFails, append-Succeeds}
use net_base.Logging.Sinks.{
  Sink, to_file, Outside, flush_file, flush_pool, flush_texts, end_flusher, close_open,
}

abbrev pub joined : List Bytes → Bytes
joined [] = []
joined (s ∷ texts) = s ++ joined texts

module _ (k : Kernel) (laws : KernelLaws k) (buffer_size fuel : ℕ) (never : NeverFails k)
    (small : buffer_size < word64) where
  open k use {World}
  open laws use {content, signals}

  abbrev Holds : World → Option ℕ → Bytes → World × WritableFile → Type 0
  Holds w fd total r = Keeps k laws buffer_size w fd total (true, r.0, r.1)

  as_true :
      (w : World) (fd : Option ℕ) (total : Bytes) (t : Bool × World × WritableFile)
      → t.0 ≡ true
      → Keeps k laws buffer_size w fd total t
      → Holds w fd total (t.1, t.2)
  as_true w fd total (true, v, g) e h = h
  as_true w fd total (false, v, g) e h = absurd (ground (arith, e))

  flush_file-Holds :
      (str : Bytes) (w : World) (f : WritableFile) (fd : Option ℕ)
      → f.fd ≡ fd
      → IsValid buffer_size f
      → buffer_size + length str + signals w ≤ fuel
      → (r : World × WritableFile) × (flush_file k buffer_size fuel str (w, f) ≡ some r)
        × Holds w fd (buffered f ++ str) r
  unfolding flush_file
  flush_file-Holds str w f fd e valid enough =
      let (t, p, h) = append-Keeps k laws buffer_size fuel w f str small valid enough in
      (
        (t.1, t.2),
        ap (λ o. o >>= λ r. some (r.1, r.2)) p,
        subst (λ d. Holds w d (buffered f ++ str) (t.1, t.2)) e
            (as_true w f.fd (buffered f ++ str) t
              (OnSome-here (λ r. r.0 ≡ true) (append k buffer_size fuel w f str) p
                (append-Succeeds k never buffer_size fuel w f str))
              h),
      )

  flush_pool-Holds :
      (texts : List Bytes) (w : World) (f : WritableFile) (fd : Option ℕ)
      → f.fd ≡ fd
      → IsValid buffer_size f
      → buffer_size + length (joined texts) + signals w ≤ fuel
      → (r : World × WritableFile) × (flush_pool k buffer_size fuel texts (w, f) ≡ some r)
        × Holds w fd (buffered f ++ joined texts) r
  unfolding flush_pool
  flush_pool-Holds [] w f fd e valid enough = (
    (w, f),
    refl,
    (valid, e, omega arith, ap (λ l. content fd w ++ l) (sym (append-nil (buffered f)))),
  )
  flush_pool-Holds (str ∷ texts) w f fd e valid enough =
      let (r, p, (valid', e', fewer, h)) =
        flush_file-Holds str w f fd e valid
          (omega (arith, enough, length-append str (joined texts))) in
      let (t, q, (valid'', e'', fewer', h')) =
        flush_pool-Holds texts r.0 r.1 fd e' valid'
          (omega (arith, enough, fewer, length-append str (joined texts))) in
      (
        t,
        ap (λ o. o >>= flush_pool k buffer_size fuel texts) p ∙ q,
        (
          valid'',
          e'',
          omega (arith, fewer, fewer'),
          h'
              ∙ sym (append_assoc (content fd r.0) (buffered r.1) (joined texts))
              ∙ ap (λ l. l ++ joined texts) h
              ∙ append_assoc (content fd w) (buffered f ++ str) (joined texts)
              ∙ ap (λ l. content fd w ++ l) (append_assoc (buffered f) str (joined texts)),
        ),
      )

  abbrev back : Outside k → World × WritableFile → Option (Sink × Outside k)
  back o r = some (to_file r.1, record o { world = r.0 })

  -- What a run over the pool comes to is what the same texts come to one by one.
  pub flush_texts-flush_pool :
      (texts : List Bytes) (f : WritableFile) (o : Outside k)
      → flush_texts k buffer_size fuel texts (to_file f, o)
        ≡ (flush_pool k buffer_size fuel texts (o.world, f) >>= back o)
  unfolding flush_texts flush_pool
  flush_texts-flush_pool [] f o = refl
  flush_texts-flush_pool (str ∷ texts) f o =
      elim (Option-cases (flush_file k buffer_size fuel str (o.world, f))) [
        | inl e ↦
            ap (λ x. (x >>= back o) >>= flush_texts k buffer_size fuel texts) e
            ∙ sym (ap (λ x. (x >>= flush_pool k buffer_size fuel texts) >>= back o) e)
        | inr (r, e) ↦
            ap (λ x. (x >>= back o) >>= flush_texts k buffer_size fuel texts) e
            ∙ flush_texts-flush_pool texts r.1 (record o { world = r.0 })
            ∙ sym (ap (λ x. (x >>= flush_pool k buffer_size fuel texts) >>= back o) e)
      ]

  content-close_file :
      (w : World) (f : WritableFile) (fd : Option ℕ) (t : Bool × World × WritableFile)
      → f.fd ≡ fd
      → Closed k laws buffer_size w f t
      → t.0 ≡ true
      → content fd t.1 ≡ content fd w ++ buffered f
  content-close_file w f fd (true, v, g) e h ok =
      subst (λ d. content d v ≡ content d w ++ buffered f) e h
  content-close_file w f fd (false, v, g) e h ok = absurd (ground (arith, ok))

  -- The destructor of a flusher whose file is open.
  end_flusher-Closed :
      (f : WritableFile) (o : Outside k) (fd : ℕ)
      → f.fd ≡ some fd
      → IsValid buffer_size f
      → buffer_size + signals o.world ≤ fuel
      → (r : Bool × Outside k) × (end_flusher k buffer_size fuel (to_file f, o) ≡ some r)
        × (r.0 ≡ true → content (some fd) r.1.world ≡ content (some fd) o.world ++ buffered f)
  unfolding end_flusher close_open
  end_flusher-Closed f o fd e valid enough =
      let (t, p, h) =
        close_file-Closed k laws buffer_size fuel o.world f valid (omega (arith, valid, enough)) in
      (
        (t.0, record o { world = t.1 }),
        ap (λ d. close_open k buffer_size fuel d f o) e
            ∙ ap (λ x. x >>= λ r. some (r.0, record o { world = r.1 })) p,
        content-close_file o.world f (some fd) t e h,
      )

  -- Over a system whose ::write does not fail, for a flusher with an open, valid file whose
  -- buffer is smaller than 2 ^ 64, with fuel for the buffer, the texts and the signals: the
  -- texts are flushed and the file is closed, and if the closing reports success, the file has
  -- grown by what was buffered and then all the texts, in order.
  pub end_flusher-flush_texts :
      (texts : List Bytes) (f : WritableFile) (o : Outside k) (fd : ℕ)
      → f.fd ≡ some fd
      → IsValid buffer_size f
      → buffer_size + length (joined texts) + signals o.world ≤ fuel
      → (r : Bool × Outside k) × ((flush_texts k buffer_size fuel texts (to_file f, o)
            >>= end_flusher k buffer_size fuel)
          ≡ some r)
        × (r.0 ≡ true
            → content (some fd) r.1.world
              ≡ content (some fd) o.world ++ (buffered f ++ joined texts))
  end_flusher-flush_texts texts f o fd e valid enough =
      let (t, p, (valid', e', fewer, h)) =
        flush_pool-Holds texts o.world f (some fd) e valid enough in
      let (r, q, c) =
        end_flusher-Closed t.1 (record o { world = t.0 }) fd e' valid'
          (omega (arith, enough, fewer)) in
      (
        r,
        ap (λ x. x >>= end_flusher k buffer_size fuel)
              (flush_texts-flush_pool texts f o
                ∙ ap (λ x. x >>= λ r. some (to_file r.1, record o { world = r.0 })) p)
            ∙ q,
        λ ok. c ok ∙ h,
      )
