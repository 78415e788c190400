-- ===== src/Logging/Sinks/Tests.antt =====
-- Two texts to a file whose buffer has four bytes.
use net_base.Base.{
  take_all, sym, length, ap, ℕ, ◌≡◌, refl, Bool, true, [], ◌∷◌, ◌++◌, some, arith, ◌>>=◌, List,
}
use net_base.File.{Kernel, KernelLaws, open_file, wrote}
use net_base.File.Flush.{buffered, open_file-IsValid}
use net_base.File.Errors.{NeverFails}
use net_base.Logging.Sinks.{Outside, to_file, flush_texts, end_flusher}
use net_base.Logging.Sinks.Lines.{end_flusher-flush_texts, joined}

-- The contents of the only file.
abbrev whole : Kernel
whole = record {
  World = List ℕ;
  sys_write = λ d fd bytes. (wrote (length bytes), d ++ bytes);
  sys_close = λ d fd. (true, d);
}

abbrev whole_laws : KernelLaws whole
whole_laws = record {
  content = λ fd d. d;
  signals = λ d. 0;
  write_law = λ w fd bytes h. (
    h,
    omega arith,
    ap (λ l. w ++ l) (sym (take_all (length bytes) bytes (omega arith))),
    omega arith,
  );
  close_law = λ w fd. refl;
}

never_fails : NeverFails whole
never_fails w fd bytes e = cc

abbrev texts : List (List ℕ)
texts = (1 ∷ 2 ∷ 3 ∷ []) ∷ (4 ∷ 5 ∷ 6 ∷ []) ∷ []

abbrev outside : Outside whole
outside = record { printed = []; world = 9 ∷ [] }

end_flusher-flush_texts_example :
    (r : Bool × Outside whole) × ((flush_texts whole 4 10 texts
          (to_file (open_file 4 (some 3)), outside)
        >>= end_flusher whole 4 10)
      ≡ some r)
    × (r.0 ≡ true → r.1.world ≡ (9 ∷ []) ++ (buffered (open_file 4 (some 3)) ++ joined texts))
unfolding open_file
end_flusher-flush_texts_example =
    end_flusher-flush_texts whole whole_laws 4 10 never_fails (omega arith) texts
      (open_file 4 (some 3)) outside 3 refl (open_file-IsValid 4 (some 3)) (omega arith)
