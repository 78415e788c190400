-- ===== src/Info/Frames.antt =====
-- The lines of `backtraceString` in src/base/info.cpp.
use net_base.Base.{
  take-append_exact, lt→ltb, ◌-◌, sym, inr, append_assoc, inl, take, ap₂, Option-cases,
  if◌then◌else◌, drop, ◌⊎◌, ==-ne, ℕ, suc, ◌+◌, ◌≡◌, ◌≢◌, refl, Option, none, some, Bytes, List, [],
  ◌∷◌, ◌++◌, All, arith, ap, ◌∙◌, length,
}
use net_base.Info.{note, scan, mangled, raw_line, demangled_line, line_at, frame_line}

-- Neither '(' nor '+'.
abbrev pub IsPlain : Bytes → Type 0
IsPlain s = All (λ c. (c ≢ b'(') × (c ≢ b'+')) s

note-plain : (i c : ℕ) (seen : Option ℕ × Option ℕ) → c ≢ b'(' → c ≢ b'+' → note i c seen ≡ seen
unfolding note
note-plain i c seen p q = rw (==-ne c b'(' p, ==-ne c b'+' q) refl

scan-plain : (i : ℕ) (seen : Option ℕ × Option ℕ) (s : Bytes) → IsPlain s → scan i seen s ≡ seen
unfolding scan
scan-plain i seen [] h = refl
scan-plain i seen (c ∷ s) ((p, q), h) =
    ap (λ x. scan (suc i) x s) (note-plain i c seen p q) ∙ scan-plain (suc i) seen s h

-- `j` is the position behind `s`.
scan-append :
    (i j : ℕ) (seen : Option ℕ × Option ℕ) (s t : Bytes)
    → j ≡ i + length s
    → scan i seen (s ++ t) ≡ scan j (scan i seen s) t
unfolding scan
scan-append i j seen [] t e = ap (λ n. scan n seen t) (omega (arith, e))
scan-append i j seen (c ∷ s) t e = scan-append (suc i) j (note i c seen) s t (omega (arith, e))

drop-append_suc {ℓ} :
    {A : Type ℓ} (s : List A) (x : A) (t : List A) (n : ℕ)
    → drop (suc (length s + n)) (s ++ x ∷ t) ≡ drop n t
drop-append_suc [] x t n = ap (λ k. drop (suc k) (x ∷ t)) (omega arith)
drop-append_suc (y ∷ s) x t n =
    let e : suc (length s) + n ≡ suc (length s + n) = omega arith in
    ap (λ k. drop k (s ++ x ∷ t)) e ∙ drop-append_suc s x t n

drop-length-append {ℓ} : {A : Type ℓ} (s t : List A) → drop (length s) (s ++ t) ≡ t
drop-length-append [] t = refl
drop-length-append (x ∷ s) t = drop-length-append s t

drop_all-suc {ℓ} :
    {A : Type ℓ} (s : List A) (x : A) (t : List A) → drop (suc (length s)) (s ++ x ∷ t) ≡ t
drop_all-suc s x t = ap (λ k. drop (suc k) (s ++ x ∷ t)) (omega arith) ∙ drop-append_suc s x t 0

take-append_suc {ℓ} :
    {A : Type ℓ} (s : List A) (x : A) (t : List A)
    → take (suc (length s)) (s ++ x ∷ t) ≡ s ++ x ∷ []
take-append_suc [] x t = refl
take-append_suc (y ∷ s) x t = ap (λ l. y ∷ l) (take-append_suc s x t)

-- A symbol of the linker: the file, and in parentheses the mangled name and the offset.
abbrev pub symbol : Bytes → Bytes → Bytes → Bytes
symbol file name rest = file ++ (b'(' ∷ (name ++ (b'+' ∷ rest)))

-- The file may hold any byte.
scan-symbol :
    (file name rest : Bytes)
    → IsPlain name
    → IsPlain rest
    → scan 0 (none, none) (symbol file name rest)
      ≡ (some (length file), some (suc (length file + length name)))
unfolding scan note
scan-symbol file name rest p q =
    scan-append 0 (length file) (none, none) file (b'(' ∷ (name ++ (b'+' ∷ rest))) (omega arith)
    ∙ scan-append (suc (length file)) (suc (length file + length name))
        (some (length file), (scan 0 (none, none) file).1) name (b'+' ∷ rest) (omega arith)
    ∙ ap (λ x. scan (suc (length file + length name)) x (b'+' ∷ rest))
        (scan-plain (suc (length file)) (some (length file), (scan 0 (none, none) file).1) name p)
    ∙ scan-plain (suc (suc (length file + length name)))
        (some (length file), some (suc (length file + length name))) rest q

mangled-symbol :
    (file name rest : Bytes)
    → mangled (length file) (suc (length file + length name)) (symbol file name rest) ≡ name
unfolding mangled
mangled-symbol file name rest =
    ap
      (λ b.
        if b then take (suc (length file + length name) - suc (length file)) (behind) else behind)
      (lt→ltb (length file) (suc (length file + length name)) (omega arith))
    ∙ ap (take (suc (length file + length name) - suc (length file)))
        (drop_all-suc file b'(' (name ++ (b'+' ∷ rest)))
    ∙ ap (λ n. take n (name ++ (b'+' ∷ rest))) (omega arith)
    ∙ take-append_exact (length name) name (b'+' ∷ rest) refl
  where
    behind : Bytes
    behind = drop (suc (length file)) (symbol file name rest)

demangled_line-symbol :
    (file name rest found : Bytes)
    → demangled_line
        (length file)
        (suc (length file + length name))
        (symbol file name rest)
        (some found)
      ≡ raw_line (symbol file found rest)
unfolding demangled_line raw_line
demangled_line-symbol file name rest found =
    ap₂ (λ a b. a ++ (found ++ (b ++ b'\n' ∷ [])))
      (take-append_suc file b'(' (name ++ (b'+' ∷ rest)))
      (drop-append_suc file b'(' (name ++ (b'+' ∷ rest)) (length name)
        ∙ drop-length-append name (b'+' ∷ rest))
    ∙ append_assoc file (b'(' ∷ []) (found ++ ((b'+' ∷ rest) ++ b'\n' ∷ []))
    ∙ ap (λ l. file ++ (b'(' ∷ l)) (sym (append_assoc found (b'+' ∷ rest) (b'\n' ∷ [])))
    ∙ sym (append_assoc file (b'(' ∷ (found ++ (b'+' ∷ rest))) (b'\n' ∷ []))

line_at-symbol :
    (demangle : Bytes → Option Bytes) (file name rest : Bytes)
    → IsPlain name
    → IsPlain rest
    → frame_line demangle (symbol file name rest)
      ≡ demangled_line
          (length file)
          (suc (length file + length name))
          (symbol file name rest)
          (demangle name)
unfolding frame_line line_at
line_at-symbol demangle file name rest p q =
    ap (line_at demangle (symbol file name rest)) (scan-symbol file name rest p q)
    ∙ ap
        (λ n.
          demangled_line (length file) (suc (length file + length name)) (symbol file name rest)
            (demangle n))
        (mangled-symbol file name rest)

-- For a symbol `file(name+rest`, where only the file may hold further parentheses or plus signs,
-- the line of a backtrace is the symbol with the demangled name in place of the name if the
-- demangler knows it, and the symbol as it is otherwise.
pub frame_line-symbol :
    (demangle : Bytes → Option Bytes) (file name rest : Bytes)
    → IsPlain name
    → IsPlain rest
    → ((found : Bytes) × (demangle name ≡ some found)
        × (frame_line demangle (symbol file name rest) ≡ raw_line (symbol file found rest)))
      ⊎ ((demangle name ≡ none)
          × (frame_line demangle (symbol file name rest) ≡ raw_line (symbol file name rest)))
unfolding demangled_line
frame_line-symbol demangle file name rest p q = elim (Option-cases (demangle name)) [
  | inl e ↦ inr (
    e,
    line_at-symbol demangle file name rest p q
        ∙ ap
            (demangled_line (length file) (suc (length file + length name)) (symbol file name rest))
            e,
  )
  | inr (found, e) ↦ inl (
    found,
    e,
    line_at-symbol demangle file name rest p q
        ∙ ap
            (demangled_line (length file) (suc (length file + length name)) (symbol file name rest))
            e
        ∙ demangled_line-symbol file name rest found,
  )
]
