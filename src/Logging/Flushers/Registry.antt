-- ===== src/Logging/Flushers/Registry.antt =====
-- The registry of include/logging/logger_flusher.h as a map that does not tell cases apart.
use net_base.Base.{
  find, find-here, ◌≡◌, ap, ◌∙◌, Bool, true, false, ◌∷◌, none, some, Bytes, to_upper, map,
}
use net_base.Logging.Flushers.{Makers, emplace, register_flush_maker, get_maker}

module _ {A : Type 0} where
  emplace-none :
      (key : Bytes) (a : A) (makers : Makers A)
      → find key makers ≡ none
      → emplace key a makers ≡ (key, a) ∷ makers
  unfolding emplace
  emplace-none key a makers e =
      ap (λ o. elim o as (λ x. Makers A) [ none ↦ (key, a) ∷ makers | some b ↦ makers ]) e

  emplace-some :
      (key : Bytes) (a b : A) (makers : Makers A)
      → find key makers ≡ some b
      → emplace key a makers ≡ makers
  unfolding emplace
  emplace-some key a b makers e =
      ap (λ o. elim o as (λ x. Makers A) [ none ↦ (key, a) ∷ makers | some b ↦ makers ]) e

  register_flush_maker-none :
      (key : Bytes) (a : A) (makers : Makers A)
      → find key makers ≡ none
      → register_flush_maker key a makers ≡ (true, emplace (map to_upper key) a makers)
  unfolding register_flush_maker
  register_flush_maker-none key a makers e =
      ap
        (λ o. elim o as (λ x. Bool × Makers A) [
          | some b ↦ (false, makers)
          | none ↦ (true, emplace (map to_upper key) a makers)
        ])
        e

  -- Registering a maker under a key that is not found as it is spelled: if the upper-case key is
  -- new, the call reports success and every spelling of the key finds the maker; if that key is
  -- taken, the call reports success and changes nothing.
  pub get_maker-register_flush_maker :
      (key spelled : Bytes) (a : A) (makers : Makers A)
      → map to_upper spelled ≡ map to_upper key
      → find key makers ≡ none
      → (find (map to_upper key) makers ≡ none
          → ((register_flush_maker key a makers).0 ≡ true)
            × (get_maker spelled (register_flush_maker key a makers).1 ≡ some a))
        × ((b : A)
            → find (map to_upper key) makers ≡ some b
            → register_flush_maker key a makers ≡ (true, makers))
  unfolding get_maker
  get_maker-register_flush_maker key spelled a makers same new =
      let r = register_flush_maker-none key a makers new in
      (
        λ e. (
          ap (λ r. r.0) r,
          ap (λ k. find k (register_flush_maker key a makers).1) same
              ∙ ap (λ r. find (map to_upper key) r.1) r
              ∙ ap (find (map to_upper key)) (emplace-none (map to_upper key) a makers e)
              ∙ find-here (map to_upper key) a makers,
        ),
        λ b e. r ∙ ap (λ m. (true, m)) (emplace-some (map to_upper key) a b makers e),
      )
