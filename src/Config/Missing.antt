-- ===== src/Config/Missing.antt =====
-- The defaults that `getIfExists` of include/config.h remembers.
use net_base.Base.{find-here, ◌≡◌, subst, sym, ap, ◌∙◌, ◌∷◌, none, some, Bytes}
use net_base.Config.{
  Got, got, key_not_found, bad_any_cast, Library, ConfigBase, cast, get_by, caught,
  get_if_exists_by, json_get, json_get_if_exists, yaml_get, yaml_get_if_exists, json_node,
  yaml_node,
}

module _ {N T A : Type 0} (library : Library N T A) where
  open library use {to_any, any_cast}

  -- A default is cast back to its own type.
  abbrev pub CastsBack : Type 0
  CastsBack = (t : T) → any_cast (to_any t) ≡ some t

  cast-to_any : CastsBack → (t : T) → cast library (to_any t) ≡ got t
  unfolding cast
  cast-to_any back t =
      ap (λ o. elim o as (λ x. Got T) [ some t ↦ got t | none ↦ bad_any_cast ]) (back t)

  get_by-here :
      (load : Bytes → ConfigBase N A → Got T) (key : Bytes) (t : T) (c : ConfigBase N A)
      → CastsBack
      → get_by library load key (record c { miss_map = (key, to_any t) ∷ c.miss_map }) ≡ got t
  unfolding get_by
  get_by-here load key t c back =
      ap
        (λ o. elim o as (λ x. Got T) [
          | some a ↦ cast library a
          | none ↦ load key (record c { miss_map = (key, to_any t) ∷ c.miss_map })
        ])
        (find-here key (to_any t) c.miss_map)
      ∙ cast-to_any back t

  remembers :
      (load : Bytes → ConfigBase N A → Got T) (key : Bytes) (d e : T) (c : ConfigBase N A)
      → CastsBack
      → get_by library load key c ≡ key_not_found
      → ((get_if_exists_by library load key d c).0 ≡ got d)
        × (get_if_exists_by library load key e (get_if_exists_by library load key d c).1
            ≡ (got d, (get_if_exists_by library load key d c).1))
  unfolding get_if_exists_by caught
  remembers load key d e c back missing =
      let first = ap (caught library key d c) missing in
      (
        ap (λ r. r.0) first ∙ cast-to_any back d,
        subst (λ s. get_if_exists_by library load key e s ≡ (got d, s)) (sym (ap (λ r. r.1) first))
            (ap (caught library key e (record c { miss_map = (key, to_any d) ∷ c.miss_map }))
              (get_by-here load key d c back)),
      )

  -- If std::any gives back what it was given: a key that get does not find, in JSON or YAML, is
  -- answered by the default that getIfExists is first called with, and by that value again
  -- whatever default the next call has.
  pub get_if_exists-get_if_exists :
      (key : Bytes) (d e : T) (c : ConfigBase N A)
      → CastsBack
      → (json_get library key c ≡ key_not_found
          → ((json_get_if_exists library key d c).0 ≡ got d)
            × (json_get_if_exists library key e (json_get_if_exists library key d c).1
                ≡ (got d, (json_get_if_exists library key d c).1)))
        × (yaml_get library key c ≡ key_not_found
            → ((yaml_get_if_exists library key d c).0 ≡ got d)
              × (yaml_get_if_exists library key e (yaml_get_if_exists library key d c).1
                  ≡ (got d, (yaml_get_if_exists library key d c).1)))
  unfolding json_get json_get_if_exists yaml_get yaml_get_if_exists
  get_if_exists-get_if_exists key d e c back =
      (remembers (json_node library) key d e c back, remembers (yaml_node library) key d e c back)
