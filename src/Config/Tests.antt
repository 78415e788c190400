-- ===== src/Config/Tests.antt =====
-- Runs of `getIfExists` of include/config.h on a library whose only node has no fields.
use net_base.Base.{ℕ, ◌≡◌, refl, Bool, true, [], none, some, codes, if◌then◌else◌, false}
use net_base.Config.{
  missing, found, no_fields, bad_subscript, split_string_piece, got, key_not_found, Library,
  ConfigBase, json_get, json_get_if_exists, yaml_get, yaml_get_if_exists,
}
use net_base.Strings.{split_string_piece}
use net_base.Config.Missing.{get_if_exists-get_if_exists}

abbrev bare : Library Bool ℕ ℕ
bare = record {
  field = λ n k. none;
  yaml_field = λ n k. missing;
  is_null = λ n. n;
  as_type = λ n. none;
  to_any = λ t. t;
  any_cast = λ a. some a;
}

abbrev config : ConfigBase Bool ℕ
config = record { node = true; miss_map = [] }

get_if_exists-get_if_exists_example :
    (json_get bare (codes "a.b") config ≡ key_not_found
      → ((json_get_if_exists bare (codes "a.b") 4 config).0 ≡ got 4)
        × (json_get_if_exists bare
              (codes "a.b")
              5
              (json_get_if_exists bare (codes "a.b") 4 config).1
            ≡ (got 4, (json_get_if_exists bare (codes "a.b") 4 config).1)))
    × (yaml_get bare (codes "a.b") config ≡ key_not_found
        → ((yaml_get_if_exists bare (codes "a.b") 4 config).0 ≡ got 4)
          × (yaml_get_if_exists bare
                (codes "a.b")
                5
                (yaml_get_if_exists bare (codes "a.b") 4 config).1
              ≡ (got 4, (yaml_get_if_exists bare (codes "a.b") 4 config).1)))
get_if_exists-get_if_exists_example =
    get_if_exists-get_if_exists bare (codes "a.b") 4 5 config (λ t. refl)

json_missing : json_get bare (codes "a.b") config ≡ key_not_found
unfolding json_get split_string_piece
json_missing = refl

yaml_missing : yaml_get bare (codes "a.b.c.d.e.f") config ≡ key_not_found
unfolding yaml_get split_string_piece
yaml_missing = refl

-- A node with fields, `true`, whose field is a scalar, `false`.
abbrev nested : Library Bool ℕ ℕ
nested = record bare { yaml_field = λ n k. if n then found false else no_fields }

-- A scalar that is subscripted: the exception leaves get.
yaml_scalar : yaml_get nested (codes "a.b") config ≡ bad_subscript
unfolding yaml_get split_string_piece
yaml_scalar = refl
