-- ===== src/Config.antt =====
-- include/config.h: JsonConfig and YamlConfig over the libraries for JSON and YAML. A node `N` has
-- fields and a conversion to the type `T` that is asked for; `A` is std::any.
pub mod Missing
mod Tests
use net_base.Base.{
  find, ℕ, zero, suc, ◌≤◌, ◌≡◌, Bool, true, false, List, [], ◌∷◌, Option, none, some, Bytes, codes,
  map, ◌>>=◌, if◌then◌else◌, ◌&&◌, ◌==◌, leb, length,
}
use net_base.Strings.{split_string_piece, piece_text}

-- What a call returns, or the exception that leaves it.
pub data Got (T : Type 0) : Type 0 where
  got : T → Got T
  key_not_found convert_failed bad_any_cast bad_subscript : Got T

-- What `operator[]` of the library for YAML gives: a node, one that is missing (and is not there to
-- be subscripted or assigned, which throws InvalidNode), or BadSubscript for what has no fields.
pub data Subscript (N : Type 0) : Type 0 where
  found : N → Subscript N
  missing no_fields : Subscript N

-- The libraries: `field`, of JSON, is none for a missing field, `as_type` for a conversion that
-- fails.
pub record Library (N T A : Type 0) : Type 0 where
  pub field : N → Bytes → Option N
  pub yaml_field : N → Bytes → Subscript N
  pub is_null : N → Bool
  pub as_type : N → Option T
  pub to_any : T → A
  pub any_cast : A → Option T

-- The loaded node, and miss_map_ with its newest entry first.
pub record ConfigBase (N A : Type 0) : Type 0 where
  pub node : N
  pub miss_map : List (Bytes × A)

-- The keys between the dots.
pub keys_of : Bytes → List Bytes
keys_of key = map (piece_text key) (split_string_piece key (codes "."))

module _ {N T A : Type 0} (library : Library N T A) where
  open library use {field, yaml_field, is_null, as_type, to_any, any_cast}

  pub cast : A → Got T
  cast a = elim (any_cast a) [ some t ↦ got t | none ↦ bad_any_cast ]

  pub converted : N → Got T
  converted n = elim (as_type n) [ some t ↦ got t | none ↦ convert_failed ]

  -- The node under a path.
  pub walk : List Bytes → N → Option N
  walk [] n = some n
  walk (k ∷ keys) n = field n k >>= walk keys

  pub at_path : Option N → Got T
  unfolding converted
  at_path none = key_not_found
  at_path (some n) = converted n

  -- JsonConfig::get behind the look at miss_map_
  pub json_node : Bytes → ConfigBase N A → Got T
  unfolding walk at_path keys_of
  json_node key c = at_path (walk (keys_of key) c.node)

  yaml_then : (N → Subscript N) → Subscript N → Subscript N
  yaml_then rest (found n) = rest n
  yaml_then rest missing = missing
  yaml_then rest no_fields = no_fields

  -- The chain of subscripts.
  pub yaml_walk : List Bytes → N → Subscript N
  unfolding yaml_then
  yaml_walk [] n = found n
  yaml_walk (k ∷ keys) n = yaml_then (yaml_walk keys) (yaml_field n k)

  -- What YamlConfig::get finds: of one key the whole text is looked up, and of more than five
  -- keys the node stays null, as for a node that is missing.
  pub yaml_path : Bytes → List Bytes → N → Subscript N
  unfolding yaml_walk
  yaml_path key [] n = missing
  yaml_path key (k ∷ []) n = yaml_field n key
  yaml_path key (k ∷ l ∷ keys) n =
      if leb (length keys) 3 then yaml_walk (k ∷ l ∷ keys) n else missing

  -- BadSubscript is not caught.
  pub not_null : Subscript N → Got T
  unfolding converted
  not_null missing = key_not_found
  not_null no_fields = bad_subscript
  not_null (found n) = if is_null n then key_not_found else converted n

  -- YamlConfig::get behind the look at miss_map_
  pub yaml_node : Bytes → ConfigBase N A → Got T
  unfolding yaml_path not_null keys_of
  yaml_node key c = not_null (yaml_path key (keys_of key) c.node)

  -- get, of either class: a missing key that was asked for with a default first.
  pub get_by : (Bytes → ConfigBase N A → Got T) → Bytes → ConfigBase N A → Got T
  unfolding cast
  get_by load key c = elim (find key c.miss_map) [ some a ↦ cast a | none ↦ load key c ]

  -- The catch clauses of getIfExists
  pub caught : Bytes → T → ConfigBase N A → Got T → Got T × ConfigBase N A
  unfolding cast
  caught key default_value c key_not_found = (
    cast (to_any default_value),
    record c { miss_map = (key, to_any default_value) ∷ c.miss_map },
  )
  caught key default_value c r = (r, c)

  -- getIfExists, of either class
  pub get_if_exists_by :
      (Bytes → ConfigBase N A → Got T) → Bytes → T → ConfigBase N A → Got T × ConfigBase N A
  unfolding get_by caught
  get_if_exists_by load key default_value c = caught key default_value c (get_by load key c)

  -- JsonConfig::get and getIfExists
  unfoldable pub json_get : Bytes → ConfigBase N A → Got T
  unfolding json_node get_by
  json_get key c = get_by json_node key c

  unfoldable pub json_get_if_exists : Bytes → T → ConfigBase N A → Got T × ConfigBase N A
  unfolding json_node get_if_exists_by
  json_get_if_exists key default_value c = get_if_exists_by json_node key default_value c

  -- YamlConfig::get and getIfExists
  unfoldable pub yaml_get : Bytes → ConfigBase N A → Got T
  unfolding yaml_node get_by
  yaml_get key c = get_by yaml_node key c

  unfoldable pub yaml_get_if_exists : Bytes → T → ConfigBase N A → Got T × ConfigBase N A
  unfolding yaml_node get_if_exists_by
  yaml_get_if_exists key default_value c = get_if_exists_by yaml_node key default_value c
