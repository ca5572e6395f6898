-- ===== src/Json.antt =====
-- The part of the crate serde_json that the gateway uses, as an interface: values, objects (`Map`)
-- and the methods that are called. Its documented behaviour is the record of laws.
pub mod Sample
use mcpstead.Base.{
  ℕ, String, Bool, Option, none, some, List, [], ◌∷◌, ◌≡◌, ◌↔◌, ◌<◌, true, if◌then◌else◌, str_eq,
  All,
}
use mcpstead.Base.Int.{ℤ}

pub record Json : Type 1 where
  pub Value : Type 0
  pub Map : Type 0
  -- `==` on values
  pub beq : Value → Value → Bool
  pub null : Value
  pub string : String → Value
  pub bool : Bool → Value
  pub int : ℤ → Value
  pub array : List Value → Value
  pub of_map : Map → Value
  pub as_str : Value → Option String
  pub as_bool : Value → Option Bool
  pub as_i64 : Value → Option ℤ
  pub as_array : Value → Option (List Value)
  pub as_object : Value → Option Map
  -- `value.get(key)` with a text for the key
  pub field : String → Value → Option Value
  -- `Map::new()`, `map.get(key)` and `map.insert(key, value)`
  pub map_new : Map
  pub map_get : String → Map → Option Value
  pub map_insert : String → Value → Map → Map
  -- `serde_json::from_str`, an error left out, and `serde_json::to_string`
  pub from_str : String → Option Value
  pub to_string : Value → String
  -- how deep a value nests, which bounds a recursion over arrays
  pub depth : Value → ℕ

module _ (j : Json) where
  open j use {Value, Map, map_new, map_insert, of_map}

  abbrev pub insert_fields : Map → List (String × Value) → Map
  insert_fields m [] = m
  insert_fields m ((k, v) ∷ fields) = insert_fields (map_insert k v m) fields

  -- `json!({ … })`: an object from its fields
  abbrev pub object : List (String × Value) → Value
  object fields = of_map (insert_fields map_new fields)

-- the documented behaviour
pub record JsonLaws (j : Json) : Type 0 where
  pub beq_iff : (a b : j.Value) → (j.beq a b ≡ true) ↔ (a ≡ b)
  pub as_str-string : (s : String) → j.as_str (j.string s) ≡ some s
  pub as_object-of_map : (m : j.Map) → j.as_object (j.of_map m) ≡ some m
  pub as_array-of_map : (m : j.Map) → j.as_array (j.of_map m) ≡ none
  pub as_array-array : (vs : List j.Value) → j.as_array (j.array vs) ≡ some vs
  pub field-of_map : (k : String) (m : j.Map) → j.field k (j.of_map m) ≡ j.map_get k m
  pub field-array : (k : String) (vs : List j.Value) → j.field k (j.array vs) ≡ none
  pub map_get-new : (k : String) → j.map_get k j.map_new ≡ none
  pub map_get-insert :
      (k l : String) (v : j.Value) (m : j.Map)
      → j.map_get l (j.map_insert k v m) ≡ (if str_eq k l then some v else j.map_get l m)
  pub depth-items :
      (v : j.Value) (vs : List j.Value)
      → j.as_array v ≡ some vs
      → All (λ u. j.depth u < j.depth v) vs
