-- ===== src/Base/Dict.antt =====
-- `BTreeMap` and `HashMap`: association lists in the order of the keys, which is the order in which
-- a `BTreeMap` is walked.
pub mod Laws
pub mod Sum
pub mod Entries
use Prim.Native.String.{String}
use mathlib.Core.Path.{◌≡◌}
use mathlib.Core.Logic.{◌↔◌}
use mathlib.Core.Bool.{Bool, true, false, ◌&&◌, ◌||◌}
use mathlib.Core.Option.{Option, none, some}
use mathlib.Core.List.{List, [], ◌∷◌}
use native.Mathlib.Omega.{arith}
use text.Mathlib.Text.{◌==◌ as str_eq}
use text.Mathlib.TextEquality.{eq_iff}
use mcpstead.Base.Tests.{if◌then◌else◌}
use mcpstead.Base.Text.{str_ltb}

-- a type of keys: equality and a strict order
pub record Key (K : Type 0) : Type 0 where
  pub beq : K → K → Bool
  pub beq_iff : (a b : K) → (beq a b ≡ true) ↔ (a ≡ b)
  pub before : K → K → Bool

instance abbrev pub string_key : Key String
string_key = record { beq = str_eq; beq_iff = eq_iff; before = str_ltb }

abbrev pub pair_beq : String × String → String × String → Bool
pair_beq a b = str_eq a.0 b.0 && str_eq a.1 b.1

abbrev pub pair_before : String × String → String × String → Bool
pair_before a b = str_ltb a.0 b.0 || str_eq a.0 b.0 && str_ltb a.1 b.1

pub pair_beq_iff : (a b : String × String) → (pair_beq a b ≡ true) ↔ (a ≡ b)
pair_beq_iff a b = ground (arith, eq_iff a.0 b.0, eq_iff a.1 b.1)

instance abbrev pub pair_key : Key (String × String)
pair_key = record { beq = pair_beq; beq_iff = pair_beq_iff; before = pair_before }

module _ {K : Type 0} ⦃e : Key K⦄ {V : Type 0} where
  -- `map.get(key)`
  unfoldable pub get : K → List (K × V) → Option V
  get k [] = none
  get k ((j, v) ∷ m) = if e.beq j k then some v else get k m

  -- `map.remove(key)`
  unfoldable pub remove : K → List (K × V) → List (K × V)
  remove k [] = []
  remove k ((j, w) ∷ m) = let rest = remove k m in if e.beq j k then rest else (j, w) ∷ rest

  -- `if let Some(value) = map.get_mut(key) { *value = f(value) }`
  unfoldable pub adjust : K → (V → V) → List (K × V) → List (K × V)
  adjust k f [] = []
  adjust k f ((j, w) ∷ m) = if e.beq j k then (j, f w) ∷ m else (j, w) ∷ adjust k f m

  -- a new key, before the first that is greater
  unfoldable pub place : K → V → List (K × V) → List (K × V)
  place k v [] = (k, v) ∷ []
  place k v ((j, w) ∷ m) = if e.before k j then (k, v) ∷ (j, w) ∷ m else (j, w) ∷ place k v m

  -- `map.insert(key, value)`
  unfoldable pub insert : K → V → List (K × V) → List (K × V)
  unfolding place adjust get
  insert k v m = elim (get k m) [ none ↦ place k v m | some _ ↦ adjust k (λ _. v) m ]

  abbrev pub keys : List (K × V) → List K
  keys [] = []
  keys ((k, v) ∷ m) = k ∷ keys m

  -- `iter.collect()` into a map: later entries take the place of earlier ones
  unfoldable pub collect : List (K × V) → List (K × V) → List (K × V)
  unfolding insert
  collect m [] = m
  collect m ((k, v) ∷ rest) = collect (insert k v m) rest

  -- each key stands once
  abbrev pub IsDistinct : List (K × V) → Type 0
  IsDistinct [] = Unit
  IsDistinct ((k, v) ∷ m) = (get k m ≡ none) × IsDistinct m
