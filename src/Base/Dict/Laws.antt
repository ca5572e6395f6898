-- ===== src/Base/Dict/Laws.antt =====
-- What a lookup finds after an update, and the number of entries.
use mcpstead.Base.Lists.{length}
use mathlib.Core.Path.{◌≡◌, refl}
use mathlib.Core.Bool.{true}
use mathlib.Core.Option
use mathlib.Core.Option.{Option, none, some}
use mathlib.Core.List.{List, [], ◌∷◌}
use Prim.Native.Nat.{◌+◌}
use native.Mathlib.Omega.{arith}
use mcpstead.Base.Tests.{if◌then◌else◌}
use mcpstead.Base.Dict.{collect, Key, get, insert, place, remove, adjust, IsDistinct}

module _ {K : Type 0} ⦃e : Key K⦄ where
  pub beq_refl : (k : K) → e.beq k k ≡ true
  beq_refl k = (e.beq_iff k k).1 refl

module _ {K : Type 0} ⦃e : Key K⦄ {V : Type 0} where
  pub get-remove :
      (k j : K) (m : List (K × V)) → get j (remove k m) ≡ (if e.beq k j then none else get j m)
  unfolding get remove
  get-remove k j [] = ground arith
  get-remove k j ((i, w) ∷ m) =
      ground (arith, e.beq_iff k j, e.beq_iff i k, e.beq_iff i j, get-remove k j m)

  pub get-adjust :
      (k j : K) (f : V → V) (m : List (K × V))
      → get j (adjust k f m) ≡ (if e.beq k j then Option.map f (get j m) else get j m)
  unfolding get adjust
  get-adjust k j f [] = ground arith
  get-adjust k j f ((i, w) ∷ m) =
      ground (arith, e.beq_iff k j, e.beq_iff i k, e.beq_iff i j, get-adjust k j f m)

  pub get-place :
      (k j : K) (v : V) (m : List (K × V))
      → get k m ≡ none
      → get j (place k v m) ≡ (if e.beq k j then some v else get j m)
  unfolding get place
  get-place k j v [] h = refl
  get-place k j v ((i, w) ∷ m) h =
      ground (arith, e.beq_iff k j, e.beq_iff i k, e.beq_iff i j, get-place k j v m)

  pub get-insert :
      (k j : K) (v : V) (m : List (K × V))
      → get j (insert k v m) ≡ (if e.beq k j then some v else get j m)
  unfolding insert
  get-insert k j v m = ground (arith, e.beq_iff k j, get-place k j v m, get-adjust k j (λ _. v) m)

  IsDistinct-place :
      (k : K) (v : V) (m : List (K × V)) → get k m ≡ none → IsDistinct m → IsDistinct (place k v m)
  unfolding get place
  IsDistinct-place k v [] h d = (refl, tt)
  IsDistinct-place k v ((i, w) ∷ m) h d =
      ground (arith, e.beq_iff i k, e.beq_iff k i, get-place k i v m, IsDistinct-place k v m)

  pub IsDistinct-adjust :
      (k : K) (f : V → V) (m : List (K × V)) → IsDistinct m → IsDistinct (adjust k f m)
  unfolding get adjust
  IsDistinct-adjust k f [] d = tt
  IsDistinct-adjust k f ((i, w) ∷ m) d =
      ground (arith, e.beq_iff k i, get-adjust k i f m, IsDistinct-adjust k f m)

  pub IsDistinct-insert :
      (k : K) (v : V) (m : List (K × V)) → IsDistinct m → IsDistinct (insert k v m)
  unfolding insert
  IsDistinct-insert k v m d =
      ground (arith, IsDistinct-place k v m, IsDistinct-adjust k (λ _. v) m d)

  pub IsDistinct-collect :
      (m entries : List (K × V)) → IsDistinct m → IsDistinct (collect m entries)
  unfolding collect
  IsDistinct-collect m [] d = d
  IsDistinct-collect m ((k, v) ∷ rest) d =
      IsDistinct-collect (insert k v m) rest (IsDistinct-insert k v m d)

  pub IsDistinct-remove : (k : K) (m : List (K × V)) → IsDistinct m → IsDistinct (remove k m)
  unfolding get remove
  IsDistinct-remove k [] d = tt
  IsDistinct-remove k ((i, w) ∷ m) d =
      ground (arith, e.beq_iff k i, get-remove k i m, IsDistinct-remove k m)

  length-place : (k : K) (v : V) (m : List (K × V)) → length (place k v m) ≡ length m + 1
  unfolding place
  length-place k v [] = omega arith
  length-place k v ((i, w) ∷ m) = ground (arith, length-place k v m)

  -- a new key adds one entry
  pub length-insert_new :
      (k : K) (v : V) (m : List (K × V)) → get k m ≡ none → length (insert k v m) ≡ length m + 1
  unfolding insert
  length-insert_new k v m h = ground (arith, length-place k v m)

  pub remove_absent : (k : K) (m : List (K × V)) → get k m ≡ none → remove k m ≡ m
  unfolding get remove
  remove_absent k [] h = refl
  remove_absent k ((i, w) ∷ m) h = ground (arith, remove_absent k m)

  pub length-adjust : (k : K) (f : V → V) (m : List (K × V)) → length (adjust k f m) ≡ length m
  unfolding adjust
  length-adjust k f [] = refl
  length-adjust k f ((i, w) ∷ m) = ground (arith, length-adjust k f m)

  -- the removal of a key that is there takes one entry
  pub length-remove :
      (k : K) (v : V) (m : List (K × V))
      → IsDistinct m
      → get k m ≡ some v
      → length (remove k m) + 1 ≡ length m
  unfolding get remove
  length-remove k v [] d h = cc
  length-remove k v ((i, w) ∷ m) d h =
      ground (arith, e.beq_iff i k, remove_absent k m, length-remove k v m d.1)
