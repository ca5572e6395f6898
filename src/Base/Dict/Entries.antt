-- ===== src/Base/Dict/Entries.antt =====
-- The entries of a map are what is found at their keys.
use mcpstead.Base.Lists.{All, All-map}
use mathlib.Core.Path.{◌≡◌}
use mathlib.Core.Option.{some}
use mathlib.Core.List.{List, [], ◌∷◌}
use native.Mathlib.Omega.{arith}
use text.Mathlib.TextEquality.{eq_iff}
use Prim.Native.String.{String}
use mcpstead.Base.Dict.{string_key, get, IsDistinct}

-- each entry of a map without doubles is the one that is found at its key
pub found_entries :
    {V : Type 0} (m : List (String × V)) → IsDistinct m → All (λ e. get e.0 m ≡ some e.1) m
unfolding get
found_entries [] d = tt
found_entries ((key, v) ∷ m) d = (
  ground (arith, eq_iff key key),
  All-map m (λ e f. ground (arith, eq_iff key e.0, d.0, f)) (found_entries m d.1),
)
