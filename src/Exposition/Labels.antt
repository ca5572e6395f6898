-- ===== src/Exposition/Labels.antt =====
-- src/metrics.rs: the labels of the metrics page.
pub mod Lines
pub mod Reading
use Prim.Native.Char.{Char, code}
use Prim.Native.String.{String, [], ◌∷◌, ◌++◌}
use Prim.Native.Nat.{ℕ}
use mathlib.Core.List.{List}
use mathlib.Core.List
use mathlib.Core.Bool.{Bool, true, false, ◌&&◌}
use mathlib.Core.Option.{Option, none, some}
use mcpstead.Base.{◌==◌, if◌then◌else◌}
use mcpstead.Base.Text.{join}

-- `s.replace(c, r)` for a character, given by its number
unfoldable pub replace : String → ℕ → String → String
replace [] n r = []
replace (c ∷ s) n r = let rest = replace s n r in if code c == n then r ++ rest else c ∷ rest

-- `escape_label`: a backslash, a quotation mark and a line feed
unfoldable pub escape_label : String → String
unfolding replace
escape_label value = replace (replace (replace value 92 "\\\\") 34 "\\\"") 10 "\\n"

-- `format!("{key}=\"{}\"", escape_label(value))`
unfoldable pub label_part : String × String → String
unfolding escape_label
label_part (key, value) = key ++ "=\"" ++ escape_label value ++ "\""

unfoldable pub label_parts : List (String × String) → Option (String × String) → List String
unfolding label_part
label_parts List.[] none = List.[]
label_parts List.[] (some extra) = List.◌∷◌ (label_part extra) List.[]
label_parts (List.◌∷◌ label labels) extra = List.◌∷◌ (label_part label) (label_parts labels extra)

-- `format_labels`
unfoldable pub format_labels : List (String × String) → Option (String × String) → String
unfolding label_parts join
format_labels List.[] none = ""
format_labels List.[] (some extra) = "{" ++ join "," (label_parts List.[] (some extra)) ++ "}"
format_labels (List.◌∷◌ label labels) extra =
    "{" ++ join "," (label_parts (List.◌∷◌ label labels) extra) ++ "}"
