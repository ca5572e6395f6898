-- ===== src/Exposition/Labels/Lines.antt =====
-- src/metrics.rs: labels stay on their line.
use Prim.Native.Char.{code}
use Prim.Native.String.{String, [], ◌∷◌, ◌++◌}
use mathlib.Core.List.{List}
use mcpstead.Base.{Option, none, some, refl, ap, ◌∙◌, inl, inr, Bool-cases, ◌==◌, All}
use mcpstead.Base.Text.{join}
use mcpstead.Base.Text.Lines.{no_newline, IsLine, IsLine-append}
use mcpstead.Exposition.Labels.{escape_label, label_part, label_parts, format_labels}
use mcpstead.Exposition.Labels.Reading.{
  escape_label-backslash, escape_label-quote, escape_label-line_feed, escape_label-other,
}

-- what is written of a value holds no line feed, whatever the value
pub IsLine-escape_label : (s : String) → IsLine (escape_label s)
unfolding no_newline escape_label
IsLine-escape_label [] = refl
IsLine-escape_label (c ∷ s) = elim (Bool-cases (code c == 92)) [
  | inl a ↦ ap no_newline (escape_label-backslash c s a) ∙ IsLine-escape_label s
  | inr a ↦ elim (Bool-cases (code c == 34)) [
    | inl b ↦ ap no_newline (escape_label-quote c s a b) ∙ IsLine-escape_label s
    | inr b ↦ elim (Bool-cases (code c == 10)) [
      | inl d ↦ ap no_newline (escape_label-line_feed c s a b d) ∙ IsLine-escape_label s
      | inr d ↦ ap no_newline (escape_label-other c s a b d) ∙ rw d (IsLine-escape_label s)
    ]
  ]
]

abbrev pub HasKey : String × String → Type 0
HasKey (key, value) = IsLine key

abbrev pub HasKey? : Option (String × String) → Type 0
HasKey? none = Unit
HasKey? (some label) = HasKey label

IsLine-label_part : (label : String × String) → HasKey label → IsLine (label_part label)
unfolding label_part no_newline
IsLine-label_part (key, value) h = IsLine-append key ("=\"" ++ escape_label value ++ "\"") h (
    IsLine-append "=\"" (escape_label value ++ "\"") refl
      (IsLine-append (escape_label value) "\"" (IsLine-escape_label value) refl))

lines-label_parts :
    (labels : List (String × String)) (extra : Option (String × String))
    → All HasKey labels
    → HasKey? extra
    → All IsLine (label_parts labels extra)
unfolding label_parts
lines-label_parts List.[] none h k = tt
lines-label_parts List.[] (some extra) h k = (IsLine-label_part extra k, tt)
lines-label_parts (List.◌∷◌ label labels) extra h k =
    (IsLine-label_part label h.0, lines-label_parts labels extra h.1 k)

IsLine-join :
    (sep : String) (parts : List String) → IsLine sep → All IsLine parts → IsLine (join sep parts)
unfolding join no_newline
IsLine-join sep List.[] h k = refl
IsLine-join sep (List.◌∷◌ s List.[]) h k = k.0
IsLine-join sep (List.◌∷◌ s (List.◌∷◌ t rest)) h k =
    IsLine-append s (sep ++ join sep (List.◌∷◌ t rest)) k.0
      (IsLine-append sep (join sep (List.◌∷◌ t rest)) h (IsLine-join sep (List.◌∷◌ t rest) h k.1))

in_braces : (parts : List String) → All IsLine parts → IsLine ("{" ++ join "," parts ++ "}")
unfolding no_newline
in_braces parts h =
    IsLine-append "{" (join "," parts ++ "}") refl
      (IsLine-append (join "," parts) "}" (IsLine-join "," parts refl h) refl)

-- labels hold no line feed, where their keys do not
pub IsLine-format_labels :
    (labels : List (String × String)) (extra : Option (String × String))
    → All HasKey labels
    → HasKey? extra
    → IsLine (format_labels labels extra)
unfolding format_labels no_newline
IsLine-format_labels List.[] none h k = refl
IsLine-format_labels List.[] (some extra) h k =
    in_braces (label_parts List.[] (some extra)) (lines-label_parts List.[] (some extra) h k)
IsLine-format_labels (List.◌∷◌ label labels) extra h k =
    in_braces (label_parts (List.◌∷◌ label labels) extra)
      (lines-label_parts (List.◌∷◌ label labels) extra h k)
