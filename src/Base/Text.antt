-- ===== src/Base/Text.antt =====
-- The methods of `str` that the program uses. A text is its sequence of Unicode scalar values.

pub mod Decimal
pub mod Lines
pub mod Split
use Prim.Native.Char.{Char, code}
use Prim.Native.String.{String, [], ◌∷◌, ◌++◌, compare}
use Prim.Native.Nat.{ℕ, zero, suc, Ordering}
use mathlib.Core.List
use mathlib.Core.List.{List}
use mathlib.Core.Bool.{Bool, true, false, ◌&&◌, ◌||◌}
use mathlib.Core.Option.{Option, none, some}
use text.Mathlib.Text.{◌==◌ as str_eq}
use mcpstead.Base.Tests.{leb, ◌==◌, if◌then◌else◌, is_some}

-- `s.is_empty()`
abbrev pub is_empty : String → Bool
is_empty [] = true
is_empty (_ ∷ _) = false

-- `a < b`, the order of the bytes of the UTF-8
abbrev pub str_ltb : String → String → Bool
str_ltb a b = elim (compare a b) [ Ordering.lt ↦ true | _ ↦ false ]

-- `s.strip_prefix(p)`
unfoldable pub strip_prefix : String → String → Option String
strip_prefix s [] = some s
strip_prefix [] (c ∷ p) = none
strip_prefix (d ∷ s) (c ∷ p) =
    let rest = strip_prefix s p in if code d == code c then rest else none

-- `s.starts_with(p)`
unfoldable pub starts_with : String → String → Bool
unfolding strip_prefix
starts_with s p = is_some (strip_prefix s p)

-- `s.contains(p)`
unfoldable pub contains : String → String → Bool
unfolding starts_with
contains [] p = starts_with [] p
contains (c ∷ s) p = starts_with (c ∷ s) p || contains s p

abbrev pub cons_first : Char → Option (String × String) → Option (String × String)
cons_first c none = none
cons_first c (some (a, b)) = some (c ∷ a, b)

abbrev pub or_first : Option String → Option (String × String) → Option (String × String)
or_first (some rest) later = some ([], rest)
or_first none later = later

-- `s.split_once(p)`: at the first place where `p` stands
unfoldable pub split_once : String → String → Option (String × String)
unfolding strip_prefix
split_once [] p = or_first (strip_prefix [] p) none
split_once (c ∷ s) p = or_first (strip_prefix (c ∷ s) p) (cons_first c (split_once s p))

-- `s.push(c)`
abbrev pub push : String → Char → String
push s c = s ++ c ∷ []

abbrev pub cons_text : Char → Option String → Option String
cons_text c none = none
cons_text c (some s) = some (c ∷ s)

-- `s.strip_suffix(c)` for a character, given by its number
unfoldable pub strip_suffix : String → ℕ → Option String
strip_suffix [] n = none
strip_suffix (c ∷ []) n = if code c == n then some [] else none
strip_suffix (c ∷ d ∷ s) n = cons_text c (strip_suffix (d ∷ s) n)

abbrev pub without_cr : String → String
unfolding strip_suffix
without_cr line = elim (strip_suffix line 13) [ none ↦ line | some s ↦ s ]

-- `s.lines()`: pieces that end in a line feed lose it, and then one carriage return
unfoldable pub lines_from : String → String → List String
unfolding strip_suffix
lines_from cur [] = if is_empty cur then List.[] else List.◌∷◌ cur List.[]
lines_from cur (c ∷ s) =
    let ended = List.◌∷◌ (without_cr cur) (lines_from [] s) in
    let longer = lines_from (push cur c) s in if code c == 10 then ended else longer

unfoldable pub lines : String → List String
unfolding lines_from
lines s = lines_from [] s

-- the characters with the property White_Space
abbrev pub is_whitespace : Char → Bool
is_whitespace c =
    let n = code c in
    leb 9 n && leb n 13
    || n == 32
    || n == 133
    || n == 160
    || n == 5760
    || leb 8192 n && leb n 8202
    || n == 8232
    || n == 8233
    || n == 8239
    || n == 8287
    || n == 12288

-- `s.trim_start()`
unfoldable pub trim_start : String → String
trim_start [] = []
trim_start (c ∷ s) = let rest = trim_start s in if is_whitespace c then rest else c ∷ s

-- a character in front of a text that has been trimmed at its end
abbrev pub cons_trimmed : Char → String → String
cons_trimmed c [] = if is_whitespace c then [] else c ∷ []
cons_trimmed c (d ∷ s) = c ∷ d ∷ s

-- `s.trim_end()`
unfoldable pub trim_end : String → String
trim_end [] = []
trim_end (c ∷ s) = cons_trimmed c (trim_end s)

-- `s.trim()`
unfoldable pub trim : String → String
unfolding trim_start trim_end
trim s = trim_end (trim_start s)

lower_from : String → String → Char → Char
lower_from (u ∷ us) (l ∷ ls) c = if code c == code u then l else lower_from us ls c
lower_from _ _ c = c

abbrev pub lower_char : Char → Char
unfolding lower_from
lower_char = lower_from "ABCDEFGHIJKLMNOPQRSTUVWXYZ" "abcdefghijklmnopqrstuvwxyz"

-- `s.to_ascii_lowercase()`
unfoldable pub to_ascii_lowercase : String → String
unfolding lower_from
to_ascii_lowercase [] = []
to_ascii_lowercase (c ∷ s) = lower_char c ∷ to_ascii_lowercase s

-- `s.chars().take(n).collect()`
unfoldable pub take_chars : ℕ → String → String
take_chars zero s = []
take_chars (suc n) [] = []
take_chars (suc n) (c ∷ s) = c ∷ take_chars n s

-- `parts.join(sep)`
unfoldable pub join : String → List String → String
join sep List.[] = []
join sep (List.◌∷◌ s List.[]) = s
join sep (List.◌∷◌ s (List.◌∷◌ t rest)) = s ++ sep ++ join sep (List.◌∷◌ t rest)
