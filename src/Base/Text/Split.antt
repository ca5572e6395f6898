-- ===== src/Base/Text/Split.antt =====
-- What `split_once` finds: the first place where the pattern stands.
use Prim.Native.Char.{Char, code}
use Prim.Native.String.{String, [], ◌∷◌, ◌++◌}
use mathlib.Core.Path.{◌≡◌, refl, ap, ◌∙◌}
use mathlib.Core.Bool.{Bool, false}
use mathlib.Core.Option.{none, some}
use native.Mathlib.Omega.{arith}
use text.Mathlib.TextLemmas.{nil-append, cons-append}
use mathlib.Core.Logic.{inl, inr}
use text.Mathlib.TextEquality.{Char-path}
use mcpstead.Base.Tests.{==_iff, Bool-cases, ◌==◌, ==_refl}
use mcpstead.Base.Text.{strip_prefix, split_once, contains}

pub strip_prefix-append : (p s : String) → strip_prefix (p ++ s) p ≡ some s
unfolding strip_prefix
strip_prefix-append [] s = rw nil-append
strip_prefix-append (c ∷ p) s = rw cons-append (rw (==_refl (code c)) (strip_prefix-append p s))

-- what `strip_prefix` leaves stands behind the prefix
pub strip_prefix_sound : (s p r : String) → strip_prefix s p ≡ some r → s ≡ p ++ r
unfolding strip_prefix
strip_prefix_sound s [] r h = rw nil-append cc
strip_prefix_sound [] (c ∷ p) r h = cc
strip_prefix_sound (d ∷ s) (c ∷ p) r h = elim (Bool-cases (code d == code c)) [
  | inl same ↦
      let e : d ≡ c = Char-path d c ((==_iff (code d) (code c)).0 same) in
      let rest : s ≡ p ++ r = strip_prefix_sound s p r (rw same at h) in rw cons-append cc
  | inr other ↦ let gone : none ≡ some r = rw other at h in cc
]

abbrev under : Char
under = "_"

separator-append : (t : String) → "__" ++ t ≡ under ∷ under ∷ t
separator-append t =
    cons-append under (under ∷ []) t
    ∙ ap (λ (u : String). under ∷ u)
        (cons-append under [] t ∙ ap (λ (u : String). under ∷ u) (nil-append t))

-- the last character, if there is one, is an underscore
abbrev pub ends_with_underscore : String → Bool
ends_with_underscore [] = false
ends_with_underscore (c ∷ []) = code c == b'_'
ends_with_underscore (c ∷ d ∷ s) = ends_with_underscore (d ∷ s)

-- A text without the separator, which does not end in an underscore, comes back from a split of
-- anything that it is joined to by the separator.
pub split_once-append :
    (s t : String)
    → contains s "__" ≡ false
    → ends_with_underscore s ≡ false
    → split_once (s ++ "__" ++ t) "__" ≡ some (s, t)
unfolding split_once contains
split_once-append [] t h k = rw nil-append (rw separator-append refl)
split_once-append (c ∷ []) t h k = rw cons-append (rw nil-append (rw separator-append (rw k refl)))
split_once-append (c ∷ d ∷ s) t h k =
    let rest : String = s ++ "__" ++ t in
    let ih : split_once (d ∷ rest) "__" ≡ some (d ∷ s, t) =
      rw cons-append at (split_once-append (d ∷ s) t (ground arith) k) in
    rw (cons-append c (d ∷ s) ("__" ++ t)) (rw (cons-append d s ("__" ++ t)) (ground (arith, ih)))
