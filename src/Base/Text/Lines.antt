-- ===== src/Base/Text/Lines.antt =====
-- Texts without line feeds, and where `lines` cuts.
use Prim.Native.Char.{Char, code}
use Prim.Native.String.{String, [], ◌∷◌, ◌++◌}
use Prim.Native.Nat.{ℕ, zero, suc, ◌/◌, ◌%◌}
use mathlib.Core.Path.{◌≡◌, refl, ap, ◌∙◌}
use mathlib.Core.Bool.{Bool, true, false, not, ◌&&◌}
use mathlib.Core.List
use mathlib.Core.Logic.{inl, inr}
use native.Mathlib.Omega.{arith}
use text.Mathlib.TextLemmas.{nil-append, cons-append, append-nil, append_assoc}
use mcpstead.Base.Tests.{◌==◌, Bool-cases}
use mcpstead.Base.Text.{lines_from, push, without_cr}
use mcpstead.Base.Text.Decimal.{pick, digit, digits_before, decimal}

abbrev pub newline : Char
newline = "\n"

-- whether no line feed stands in the text
unfoldable pub no_newline : String → Bool
no_newline [] = true
no_newline (c ∷ s) = not (code c == 10) && no_newline s

abbrev pub IsLine : String → Type 0
IsLine s = no_newline s ≡ true

head_line : (p q : Bool) → (not p && q) ≡ true → (p ≡ false) × (q ≡ true)
head_line p q h = ground arith

pub no_newline-append : (s t : String) → no_newline (s ++ t) ≡ (no_newline s && no_newline t)
unfolding no_newline
no_newline-append [] t = rw nil-append refl
no_newline-append (c ∷ s) t = rw cons-append (ground (arith, no_newline-append s t))

pub IsLine-append : (s t : String) → IsLine s → IsLine t → IsLine (s ++ t)
IsLine-append s t h k = rw no_newline-append (rw h k)

-- A line is cut where its line feed stands.
pub lines_from-append :
    (cur s rest : String)
    → IsLine s
    → lines_from cur (s ++ newline ∷ rest) ≡ List.◌∷◌ (without_cr (cur ++ s)) (lines_from [] rest)
unfolding no_newline lines_from
lines_from-append cur [] rest h = rw nil-append (rw append-nil refl)
lines_from-append cur (c ∷ s) rest h =
    let parts = head_line (code c == 10) (no_newline s) h in
    rw cons-append (
      rw (parts.0, lines_from)
        (lines_from-append (push cur c) s rest parts.1
          ∙ ap (λ (u : String). List.◌∷◌ (without_cr u) (lines_from [] rest))
              (append_assoc cur (c ∷ []) s
                ∙ ap (λ (u : String). cur ++ u)
                    (cons-append c [] s ∙ ap (λ (u : String). c ∷ u) (nil-append s)))))

pick_line : (s : String) (n : ℕ) → IsLine s → (code (pick s n) == 10) ≡ false
unfolding no_newline
pick_line [] n h = refl
pick_line (c ∷ s) zero h = (head_line (code c == 10) (no_newline s) h).0
pick_line (c ∷ s) (suc n) h = pick_line s n (head_line (code c == 10) (no_newline s) h).1

pub IsLine-digit : (d : ℕ) (s : String) → IsLine s → IsLine (digit d ∷ s)
unfolding no_newline
IsLine-digit d s h = rw (pick_line "0123456789" d refl) h

IsLine-digits_before : (fuel n : ℕ) (s : String) → IsLine s → IsLine (digits_before fuel n s)
unfolding digits_before
IsLine-digits_before zero n s h = h
IsLine-digits_before (suc fuel) n s h = elim (Bool-cases (n / 10 == 0)) [
  | inl e ↦ rw (e, digits_before) (IsLine-digit (n % 10) s h)
  | inr e ↦ rw (e, digits_before) (IsLine-digits_before fuel (n / 10) _ (IsLine-digit (n % 10) s h))
]

pub IsLine-decimal : (n : ℕ) → IsLine (decimal n)
unfolding decimal no_newline
IsLine-decimal n = IsLine-digits_before (suc n) n [] refl
