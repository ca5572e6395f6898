-- ===== src/Exposition/Page/Cut.antt =====
-- src/metrics.rs: the lines of the metrics page, as a reader of the text format finds them.
use Prim.Native.Char.{Char, code}
use Prim.Native.String.{String, [], ◌∷◌, ◌++◌}
use mathlib.Core.List.{List}
use text.Mathlib.TextLemmas.{nil-append, cons-append, append-nil, append_assoc}
use mcpstead.Base.{
  Bool, not, ◌&&◌, ◌≡◌, true, false, refl, ap, ◌∙◌, arith, ◌==◌, if◌then◌else◌, All,
}
use mcpstead.Base.Text.{is_empty, push}
use mcpstead.Base.Text.Lines.{no_newline, IsLine}
use mcpstead.Exposition.Page.{written}

-- the lines of a text, each of which ends at a line feed, behind the part of one that has been read
unfoldable pub cut_from : String → String → List String
cut_from cur [] = if is_empty cur then List.[] else List.◌∷◌ cur List.[]
cut_from cur (c ∷ s) =
    let ended = List.◌∷◌ cur (cut_from [] s) in
    let longer = cut_from (push cur c) s in if code c == 10 then ended else longer

unfoldable pub cut : String → List String
unfolding cut_from
cut s = cut_from [] s

abbrev newline : Char
newline = "\n"

newline_append : (s : String) → "\n" ++ s ≡ newline ∷ s
newline_append s = cons-append newline [] s ∙ ap (λ (u : String). newline ∷ u) (nil-append s)

head_line : (p q : Bool) → (not p && q) ≡ true → (p ≡ false) × (q ≡ true)
head_line p q h = ground arith

cut_from-append :
    (cur s rest : String)
    → IsLine s
    → cut_from cur (s ++ newline ∷ rest) ≡ List.◌∷◌ (cur ++ s) (cut_from [] rest)
unfolding no_newline cut_from
cut_from-append cur [] rest h = rw (nil-append, append-nil) refl
cut_from-append cur (c ∷ s) rest h =
    let parts = head_line (code c == 10) (no_newline s) h in
    rw (cons-append c s (newline ∷ rest)) (
      rw (parts.0, cut_from)
        (cut_from-append (push cur c) s rest parts.1
          ∙ ap (λ (u : String). List.◌∷◌ u (cut_from [] rest))
              (append_assoc cur (c ∷ []) s
                ∙ ap (λ (u : String). cur ++ u)
                    (cons-append c [] s ∙ ap (λ (u : String). c ∷ u) (nil-append s)))))

-- what is written of lines is cut into them
pub cut-written : (page : List String) → All IsLine page → cut (written page) ≡ page
unfolding written cut cut_from
cut-written List.[] h = refl
cut-written (List.◌∷◌ line rest) h =
    ap cut (ap (λ (u : String). line ++ u) (newline_append (written rest)))
    ∙ cut_from-append [] line (written rest) h.0
    ∙ rw (nil-append line, cut-written rest h.1) refl
