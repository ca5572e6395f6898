-- ===== src/Exposition/Process/Name.antt =====
-- src/metrics.rs: the figures of the process do not depend on its name.
use Prim.Native.Char.{Char}
use Prim.Native.String.{String, [], ◌∷◌, ◌++◌}
use text.Mathlib.TextLemmas.{nil-append, cons-append}
use mcpstead.Base.{ℕ, Option, none, some, ◌≡◌, refl, ap, ◌∙◌}
use mcpstead.Base.Text.{strip_prefix}
use mcpstead.Upstream.Classify.{bind_option}
use mcpstead.Exposition.Process.{rsplit_once, split_whitespace, stats_of, stats_in}

abbrev mark : String → String
mark s = let close : Char = ")" in let space : Char = " " in close ∷ space ∷ s

mark_append : (s : String) → ") " ++ s ≡ mark s
mark_append s = rw (cons-append, cons-append, nil-append) refl

rsplit_once-mark :
    (b : String) → rsplit_once b ") " ≡ none → rsplit_once (mark b) ") " ≡ some ("", b)
unfolding rsplit_once strip_prefix
rsplit_once-mark b h = rw h refl

rsplit_once-append :
    (a b : String) → rsplit_once b ") " ≡ none → rsplit_once (a ++ mark b) ") " ≡ some (a, b)
unfolding rsplit_once
rsplit_once-append [] b h = rw nil-append (rsplit_once-mark b h)
rsplit_once-append (c ∷ a) b h = rw (cons-append c a (mark b)) (rw (rsplit_once-append a b h) refl)

module _ (read_to_string : String → Option String) (open_fds : Option ℕ) where
  -- Whatever stands before the last ") " of the status, the name of the process included, the figures
  -- are read from the fields behind it: a name with a parenthesis and a space does not shift them.
  pub stats_in-append :
      (before fields : String)
      → rsplit_once fields ") " ≡ none
      → stats_in read_to_string open_fds (before ++ ") " ++ fields)
        ≡ stats_of read_to_string open_fds (split_whitespace fields)
  unfolding stats_in
  stats_in-append before fields h =
      let found =
        ap (λ (u : String). rsplit_once (before ++ u) ") ") (mark_append fields)
        ∙ rsplit_once-append before fields h in
      ap
        (λ (o : Option (String × String)).
          bind_option o (λ parts. stats_of read_to_string open_fds (split_whitespace parts.1)))
        found
