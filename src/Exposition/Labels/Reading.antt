-- ===== src/Exposition/Labels/Reading.antt =====
-- src/metrics.rs: a label's value can be read back from what is written of it.
use Prim.Native.Char.{Char, code}
use Prim.Native.String.{String, [], ◌∷◌, ◌++◌}
use mathlib.Core.Path.{◌≡◌, refl, sym, ap, ◌∙◌}
use mathlib.Core.Logic.{inl, inr}
use mathlib.Core.Bool.{true, false}
use text.Mathlib.TextEquality.{Char-path}
use text.Mathlib.TextLemmas.{nil-append, cons-append}
use mcpstead.Base.{Option, none, some, ℕ, ◌==◌, ==_iff, if◌then◌else◌, Bool-cases}
use mcpstead.Exposition.Labels.{replace, escape_label}

abbrev backslash : Char
backslash = "\\"

abbrev pub quote : Char
quote = "\""

abbrev line_feed : Char
line_feed = "\n"

abbrev letter_n : Char
letter_n = "n"

-- the character behind a backslash, as the reader of the text format takes it
abbrev unescaped : Char → Char
unescaped c = if code c == 110 then line_feed else c

abbrev with_char : Char → Option (String × String) → Option (String × String)
with_char c none = none
with_char c (some (value, rest)) = some (c ∷ value, rest)

-- The reading of a value behind its opening quotation mark, as a reader of the text format does it:
-- the value ends at the first quotation mark that no backslash stands before, what is behind it is
-- left, and a line that ends before is no value.
pub read_value : String → Option (String × String)
read_value [] = none
read_value (c ∷ []) = if code c == 34 then some ([], []) else none
read_value (c ∷ d ∷ s) =
    let behind = read_value s in
    let plain = read_value (d ∷ s) in
    if code c == 34
    then some ([], d ∷ s)
    else if code c == 10
    then none
    else if code c == 92
    then with_char (unescaped d) behind
    else with_char c plain

pair-append : (p q : Char) (t : String) → (p ∷ q ∷ []) ++ t ≡ p ∷ q ∷ t
pair-append p q t =
    cons-append p (q ∷ []) t
    ∙ ap (λ (u : String). p ∷ u) (cons-append q [] t ∙ ap (λ (u : String). q ∷ u) (nil-append t))

replace_hit :
    (c p q : Char) (s : String) (n : ℕ)
    → (code c == n) ≡ true
    → replace (c ∷ s) n (p ∷ q ∷ []) ≡ p ∷ q ∷ replace s n (p ∷ q ∷ [])
unfolding replace
replace_hit c p q s n h = rw h (pair-append p q (replace s n (p ∷ q ∷ [])))

replace_miss :
    (c : Char) (s r : String) (n : ℕ)
    → (code c == n) ≡ false
    → replace (c ∷ s) n r ≡ c ∷ replace s n r
unfolding replace
replace_miss c s r n h = rw h refl

abbrev later : String → String
later u = replace (replace u 34 "\\\"") 10 "\\n"

abbrev last : String → String
last u = replace u 10 "\\n"

-- how a character is written
pub escape_label-backslash :
    (c : Char) (s : String)
    → (code c == 92) ≡ true
    → escape_label (c ∷ s) ≡ backslash ∷ backslash ∷ escape_label s
unfolding escape_label
escape_label-backslash c s a = ap later (replace_hit c backslash backslash s 92 a)

pub escape_label-quote :
    (c : Char) (s : String)
    → (code c == 92) ≡ false
    → (code c == 34) ≡ true
    → escape_label (c ∷ s) ≡ backslash ∷ quote ∷ escape_label s
unfolding escape_label
escape_label-quote c s a b =
    ap later (replace_miss c s "\\\\" 92 a)
    ∙ ap last (replace_hit c backslash quote (replace s 92 "\\\\") 34 b)

past_quote :
    (c : Char) (s : String)
    → (code c == 92) ≡ false
    → (code c == 34) ≡ false
    → escape_label (c ∷ s) ≡ last (c ∷ replace (replace s 92 "\\\\") 34 "\\\"")
unfolding escape_label
past_quote c s a b =
    ap later (replace_miss c s "\\\\" 92 a)
    ∙ ap last (replace_miss c (replace s 92 "\\\\") "\\\"" 34 b)

pub escape_label-line_feed :
    (c : Char) (s : String)
    → (code c == 92) ≡ false
    → (code c == 34) ≡ false
    → (code c == 10) ≡ true
    → escape_label (c ∷ s) ≡ backslash ∷ letter_n ∷ escape_label s
unfolding escape_label
escape_label-line_feed c s a b d =
    past_quote c s a b
    ∙ replace_hit c backslash letter_n (replace (replace s 92 "\\\\") 34 "\\\"") 10 d

pub escape_label-other :
    (c : Char) (s : String)
    → (code c == 92) ≡ false
    → (code c == 34) ≡ false
    → (code c == 10) ≡ false
    → escape_label (c ∷ s) ≡ c ∷ escape_label s
unfolding escape_label
escape_label-other c s a b d =
    past_quote c s a b ∙ replace_miss c (replace (replace s 92 "\\\\") 34 "\\\"") "\\n" 10 d

known : (c d : Char) → (code c == code d) ≡ true → c ≡ d
known c d h = Char-path c d ((==_iff (code c) (code d)).0 h)

-- the closing mark, and what is behind it
abbrev closed : String → String → String
closed written rest = written ++ quote ∷ rest

closed-cons : (c : Char) (s rest : String) → closed (c ∷ s) rest ≡ c ∷ closed s rest
closed-cons c s rest = cons-append c s (quote ∷ rest)

-- the end of a value
read_value-end : (rest : String) → read_value (quote ∷ rest) ≡ some ([], rest)
unfolding read_value
read_value-end [] = refl
read_value-end (c ∷ s) = refl

-- a character that stands for itself
read_value-plain :
    (c : Char) (s : String)
    → (code c == 92) ≡ false
    → (code c == 34) ≡ false
    → (code c == 10) ≡ false
    → read_value (c ∷ s) ≡ with_char c (read_value s)
unfolding read_value
read_value-plain c [] a b d = rw b refl
read_value-plain c (e ∷ s) a b d = rw (b, d, a) refl

-- a character that was written with a backslash
read_value-escaped :
    (q : Char) (t rest : String)
    → read_value (closed (backslash ∷ q ∷ t) rest)
      ≡ with_char (unescaped q) (read_value (closed t rest))
unfolding read_value
read_value-escaped q t rest =
    ap read_value (
      closed-cons backslash (q ∷ t) rest
      ∙ ap (λ (u : String). backslash ∷ u) (closed-cons q t rest))

-- a character is read from what is written of it
reads_as :
    (c d : Char) (s rest : String) {written : String}
    → escape_label (c ∷ s) ≡ written
    → read_value (closed written rest) ≡ with_char d (read_value (closed (escape_label s) rest))
    → read_value (closed (escape_label s) rest) ≡ some (s, rest)
    → c ≡ d
    → read_value (closed (escape_label (c ∷ s)) rest) ≡ some (c ∷ s, rest)
reads_as c d s rest e step found same =
    ap (λ (w : String). read_value (closed w rest)) e
    ∙ step
    ∙ ap (with_char d) found
    ∙ ap (λ (x : Char). some (x ∷ s, rest)) (sym same)

-- The value of a label is read back from between its quotation marks, whatever stands in it and
-- whatever follows: no quotation mark and no line feed of a value ends it.
pub read_value-escape_label :
    (s rest : String) → read_value (escape_label s ++ quote ∷ rest) ≡ some (s, rest)
unfolding read_value escape_label
read_value-escape_label [] rest = ap read_value (nil-append (quote ∷ rest)) ∙ read_value-end rest
read_value-escape_label (c ∷ s) rest =
    let found = read_value-escape_label s rest in
    elim (Bool-cases (code c == 92)) [
      | inl a ↦
          reads_as c backslash s rest (escape_label-backslash c s a)
            (read_value-escaped backslash (escape_label s) rest) found (known c backslash a)
      | inr a ↦ elim (Bool-cases (code c == 34)) [
        | inl b ↦
            reads_as c quote s rest (escape_label-quote c s a b)
              (read_value-escaped quote (escape_label s) rest) found (known c quote b)
        | inr b ↦ elim (Bool-cases (code c == 10)) [
          | inl d ↦
              reads_as c line_feed s rest (escape_label-line_feed c s a b d)
                (read_value-escaped letter_n (escape_label s) rest) found (known c line_feed d)
          | inr d ↦
              reads_as c c s rest (escape_label-other c s a b d)
                (ap read_value (closed-cons c (escape_label s) rest)
                  ∙ read_value-plain c (closed (escape_label s) rest) a b d)
                found refl
        ]
      ]
    ]
