-- ===== src/Downstream/Response/Chain.antt =====
-- src/downstream.rs and src/upstream.rs: a gateway reads what another gateway answers, in both forms.
use Prim.Native.Char.{Char, code}
use Prim.Native.String.{String, [], ◌∷◌, ◌++◌}
use mathlib.Core.List.{List}
use text.Mathlib.TextLemmas.{nil-append, cons-append, append_assoc}
use mcpstead.Base.{
  ℕ, false, Option, none, some, Result, ok, ◌≡◌, refl, ap, ◌∙◌, sym, ◌==◌, Bool-cases, inl, inr,
  if◌then◌else◌,
}
use mcpstead.Base.Dict.{string_key, get}
use mcpstead.Base.Eq.{string_eq}
use mcpstead.Base.Text.{
  strip_suffix, strip_prefix, starts_with, split_once, lines, lines_from, trim, trim_start,
  without_cr, is_empty, contains, join,
}
use mcpstead.Base.Text.Lines.{no_newline, IsLine, IsLine-append, lines_from-append}
use mcpstead.Json.{Json}
use mcpstead.Upstream.Classify.{UpstreamError}
use mcpstead.Upstream.Sse.{
  SseEvent, Collector, field_value, event_data, push_sse_event, take_field, take_line, take_lines,
  collect_sse_events,
}
use mcpstead.Upstream.Body.{is_no_data, parse_events, parse_sse_body, is_sse, parse_mcp_body}
use mcpstead.Downstream.Auth.{Headers}
use mcpstead.Downstream.Response.{Response, sse_frame, wants_sse, downstream_response}

abbrev newline : Char
newline = "\n"

-- "data: " before a text
abbrev data_line : String → String
data_line s =
    let d : Char = "d" in
    let a : Char = "a" in
    let t : Char = "t" in
    let colon : Char = ":" in let space : Char = " " in d ∷ a ∷ t ∷ a ∷ colon ∷ space ∷ s

data_append : (s : String) → "data: " ++ s ≡ data_line s
data_append s =
    rw (cons-append, cons-append, cons-append, cons-append, cons-append, cons-append, nil-append)
      refl

strip_suffix-cons :
    (c : Char) (s : String)
    → (code c == 13) ≡ false
    → strip_suffix s 13 ≡ none
    → strip_suffix (c ∷ s) 13 ≡ none
unfolding strip_suffix
strip_suffix-cons c [] h k = rw h refl
strip_suffix-cons c (d ∷ s) h k = rw k refl

keeps_cr : (s : String) → strip_suffix s 13 ≡ none → strip_suffix (data_line s) 13 ≡ none
keeps_cr s h = strip_suffix-cons "d" _ refl (
    strip_suffix-cons "a" _ refl (
      strip_suffix-cons "t" _ refl (
        strip_suffix-cons "a" _ refl
          (strip_suffix-cons ":" _ refl (strip_suffix-cons " " s refl h)))))

no_suffix : strip_suffix "" 13 ≡ none
unfolding strip_suffix
no_suffix = refl

whole_line : (line : String) → strip_suffix line 13 ≡ none → without_cr line ≡ line
unfolding strip_suffix
whole_line line h = ap (λ (o : Option String). elim o [ none ↦ line | some s ↦ s ]) h

frame_lines :
    (json : String)
    → IsLine json
    → strip_suffix json 13 ≡ none
    → lines (sse_frame json) ≡ List.◌∷◌ (data_line json) (List.◌∷◌ "" List.[])
unfolding lines lines_from no_newline
frame_lines json h k =
    let text = "data: " ++ json in
    let cut =
      ap lines (sym (append_assoc "data: " json "\n\n"))
      ∙ lines_from-append [] text "\n" (IsLine-append "data: " json refl h) in
    let first : without_cr ("" ++ text) ≡ data_line json =
      ap without_cr (nil-append text ∙ data_append json)
      ∙ whole_line (data_line json) (keeps_cr json k) in
    cut ∙ ap (λ (u : String). List.◌∷◌ u (List.◌∷◌ "" List.[])) first

abbrev message_event : String → SseEvent
message_event json = record { event_type = none; data_lines = List.◌∷◌ json List.[] }

-- a round of the loop by its line
abbrev round : Collector → String → Collector
unfolding starts_with split_once strip_prefix push_sse_event take_field
round c line =
    if is_empty line
    then push_sse_event c
    else if starts_with line ":"
    then c
    else take_field (field_value (split_once line ":") line) c

take_line-data :
    (json : String)
    → strip_suffix json 13 ≡ none
    → take_line
        (record { events = List.[]; event_type = none; data_lines = List.[] })
        (data_line json)
      ≡ record { events = List.[]; event_type = none; data_lines = List.◌∷◌ json List.[] }
unfolding take_line split_once strip_prefix starts_with take_field
take_line-data json k =
    let start : Collector = record { events = List.[]; event_type = none; data_lines = List.[] } in
    ap (round start) (whole_line (data_line json) (keeps_cr json k))

frame_events :
    (json : String)
    → IsLine json
    → strip_suffix json 13 ≡ none
    → collect_sse_events (sse_frame json) ≡ List.◌∷◌ (message_event json) List.[]
unfolding collect_sse_events take_lines take_line split_once strip_prefix starts_with take_field
    push_sse_event strip_suffix
frame_events json h k =
    let start : Collector = record { events = List.[]; event_type = none; data_lines = List.[] } in
    ap (λ (ls : List String). (push_sse_event (take_lines start ls)).events) (frame_lines json h k)
    ∙ ap (λ (c : Collector). (push_sse_event (take_line c "")).events) (take_line-data json k)

-- A written value: it is one line, which ends in no carriage return and is not the mark that ends a
-- stream, it does not begin like an event, and reading it gives the value.
pub record IsWritten (j : Json) (json : String) (value : j.Value) : Type 0 where
  pub line : IsLine json
  pub no_cr : strip_suffix json 13 ≡ none
  pub told : is_no_data (trim json) ≡ false
  pub no_event : starts_with (trim_start json) "event:" ≡ false
  pub no_data : starts_with (trim_start json) "data:" ≡ false
  pub reads : j.from_str (trim json) ≡ some value
  pub reads_whole : j.from_str json ≡ some value

module _ (j : Json) where
  parse_frame :
      (json : String) (value : j.Value)
      → IsWritten j json value
      → parse_sse_body j (sse_frame json) ≡ ok value
  unfolding parse_sse_body parse_events event_data join trim
  parse_frame json value r =
      ap (λ (es : List SseEvent). parse_events j es none) (frame_events json r.line r.no_cr)
      ∙ rw (r.told, r.reads) refl

  -- what another gateway makes of a response
  abbrev pub read_back : Response → Result UpstreamError j.Value
  read_back response = parse_mcp_body j (get "content-type" response.headers) (some response.body)

  -- A value that a response carries is read back by the reader of upstream bodies, whether the
  -- client asked for events or for JSON and whether a session is named: gateways can be chained. The
  -- text of the value is a line as `IsWritten` says.
  pub read_back-downstream_response :
      (headers : Headers) (status : ℕ) (value : j.Value) (session_id : Option String)
      → IsWritten j (j.to_string value) value
      → read_back (downstream_response j headers status (some value) session_id) ≡ ok value
  unfolding downstream_response parse_mcp_body is_sse get contains starts_with strip_prefix
  read_back-downstream_response headers status value session_id r =
      elim (Bool-cases (wants_sse headers)) [
        | inl sse ↦ rw sse (parse_frame (j.to_string value) value r)
        | inr plain ↦ rw (plain, r.no_event, r.no_data, r.reads_whole) refl
      ]
