-- ===== src/Upstream/Sse/Blocks.antt =====
-- src/upstream.rs: a stream of server-sent events is read block by block.
use Prim.Native.Char.{code}
use Prim.Native.String.{String, [], ◌∷◌, ◌++◌}
use text.Mathlib.TextLemmas.{nil-append, cons-append}
use mathlib.Core.List.{append_assoc, append-nil}
use mcpstead.Base.Eq.{◌=?◌, string_eq}
use mcpstead.Base.{
  is_some, ◌||◌, ◌≡◌, refl, ◌∙◌, ap, sym, Option, none, some, List, ◌++◌ as append, Bool-cases, inl,
  inr, ◌==◌,
}
use mcpstead.Base.Text.{lines, lines_from, push, without_cr, is_empty, starts_with, split_once}
use mcpstead.Base.Text.Lines.{newline}
use mcpstead.Upstream.Sse.{
  not_nil, SseEvent, Collector, field_value, push_sse_event, take_field, take_line, take_lines,
  collect_sse_events,
}

-- the lines of a text and those behind a line feed
lines_from-cut :
    (cur s rest : String)
    → lines_from cur (s ++ newline ∷ rest)
      ≡ append (lines_from cur (s ++ newline ∷ [])) (lines_from [] rest)
unfolding lines_from
lines_from-cut cur [] rest = rw nil-append refl
lines_from-cut cur (c ∷ s) rest =
    rw (cons-append c s (newline ∷ rest), cons-append c s (newline ∷ []))
      (elim (Bool-cases (code c == 10)) [
        | inl ends ↦
            rw (ends, lines_from)
              (ap (λ (ls : List String). List.◌∷◌ (without_cr cur) ls) (lines_from-cut [] s rest))
        | inr goes ↦ rw (goes, lines_from) (lines_from-cut (push cur c) s rest)
      ])

take_lines-append :
    (c : Collector) (xs ys : List String)
    → take_lines c (append xs ys) ≡ take_lines (take_lines c xs) ys
unfolding take_lines
take_lines-append c List.[] ys = refl
take_lines-append c (List.◌∷◌ x xs) ys = take_lines-append (take_line c x) xs ys

-- the events that were collected before
abbrev behind : List SseEvent → Collector → Collector
behind events c = record c { events = append events c.events }

push_sse_event-behind :
    (events : List SseEvent) (c : Collector)
    → push_sse_event (behind events c) ≡ behind events (push_sse_event c)
unfolding push_sse_event
push_sse_event-behind events c = elim (Bool-cases (is_some c.event_type || not_nil c.data_lines)) [
  | inl pushed ↦
      rw (pushed, push_sse_event)
        (ap
          (λ (es : List SseEvent). record { events = es; event_type = none; data_lines = List.[] })
          (append_assoc events c.events
            (List.◌∷◌ (record { event_type = c.event_type; data_lines = c.data_lines }) List.[])))
  | inr left ↦ rw (left, push_sse_event) refl
]

take_field-behind :
    (events : List SseEvent) (c : Collector) (field : String × String)
    → take_field field (behind events c) ≡ behind events (take_field field c)
unfolding take_field
take_field-behind events c (field, value) = elim (Bool-cases (field =? "event")) [
  | inl e ↦ rw (e, take_field) refl
  | inr e ↦ elim (Bool-cases (field =? "data")) [
    | inl d ↦ rw (e, d, take_field) refl
    | inr d ↦ rw (e, d, take_field) refl
  ]
]

take_line-behind :
    (events : List SseEvent) (c : Collector) (line : String)
    → take_line (behind events c) line ≡ behind events (take_line c line)
unfolding take_line
take_line-behind events c raw_line =
    let line = without_cr raw_line in
    elim (Bool-cases (is_empty line)) [
      | inl e ↦ rw (e, take_line) (push_sse_event-behind events c)
      | inr e ↦ elim (Bool-cases (starts_with line ":")) [
        | inl d ↦ rw (e, d, take_line) refl
        | inr d ↦
            rw (e, d, take_line)
              (take_field-behind events c (field_value (split_once line ":") line))
      ]
    ]

take_lines-behind :
    (events : List SseEvent) (c : Collector) (xs : List String)
    → take_lines (behind events c) xs ≡ behind events (take_lines c xs)
unfolding take_lines
take_lines-behind events c List.[] = refl
take_lines-behind events c (List.◌∷◌ x xs) =
    ap (λ (d : Collector). take_lines d xs) (take_line-behind events c x)
    ∙ take_lines-behind events (take_line c x) xs

-- no event is open
abbrev closed : List SseEvent → Collector
closed events = record { events = events; event_type = none; data_lines = List.[] }

abbrev start : Collector
start = closed List.[]

-- nothing is open behind the end of an event
push_sse_event-closed :
    (events : List SseEvent) (event_type : Option String) (data_lines : List String)
    → push_sse_event (record { events = events; event_type = event_type; data_lines = data_lines })
      ≡ behind
          (push_sse_event
            (record { events = events; event_type = event_type; data_lines = data_lines })).events
          start
unfolding push_sse_event
push_sse_event-closed events none List.[] = ap closed (sym (append-nil events))
push_sse_event-closed events none (List.◌∷◌ x xs) = ap closed (sym (append-nil _))
push_sse_event-closed events (some t) data_lines = ap closed (sym (append-nil _))

-- A stream is read block by block: the events of a text in which a blank line stands are those of the
-- text before it and then those of the text behind it, whatever the two are.
pub collect_sse_events-blocks :
    (s t : String)
    → collect_sse_events (s ++ newline ∷ newline ∷ t)
      ≡ append (collect_sse_events (s ++ newline ∷ [])) (collect_sse_events t)
unfolding collect_sse_events lines lines_from take_lines take_line
collect_sse_events-blocks s t =
    let before = lines_from [] (s ++ newline ∷ []) in
    let after = lines_from [] t in
    let c = take_lines start before in
    let events = (push_sse_event c).events in
    ap (λ (ls : List String). (push_sse_event (take_lines start ls)).events)
      (lines_from-cut [] s (newline ∷ t))
    ∙ ap (λ (d : Collector). (push_sse_event d).events)
        (take_lines-append start before (List.◌∷◌ "" after))
    ∙ ap (λ (d : Collector). (push_sse_event (take_lines d after)).events)
        (push_sse_event-closed c.events c.event_type c.data_lines)
    ∙ ap (λ (d : Collector). (push_sse_event d).events) (take_lines-behind events start after)
    ∙ ap (λ (d : Collector). d.events) (push_sse_event-behind events (take_lines start after))
