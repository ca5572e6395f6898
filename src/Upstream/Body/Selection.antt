-- ===== src/Upstream/Body/Selection.antt =====
-- src/upstream.rs: which event of a body counts.
use mcpstead.Base.{
  String, true, false, Option, some, List, [], ◌∷◌, ◌++◌, ◌≡◌, refl, ◌∙◌, ◌≢◌, ◌⊎◌, inl, inr, arith,
  ◌||◌, eq_iff, or_else,
}
use mcpstead.Base.Eq.{string_eq}
use mcpstead.Base.Text.{trim}
use mcpstead.Json.{Json}
use mcpstead.Upstream.Sse.{SseEvent, event_data}
use mcpstead.Upstream.Body.{parse_events, is_no_data, is_keepalive, type_of, with_context}

abbrev pub data_of : SseEvent → String
data_of e = trim (event_data e)

-- an event that carries nothing
abbrev pub IsIgnored : SseEvent → Type 0
IsIgnored e = (is_no_data (data_of e) || is_keepalive (type_of e)) ≡ true

-- neither a message nor an error, or ignored
abbrev pub IsPassed : SseEvent → Type 0
IsPassed e = IsIgnored e ⊎ ((type_of e ≢ "message") × (type_of e ≢ "error"))

abbrev pub AllPassed : List SseEvent → Type 0
AllPassed [] = Unit
AllPassed (e ∷ es) = IsPassed e × AllPassed es

module _ (j : Json) where
  -- Events without data, the mark that ends a stream and keep-alives change nothing, wherever they stand.
  pub parse_events_ignored :
      (before after : List SseEvent) (e : SseEvent) (first : Option SseEvent)
      → IsIgnored e
      → parse_events j (before ++ e ∷ after) first ≡ parse_events j (before ++ after) first
  unfolding parse_events
  parse_events_ignored [] after e first h = ground arith
  parse_events_ignored (b ∷ before) after e first h = ground (
    arith,
    parse_events_ignored before after e first h,
    parse_events_ignored before after e (or_else first (some b)) h,
  )

  -- a round that the loop passes over
  parse_events_passed :
      (b : SseEvent) (rest : List SseEvent) (first : Option SseEvent)
      → IsPassed b
      → (parse_events j (b ∷ rest) first ≡ parse_events j rest first)
        ⊎ (parse_events j (b ∷ rest) first ≡ parse_events j rest (or_else first (some b)))
  unfolding parse_events
  parse_events_passed b rest first h =
      ground (arith, eq_iff (type_of b) "message", eq_iff (type_of b) "error")

  parse_events_first :
      (e : SseEvent) (after : List SseEvent) (first : Option SseEvent)
      → is_no_data (data_of e) ≡ false
      → type_of e ≡ "message"
      → parse_events j (e ∷ after) first
        ≡ with_context "SSE message data is not valid JSON" (j.from_str (data_of e))
  unfolding parse_events
  parse_events_first e after first d m = rw (d, m) refl

  -- The first message counts, whatever custom events stand before it and whatever follows it: the
  -- result is the reading of its data.
  pub parse_events_message :
      (before after : List SseEvent) (e : SseEvent) (first : Option SseEvent)
      → AllPassed before
      → is_no_data (data_of e) ≡ false
      → type_of e ≡ "message"
      → parse_events j (before ++ e ∷ after) first
        ≡ with_context "SSE message data is not valid JSON" (j.from_str (data_of e))
  parse_events_message [] after e first h d m = parse_events_first e after first d m
  parse_events_message (b ∷ before) after e first h d m =
      elim (parse_events_passed b (before ++ e ∷ after) first h.0) [
        | inl same ↦ same ∙ parse_events_message before after e first h.1 d m
        | inr noted ↦ noted ∙ parse_events_message before after e (or_else first (some b)) h.1 d m
      ]
