-- ===== src/Upstream/Body.antt =====
-- src/upstream.rs: the reading of a response's body.
pub mod Selection
use Prim.Native.String.{◌++◌}
use mcpstead.Base.{
  ℕ, String, Bool, true, false, Option, none, some, List, [], ◌∷◌, Result, ok, err, ◌||◌,
  if◌then◌else◌, unwrap_or, or_else,
}
use mcpstead.Base.Eq.{◌=?◌, string_eq}
use mcpstead.Base.Text.{is_empty, contains, starts_with, trim, trim_start}
use mcpstead.Json.{Json}
use mcpstead.Upstream.Sse.{SseEvent, event_data, collect_sse_events}
use mcpstead.Upstream.Classify.{UpstreamError, plain}

abbrev pub with_context : {A : Type 0} → String → Option A → Result UpstreamError A
with_context message none = err (plain message)
with_context message (some a) = ok a

abbrev pub type_of : SseEvent → String
type_of e = unwrap_or e.event_type "message"

-- "ping" | "keepalive" | "heartbeat"
abbrev pub is_keepalive : String → Bool
is_keepalive t = t =? "ping" || t =? "keepalive" || t =? "heartbeat"

abbrev pub is_no_data : String → Bool
is_no_data data_text = is_empty data_text || data_text =? "[DONE]"

module _ (j : Json) where
  open j use {Value, from_str}

  -- the end of `parse_sse_body`, behind its loop
  unfoldable pub from_first : Option SseEvent → Result UpstreamError Value
  from_first none = err (plain "SSE response had no data event")
  from_first (some e) =
      with_context ("SSE event '" ++ type_of e ++ "' data is not valid JSON")
        (from_str (trim (event_data e)))

  -- the loop of `parse_sse_body`, with the variable `first_data_event`
  unfoldable pub parse_events : List SseEvent → Option SseEvent → Result UpstreamError Value
  parse_events [] first = from_first first
  parse_events (e ∷ rest) first =
      let text = trim (event_data e) in
      let skipped = parse_events rest first in
      let noted = parse_events rest (or_else first (some e)) in
      if is_no_data text
      then skipped
      else if is_keepalive (type_of e)
      then skipped
      else if type_of e =? "message"
      then with_context "SSE message data is not valid JSON" (from_str text)
      else if type_of e =? "error"
      then err (plain ("SSE error event: " ++ text))
      else noted

  -- `parse_sse_body`
  unfoldable pub parse_sse_body : String → Result UpstreamError Value
  unfolding parse_events from_first
  parse_sse_body text = parse_events (collect_sse_events text) none

  -- whether `parse_mcp_body` reads events
  unfoldable pub is_sse : Option String → String → Bool
  is_sse content_type text =
      let trimmed = trim_start text in
      elim content_type [ none ↦ false | some t ↦ contains t "text/event-stream" ]
      || starts_with trimmed "event:"
      || starts_with trimmed "data:"

  -- `parse_mcp_body`, of a body that is UTF-8 or not
  unfoldable pub parse_mcp_body : Option String → Option String → Result UpstreamError Value
  parse_mcp_body content_type none = err (plain "response body is not utf-8")
  parse_mcp_body content_type (some text) =
      if is_sse content_type text
      then parse_sse_body text
      else with_context "response body is not valid JSON" (from_str text)
