-- ===== src/Upstream/Sse.antt =====
-- src/upstream.rs: the reading of a body of server-sent events.
pub mod Blocks
use mcpstead.Base.{
  String, Bool, true, false, Option, none, some, List, [], ◌∷◌, ◌++◌ as append, ◌||◌, if◌then◌else◌,
  is_some, unwrap_or,
}
use mcpstead.Base.Eq.{◌=?◌, string_eq}
use mcpstead.Base.Text.{
  is_empty, lines, strip_suffix, strip_prefix, split_once, starts_with, without_cr, join,
}

pub record SseEvent : Type 0 where
  pub event_type : Option String
  pub data_lines : List String

-- `SseEvent::data`
unfoldable pub event_data : SseEvent → String
unfolding join
event_data e = join "\n" e.data_lines

-- the three variables of `collect_sse_events`
pub record Collector : Type 0 where
  pub events : List SseEvent
  pub event_type : Option String
  pub data_lines : List String

abbrev not_nil : List String → Bool
not_nil [] = false
not_nil (_ ∷ _) = true

-- `push_sse_event`
unfoldable pub push_sse_event : Collector → Collector
push_sse_event c =
    if is_some c.event_type || not_nil c.data_lines
    then (record {
      events =
          append c.events (record { event_type = c.event_type; data_lines = c.data_lines } ∷ []);
      event_type = none;
      data_lines = [];
    })
    else c

abbrev pub field_value : Option (String × String) → String → String × String
field_value none line = (line, "")
field_value (some (field, value)) line = (field, unwrap_or (strip_prefix value " ") value)

-- the end of a round: `match field`
unfoldable pub take_field : String × String → Collector → Collector
take_field (field, value) c =
    if field =? "event"
    then (record c { event_type = some value })
    else if field =? "data"
    then (record c { data_lines = append c.data_lines (value ∷ []) })
    else c

-- one round of the loop over the lines
unfoldable pub take_line : Collector → String → Collector
unfolding strip_suffix strip_prefix split_once starts_with push_sse_event take_field
take_line c raw_line =
    let line = without_cr raw_line in
    if is_empty line
    then push_sse_event c
    else if starts_with line ":"
    then c
    else take_field (field_value (split_once line ":") line) c

unfoldable pub take_lines : Collector → List String → Collector
take_lines c [] = c
take_lines c (line ∷ rest) = take_lines (take_line c line) rest

-- `collect_sse_events`
unfoldable pub collect_sse_events : String → List SseEvent
unfolding take_lines lines
collect_sse_events text =
    let start : Collector = record { events = []; event_type = none; data_lines = [] } in
    (push_sse_event (take_lines start (lines text))).events
