-- ===== src/Tests/Upstream.antt =====
-- The theorems on the connections to upstreams at one server and one body of events.
use Prim.Native.String.{◌∷◌, ◌++◌}
use mcpstead.Base.{◌++◌ as append}
use mcpstead.Base.Text.Lines.{newline}
use mcpstead.Upstream.Sse.{collect_sse_events}
use mcpstead.Upstream.Sse.Blocks.{collect_sse_events-blocks}
use mcpstead.Base.{err, suc, ◌+◌, ◌*◌, ◌^◌, ◌≡◌, refl, none, some, [], ◌∷◌, arith, inr}
use mcpstead.Base.Int.{pos}
use mcpstead.Base.Text.{trim}
use mcpstead.Config.{default_reconnect}
use mcpstead.Json.Sample.{obj, end, num}
use mcpstead.Upstream.Backoff.{backoff_delay, backoff_delay_exact}
use mcpstead.Upstream.Body.{parse_events, with_context}
use mcpstead.Upstream.Body.Selection.{data_of, parse_events_ignored, parse_events_message}
use mcpstead.Upstream.Classify.{UpstreamError}
use mcpstead.Base.{is_ok}
use mcpstead.Upstream.Manager.{Attempt, note_attempt, first_manager}
use mcpstead.Upstream.Manager.Agrees.{
  tools_found, failures_behind, Agrees, IsPauseOf, note_attempt-Agrees,
}
use mcpstead.Upstream.Request.{reset_session, upstream_request}
use mcpstead.Upstream.Request.Time.{upstream_request-EndsBy}
use mcpstead.Upstream.Session.Time.{EndsBy, IsPrompt}
use mcpstead.Upstream.Request.Reset.{Settled, reset_session-Settled}
use mcpstead.Upstream.Sse.{SseEvent, event_data}
use mcpstead.Tests.Data.{old_config, search_server, state_of, json, host, world_of}

backoff_delay_exact_example :
    backoff_delay default_reconnect (suc 3) ≡ default_reconnect.backoff_base_ms * 2 ^ 3
backoff_delay_exact_example =
    backoff_delay_exact default_reconnect 3 (omega arith) (omega arith) (omega arith) (omega arith)

abbrev ping : SseEvent
ping = record { event_type = some "ping"; data_lines = "{}" ∷ [] }

abbrev progress : SseEvent
progress = record { event_type = some "progress"; data_lines = "{}" ∷ [] }

abbrev message : SseEvent
message = record { event_type = none; data_lines = "{}" ∷ [] }

parse_events_ignored_example :
    parse_events json (progress ∷ ping ∷ message ∷ []) none
    ≡ parse_events json (progress ∷ message ∷ []) none
unfolding event_data trim
parse_events_ignored_example =
    parse_events_ignored json (progress ∷ []) (message ∷ []) ping none refl

parse_events_message_example :
    parse_events json (progress ∷ message ∷ []) none
    ≡ with_context "SSE message data is not valid JSON" (json.from_str (data_of message))
unfolding event_data trim
parse_events_message_example =
    parse_events_message json (progress ∷ []) [] message none (inr (λ e. cc, λ e. cc), tt) refl refl

abbrev lost : UpstreamError
lost = record { message = "gone"; session_reset_reason = some "expired" }

reset_session-Settled_example :
    Settled json host search_server (num (pos 1)) "tools/list" (obj end) (
      reset_session json host search_server
        (num (pos 1))
        "tools/list"
        (obj end)
        lost
        "expired"
        (some "s-1")
        none
        (world_of (state_of old_config none)))
reset_session-Settled_example =
    reset_session-Settled json host search_server (num (pos 1)) "tools/list" (obj end) lost
      "expired" (some "s-1") none (world_of (state_of old_config none))

-- an attempt that failed
abbrev failed : Attempt json host
failed = (err lost, world_of (state_of old_config none))

note_attempt-Agrees_example :
    ((note_attempt json host "search" search_server first_manager failed).0.failures
      ≡ failures_behind (is_ok failed.0) first_manager.failures)
    × Agrees "search"
        (note_attempt json host "search" search_server first_manager failed).0
        (tools_found failed.0)
        (note_attempt json host "search" search_server first_manager failed).2.app
    × IsPauseOf search_server
        (note_attempt json host "search" search_server first_manager failed).0
        (note_attempt json host "search" search_server first_manager failed).1
note_attempt-Agrees_example =
    note_attempt-Agrees json host "search" search_server first_manager failed

-- the host is at the instant 99 behind each answer
host-IsPrompt : IsPrompt host 99 0
host-IsPrompt = record { send = λ r w. omega arith; wait_lock = λ lock w. omega arith }

upstream_request-EndsBy_example : EndsBy ((world_of (state_of old_config none)).now + 0 + 5 * 99) (
    upstream_request json host search_server
      (some "s-1")
      (num (pos 1))
      "tools/list"
      (obj end)
      (world_of (state_of old_config none)))
upstream_request-EndsBy_example =
    upstream_request-EndsBy json host 99 0 host-IsPrompt search_server (some "s-1") (num (pos 1))
      "tools/list" (obj end) (world_of (state_of old_config none))

collect_sse_events-blocks_example :
    collect_sse_events ("data: 1" ++ newline ∷ newline ∷ "data: 2\n")
    ≡ append (collect_sse_events ("data: 1" ++ newline ∷ "")) (collect_sse_events "data: 2\n")
collect_sse_events-blocks_example = collect_sse_events-blocks "data: 1" "data: 2\n"
