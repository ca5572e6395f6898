-- ===== src/Downstream/Serve.antt =====
-- src/downstream.rs: the handlers of the endpoint. The new session's id, which the crate uuid makes,
-- and the text of a JSON error are arguments.
pub mod Silence
pub mod Denied
pub mod Kept
pub mod Closing
pub mod Posts
pub mod Others
use mcpstead.Base.{
  ℕ, zero, suc, ◌+◌, ◌-◌, String, Bool, true, false, Option, none, some, List, [], ◌∷◌, ◌||◌, ◌&&◌,
  not, if◌then◌else◌, is_some, map, any,
}
use mcpstead.Base.Eq.{◌=?◌, string_eq}
use mcpstead.Json.{Json}
use mcpstead.State.App.{AppState}
use mcpstead.State.Metrics.{record_mcp_request}
use mcpstead.State.Sessions.{accepting_new_sessions, touch_session, open_session, terminate_session}
use mcpstead.Upstream.Classify.{bind_option}
use mcpstead.Upstream.Host.{World, Host, update_app, update_metrics}
use mcpstead.Upstream.Send.{mcp_session_id}
use mcpstead.Downstream.Auth.{
  Headers, raw_header, get_header, AuthDecision, allow, deny, authorize_mcp, record_auth_decision,
}
use mcpstead.Downstream.Rpc.{json_rpc_error, jsonrpc_parse_error}
use mcpstead.Downstream.Message.{is_text, handle_message_with_metrics}
use mcpstead.Downstream.Response.{
  Response, unauthorized_response, text_response, status_response, downstream_response,
}

abbrev pub has_text : Option String → String → Bool
has_text none s = false
has_text (some t) s = t =? s

module _ (j : Json) where
  open j use {Value, field, as_str, as_array, depth}

  -- `value.pointer("/result/serverInfo/name")`
  abbrev pub server_name_of : Value → Option Value
  server_name_of value =
      bind_option (bind_option (field "result" value) (field "serverInfo")) (field "name")

  -- `value_has_method` and `initialize_response_succeeded` on at most as many levels of arrays as
  -- the fuel; a value has no more levels than its depth and one
  unfoldable pub has_method_within : ℕ → Value → String → Bool
  has_method_within zero value method = false
  has_method_within (suc n) value method = elim (as_array value) [
    | some items ↦ any (λ item. has_method_within n item method) items
    | none ↦ has_text (bind_option (field "method" value) as_str) method
  ]

  unfoldable pub succeeded_within : ℕ → Value → Bool
  succeeded_within zero value = false
  succeeded_within (suc n) value = elim (as_array value) [
    | some items ↦ any (succeeded_within n) items
    | none ↦ not (is_some (field "error" value)) && is_text j (server_name_of value) "mcpstead"
  ]

  -- `value_has_method`
  unfoldable pub value_has_method : Value → String → Bool
  unfolding has_method_within
  value_has_method value method = has_method_within (suc (depth value)) value method

  -- `initialize_response_succeeded`
  unfoldable pub initialize_response_succeeded : Value → Bool
  unfolding succeeded_within
  initialize_response_succeeded value = succeeded_within (suc (depth value)) value

  abbrev pub set_app : World Value → AppState Value → World Value
  set_app w app = record w { app = app }

  -- `record_mcp_request` of a request that started at `started`
  abbrev pub note_request : String → String → ℕ → World Value → World Value
  note_request method result started w =
      update_metrics (record_mcp_request method result (w.now - started)) w

  abbrev pub touch : Option String → World Value → World Value
  touch none w = w
  touch (some id) w = set_app w (touch_session w.now id w.app).0

  abbrev pub open_if : Option String → World Value → World Value
  open_if none w = w
  open_if (some id) w = set_app w (open_session w.now id w.app)

  -- a session that was opened for an `initialize` that failed; the response then names none
  unfoldable pub close_failed : Bool → Option String → World Value → Option String × World Value
  close_failed failed none w = (none, w)
  close_failed true (some id) w =
      (none, set_app w (terminate_session w.now id "init_failed" w.app).0)
  close_failed false (some id) w = (some id, w)

  module _ (h : Host Value) where
    abbrev pub push_response : Option Value → List Value → List Value
    push_response none responses = responses
    push_response (some response) responses = response ∷ responses

    -- the loop of `post_mcp` over a batch
    unfoldable pub handle_batch : List Value → World Value → List Value × World Value
    unfolding handle_message_with_metrics
    handle_batch [] w = ([], w)
    handle_batch (item ∷ items) w =
        let (response, w1) = handle_message_with_metrics j h item w in
        let (responses, w2) = handle_batch items w1 in (push_response response responses, w2)

    abbrev pub batch_response : List Value × World Value → Option Value × World Value
    batch_response ([], w) = (none, w)
    batch_response (r ∷ rs, w) = (some (j.array (r ∷ rs)), w)

    -- the response to a body, if there is one
    unfoldable pub handle_body : Value → World Value → Option Value × World Value
    unfolding handle_batch
    handle_body value w = elim (as_array value) [
      | some items ↦ batch_response (handle_batch items w)
      | none ↦ handle_message_with_metrics j h value w
    ]

    -- the end of `post_mcp`
    unfoldable pub respond :
        Headers → Option String → Option Value × World Value → Response × World Value
    unfolding close_failed initialize_response_succeeded downstream_response
    respond headers session_id (none, w) =
        let (session, w') = close_failed true session_id w in
        (downstream_response j headers 202 none session, w')
    respond headers session_id (some response, w) =
        let failed = not (initialize_response_succeeded response) in
        let (session, w') = close_failed failed session_id w in
        (downstream_response j headers 200 (some response) session, w')

    module _ (ct_eq : String → String → Bool) (new_uuid : String) (parse_error : String) where
      -- `post_mcp` behind the parsing of the body; `started` is when the request came in
      unfoldable pub post_value : Headers → ℕ → Value → World Value → Response × World Value
      unfolding value_has_method respond handle_body accepting_new_sessions
      post_value headers started value w =
          let saw_initialize = value_has_method value "initialize" in
          if saw_initialize && not (accepting_new_sessions w.app)
          then (
            text_response 503 "gateway shutting down",
            note_request "initialize" "error" started w,
          )
          else let session_id : Option String = if saw_initialize then some new_uuid else none in
            respond headers session_id (handle_body value (open_if session_id w))

      -- `post_mcp` behind the authentication
      unfoldable pub post_allowed :
          Headers → Option String → ℕ → World Value → Response × World Value
      unfolding post_value
      post_allowed headers body started w =
          let touched = touch (get_header headers mcp_session_id) w in
          elim (bind_option body j.from_str) [
            | none ↦ (
              downstream_response j headers 200
                  (some (json_rpc_error j j.null jsonrpc_parse_error parse_error)) none,
              note_request "invalid" "error" started touched,
            )
            | some value ↦ post_value headers started value touched
          ]

      abbrev pub recorded : AuthDecision → World Value → World Value
      recorded decision w = set_app w (record_auth_decision decision w.app)

      -- a request that is turned away
      abbrev pub turn_away : String → World Value → Response × World Value
      turn_away method w = (unauthorized_response, note_request method "error" w.now w)

      unfoldable pub post_decided :
          AuthDecision → Headers → Option String → World Value → Response × World Value
      unfolding post_allowed
      post_decided (deny _) headers body w = turn_away "unknown" w
      post_decided allow headers body w = post_allowed headers body w.now w

      -- `post_mcp`, of a body that is UTF-8 or not
      unfoldable pub post_mcp : Headers → Option String → World Value → Response × World Value
      unfolding post_decided authorize_mcp
      post_mcp headers body w =
          let auth = authorize_mcp ct_eq headers w.app.mcp_auth in
          post_decided auth headers body (recorded auth w)

      unfoldable pub get_decided : AuthDecision → Headers → World Value → Response × World Value
      get_decided (deny _) headers w = turn_away "listen" w
      get_decided allow headers w = (
        text_response 405 "server notifications are not implemented",
        note_request "listen" "error" w.now (touch (raw_header headers mcp_session_id) w),
      )

      -- `get_mcp`
      unfoldable pub get_mcp : Headers → World Value → Response × World Value
      unfolding get_decided authorize_mcp
      get_mcp headers w =
          let auth = authorize_mcp ct_eq headers w.app.mcp_auth in
          get_decided auth headers (recorded auth w)

      abbrev pub end_session : Option String → World Value → World Value
      end_session none w = w
      end_session (some id) w = set_app w (terminate_session w.now id "client_delete" w.app).0

      unfoldable pub delete_decided : AuthDecision → Headers → World Value → Response × World Value
      delete_decided (deny _) headers w = turn_away "terminate" w
      delete_decided allow headers w = (
        status_response 202,
        note_request "terminate" "success" w.now
            (end_session (raw_header headers mcp_session_id) w),
      )

      -- `delete_mcp`
      unfoldable pub delete_mcp : Headers → World Value → Response × World Value
      unfolding delete_decided authorize_mcp
      delete_mcp headers w =
          let auth = authorize_mcp ct_eq headers w.app.mcp_auth in
          delete_decided auth headers (recorded auth w)
