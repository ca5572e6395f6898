-- ===== src/Downstream/Serve/Kept.antt =====
-- src/downstream.rs: the handlers keep each property that the operations keep.
use mcpstead.Base.{
  ℕ, ◌-◌, String, Bool, true, false, Option, none, some, List, [], ◌∷◌, Result, ok, err, refl,
  Option-cases, Bool-cases, inl, inr, not, if◌then◌else◌,
}
use mcpstead.Base.Eq.{◌=?◌, string_eq}
use mcpstead.Base.Text.{split_once}
use mcpstead.Base.Dict.{string_key}
use mcpstead.Json.{Json, object}
use mcpstead.State.App.{AppState, ManagedServer}
use mcpstead.State.Metrics.{record_mcp_request, record_tool_call}
use mcpstead.Upstream.Classify.{UpstreamError, bind_option}
use mcpstead.Upstream.Kept.{IsKept, Behind, Keeps}
use mcpstead.Upstream.Host.{World, Host, update_metrics}
use mcpstead.Upstream.Request.Kept.{upstream_request-Behind}
use mcpstead.Downstream.Tools.{
  mark_seen, mark_server_seen, conclude_call, call_target, call_named, call_with, call_tool,
}
use mcpstead.Downstream.Auth.{Headers}
use mcpstead.Downstream.Message.{
  run_method, handle_object, handle_parsed, handle_message, handle_message_with_metrics, answered,
  is_text,
}
use mcpstead.Downstream.Serve.{
  handle_batch, batch_response, handle_body, close_failed, respond, initialize_response_succeeded,
}

module _ (j : Json) (h : Host (j.Value)) (P : AppState (j.Value) → Type 0) (kept : IsKept P)
    (keeps : Keeps P h) where
  record_tool_call_kept :
      (server tool : String) (duration : ℕ) (reason : Option String) (w : World j.Value)
      → P w.app
      → P (update_metrics (record_tool_call server tool duration reason) w).app
  unfolding record_tool_call
  record_tool_call_kept server tool duration reason w b =
      kept.metrics (record_tool_call server tool duration reason) w.app (refl, refl) b

  conclude_call-Behind :
      (id : j.Value) (server tool : String) (started : ℕ)
      (r : Result UpstreamError (Option String × j.Value) × World j.Value)
      → Behind P r
      → Behind P (conclude_call j h id server tool started r)
  unfolding conclude_call mark_server_seen
  conclude_call-Behind id server tool started (ok (next, result), w) b =
      kept.server server (mark_seen w.now) _ (λ entry. refl)
        (record_tool_call_kept server tool (w.now - started) _ w b)
  conclude_call-Behind id server tool started (err e, w) b =
      record_tool_call_kept server tool (w.now - started) _ w b

  call_target-Behind :
      (id : j.Value) (server tool : String) (arguments : j.Value)
      (target : Option (ManagedServer j.Value)) (w : World j.Value)
      → P w.app
      → Behind P (call_target j h id server tool arguments target w)
  unfolding call_target
  call_target-Behind id server tool arguments none w b = b
  call_target-Behind id server tool arguments (some entry) w b = elim (Bool-cases entry.connected) [
    | inl on ↦ rw on (
        conclude_call-Behind id server tool w.now _ (
          upstream_request-Behind j h P kept keeps entry.config entry.session_id id "tools/call" _ w
            b))
    | inr off ↦ rw off (record_tool_call_kept server tool 0 _ w b)
  ]

  call_named-Behind :
      (id params : j.Value) (full_name : String) (w : World j.Value)
      → P w.app
      → Behind P (call_named j h id params full_name w)
  unfolding call_named
  call_named-Behind id params full_name w b = elim (Option-cases (split_once full_name "__")) [
    | inl e ↦ rw (e, call_named) b
    | inr ((server, tool), e) ↦ rw (e, call_named) (call_target-Behind id server tool _ _ w b)
  ]

  call_with-Behind :
      (id params : j.Value) (w : World j.Value) → P w.app → Behind P (call_with j h id params w)
  unfolding call_with
  call_with-Behind id params w b =
      elim (Option-cases (bind_option (j.field "name" params) j.as_str)) [
        | inl e ↦ rw (e, call_with) b
        | inr (full_name, e) ↦ rw (e, call_with) (call_named-Behind id params full_name w b)
      ]

  call_tool-Behind :
      (id message : j.Value) (w : World j.Value) → P w.app → Behind P (call_tool j h id message w)
  unfolding call_tool
  call_tool-Behind id message w b = elim (Option-cases (j.field "params" message)) [
    | inl e ↦ rw (e, call_tool) b
    | inr (params, e) ↦ rw (e, call_tool) (call_with-Behind id params w b)
  ]

  call_if-Behind :
      (silent : Bool) (id message : j.Value) (w : World j.Value)
      → P w.app
      → Behind P (if silent then (none, w) else answered j (call_tool j h id message w))
  call_if-Behind true id message w b = b
  call_if-Behind false id message w b = call_tool-Behind id message w b

  run_method-Behind :
      (silent : Bool) (id message : j.Value) (method : String) (w : World j.Value)
      → P w.app
      → Behind P (run_method j h silent id message method w)
  unfolding run_method
  run_method-Behind silent id message method w b = elim (Bool-cases (method =? "initialize")) [
    | inl e ↦ rw e b
    | inr e ↦ rw e (elim (Bool-cases (method =? "notifications/initialized")) [
      | inl n ↦ rw n b
      | inr n ↦ rw n (elim (Bool-cases (method =? "tools/list")) [
        | inl l ↦ rw l b
        | inr l ↦ rw l (elim (Bool-cases (method =? "tools/call")) [
          | inl c ↦ rw c (call_if-Behind silent id message w b)
          | inr c ↦ rw c b
        ])
      ])
    ])
  ]

  handle_object-Behind :
      (silent : Bool) (id message : j.Value) (object : j.Map) (w : World j.Value)
      → P w.app
      → Behind P (handle_object j h silent id message object w)
  unfolding handle_object
  handle_object-Behind silent id message object w b =
      elim (Bool-cases (is_text j (j.map_get "jsonrpc" object) "2.0")) [
        | inr e ↦ rw (e, handle_object) b
        | inl e ↦
            rw (e, handle_object)
              (elim (Option-cases (bind_option (j.map_get "method" object) j.as_str)) [
                | inl f ↦ rw f b
                | inr (method, f) ↦ rw f (run_method-Behind silent id message method w b)
              ])
      ]

  handle_parsed-Behind :
      (object : Option j.Map) (id : Option j.Value) (message : j.Value) (w : World j.Value)
      → P w.app
      → Behind P (handle_parsed j h object id message w)
  unfolding handle_parsed
  handle_parsed-Behind none id message w b = b
  handle_parsed-Behind (some object) none message w b =
      handle_object-Behind true j.null message object w b
  handle_parsed-Behind (some object) (some id) message w b =
      handle_object-Behind false id message object w b

  pub record_mcp_request_kept :
      (method result : String) (duration : ℕ) (w : World j.Value)
      → P w.app
      → P (update_metrics (record_mcp_request method result duration) w).app
  unfolding record_mcp_request
  record_mcp_request_kept method result duration w b =
      kept.metrics (record_mcp_request method result duration) w.app (refl, refl) b

  handle_message_with_metrics-Behind :
      (message : j.Value) (w : World j.Value)
      → P w.app
      → Behind P (handle_message_with_metrics j h message w)
  unfolding handle_message_with_metrics handle_message
  handle_message_with_metrics-Behind message w b =
      record_mcp_request_kept _ _ _ (handle_message j h message w).1
        (handle_parsed-Behind (j.as_object message) (j.field "id" message) message w b)

  handle_batch-Behind :
      (items : List j.Value) (w : World j.Value) → P w.app → Behind P (handle_batch j h items w)
  unfolding handle_batch
  handle_batch-Behind [] w b = b
  handle_batch-Behind (item ∷ items) w b =
      handle_batch-Behind items (handle_message_with_metrics j h item w).1
        (handle_message_with_metrics-Behind item w b)

  batch_response-Behind :
      (r : List j.Value × World j.Value) → Behind P r → Behind P (batch_response j h r)
  batch_response-Behind ([], w) b = b
  batch_response-Behind (v ∷ vs, w) b = b

  pub handle_body-Behind :
      (value : j.Value) (w : World j.Value) → P w.app → Behind P (handle_body j h value w)
  unfolding handle_body
  handle_body-Behind value w b = elim (Option-cases (j.as_array value)) [
    | inl e ↦ rw (e, handle_body) (handle_message_with_metrics-Behind value w b)
    | inr (items, e) ↦ rw (e, handle_body) (batch_response-Behind _ (handle_batch-Behind items w b))
  ]

  close_failed-Behind :
      (failed : Bool) (session : Option String) (w : World j.Value)
      → P w.app
      → Behind P (close_failed j failed session w)
  unfolding close_failed
  close_failed-Behind failed none w b = b
  close_failed-Behind true (some id) w b = kept.ended w.now id "init_failed" w.app b
  close_failed-Behind false (some id) w b = b

  pub respond-Behind :
      (headers : Headers) (session : Option String) (r : Option j.Value × World j.Value)
      → Behind P r
      → Behind P (respond j h headers session r)
  unfolding respond
  respond-Behind headers session (none, w) b = close_failed-Behind true session w b
  respond-Behind headers session (some response, w) b =
      close_failed-Behind (not (initialize_response_succeeded j response)) session w b
