-- ===== src/Downstream/Serve/Others.antt =====
-- src/downstream.rs: `get_mcp` and `delete_mcp` keep each property that the operations keep.
use mcpstead.Base.{String, Bool, Option, none, some}
use mcpstead.Json.{Json}
use mcpstead.State.App.{AppState}
use mcpstead.Upstream.Kept.{IsKept, Behind, Keeps}
use mcpstead.Upstream.Host.{World, Host}
use mcpstead.Upstream.Send.{mcp_session_id}
use mcpstead.Downstream.Auth.{
  Headers, raw_header, AuthDecision, allow, deny, authorize_mcp, record_decision,
  record_auth_decision,
}
use mcpstead.Downstream.Serve.{
  touch, end_session, get_decided, delete_decided, get_mcp, delete_mcp, recorded,
}
use mcpstead.Downstream.Serve.Kept.{record_mcp_request_kept}
use mcpstead.Downstream.Serve.Posts.{record_decision-SameCounts}

module _ (j : Json) (h : Host (j.Value)) (P : AppState (j.Value) → Type 0) (kept : IsKept P)
    (keeps : Keeps P h) (ct_eq : String → String → Bool) (new_uuid parse_error : String) where
  -- the decision is recorded in other counters
  pub record_auth_decision_kept :
      (d : AuthDecision) (s : AppState j.Value) → P s → P (record_auth_decision d s)
  unfolding record_auth_decision
  record_auth_decision_kept d s b =
      kept.metrics (record_decision s.mcp_auth.mode d) s
        (record_decision-SameCounts s.mcp_auth.mode d s.metrics) b

  touch_kept : (id : Option String) (w : World j.Value) → P w.app → P (touch j id w).app
  touch_kept none w b = b
  touch_kept (some id) w b = kept.touched w.now id w.app b

  end_session_kept :
      (id : Option String) (w : World j.Value)
      → P w.app
      → P (end_session j h ct_eq new_uuid parse_error id w).app
  end_session_kept none w b = b
  end_session_kept (some id) w b = kept.ended w.now id "client_delete" w.app b

  get_decided-Behind :
      (d : AuthDecision) (headers : Headers) (w : World j.Value)
      → P w.app
      → Behind P (get_decided j h ct_eq new_uuid parse_error d headers w)
  unfolding get_decided
  get_decided-Behind (deny reason) headers w b =
      record_mcp_request_kept j h P kept keeps "listen" "error" _ w b
  get_decided-Behind allow headers w b =
      record_mcp_request_kept j h P kept keeps "listen" "error" _
        (touch j (raw_header headers mcp_session_id) w)
        (touch_kept (raw_header headers mcp_session_id) w b)

  delete_decided-Behind :
      (d : AuthDecision) (headers : Headers) (w : World j.Value)
      → P w.app
      → Behind P (delete_decided j h ct_eq new_uuid parse_error d headers w)
  unfolding delete_decided
  delete_decided-Behind (deny reason) headers w b =
      record_mcp_request_kept j h P kept keeps "terminate" "error" _ w b
  delete_decided-Behind allow headers w b =
      record_mcp_request_kept j h P kept keeps "terminate" "success" _
        (end_session j h ct_eq new_uuid parse_error (raw_header headers mcp_session_id) w)
        (end_session_kept (raw_header headers mcp_session_id) w b)

  pub get_mcp-Behind :
      (headers : Headers) (w : World j.Value)
      → P w.app
      → Behind P (get_mcp j h ct_eq new_uuid parse_error headers w)
  unfolding get_mcp
  get_mcp-Behind headers w b =
      let d = authorize_mcp ct_eq headers w.app.mcp_auth in
      get_decided-Behind d headers (recorded j h ct_eq new_uuid parse_error d w)
        (record_auth_decision_kept d w.app b)

  pub delete_mcp-Behind :
      (headers : Headers) (w : World j.Value)
      → P w.app
      → Behind P (delete_mcp j h ct_eq new_uuid parse_error headers w)
  unfolding delete_mcp
  delete_mcp-Behind headers w b =
      let d = authorize_mcp ct_eq headers w.app.mcp_auth in
      delete_decided-Behind d headers (recorded j h ct_eq new_uuid parse_error d w)
        (record_auth_decision_kept d w.app b)
