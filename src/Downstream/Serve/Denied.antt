-- ===== src/Downstream/Serve/Denied.antt =====
-- src/downstream.rs: requests that are turned away.
use mcpstead.Base.{String, Option, ◌≡◌, refl, Bool}
use mcpstead.Json.{Json}
use mcpstead.State.App.{AppState}
use mcpstead.Upstream.Host.{World, Host}
use mcpstead.Downstream.Auth.{
  Headers, AuthDecision, allow, deny, authorize_mcp, record_auth_decision,
}
use mcpstead.Downstream.Response.{Response, unauthorized_response}
use mcpstead.Downstream.Serve.{
  post_decided, get_decided, delete_decided, post_mcp, get_mcp, delete_mcp, recorded,
}

module _ {V : Type 0} where
  -- the second state differs from the first in nothing but its metrics
  abbrev pub SameButMetrics : AppState V → AppState V → Type 0
  SameButMetrics s t = t ≡ record s { metrics = t.metrics }

module _ {V : Type 0} where
  -- a response that refuses, with a world that keeps all but the metrics
  abbrev pub Refused : World V → Response × World V → Type 0
  Refused w (response, w') = (response ≡ unauthorized_response) × SameButMetrics w.app w'.app

module _ (j : Json) (h : Host (j.Value)) (ct_eq : String → String → Bool)
    (new_uuid parse_error : String) where
  denied_post :
      (headers : Headers) (body : Option String) (w : World j.Value) (reason : String)
      (d : AuthDecision)
      → d ≡ deny reason
      → Refused w (
          post_decided j h ct_eq new_uuid parse_error d headers body
            (recorded j h ct_eq new_uuid parse_error d w))
  unfolding post_decided record_auth_decision
  denied_post headers body w reason allow e = cc
  denied_post headers body w reason (deny _) e = (refl, refl)

  denied_get :
      (headers : Headers) (w : World j.Value) (reason : String) (d : AuthDecision)
      → d ≡ deny reason
      → Refused w (
          get_decided j h ct_eq new_uuid parse_error d headers
            (recorded j h ct_eq new_uuid parse_error d w))
  unfolding get_decided record_auth_decision
  denied_get headers w reason allow e = cc
  denied_get headers w reason (deny _) e = (refl, refl)

  denied_delete :
      (headers : Headers) (w : World j.Value) (reason : String) (d : AuthDecision)
      → d ≡ deny reason
      → Refused w (
          delete_decided j h ct_eq new_uuid parse_error d headers
            (recorded j h ct_eq new_uuid parse_error d w))
  unfolding delete_decided record_auth_decision
  denied_delete headers w reason allow e = cc
  denied_delete headers w reason (deny _) e = (refl, refl)

  -- A request that the authentication denies gets the response 401 from each of the three handlers,
  -- and changes nothing of the state but the metrics: no session is touched, opened or ended, and no
  -- upstream is asked.
  pub denied_requests :
      (headers : Headers) (body : Option String) (w : World j.Value) (reason : String)
      → authorize_mcp ct_eq headers w.app.mcp_auth ≡ deny reason
      → Refused w (post_mcp j h ct_eq new_uuid parse_error headers body w)
        × Refused w (get_mcp j h ct_eq new_uuid parse_error headers w)
        × Refused w (delete_mcp j h ct_eq new_uuid parse_error headers w)
  unfolding post_mcp get_mcp delete_mcp
  denied_requests headers body w reason e =
      let d = authorize_mcp ct_eq headers w.app.mcp_auth in
      (
        denied_post headers body w reason d e,
        denied_get headers w reason d e,
        denied_delete headers w reason d e,
      )
