-- ===== src/Downstream/Serve/Posts.antt =====
-- src/downstream.rs: a post keeps each property that the operations keep, such as the books of the
-- sessions.
use mcpstead.Base.{
  ℕ, String, Bool, true, false, Option, none, some, refl, arith, Option-cases, Bool-cases, inl, inr,
  not, ◌&&◌, if◌then◌else◌,
}
use mcpstead.Base.Dict.{string_key, get}
use mcpstead.Base.Dict.Laws.{get-adjust}
use mcpstead.Json.{Json}
use mcpstead.Config.{McpAuthMode, open_access, bearer}
use mcpstead.State.App.{AppState, DownstreamSession}
use mcpstead.State.Metrics.{Metrics, record_auth_success, record_auth_failure}
use mcpstead.State.Sessions.{touch_session, accepting_new_sessions}
use mcpstead.Upstream.Classify.{bind_option}
use mcpstead.State.Sessions.Accounting.{Balanced}
use mcpstead.Upstream.Kept.Books.{Balanced-IsKept}
use mcpstead.Upstream.Kept.{SameCounts, IsFree, IsKept, Behind, Keeps}
use mcpstead.Upstream.Host.{World, Host}
use mcpstead.Upstream.Send.{mcp_session_id}
use mcpstead.Downstream.Auth.{
  Headers, get_header, AuthDecision, allow, deny, authorize_mcp, record_decision,
  record_auth_decision,
}
use mcpstead.Downstream.Serve.{
  touch, open_if, value_has_method, post_value, post_allowed, post_decided, post_mcp, recorded,
}
use mcpstead.Downstream.Serve.Kept.{handle_body-Behind, respond-Behind, record_mcp_request_kept}

pub record_decision-SameCounts :
    (mode : McpAuthMode) (d : AuthDecision) (m : Metrics) → SameCounts m (record_decision mode d m)
unfolding record_decision record_auth_success record_auth_failure
record_decision-SameCounts open_access d m = (refl, refl)
record_decision-SameCounts bearer allow m = (refl, refl)
record_decision-SameCounts bearer (deny reason) m = (refl, refl)

module _ {V : Type 0} where
  touch_session-IsFree :
      (now : ℕ) (id other : String) (s : AppState V)
      → IsFree id s
      → IsFree id (touch_session now other s).0
  unfolding touch_session
  touch_session-IsFree now id other s f = elim (Option-cases (get other s.sessions)) [
    | inl e ↦ rw (e, touch_session) f
    | inr (session, e) ↦
        let move : DownstreamSession → DownstreamSession = λ c. record c { last_activity = now } in
        rw (e, touch_session) (ground (arith, get-adjust other id move s.sessions, f.0), f.1)
  ]

module _ (j : Json) (h : Host (j.Value)) (P : AppState (j.Value) → Type 0) (kept : IsKept P)
    (keeps : Keeps P h) (ct_eq : String → String → Bool) (new_uuid parse_error : String) where
  open_if_kept :
      (saw : Bool) (w : World j.Value)
      → IsFree new_uuid w.app
      → P w.app
      → P (open_if j (if saw then some new_uuid else none) w).app
  open_if_kept true w f b = kept.opened w.now new_uuid w.app f b
  open_if_kept false w f b = b

  post_value-Behind :
      (headers : Headers) (started : ℕ) (value : j.Value) (w : World j.Value)
      → IsFree new_uuid w.app
      → P w.app
      → Behind P (post_value j h ct_eq new_uuid parse_error headers started value w)
  unfolding post_value
  post_value-Behind headers started value w f b =
      let saw = value_has_method j value "initialize" in
      elim (Bool-cases (saw && not (accepting_new_sessions w.app))) [
        | inl shut ↦
            rw (shut, post_value)
              (record_mcp_request_kept j h P kept keeps "initialize" "error" _ w b)
        | inr open_still ↦
            rw (open_still, post_value)
              (respond-Behind j h P kept keeps headers _ _
                (handle_body-Behind j h P kept keeps value _ (open_if_kept saw w f b)))
      ]

  pub touch-Behind :
      (id : Option String) (w : World j.Value)
      → IsFree new_uuid w.app
      → P w.app
      → IsFree new_uuid (touch j id w).app × P (touch j id w).app
  touch-Behind none w f b = (f, b)
  touch-Behind (some id) w f b =
      (touch_session-IsFree w.now new_uuid id w.app f, kept.touched w.now id w.app b)

  post_allowed-Behind :
      (headers : Headers) (body : Option String) (started : ℕ) (w : World j.Value)
      → IsFree new_uuid w.app
      → P w.app
      → Behind P (post_allowed j h ct_eq new_uuid parse_error headers body started w)
  unfolding post_allowed
  post_allowed-Behind headers body started w f b =
      let touched = touch-Behind (get_header headers mcp_session_id) w f b in
      let w' = touch j (get_header headers mcp_session_id) w in
      elim (Option-cases (bind_option body j.from_str)) [
        | inl e ↦
            rw (e, post_allowed)
              (record_mcp_request_kept j h P kept keeps "invalid" "error" _ w' touched.1)
        | inr (value, e) ↦
            rw (e, post_allowed) (post_value-Behind headers started value w' touched.0 touched.1)
      ]

  post_decided-Behind :
      (d : AuthDecision) (headers : Headers) (body : Option String) (w : World j.Value)
      → IsFree new_uuid w.app
      → P w.app
      → Behind P (post_decided j h ct_eq new_uuid parse_error d headers body w)
  unfolding post_decided
  post_decided-Behind (deny reason) headers body w f b =
      record_mcp_request_kept j h P kept keeps "unknown" "error" _ w b
  post_decided-Behind allow headers body w f b = post_allowed-Behind headers body w.now w f b

  pub post_mcp_kept :
      (headers : Headers) (body : Option String) (w : World j.Value)
      → IsFree new_uuid w.app
      → P w.app
      → P (post_mcp j h ct_eq new_uuid parse_error headers body w).1.app
  unfolding post_mcp record_auth_decision
  post_mcp_kept headers body w f b =
      let d = authorize_mcp ct_eq headers w.app.mcp_auth in
      let record_it = record_decision w.app.mcp_auth.mode d in
      let same = record_decision-SameCounts w.app.mcp_auth.mode d w.app.metrics in
      post_decided-Behind d headers body (recorded j h ct_eq new_uuid parse_error d w)
        (f.0, rw same.1 f.1) (kept.metrics record_it w.app same b)

module _ (j : Json) (h : Host (j.Value)) (keeps : Keeps Balanced h) (ct_eq : String → String → Bool)
    (new_uuid parse_error : String) where
  -- A post keeps the books of the sessions, whatever it holds and whatever the upstreams reply: where
  -- each session that was opened is active or counted as terminated once, that is so behind it. It
  -- needs a new id that no session has, a counter that is not full, and other tasks that keep the
  -- books while the post waits for an upstream.
  pub post_mcp-Balanced :
      (headers : Headers) (body : Option String) (w : World j.Value)
      → IsFree new_uuid w.app
      → Balanced w.app
      → Balanced (post_mcp j h ct_eq new_uuid parse_error headers body w).1.app
  post_mcp-Balanced headers body w f b =
      post_mcp_kept j h Balanced (Balanced-IsKept j.Value) keeps ct_eq new_uuid parse_error headers
        body w f b
