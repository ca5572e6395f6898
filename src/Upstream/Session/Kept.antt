-- ===== src/Upstream/Session/Kept.antt =====
-- src/upstream.rs: one exchange with an upstream, and the opening of a session, keep each property
-- that the operations keep.
use mcpstead.Base.{ℕ, ◌-◌, String, Option, none, Result, ok, err, refl, Option-cases, inl, inr}
use mcpstead.Base.Eq.{string_eq, option_eq}
use mcpstead.Base.Dict.{string_key}
use Prim.Native.String.{len}
use mcpstead.Config.{ServerConfig}
use mcpstead.Config.Load.{bearer_token}
use mcpstead.Json.{Json}
use mcpstead.State.App.{AppState}
use mcpstead.State.Metrics.{record_upstream_bytes, record_upstream_initialize}
use mcpstead.Upstream.Classify.{UpstreamError}
use mcpstead.Upstream.Kept.{IsKept, Behind, Keeps, proceed-Behind}
use mcpstead.Upstream.Host.{World, Host, HttpRequest, HttpResponse, update_metrics}
use mcpstead.Upstream.Send.{
  send_request, parse_upstream_response, send_upstream_body, upstream_request_raw,
  upstream_notification, build_request, as_plain,
}
use mcpstead.Upstream.Session.{after_initialize, initialize_upstream_session}

module _ (j : Json) (h : Host (j.Value)) (P : AppState (j.Value) → Type 0) (kept : IsKept P)
    (keeps : Keeps P h) where
  send_request-Behind :
      (config : ServerConfig) (request : HttpRequest) (w : World j.Value)
      → P w.app
      → Behind P (send_request j h config request w)
  unfolding send_request
  send_request-Behind config request w b = elim (Option-cases (h.send request w).0) [
    | inl e ↦ rw (e, send_request) (keeps.send request w b)
    | inr (response, e) ↦ rw (e, send_request) (keeps.send request w b)
  ]

  parse_upstream_response-Behind :
      (config : ServerConfig) (response : HttpResponse) (w : World j.Value)
      → P w.app
      → Behind P (parse_upstream_response j h config response w)
  unfolding parse_upstream_response record_upstream_bytes
  parse_upstream_response-Behind config response w b =
      proceed-Behind P (as_plain response.body) _ w b (λ body v c.
        kept.metrics (record_upstream_bytes config.name "received" body.len) v.app (refl, refl) c)

  send_upstream_body-Behind :
      (config : ServerConfig) (session : Option String) (body : j.Value) (w : World j.Value)
      → P w.app
      → Behind P (send_upstream_body j h config session body w)
  unfolding send_upstream_body record_upstream_bytes
  send_upstream_body-Behind config session body w b =
      let sent =
        update_metrics (record_upstream_bytes config.name "sent" (len (j.to_string body))) w in
      let sent_holds : P sent.app =
        kept.metrics (record_upstream_bytes config.name "sent" (len (j.to_string body))) w.app
          (refl, refl) b in
      proceed-Behind P (as_plain (bearer_token h.env_var config)) _ sent sent_holds (λ token v c.
        let request = build_request j h config session token (j.to_string body) in
        let answer = send_request j h config request v in
        proceed-Behind P answer.0 _ answer.1 (send_request-Behind config request v c)
          (λ response u d. parse_upstream_response-Behind config response u d))

  pub upstream_request_raw-Behind :
      (config : ServerConfig) (session : Option String) (id : j.Value) (method : String)
      (params : j.Value) (w : World j.Value)
      → P w.app
      → Behind P (upstream_request_raw j h config session id method params w)
  unfolding upstream_request_raw
  upstream_request_raw-Behind config session id method params w b =
      proceed-Behind P _ _ _ (send_upstream_body-Behind config session _ w b) (λ reply v c. c)

  upstream_notification-Behind :
      (config : ServerConfig) (session : Option String) (method : String) (params : j.Value)
      (w : World j.Value)
      → P w.app
      → Behind P (upstream_notification j h config session method params w)
  unfolding upstream_notification
  upstream_notification-Behind config session method params w b =
      proceed-Behind P _ _ _ (send_upstream_body-Behind config session _ w b) (λ reply v c. c)

  after_initialize-Behind :
      (config : ServerConfig) (started : ℕ)
      (r : Result UpstreamError (Option String × j.Value) × World j.Value)
      → Behind P r
      → Behind P (after_initialize j h config started r)
  unfolding after_initialize record_upstream_initialize
  after_initialize-Behind config started (err e, w) b =
      kept.metrics (record_upstream_initialize config.name "error" (w.now - started)) w.app
        (refl, refl) b
  after_initialize-Behind config started (ok (session, result), w) b =
      upstream_notification-Behind config session "notifications/initialized" j.null _ (
        kept.metrics (record_upstream_initialize config.name "success" (w.now - started)) w.app
          (refl, refl) b)

  pub initialize_upstream_session-Behind :
      (config : ServerConfig) (w : World j.Value)
      → P w.app
      → Behind P (initialize_upstream_session j h config w)
  unfolding initialize_upstream_session
  initialize_upstream_session-Behind config w b =
      after_initialize-Behind config w.now _
        (upstream_request_raw-Behind config none _ "initialize" _ w b)
