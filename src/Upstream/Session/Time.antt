-- ===== src/Upstream/Session/Time.antt =====
-- src/upstream.rs: how long an exchange with an upstream and the opening of a session take.
use mcpstead.Base.{
  ℕ, ◌+◌, ◌-◌, ◌≤◌, String, Option, none, [], ◌∷◌, Result, ok, err, arith, Option-cases, inl, inr,
}
use Prim.Native.String.{len}
use mcpstead.Config.{ServerConfig}
use mcpstead.Config.Load.{bearer_token}
use mcpstead.Base.Int.{pos}
use mcpstead.Json.{Json, object}
use mcpstead.State.Metrics.{record_upstream_bytes, record_upstream_initialize}
use mcpstead.Upstream.Classify.{UpstreamError}
use mcpstead.Upstream.Host.{
  World, Host, HttpRequest, HttpResponse, Act, proceed, lift, update_metrics,
}
use mcpstead.Upstream.Send.{
  send_request, parse_upstream_response, send_upstream_body, upstream_request_raw,
  upstream_notification, build_request, as_plain, reply_of, notification_fields,
}
use mcpstead.Upstream.Session.{
  after_initialize, initialize_params, pkg_version, initialize_upstream_session,
}

module _ {V : Type 0} where
  -- what an action gives is there at an instant
  abbrev pub EndsBy : {A : Type 0} → ℕ → A × World V → Type 0
  EndsBy t r = r.1.now ≤ t

  -- the host answers each request in a time, and gives a lock in another
  pub record IsPrompt (h : Host V) (answer lock_wait : ℕ) : Type 0 where
    pub send : (r : HttpRequest) (w : World V) → EndsBy (w.now + answer) (h.send r w)
    pub wait_lock : (lock : ℕ) (w : World V) → (h.wait_lock lock w).now ≤ w.now + lock_wait

  proceed-EndsBy :
      {A B : Type 0} (t : ℕ) (r : Result UpstreamError A) (f : A → Act V B) (w : World V)
      → w.now ≤ t
      → ((a : A) → EndsBy t (f a w))
      → EndsBy t (proceed r f w)
  proceed-EndsBy t (ok a) f w b k = k a
  proceed-EndsBy t (err e) f w b k = b

  lift-EndsBy :
      {A B : Type 0} (t : ℕ) (r : Result UpstreamError A × World V) (f : A → Result UpstreamError B)
      → EndsBy t r
      → EndsBy t (proceed r.0 (λ a. lift (f a)) r.1)
  lift-EndsBy t (ok a, w) f b = b
  lift-EndsBy t (err e, w) f b = b

module _ (j : Json) (h : Host (j.Value)) (answer lock_wait : ℕ)
    (p : IsPrompt h answer lock_wait) where
  send_request-EndsBy :
      (config : ServerConfig) (request : HttpRequest) (w : World j.Value)
      → EndsBy (w.now + answer) (send_request j h config request w)
  unfolding send_request
  send_request-EndsBy config request w = elim (Option-cases (h.send request w).0) [
    | inl e ↦ rw (e, send_request) (p.send request w)
    | inr (response, e) ↦ rw (e, send_request) (p.send request w)
  ]

  parse_upstream_response-EndsBy :
      (t : ℕ) (config : ServerConfig) (response : HttpResponse) (w : World j.Value)
      → w.now ≤ t
      → EndsBy t (parse_upstream_response j h config response w)
  unfolding parse_upstream_response
  parse_upstream_response-EndsBy t config response w b =
      proceed-EndsBy t (as_plain response.body) _ w b (λ body. b)

  send_upstream_body-EndsBy :
      (config : ServerConfig) (session : Option String) (body : j.Value) (w : World j.Value)
      → EndsBy (w.now + answer) (send_upstream_body j h config session body w)
  unfolding send_upstream_body
  send_upstream_body-EndsBy config session body w =
      let sent =
        update_metrics (record_upstream_bytes config.name "sent" (len (j.to_string body))) w in
      proceed-EndsBy (w.now + answer) (as_plain (bearer_token h.env_var config)) _ sent
        (omega arith)
        (λ token.
          let request = build_request j h config session token (j.to_string body) in
          let reply = send_request j h config request sent in
          let in_time = send_request-EndsBy config request sent in
          proceed-EndsBy (w.now + answer) reply.0 _ reply.1 in_time (λ response.
            parse_upstream_response-EndsBy (w.now + answer) config response reply.1 in_time))

  pub upstream_request_raw-EndsBy :
      (config : ServerConfig) (session : Option String) (id : j.Value) (method : String)
      (params : j.Value) (w : World j.Value)
      → EndsBy (w.now + answer) (upstream_request_raw j h config session id method params w)
  unfolding upstream_request_raw
  upstream_request_raw-EndsBy config session id method params w =
      let body = object j (
        ("jsonrpc", j.string "2.0")
        ∷ ("id", id)
        ∷ ("method", j.string method)
        ∷ ("params", params)
        ∷ []) in
      lift-EndsBy (w.now + answer) (send_upstream_body j h config session body w)
        (reply_of j h config) (send_upstream_body-EndsBy config session body w)

  upstream_notification-EndsBy :
      (config : ServerConfig) (session : Option String) (method : String) (params : j.Value)
      (w : World j.Value)
      → EndsBy (w.now + answer) (upstream_notification j h config session method params w)
  unfolding upstream_notification
  upstream_notification-EndsBy config session method params w =
      let body = object j (notification_fields j h method params) in
      lift-EndsBy (w.now + answer) (send_upstream_body j h config session body w) (λ reply. ok tt)
        (send_upstream_body-EndsBy config session body w)

  after_initialize-EndsBy :
      (config : ServerConfig) (started : ℕ)
      (r : Result UpstreamError (Option String × j.Value) × World j.Value)
      → EndsBy (r.1.now + answer) (after_initialize j h config started r)
  unfolding after_initialize
  after_initialize-EndsBy config started (err e, w) = omega arith
  after_initialize-EndsBy config started (ok (session, result), w) =
      upstream_notification-EndsBy config session "notifications/initialized" j.null
        (update_metrics (record_upstream_initialize config.name "success" (w.now - started)) w)

  -- an initialize and its notification
  pub initialize_upstream_session-EndsBy :
      (config : ServerConfig) (w : World j.Value)
      → EndsBy (w.now + answer + answer) (initialize_upstream_session j h config w)
  unfolding initialize_upstream_session
  initialize_upstream_session-EndsBy config w =
      let params = initialize_params j h pkg_version in
      let first = upstream_request_raw j h config none (j.int (pos 1)) "initialize" params w in
      omega (
        arith,
        upstream_request_raw-EndsBy config none (j.int (pos 1)) "initialize" params w,
        after_initialize-EndsBy config w.now first,
      )
