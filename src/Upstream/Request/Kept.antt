-- ===== src/Upstream/Request/Kept.antt =====
-- src/upstream.rs: requests to upstreams keep each property that the operations keep.
use mcpstead.Base.{
  String, Option, none, some, Result, ok, err, refl, Bool-cases, inl, inr, is_some, not, ◌||◌,
  or_else,
}
use mcpstead.Base.Eq.{◌=?◌, string_eq, option_eq}
use mcpstead.Base.Dict.{string_key}
use mcpstead.Config.{ServerConfig}
use mcpstead.Json.{Json}
use mcpstead.State.Metrics.{record_upstream_session_reset}
use mcpstead.Upstream.Classify.{UpstreamError}
use mcpstead.State.App.{AppState}
use mcpstead.Upstream.Kept.{IsKept, Behind, Keeps, session_kept}
use mcpstead.Upstream.Host.{World, Host, update_metrics}
use mcpstead.Upstream.Registry.{current_server_session_id}
use mcpstead.Upstream.Request.{
  Reply, lock_session, set_session, settle, retry_in_new, reinitialize, after_refresh,
  reset_session, recover, after_first, upstream_request,
}
use mcpstead.Upstream.Session.Kept.{upstream_request_raw-Behind, initialize_upstream_session-Behind}

module _ (j : Json) (h : Host (j.Value)) (P : AppState (j.Value) → Type 0) (kept : IsKept P)
    (keeps : Keeps P h) where
  module _ (config : ServerConfig) (id : j.Value) (method : String) (params : j.Value) where
    settle-Behind :
        (error : UpstreamError) (session : Option String) (r : Reply j h × World j.Value)
        → Behind P r
        → Behind P (settle j h config id method params error session r)
    unfolding settle
    settle-Behind error session (ok (next, result), w) b =
        session_kept P kept w.now config.name (or_else next session) w.app b
    settle-Behind error session (err retry, w) b =
        elim (Bool-cases (is_some retry.session_reset_reason)) [
          | inl lost ↦ rw lost (session_kept P kept w.now config.name none w.app b)
          | inr other ↦ rw other b
        ]

    retry_in_new-Behind :
        (error : UpstreamError) (r : Result UpstreamError (Option String) × World j.Value)
        → Behind P r
        → Behind P (retry_in_new j h config id method params error r)
    unfolding retry_in_new
    retry_in_new-Behind error (err e, w) b = b
    retry_in_new-Behind error (ok session, w) b = settle-Behind error session _ (
        upstream_request_raw-Behind j h P kept keeps config session id method params _
          (session_kept P kept w.now config.name session w.app b))

    reinitialize-Behind :
        (error : UpstreamError) (reason : String) (w : World j.Value)
        → P w.app
        → Behind P (reinitialize j h config id method params error reason w)
    unfolding reinitialize record_upstream_session_reset
    reinitialize-Behind error reason w b =
        let record_reset = record_upstream_session_reset config.name reason in
        let reset = update_metrics record_reset w in
        retry_in_new-Behind error _ (
          initialize_upstream_session-Behind j h P kept keeps config
            (set_session j h config.name none reset)
            (session_kept P kept w.now config.name none reset.app
              (kept.metrics record_reset w.app (refl, refl) b)))

    after_refresh-Behind :
        (error : UpstreamError) (reason current : String) (r : Reply j h × World j.Value)
        → Behind P r
        → Behind P (after_refresh j h config id method params error reason current r)
    unfolding after_refresh
    after_refresh-Behind error reason current (ok (next, result), w) b =
        session_kept P kept w.now config.name (or_else next (some current)) w.app b
    after_refresh-Behind error reason current (err retry, w) b =
        elim (Bool-cases (is_some retry.session_reset_reason)) [
          | inl lost ↦ rw lost (reinitialize-Behind error reason w b)
          | inr other ↦ rw other b
        ]

    reset_session-Behind :
        (error : UpstreamError) (reason : String) (session_id current : Option String)
        (w : World j.Value)
        → P w.app
        → Behind P (reset_session j h config id method params error reason session_id current w)
    unfolding reset_session
    reset_session-Behind error reason session_id none w b = reinitialize-Behind error reason w b
    reset_session-Behind error reason session_id (some current) w b =
        elim (Bool-cases (some current =? session_id)) [
          | inl same ↦ rw same (reinitialize-Behind error reason w b)
          | inr other ↦ rw other (
              after_refresh-Behind error reason current _ (
                upstream_request_raw-Behind j h P kept keeps config (some current) id method params
                  w b))
        ]

    recover-Behind :
        (session_id : Option String) (error : UpstreamError) (reason : Option String)
        (w : World j.Value)
        → P w.app
        → Behind P (recover j h config id method params session_id error reason w)
    unfolding recover lock_session
    recover-Behind session_id error none w b = b
    recover-Behind session_id error (some reason) w b =
        let locked = lock_session j h config.name w in
        let locked_holds : P locked.app =
          keeps.wait_lock _ _ (kept.reset_lock config.name w.app b) in
        elim (Bool-cases (not (is_some session_id) || method =? "initialize")) [
          | inl e ↦ rw e b
          | inr e ↦ rw e (
              reset_session-Behind error reason session_id
                (current_server_session_id config.name locked.app) locked locked_holds)
        ]

    after_first-Behind :
        (session_id : Option String) (r : Reply j h × World j.Value)
        → Behind P r
        → Behind P (after_first j h config id method params session_id r)
    unfolding after_first
    after_first-Behind session_id (ok reply, w) b = b
    after_first-Behind session_id (err error, w) b =
        recover-Behind session_id error error.session_reset_reason w b

  -- a request, with all that may follow it
  pub upstream_request-Behind :
      (config : ServerConfig) (session_id : Option String) (id : j.Value) (method : String)
      (params : j.Value) (w : World j.Value)
      → P w.app
      → Behind P (upstream_request j h config session_id id method params w)
  unfolding upstream_request
  upstream_request-Behind config session_id id method params w b =
      after_first-Behind config id method params session_id _
        (upstream_request_raw-Behind j h P kept keeps config session_id id method params w b)
