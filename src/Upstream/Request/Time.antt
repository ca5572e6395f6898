-- ===== src/Upstream/Request/Time.antt =====
-- src/upstream.rs: how long a request takes, the recovery of a lost session included.
use mcpstead.Base.{
  ℕ, ◌+◌, ◌*◌, String, Option, none, some, Result, ok, err, arith, is_some, not, ◌||◌, Bool-cases,
  inl, inr,
}
use mcpstead.Base.Eq.{◌=?◌, string_eq, option_eq}
use mcpstead.Config.{ServerConfig}
use mcpstead.Json.{Json}
use mcpstead.State.Metrics.{record_upstream_session_reset}
use mcpstead.Upstream.Classify.{UpstreamError}
use mcpstead.Upstream.Host.{World, Host, update_metrics}
use mcpstead.Upstream.Registry.{current_server_session_id, upstream_session_reset_lock}
use mcpstead.Upstream.Request.{
  Reply, lock_session, set_session, settle, retry_in_new, reinitialize, after_refresh,
  reset_session, recover, after_first, upstream_request,
}
use mcpstead.Upstream.Session.{initialize_upstream_session}
use mcpstead.Upstream.Send.{upstream_request_raw}
use mcpstead.Upstream.Session.Time.{
  EndsBy, IsPrompt, upstream_request_raw-EndsBy, initialize_upstream_session-EndsBy,
}

module _ (j : Json) (h : Host (j.Value)) (answer lock_wait : ℕ)
    (p : IsPrompt h answer lock_wait) where
  module _ (config : ServerConfig) (id : j.Value) (method : String) (params : j.Value) where
    raw_in_time :
        (session : Option String) (w : World j.Value)
        → EndsBy (w.now + answer) (upstream_request_raw j h config session id method params w)
    raw_in_time session w =
        upstream_request_raw-EndsBy j h answer lock_wait p config session id method params w

    settle-EndsBy :
        (error : UpstreamError) (session : Option String) (r : Reply j h × World j.Value)
        → EndsBy (r.1.now) (settle j h config id method params error session r)
    unfolding settle
    settle-EndsBy error session (ok (next, result), w) = omega arith
    settle-EndsBy error session (err retry, w) =
        elim (Bool-cases (is_some retry.session_reset_reason)) [
          | inl lost ↦ rw lost (omega arith)
          | inr other ↦ rw other (omega arith)
        ]

    retry_in_new-EndsBy :
        (error : UpstreamError) (r : Result UpstreamError (Option String) × World j.Value)
        → EndsBy (r.1.now + answer) (retry_in_new j h config id method params error r)
    unfolding retry_in_new
    retry_in_new-EndsBy error (err e, w) = omega arith
    retry_in_new-EndsBy error (ok session, w) =
        let held = set_session j h config.name session w in
        let again = upstream_request_raw j h config session id method params held in
        omega (arith, raw_in_time session held, settle-EndsBy error session again)

    reinitialize-EndsBy :
        (error : UpstreamError) (reason : String) (w : World j.Value)
        → EndsBy (w.now + 3 * answer) (reinitialize j h config id method params error reason w)
    unfolding reinitialize
    reinitialize-EndsBy error reason w =
        let reset = update_metrics (record_upstream_session_reset config.name reason) w in
        let cleared = set_session j h config.name none reset in
        let opened = initialize_upstream_session j h config cleared in
        omega (
          arith,
          initialize_upstream_session-EndsBy j h answer lock_wait p config cleared,
          retry_in_new-EndsBy error opened,
        )

    after_refresh-EndsBy :
        (error : UpstreamError) (reason current : String) (r : Reply j h × World j.Value)
        → EndsBy
            (r.1.now + 3 * answer)
            (after_refresh j h config id method params error reason current r)
    unfolding after_refresh
    after_refresh-EndsBy error reason current (ok (next, result), w) = omega arith
    after_refresh-EndsBy error reason current (err retry, w) =
        elim (Bool-cases (is_some retry.session_reset_reason)) [
          | inl lost ↦ rw lost (reinitialize-EndsBy error reason w)
          | inr other ↦ rw other (omega arith)
        ]

    reset_session-EndsBy :
        (error : UpstreamError) (reason : String) (session_id current : Option String)
        (w : World j.Value)
        → EndsBy
            (w.now + 4 * answer)
            (reset_session j h config id method params error reason session_id current w)
    unfolding reset_session
    reset_session-EndsBy error reason session_id none w =
        omega (arith, reinitialize-EndsBy error reason w)
    reset_session-EndsBy error reason session_id (some current) w =
        let retry = upstream_request_raw j h config (some current) id method params w in
        elim (Bool-cases (some current =? session_id)) [
          | inl same ↦ rw same (omega (arith, reinitialize-EndsBy error reason w))
          | inr other ↦ rw other (
              omega (
                arith,
                raw_in_time (some current) w,
                after_refresh-EndsBy error reason current retry,
              ))
        ]

    recover-EndsBy :
        (session_id : Option String) (error : UpstreamError) (reason : Option String)
        (w : World j.Value)
        → EndsBy
            (w.now + lock_wait + 4 * answer)
            (recover j h config id method params session_id error reason w)
    unfolding recover lock_session
    recover-EndsBy session_id error none w = omega arith
    recover-EndsBy session_id error (some reason) w =
        let locked = lock_session j h config.name w in
        let lock = upstream_session_reset_lock config.name w.app in
        let waited = p.wait_lock lock.0 (record w { app = lock.1 }) in
        elim (Bool-cases (not (is_some session_id) || method =? "initialize")) [
          | inl e ↦ rw e (omega arith)
          | inr e ↦ rw e (
              omega (
                arith,
                waited,
                reset_session-EndsBy error reason session_id
                    (current_server_session_id config.name locked.app) locked,
              ))
        ]

    after_first-EndsBy :
        (session_id : Option String) (r : Reply j h × World j.Value)
        → EndsBy
            (r.1.now + lock_wait + 4 * answer)
            (after_first j h config id method params session_id r)
    unfolding after_first
    after_first-EndsBy session_id (ok reply, w) = omega arith
    after_first-EndsBy session_id (err error, w) =
        recover-EndsBy session_id error error.session_reset_reason w

  -- A request to an upstream ends within the time of five exchanges and of one wait for the lock, also
  -- where it has lost its session, finds another that is lost as well, opens a new one and is sent
  -- again: where the host answers each exchange and each wait in the given times.
  pub upstream_request-EndsBy :
      (config : ServerConfig) (session_id : Option String) (id : j.Value) (method : String)
      (params : j.Value) (w : World j.Value)
      → EndsBy
          (w.now + lock_wait + 5 * answer)
          (upstream_request j h config session_id id method params w)
  unfolding upstream_request
  upstream_request-EndsBy config session_id id method params w =
      let first = upstream_request_raw j h config session_id id method params w in
      omega (
        arith,
        raw_in_time config id method params session_id w,
        after_first-EndsBy config id method params session_id first,
      )
