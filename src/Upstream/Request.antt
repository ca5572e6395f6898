-- ===== src/Upstream/Request.antt =====
-- src/upstream.rs: requests that survive the loss of the upstream session.
pub mod Kept
pub mod Time
pub mod Reset
use Prim.Native.String.{◌++◌}
use mcpstead.Base.{
  ℕ, ◌-◌, String, Bool, true, false, Option, none, some, List, [], ◌∷◌, Result, ok, err, ◌||◌, not,
  if◌then◌else◌, or_else, is_some,
}
use mcpstead.Base.Int.{pos}
use mcpstead.Base.Eq.{◌=?◌, string_eq, option_eq}
use mcpstead.Json.{Json, object}
use mcpstead.Config.{ServerConfig}
use mcpstead.State.Metrics.{record_upstream_session_reset, record_upstream_tools_refresh}
use mcpstead.Upstream.Registry.{
  current_server_session_id, replace_server_session_id, upstream_session_reset_lock,
}
use mcpstead.Upstream.Classify.{UpstreamError}
use mcpstead.Upstream.Host.{World, Host, Act, ◌>>=◌, ◌>>◌, lift, update_app, update_metrics}
use mcpstead.Upstream.Send.{upstream_request_raw}
use mcpstead.Upstream.Session.{initialize_upstream_session, tools_of}

module _ (j : Json) (h : Host (j.Value)) where
  open j use {Value}

  abbrev pub Reply : Type 0
  Reply = Result UpstreamError (Option String × Value)

  -- the state of the lock table and the world behind `reset_lock.lock().await`
  unfoldable pub lock_session : String → World Value → World Value
  lock_session name w =
      let (lock, app) = upstream_session_reset_lock name w.app in
      h.wait_lock lock (record w { app = app })

  abbrev pub set_session : String → Option String → World Value → World Value
  set_session name session w = update_app (replace_server_session_id w.now name session) w

  -- one request: its arguments but the session
  module _ (config : ServerConfig) (id : Value) (method : String) (params : Value) where
    abbrev pub raw : Option String → World Value → Reply × World Value
    raw session = upstream_request_raw j h config session id method params

    -- the match on the last retry
    unfoldable pub settle :
        UpstreamError → Option String → Reply × World Value → Reply × World Value
    settle error session (ok (next_session_id, result), w) =
        let session' = or_else next_session_id session in
        (ok (session', result), set_session config.name session' w)
    settle error session (err retry_error, w) =
        if is_some retry_error.session_reset_reason
        then (err error, set_session config.name none w)
        else (err retry_error, w)

    -- the retry in a session that was opened anew, if it was
    unfoldable pub retry_in_new :
        UpstreamError → Result UpstreamError (Option String) × World Value → Reply × World Value
    unfolding settle
    retry_in_new error (err _, w) = (err error, w)
    retry_in_new error (ok session, w) =
        settle error session (raw session (set_session config.name session w))

    -- from `record_upstream_session_reset` to the end: a new session and one retry in it
    unfoldable pub reinitialize : UpstreamError → String → World Value → Reply × World Value
    unfolding retry_in_new
    reinitialize error reason w =
        let w1 = update_metrics (record_upstream_session_reset config.name reason) w in
        let w2 = set_session config.name none w1 in
        retry_in_new error (initialize_upstream_session j h config w2)

    -- the match on the retry in a session that another request has opened
    unfoldable pub after_refresh :
        UpstreamError → String → String → Reply × World Value → Reply × World Value
    unfolding reinitialize
    after_refresh error reason current (ok (next_session_id, result), w) =
        let session' = or_else next_session_id (some current) in
        (ok (session', result), set_session config.name session' w)
    after_refresh error reason current (err retry_error, w) =
        if is_some retry_error.session_reset_reason
        then reinitialize error reason w
        else (err retry_error, w)

    -- the part of `upstream_request` behind the lock, by the session that the registry holds
    unfoldable pub reset_session :
        UpstreamError → String → Option String → Option String → World Value → Reply × World Value
    unfolding after_refresh reinitialize
    reset_session error reason session_id none w = reinitialize error reason w
    reset_session error reason session_id (some current) w =
        if some current =? session_id
        then reinitialize error reason w
        else after_refresh error reason current (raw (some current) w)

    -- the part of `upstream_request` behind the first request, by the error's reason
    unfoldable pub recover :
        Option String → UpstreamError → Option String → World Value → Reply × World Value
    unfolding reset_session lock_session
    recover session_id error none w = (err error, w)
    recover session_id error (some reason) w =
        let locked = lock_session config.name w in
        if not (is_some session_id) || method =? "initialize"
        then (err error, w)
        else reset_session error reason session_id
            (current_server_session_id config.name locked.app) locked

    -- what `upstream_request` does with the first reply
    unfoldable pub after_first : Option String → Reply × World Value → Reply × World Value
    unfolding recover
    after_first session_id (ok reply, w) = (ok reply, w)
    after_first session_id (err error, w) = recover session_id error error.session_reset_reason w

  -- `upstream_request`
  unfoldable pub upstream_request :
      ServerConfig → Option String → Value → String → Value → World Value → Reply × World Value
  unfolding after_first
  upstream_request config session_id id method params w =
      after_first config id method params session_id
        (upstream_request_raw j h config session_id id method params w)

  -- `load_tools`
  unfoldable pub load_tools : ServerConfig → Option String → Act Value (Option String × List Value)
  unfolding upstream_request tools_of
  load_tools config session_id w =
      let (refresh, w1) =
        upstream_request config session_id (j.int (pos 2)) "tools/list" (object j []) w in
      let duration = w1.now - w.now in
      elim refresh [
        | ok reply ↦ tools_of j h config session_id duration reply w1
        | err e ↦ (
          err e,
          update_metrics
              (record_upstream_tools_refresh (h.unix_time w1.now) config.name "error" duration) w1,
        )
      ]

  -- `initialize_and_load_tools`
  unfoldable pub initialize_and_load_tools : ServerConfig → Act Value (Option String × List Value)
  unfolding load_tools initialize_upstream_session
  initialize_and_load_tools config = do
    session_id ← initialize_upstream_session j h config
    load_tools config session_id
