-- ===== src/Upstream/Request/Reset.antt =====
-- src/upstream.rs: what a recovered request leaves in the registry.
use mcpstead.Base.{
  ℕ, String, true, Option, none, some, Result, ok, err, ◌≡◌, arith, or_else, is_some, eq_refl,
  Bool-cases, inl, inr,
}
use mcpstead.Base.Eq.{◌=?◌, string_eq, option_eq}
use mcpstead.Base.Dict.{string_key, get}
use mcpstead.Base.Dict.Laws.{get-adjust}
use mcpstead.Json.{Json}
use mcpstead.Config.{ServerConfig}
use mcpstead.State.App.{AppState, ManagedServer}
use mcpstead.Upstream.Registry.{replace_server_session_id, session_entry}
use mcpstead.Upstream.Classify.{UpstreamError}
use mcpstead.Upstream.Host.{World, Host}
use mcpstead.Upstream.Request.{
  Reply, settle, reinitialize, after_refresh, reset_session, retry_in_new,
}

module _ {V : Type 0} where
  -- if the server is registered, it counts as connected, in the given session
  pub record InSession (name : String) (session : Option String) (s : AppState V) : Type 0 where
    pub at :
        (server : ManagedServer V)
        → get name s.registry ≡ some server
        → (server.session_id ≡ session) × (server.connected ≡ true)

  replace_server_session_id-InSession :
      (now : ℕ) (name : String) (session : Option String) (s : AppState V)
      → InSession name session (replace_server_session_id now name session s)
  unfolding replace_server_session_id
  replace_server_session_id-InSession now name session s = record {
    at = λ server h.
        ground (arith, get-adjust name name (session_entry now session) s.registry, eq_refl name);
  }

module _ (j : Json) (h : Host (j.Value)) (config : ServerConfig) (id : j.Value) (method : String)
    (params : j.Value) where
  -- what a reply behind the lock says of the registry
  abbrev pub Settled : Reply j h × World j.Value → Type 0
  Settled (ok (session, result), w) = InSession config.name session w.app
  Settled (err e, w) = Unit

  settle-Settled :
      (error : UpstreamError) (session : Option String) (r : Reply j h × World j.Value)
      → Settled (settle j h config id method params error session r)
  unfolding settle
  settle-Settled error session (ok (next, result), w) =
      replace_server_session_id-InSession w.now config.name (or_else next session) w.app
  settle-Settled error session (err retry, w) =
      elim (Bool-cases (is_some retry.session_reset_reason)) [
        | inl lost ↦ rw lost tt
        | inr other ↦ rw other tt
      ]

  retry_in_new-Settled :
      (error : UpstreamError) (r : Result UpstreamError (Option String) × World j.Value)
      → Settled (retry_in_new j h config id method params error r)
  unfolding retry_in_new
  retry_in_new-Settled error (err e, w) = tt
  retry_in_new-Settled error (ok session, w) = settle-Settled error session _

  reinitialize-Settled :
      (error : UpstreamError) (reason : String) (w : World j.Value)
      → Settled (reinitialize j h config id method params error reason w)
  unfolding reinitialize
  reinitialize-Settled error reason w = retry_in_new-Settled error _

  after_refresh-Settled :
      (error : UpstreamError) (reason current : String) (r : Reply j h × World j.Value)
      → Settled (after_refresh j h config id method params error reason current r)
  unfolding after_refresh
  after_refresh-Settled error reason current (ok (next, result), w) =
      replace_server_session_id-InSession w.now config.name (or_else next (some current)) w.app
  after_refresh-Settled error reason current (err retry, w) =
      elim (Bool-cases (is_some retry.session_reset_reason)) [
        | inl lost ↦ rw lost (reinitialize-Settled error reason w)
        | inr other ↦ rw other tt
      ]

  -- Once a request has lost its session and holds the lock, a result comes with the session that it
  -- was given in: if the registry has an entry of the server then, it holds that session, as
  -- connected, whatever other tasks did while the requests were under way. A reload may have removed
  -- the server meanwhile; then there is no entry.
  pub reset_session-Settled :
      (error : UpstreamError) (reason : String) (session_id current : Option String)
      (w : World j.Value)
      → Settled (reset_session j h config id method params error reason session_id current w)
  unfolding reset_session
  reset_session-Settled error reason session_id none w = reinitialize-Settled error reason w
  reset_session-Settled error reason session_id (some current) w =
      elim (Bool-cases (some current =? session_id)) [
        | inl same ↦ rw same (reinitialize-Settled error reason w)
        | inr other ↦ rw other (after_refresh-Settled error reason current _)
      ]
