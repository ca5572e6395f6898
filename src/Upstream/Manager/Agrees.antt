-- ===== src/Upstream/Manager/Agrees.antt =====
-- src/upstream.rs: the registry shows what the managing task knows.
use mcpstead.Upstream.Classify.{UpstreamError}
use mcpstead.Base.{
  [], Bool, Result, is_ok, max, min, u32_max, ◌+◌, if◌then◌else◌, or_else, ℕ, ◌≤◌, String, Option,
  none, some, List, ok, err, ◌≡◌, refl, arith, eq_refl, ◌==◌,
}
use mcpstead.Base.Dict.{string_key, get}
use mcpstead.Base.Dict.Laws.{get-adjust}
use mcpstead.Json.{Json}
use mcpstead.Config.{ServerConfig}
use mcpstead.State.Metrics.{record_upstream_reconnect_attempt, record_upstream_health_check}
use mcpstead.State.App.{AppState, ManagedServer}
use mcpstead.Upstream.Backoff.{backoff_delay}
use mcpstead.Upstream.Host.{Host, update_metrics}
use mcpstead.Upstream.Registry.{
  set_server_connected, set_server_disconnected, connected_entry, disconnected_entry,
}
use mcpstead.Upstream.Manager.{
  Manager, Pause, add_failure, until_refresh, backoff, Attempt, note_attempt,
}

-- A pause after a success is the time that tools are kept for, a second at least, and one after a
-- failure is the backoff for the number of failures.
abbrev pub IsPauseOf : ServerConfig → Manager → Pause → Type 0
IsPauseOf config m (until_refresh length) =
    (length ≡ max config.tools.ttl_seconds 1) × (m.failures ≡ 0)
IsPauseOf config m (backoff delay) =
    (1 ≤ m.failures) × (delay ≡ backoff_delay config.reconnect m.failures)

-- the tools that an attempt found
abbrev pub tools_found : {V : Type 0} → Result UpstreamError (Option String × List V) → List V
tools_found (ok (_, tools)) = tools
tools_found (err e) = []

-- the failures in a row behind an attempt: none behind a success, and else one more, up to the bound
abbrev pub failures_behind : Bool → ℕ → ℕ
failures_behind succeeded failures = if succeeded then 0 else min (failures + 1) u32_max

-- the entry of the server, if it has one, shows the session of the manager and the tools, and counts
-- as connected exactly when there has been no failure since
pub record Agrees {V : Type 0} (name : String) (m : Manager) (tools : List V) (s : AppState V)
    : Type 0 where
  pub at :
      (server : ManagedServer V)
      → get name s.registry ≡ some server
      → (server.session_id ≡ m.session_id)
        × (server.connected ≡ (m.failures == 0))
        × (server.tools ≡ tools)

module _ {V : Type 0} where
  set_server_connected-Agrees :
      (now : ℕ) (name : String) (session : Option String) (tools : List V) (s : AppState V)
      → Agrees name
          (record { session_id = session; failures = 0 })
          tools
          (set_server_connected now name session tools s)
  unfolding set_server_connected
  set_server_connected-Agrees now name session tools s = record {
    at = λ server h.
        ground (
          arith,
          get-adjust name name (connected_entry now session tools) s.registry,
          eq_refl name,
        );
  }

  set_server_disconnected-Agrees :
      (name error : String) (failures : ℕ) (s : AppState V)
      → 1 ≤ failures
      → Agrees name
          (record { session_id = none; failures = failures })
          []
          (set_server_disconnected name error s)
  unfolding set_server_disconnected
  set_server_disconnected-Agrees name error failures s some_failed = record {
    at = λ server h.
        ground (arith, get-adjust name name (disconnected_entry error) s.registry, eq_refl name);
  }

module _ (j : Json) (h : Host (j.Value)) where
  -- Behind each attempt the task counts no failure exactly after a success, and one more than before,
  -- up to the bound, after an error. The registry's entry of the server, if there is one, shows the
  -- session that the task will use next and the tools that the attempt found, none after an error, as
  -- connected exactly when no failure is counted; and the pause is the time that tools are kept for
  -- after a success and the backoff for the counted failures after an error.
  pub note_attempt-Agrees :
      (name : String) (config : ServerConfig) (m : Manager) (a : Attempt j h)
      → ((note_attempt j h name config m a).0.failures ≡ failures_behind (is_ok a.0) m.failures)
        × Agrees name
            (note_attempt j h name config m a).0
            (tools_found a.0)
            (note_attempt j h name config m a).2.app
        × IsPauseOf config (note_attempt j h name config m a).0 (note_attempt j h name config m a).1
  unfolding note_attempt
  note_attempt-Agrees name config m (ok (next, tools), w) =
      (refl, set_server_connected-Agrees _ name (or_else next m.session_id) tools _, (refl, refl))
  note_attempt-Agrees name config m (err e, w) =
      let noted =
        update_metrics (record_upstream_health_check name "failure")
          (update_metrics (record_upstream_reconnect_attempt name "error") w) in
      let agrees =
        set_server_disconnected-Agrees name e.message (add_failure m.failures) noted.app
          (omega arith) in
      (refl, record { at = agrees.at }, (omega arith, refl))
