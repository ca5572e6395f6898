-- ===== src/Upstream/Manager.antt =====
-- src/upstream.rs: the loop of the task that manages one server. Its local variables are a record,
-- and a round of the loop is a function; logging is left out.
pub mod Agrees
pub mod Kept
use mcpstead.Base.{
  ℕ, ◌+◌, ◌-◌, ◌*◌, ◌^◌, String, Bool, true, false, Option, none, some, List, Result, ok, err, ltb,
  if◌then◌else◌, or_else, min, max, u32_max,
}
use mcpstead.Json.{Json}
use mcpstead.Config.{ServerConfig}
use mcpstead.State.Histogram.{millis, seconds}
use mcpstead.State.Metrics.{
  record_upstream_reconnect_attempt, record_upstream_health_check, set_upstream_backoff,
  record_upstream_backoff_complete,
}
use mcpstead.Upstream.Backoff.{backoff_delay}
use mcpstead.Upstream.Classify.{UpstreamError}
use mcpstead.Upstream.Host.{World, Host, update_app, update_metrics}
use mcpstead.Upstream.Registry.{get_server_config, set_server_connected, set_server_disconnected}
use mcpstead.Upstream.Request.{load_tools, initialize_and_load_tools}

-- the variables of `manage_server`
pub record Manager : Type 0 where
  pub session_id : Option String
  pub failures : ℕ

abbrev pub first_manager : Manager
first_manager = record { session_id = none; failures = 0 }

-- `failures.saturating_add(1)` on a `u32`
abbrev pub add_failure : ℕ → ℕ
add_failure failures = min (failures + 1) u32_max

-- what a round sleeps for: the time until the next refresh, or a delay in milliseconds after a
-- failure
pub data Pause : Type 0 where
  until_refresh : ℕ → Pause
  backoff : ℕ → Pause

module _ (j : Json) (h : Host (j.Value)) where
  open j use {Value}

  abbrev pub Attempt : Type 0
  Attempt = Result UpstreamError (Option String × List Value) × World Value

  -- the first match of a round
  unfoldable pub attempt : ServerConfig → Option String → World Value → Attempt
  attempt config none w = initialize_and_load_tools j h config w
  attempt config (some session) w = load_tools j h config (some session) w

  -- the match on the result, up to the sleep
  unfoldable pub note_attempt :
      String → ServerConfig → Manager → Attempt → Manager × Pause × World Value
  unfolding set_server_connected set_server_disconnected backoff_delay
  note_attempt name config m (ok (next_session_id, tools), w) =
      let w1 =
        if ltb 0 m.failures
        then update_metrics (record_upstream_reconnect_attempt name "success") w
        else w in
      let w2 = update_metrics (record_upstream_health_check name "success") w1 in
      let session_id = or_else next_session_id m.session_id in
      (
        record { session_id = session_id; failures = 0 },
        until_refresh (max config.tools.ttl_seconds 1),
        update_app (set_server_connected w2.now name session_id tools) w2,
      )
  note_attempt name config m (err e, w) =
      let w1 = update_metrics (record_upstream_reconnect_attempt name "error") w in
      let w2 = update_metrics (record_upstream_health_check name "failure") w1 in
      let failures = add_failure m.failures in
      let delay = backoff_delay config.reconnect failures in
      let w3 = update_app (set_server_disconnected name e.message) w2 in
      (
        record { session_id = none; failures = failures },
        backoff delay,
        update_metrics (set_upstream_backoff name (millis delay)) w3,
      )

  -- the sleep at the end of a round
  unfoldable pub pause_for : String → Pause → World Value → World Value
  pause_for name (until_refresh length) w = h.sleep (seconds length) w
  pause_for name (backoff delay) w =
      update_metrics (record_upstream_backoff_complete name (millis delay))
        (h.sleep (millis delay) w)

  abbrev pub end_round : String → Manager × Pause × World Value → Option (Manager × World Value)
  end_round name (m, pause, w) = some (m, pause_for name pause w)

  -- a round for the configuration that was found; none at the end of the task
  unfoldable pub round_with :
      String → Option ServerConfig → Manager → World Value → Option (Manager × World Value)
  unfolding attempt note_attempt pause_for
  round_with name none m w = none
  round_with name (some config) m w =
      end_round name (note_attempt name config m (attempt config m.session_id w))

  -- one round of the loop of `manage_server`
  unfoldable pub manage_round : String → Manager → World Value → Option (Manager × World Value)
  unfolding round_with get_server_config
  manage_round name m w = round_with name (get_server_config name w.app) m w
