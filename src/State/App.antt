-- ===== src/State/App.antt =====
-- src/state.rs: `AppState`, the state behind the locks, and its construction. `V` is the type of JSON
-- values. A task handle and a reset lock are numbers that tell them apart; `task_log` holds what the
-- runtime was asked to do with tasks. `reload_lock` is not a field: a reload is one step of the model.
-- The two HTTP clients stand behind the arguments of the functions that send.
use mcpstead.Base.{ℕ, String, Bool, true, false, Option, none, List, [], map, max}
use mcpstead.Base.Dict.{string_key, collect}
use mcpstead.Config.{Config, ServerConfig, McpAuthMode}
use mcpstead.State.Histogram.{seconds}
use mcpstead.State.Metrics.{Metrics, default_metrics}

pub record McpAuthState : Type 0 where
  pub mode : McpAuthMode
  pub bearer_token : Option String

-- instants are nanoseconds of a clock that does not go back
pub record DownstreamSession : Type 0 where
  pub created_at : ℕ
  pub last_activity : ℕ

pub record ManagedServer (V : Type 0) : Type 0 where
  pub config : ServerConfig
  pub connected : Bool
  pub last_error : Option String
  pub session_id : Option String
  pub tools : List V
  pub last_seen : Option ℕ
  pub reconnects : ℕ

-- `ManagedServer::new`
abbrev pub new_server : {V : Type 0} → ServerConfig → ManagedServer V
new_server config = record {
  config = config;
  connected = false;
  last_error = none;
  session_id = none;
  tools = [];
  last_seen = none;
  reconnects = 0;
}

pub data TaskEvent : Type 0 where
  spawned : ℕ → String → TaskEvent
  aborted : ℕ → TaskEvent

pub record AppState (V : Type 0) : Type 0 where
  pub registry : List (String × ManagedServer V)
  pub metrics : Metrics
  pub sessions : List (String × DownstreamSession)
  pub live_config : Config
  pub config_path : String
  pub upstream_tasks : List (String × ℕ)
  pub upstream_session_reset_locks : List (String × ℕ)
  pub accepting_new_sessions : Bool
  pub session_idle_ttl : ℕ
  pub session_gc_interval : ℕ
  pub session_shutdown_grace : ℕ
  pub mcp_auth : McpAuthState
  pub start : ℕ
  pub start_unix_seconds : ℕ
  pub metrics_enabled : Bool
  pub task_log : List TaskEvent
  pub locks_made : ℕ

module _ {V : Type 0} where
  abbrev pub registry_entry : ServerConfig → String × ManagedServer V
  registry_entry server = (server.name, new_server server)

  -- `build_state_with_config_path` at an instant `now`
  unfoldable pub build_state : ℕ → ℕ → Config → Option String → String → AppState V
  unfolding collect
  build_state now unix_now config mcp_bearer_token config_path = record {
    registry = collect [] (map registry_entry config.servers);
    metrics = default_metrics;
    sessions = [];
    live_config = config;
    config_path = config_path;
    upstream_tasks = [];
    upstream_session_reset_locks = [];
    accepting_new_sessions = true;
    session_idle_ttl = seconds (max config.mcp.session.idle_ttl_seconds 1);
    session_gc_interval = seconds (max config.mcp.session.gc_interval_seconds 1);
    session_shutdown_grace = seconds (max config.mcp.session.shutdown_grace_seconds 1);
    mcp_auth = record { mode = config.mcp.auth.mode; bearer_token = mcp_bearer_token };
    start = now;
    start_unix_seconds = unix_now;
    metrics_enabled = config.metrics.enabled;
    task_log = [];
    locks_made = 0;
  }
