-- ===== src/State/Metrics.antt =====
-- src/state.rs: the metrics and their recorders. Timestamps are nanoseconds since the epoch.
pub mod Counters
use mcpstead.Base.{
  ℕ, ◌+◌, String, Bool, true, false, Option, none, some, List, [], ◌∷◌, if◌then◌else◌, unwrap_or,
  saturating_add, wrapping_add,
}
use mcpstead.Base.Eq.{◌=?◌, string_eq}
use mcpstead.Base.Dict.{Key, string_key, pair_key, get, insert}
use mcpstead.State.Histogram.{
  HistogramMetric, default_histogram, observe, duration_buckets, session_duration_buckets,
}

pub record ToolCallMetric : Type 0 where
  pub count : ℕ
  pub errors_by_reason : List (String × ℕ)
  pub duration : HistogramMetric

abbrev pub default_tool_call : ToolCallMetric
default_tool_call = record { count = 0; errors_by_reason = []; duration = default_histogram }

-- maps are association lists in the order of their keys
pub record Metrics : Type 0 where
  pub tool_calls : List ((String × String) × ToolCallMetric)
  pub mcp_requests : List ((String × String) × ℕ)
  pub mcp_request_duration : List (String × HistogramMetric)
  pub downstream_sessions_total : ℕ
  pub downstream_session_duration : HistogramMetric
  pub downstream_session_terminations : List (String × ℕ)
  pub upstream_initialize : List ((String × String) × ℕ)
  pub upstream_initialize_duration : List (String × HistogramMetric)
  pub upstream_health_checks : List ((String × String) × ℕ)
  pub upstream_reconnect_attempts : List ((String × String) × ℕ)
  pub upstream_backoff_seconds_total : List (String × ℕ)
  pub upstream_in_backoff : List (String × ℕ)
  pub upstream_current_backoff_seconds : List (String × ℕ)
  pub upstream_session_resets : List ((String × String) × ℕ)
  pub upstream_tools_refresh : List ((String × String) × ℕ)
  pub config_reloads : List (String × ℕ)
  pub config_last_reload_timestamp_seconds : Option ℕ
  pub upstream_tools_refresh_duration : List (String × HistogramMetric)
  pub upstream_tools_last_refresh_timestamp_seconds : List (String × ℕ)
  pub mcp_auth_attempts : List (String × ℕ)
  pub mcp_auth_failures : List (String × ℕ)
  pub upstream_bytes : List ((String × String) × ℕ)

-- `Metrics::default()`
abbrev pub default_metrics : Metrics
default_metrics = record {
  tool_calls = [];
  mcp_requests = [];
  mcp_request_duration = [];
  downstream_sessions_total = 0;
  downstream_session_duration = default_histogram;
  downstream_session_terminations = [];
  upstream_initialize = [];
  upstream_initialize_duration = [];
  upstream_health_checks = [];
  upstream_reconnect_attempts = [];
  upstream_backoff_seconds_total = [];
  upstream_in_backoff = [];
  upstream_current_backoff_seconds = [];
  upstream_session_resets = [];
  upstream_tools_refresh = [];
  config_reloads = [];
  config_last_reload_timestamp_seconds = none;
  upstream_tools_refresh_duration = [];
  upstream_tools_last_refresh_timestamp_seconds = [];
  mcp_auth_attempts = [];
  mcp_auth_failures = [];
  upstream_bytes = [];
}

module _ {K : Type 0} ⦃e : Key K⦄ where
  -- `*map.entry(key).or_insert(0) += n`, in a release build
  unfoldable pub add_count : K → ℕ → List (K × ℕ) → List (K × ℕ)
  add_count k n m = insert k (wrapping_add (unwrap_or (get k m) 0) n) m

  -- `*map.entry(key).or_insert(0.0) += seconds`
  unfoldable pub add_seconds : K → ℕ → List (K × ℕ) → List (K × ℕ)
  add_seconds k n m = insert k (unwrap_or (get k m) 0 + n) m

  -- `map.entry(key).or_default().observe(seconds, buckets)`
  unfoldable pub observe_at :
      K → ℕ → List ℕ → List (K × HistogramMetric) → List (K × HistogramMetric)
  observe_at k v bounds m = insert k (observe v bounds (unwrap_or (get k m) default_histogram)) m

-- `record_tool_call`
unfoldable pub record_tool_call : String → String → ℕ → Option String → Metrics → Metrics
record_tool_call server tool duration error_reason m =
    let metric = unwrap_or (get (server, tool) m.tool_calls) default_tool_call in
    let metric' : ToolCallMetric = record {
      count = saturating_add metric.count 1;
      errors_by_reason = elim error_reason [
        | none ↦ metric.errors_by_reason
        | some reason ↦ add_count reason 1 metric.errors_by_reason
      ];
      duration = observe duration duration_buckets metric.duration;
    } in
    record m { tool_calls = insert (server, tool) metric' m.tool_calls }

-- `record_mcp_request`
unfoldable pub record_mcp_request : String → String → ℕ → Metrics → Metrics
record_mcp_request method result duration m = record m {
  mcp_requests = add_count (method, result) 1 m.mcp_requests;
  mcp_request_duration = observe_at method duration duration_buckets m.mcp_request_duration;
}

-- `record_session_opened`
unfoldable pub record_session_opened : Metrics → Metrics
record_session_opened m = record m {
  downstream_sessions_total = saturating_add m.downstream_sessions_total 1;
}

-- `record_session_termination`
unfoldable pub record_session_termination : String → ℕ → Metrics → Metrics
record_session_termination reason duration m = record m {
  downstream_session_terminations = add_count reason 1 m.downstream_session_terminations;
  downstream_session_duration =
      observe duration session_duration_buckets m.downstream_session_duration;
}

-- `record_upstream_initialize`
unfoldable pub record_upstream_initialize : String → String → ℕ → Metrics → Metrics
record_upstream_initialize server result duration m = record m {
  upstream_initialize = add_count (server, result) 1 m.upstream_initialize;
  upstream_initialize_duration =
      observe_at server duration duration_buckets m.upstream_initialize_duration;
}

-- `record_upstream_health_check`
unfoldable pub record_upstream_health_check : String → String → Metrics → Metrics
record_upstream_health_check server result m = record m {
  upstream_health_checks = add_count (server, result) 1 m.upstream_health_checks;
}

-- `record_upstream_reconnect_attempt`
unfoldable pub record_upstream_reconnect_attempt : String → String → Metrics → Metrics
record_upstream_reconnect_attempt server result m = record m {
  upstream_reconnect_attempts = add_count (server, result) 1 m.upstream_reconnect_attempts;
}

-- `set_upstream_backoff`
unfoldable pub set_upstream_backoff : String → ℕ → Metrics → Metrics
set_upstream_backoff server secs m = record m {
  upstream_in_backoff = insert server 1 m.upstream_in_backoff;
  upstream_current_backoff_seconds = insert server secs m.upstream_current_backoff_seconds;
}

-- `record_upstream_backoff_complete`
unfoldable pub record_upstream_backoff_complete : String → ℕ → Metrics → Metrics
record_upstream_backoff_complete server secs m = record m {
  upstream_backoff_seconds_total = add_seconds server secs m.upstream_backoff_seconds_total;
  upstream_in_backoff = insert server 0 m.upstream_in_backoff;
  upstream_current_backoff_seconds = insert server 0 m.upstream_current_backoff_seconds;
}

-- `record_upstream_session_reset`
unfoldable pub record_upstream_session_reset : String → String → Metrics → Metrics
record_upstream_session_reset server reason m = record m {
  upstream_session_resets = add_count (server, reason) 1 m.upstream_session_resets;
}

-- `record_upstream_tools_refresh`, with the time of `unix_now_seconds`
unfoldable pub record_upstream_tools_refresh : ℕ → String → String → ℕ → Metrics → Metrics
record_upstream_tools_refresh unix_now server result duration m = record m {
  upstream_tools_refresh = add_count (server, result) 1 m.upstream_tools_refresh;
  upstream_tools_refresh_duration =
      observe_at server duration duration_buckets m.upstream_tools_refresh_duration;
  upstream_tools_last_refresh_timestamp_seconds =
      if result =? "success"
      then insert server unix_now m.upstream_tools_last_refresh_timestamp_seconds
      else m.upstream_tools_last_refresh_timestamp_seconds;
}

-- `record_auth_success`
unfoldable pub record_auth_success : Metrics → Metrics
record_auth_success m = record m { mcp_auth_attempts = add_count "success" 1 m.mcp_auth_attempts }

-- `record_auth_failure`
unfoldable pub record_auth_failure : String → Metrics → Metrics
record_auth_failure reason m = record m {
  mcp_auth_attempts = add_count "failure" 1 m.mcp_auth_attempts;
  mcp_auth_failures = add_count reason 1 m.mcp_auth_failures;
}

-- `record_upstream_bytes`
unfoldable pub record_upstream_bytes : String → String → ℕ → Metrics → Metrics
record_upstream_bytes server direction bytes m = record m {
  upstream_bytes = add_count (server, direction) bytes m.upstream_bytes;
}

-- `record_config_reload`, with the time of `unix_now_seconds`
unfoldable pub record_config_reload : ℕ → String → Metrics → Metrics
record_config_reload unix_now result m = record m {
  config_reloads = add_count result 1 m.config_reloads;
  config_last_reload_timestamp_seconds =
      if result =? "success" then some unix_now else m.config_last_reload_timestamp_seconds;
}
