-- ===== src/Exposition/Page.antt =====
-- src/metrics.rs: the metrics page, at an instant `now`. The compiler's two optional variables of the
-- environment and the figures of the process are arguments.
pub mod Requests
pub mod Upstreams
pub mod Cut
pub mod Sections
pub mod Safe
use Prim.Native.String.{◌++◌}
use mcpstead.Base.{
  ℕ, ◌-◌, String, Bool, true, false, Option, none, some, List, [], ◌∷◌, ◌++◌ as append, length,
  if◌then◌else◌, unwrap_or,
}
use mcpstead.Base.Text.Decimal.{decimal}
use mcpstead.State.App.{AppState, ManagedServer}
use mcpstead.State.Histogram.{session_duration_buckets}
use mcpstead.State.Metrics.{Metrics}
use mcpstead.Upstream.Session.{pkg_version}
use mcpstead.Downstream.Response.{Response, text_response}
use mcpstead.Exposition.Numbers.{six}
use mcpstead.Exposition.Family.{headings, sample, by_one, by_two, write_histogram}
use mcpstead.Exposition.Process.{ProcessStats, process_lines, figure}
use mcpstead.Exposition.Page.Requests.{tool_lines, request_lines, access_lines}
use mcpstead.Exposition.Page.Upstreams.{initialize_lines, backoff_lines, refresh_lines}

-- `option_env!` of two variables
pub record Build : Type 0 where
  pub rust_version : Option String
  pub git_sha : Option String

abbrev pub build_labels : Build → List (String × String)
build_labels build =
    ("version", pkg_version)
    ∷ ("rust_version", unwrap_or build.rust_version "unknown")
    ∷ ("git_sha", unwrap_or build.git_sha "unknown")
    ∷ []

-- the build and the times
unfoldable pub gateway_lines : Build → ℕ → ℕ → ℕ → List String
unfolding headings six
gateway_lines build now start start_unix_seconds =
    append (headings "mcpstead_build_info" "Build and version info." "gauge") (
      sample "mcpstead_build_info" (build_labels build) none "1"
      ∷ append
          (figure "mcpstead_start_time_seconds" "Unix timestamp for process start." "gauge"
            (six start_unix_seconds))
          (figure "mcpstead_uptime_seconds" "Process uptime in seconds." "gauge"
            (six (now - start))))

abbrev pub seen_text : ℕ → Option ℕ → String
seen_text now none = "-1.000000"
seen_text now (some seen) = six (now - seen)

module _ {V : Type 0} where
  -- the four loops over the registry
  unfoldable pub server_lines : ℕ → List (String × ManagedServer V) → List String
  unfolding headings by_one six decimal
  server_lines now servers =
      append (headings "mcpstead_upstream_connected" "Upstream connection state." "gauge") (
        append
          (by_one "mcpstead_upstream_connected" "server"
            (λ server. if server.connected then "1" else "0") servers)
          (append (headings "mcpstead_upstream_tools_count" "Cached upstream tool count." "gauge") (
            append
              (by_one "mcpstead_upstream_tools_count" "server"
                (λ server. decimal (length server.tools)) servers)
              (append
                (headings "mcpstead_upstream_reconnects_total" "Upstream reconnect cycles."
                  "counter")
                (append
                  (by_one "mcpstead_upstream_reconnects_total" "server"
                    (λ server. decimal server.reconnects) servers)
                  (append
                    (headings "mcpstead_upstream_last_seen_seconds"
                      "Seconds since upstream success." "gauge")
                    (by_one "mcpstead_upstream_last_seen_seconds" "server"
                      (λ server. seen_text now server.last_seen) servers)))))))

-- the sessions
unfoldable pub session_lines : ℕ → Metrics → List String
unfolding headings by_one write_histogram decimal
session_lines session_count metrics =
    append
      (figure "mcpstead_downstream_sessions_active" "Active downstream sessions." "gauge"
        (decimal session_count))
      (append
        (figure "mcpstead_downstream_sessions_total" "Downstream sessions opened." "counter"
          (decimal metrics.downstream_sessions_total))
        (append
          (write_histogram "mcpstead_downstream_session_duration_seconds"
            "Downstream session duration." [] metrics.downstream_session_duration
            session_duration_buckets)
          (append
            (headings "mcpstead_downstream_session_terminations_total"
              "Downstream session terminations." "counter")
            (by_one "mcpstead_downstream_session_terminations_total" "reason" decimal
              metrics.downstream_session_terminations))))

-- the pushes of the lines
unfoldable pub written : List String → String
written [] = ""
written (line ∷ rest) = line ++ "\n" ++ written rest

module _ {V : Type 0} where
  -- the lines of the page
  unfoldable pub page_lines : Build → Option ProcessStats → ℕ → AppState V → List String
  unfolding gateway_lines process_lines server_lines session_lines tool_lines request_lines
      initialize_lines backoff_lines refresh_lines access_lines
  page_lines build stats now s = append (gateway_lines build now s.start s.start_unix_seconds) (
      append (process_lines stats) (
        append (server_lines now s.registry) (
          append (session_lines (length s.sessions) s.metrics) (
            append (tool_lines s.metrics) (
              append (request_lines s.metrics) (
                append (initialize_lines s.metrics) (
                  append (backoff_lines s.metrics)
                    (append (refresh_lines s.metrics) (access_lines s.metrics)))))))))

  -- `metrics`
  unfoldable pub metrics_page : Build → Option ProcessStats → ℕ → AppState V → Response
  unfolding page_lines written
  metrics_page build stats now s =
      if s.metrics_enabled
      then (record {
        status = 200;
        headers = ("content-type", "text/plain; version=0.0.4") ∷ [];
        body = written (page_lines build stats now s);
      })
      else text_response 404 "metrics disabled\n"
