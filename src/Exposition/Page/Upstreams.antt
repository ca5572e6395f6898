-- ===== src/Exposition/Page/Upstreams.antt =====
-- src/metrics.rs: the lines on the connections to upstreams.
use mcpstead.Base.{List, ◌++◌ as append, String}
use mcpstead.Base.Text.Decimal.{decimal}
use mcpstead.State.Metrics.{Metrics}
use mcpstead.Exposition.Numbers.{six}
use mcpstead.Exposition.Family.{headings, by_one, by_two}
use mcpstead.Exposition.Page.Requests.{histograms}

-- the opening of sessions, the checks and the attempts to reconnect
unfoldable pub initialize_lines : Metrics → List String
unfolding headings by_two histograms decimal
initialize_lines metrics =
    append (headings "mcpstead_upstream_initialize_total" "Upstream initialize attempts." "counter")
      (append
        (by_two "mcpstead_upstream_initialize_total" "server" "result" decimal
          metrics.upstream_initialize)
        (append
          (histograms "mcpstead_upstream_initialize_duration_seconds"
            "Upstream initialize duration." "server" metrics.upstream_initialize_duration)
          (append
            (headings "mcpstead_upstream_health_checks_total" "Upstream health check outcomes."
              "counter")
            (append
              (by_two "mcpstead_upstream_health_checks_total" "server" "result" decimal
                metrics.upstream_health_checks)
              (append
                (headings "mcpstead_upstream_reconnect_attempts_total"
                  "Upstream reconnect attempts inside reconnect cycles." "counter")
                (by_two "mcpstead_upstream_reconnect_attempts_total" "server" "result" decimal
                  metrics.upstream_reconnect_attempts))))))

-- the backoff
unfoldable pub backoff_lines : Metrics → List String
unfolding headings by_one six decimal
backoff_lines metrics =
    append
      (headings "mcpstead_upstream_backoff_seconds_total"
        "Seconds spent in upstream reconnect backoff." "counter")
      (append
        (by_one "mcpstead_upstream_backoff_seconds_total" "server" six
          metrics.upstream_backoff_seconds_total)
        (append
          (headings "mcpstead_upstream_in_backoff"
            "Whether upstream is currently in reconnect backoff." "gauge")
          (append
            (by_one "mcpstead_upstream_in_backoff" "server" decimal metrics.upstream_in_backoff)
            (append
              (headings "mcpstead_upstream_current_backoff_seconds"
                "Current upstream backoff delay." "gauge")
              (by_one "mcpstead_upstream_current_backoff_seconds" "server" six
                metrics.upstream_current_backoff_seconds)))))

-- the resets of sessions and the loading of tools
unfoldable pub refresh_lines : Metrics → List String
unfolding headings by_one by_two histograms six decimal
refresh_lines metrics =
    append
      (headings "mcpstead_upstream_session_resets_total"
        "Upstream session resets after session invalidation." "counter")
      (append
        (by_two "mcpstead_upstream_session_resets_total" "server" "reason" decimal
          metrics.upstream_session_resets)
        (append
          (headings "mcpstead_upstream_tools_refresh_total"
            "Upstream tools/list cache refresh outcomes." "counter")
          (append
            (by_two "mcpstead_upstream_tools_refresh_total" "server" "result" decimal
              metrics.upstream_tools_refresh)
            (append
              (histograms "mcpstead_upstream_tools_refresh_duration_seconds"
                "Upstream tools/list cache refresh duration." "server"
                metrics.upstream_tools_refresh_duration)
              (append
                (headings "mcpstead_upstream_tools_last_refresh_timestamp_seconds"
                  "Last successful tool cache refresh timestamp." "gauge")
                (by_one "mcpstead_upstream_tools_last_refresh_timestamp_seconds" "server" six
                  metrics.upstream_tools_last_refresh_timestamp_seconds))))))
