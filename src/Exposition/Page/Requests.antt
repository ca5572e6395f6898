-- ===== src/Exposition/Page/Requests.antt =====
-- src/metrics.rs: the lines on tool calls, requests, the authentication, reloads and bytes.
use mcpstead.Base.{ℕ, String, Option, none, some, List, [], ◌∷◌, ◌++◌ as append}
use mcpstead.Base.Text.Decimal.{decimal}
use mcpstead.State.Histogram.{HistogramMetric, duration_buckets}
use mcpstead.State.Metrics.{Metrics, ToolCallMetric}
use mcpstead.Exposition.Numbers.{six}
use mcpstead.Exposition.Family.{headings, sample, by_one, by_two, write_histogram}

abbrev pub ToolCalls : Type 0
ToolCalls = List ((String × String) × ToolCallMetric)

-- the inner loop over the errors of one tool
unfoldable pub error_lines : String → String → List (String × ℕ) → List String
unfolding decimal
error_lines server tool [] = []
error_lines server tool ((reason, value) ∷ rest) =
    sample "mcpstead_tool_call_errors_total"
      (("server", server) ∷ ("tool", tool) ∷ ("reason", reason) ∷ []) none (decimal value)
    ∷ error_lines server tool rest

unfoldable pub all_error_lines : ToolCalls → List String
unfolding error_lines
all_error_lines [] = []
all_error_lines (((server, tool), metric) ∷ rest) =
    append (error_lines server tool metric.errors_by_reason) (all_error_lines rest)

unfoldable pub tool_duration_lines : ToolCalls → List String
unfolding write_histogram
tool_duration_lines [] = []
tool_duration_lines (((server, tool), metric) ∷ rest) =
    append
      (write_histogram "mcpstead_tool_call_duration_seconds" "Tool call duration."
        (("server", server) ∷ ("tool", tool) ∷ []) metric.duration duration_buckets)
      (tool_duration_lines rest)

-- a loop that writes a histogram for each key of a map
unfoldable pub histograms : String → String → String → List (String × HistogramMetric) → List String
unfolding write_histogram
histograms name help label [] = []
histograms name help label ((key, metric) ∷ rest) =
    append (write_histogram name help ((label, key) ∷ []) metric duration_buckets)
      (histograms name help label rest)

-- the tool calls
unfoldable pub tool_lines : Metrics → List String
unfolding headings all_error_lines tool_duration_lines by_two decimal
tool_lines metrics =
    append (headings "mcpstead_tool_calls_total" "Tool calls routed upstream." "counter") (
      append
        (by_two "mcpstead_tool_calls_total" "server" "tool"
          (λ (metric : ToolCallMetric). decimal metric.count) metrics.tool_calls)
        (append (headings "mcpstead_tool_call_errors_total" "Tool call errors by reason." "counter")
          (append (all_error_lines metrics.tool_calls) (tool_duration_lines metrics.tool_calls))))

-- the requests of clients
unfoldable pub request_lines : Metrics → List String
unfolding headings by_two histograms decimal
request_lines metrics =
    append (headings "mcpstead_mcp_requests_total" "MCP requests by method and result." "counter") (
      append (by_two "mcpstead_mcp_requests_total" "method" "result" decimal metrics.mcp_requests) (
        histograms "mcpstead_mcp_request_duration_seconds" "MCP request duration." "method"
          metrics.mcp_request_duration))

abbrev pub last_reload : Option ℕ → List String
last_reload none = []
last_reload (some value) =
    sample "mcpstead_config_last_reload_timestamp_seconds" [] none (six value) ∷ []

-- the authentication, the reloads and the bytes
unfoldable pub access_lines : Metrics → List String
unfolding headings by_one by_two decimal six
access_lines metrics =
    append (headings "mcpstead_mcp_auth_attempts_total" "MCP auth attempts." "counter") (
      append (by_one "mcpstead_mcp_auth_attempts_total" "result" decimal metrics.mcp_auth_attempts)
        (append
          (headings "mcpstead_mcp_auth_failures_total" "MCP auth failures by reason." "counter")
          (append
            (by_one "mcpstead_mcp_auth_failures_total" "reason" decimal metrics.mcp_auth_failures)
            (append (headings "mcpstead_config_reloads_total" "Config reload attempts." "counter") (
              append
                (by_one "mcpstead_config_reloads_total" "result" decimal metrics.config_reloads)
                (append
                  (headings "mcpstead_config_last_reload_timestamp_seconds"
                    "Last successful config reload timestamp." "gauge")
                  (append (last_reload metrics.config_last_reload_timestamp_seconds) (
                    append
                      (headings "mcpstead_upstream_bytes_total" "Bytes exchanged with upstreams."
                        "counter")
                      (by_two "mcpstead_upstream_bytes_total" "server" "direction" decimal
                        metrics.upstream_bytes)))))))))
