-- ===== src/Exposition/Page/Sections.antt =====
-- src/metrics.rs: the texts of each section of the metrics page are lines, whatever the values.
use mcpstead.Base.{
  ℕ, ◌-◌, String, Option, none, some, List, [], ◌∷◌, ◌++◌ as append, refl, if◌then◌else◌, Bool,
  true, false,
}
use mcpstead.Base.Text.Decimal.{decimal}
use mcpstead.Base.Text.Lines.{no_newline, IsLine, IsLine-decimal}
use mcpstead.State.App.{ManagedServer}
use mcpstead.State.Histogram.{HistogramMetric, duration_buckets}
use mcpstead.State.Metrics.{Metrics}
use mcpstead.Exposition.Numbers.{six}
use mcpstead.Exposition.Family.{headings, sample, write_histogram}
use mcpstead.Exposition.Family.Lines.{IsLine-six}
use mcpstead.Exposition.Family.Blocks.{
  IsBlock, IsBlock-append, IsBlock-nil, IsBlock-headings, IsBlock-sample, IsBlock-histogram, blocks,
}
use mcpstead.Exposition.Process.{ProcessStats, process_lines, figure}
use mcpstead.Exposition.Page.{
  Build, build_labels, gateway_lines, seen_text, server_lines, session_lines,
}
use mcpstead.Exposition.Page.Requests.{
  ToolCalls, error_lines, all_error_lines, tool_duration_lines, histograms, tool_lines,
  request_lines, last_reload, access_lines,
}
use mcpstead.Exposition.Page.Upstreams.{initialize_lines, backoff_lines, refresh_lines}

IsBlock-error_lines :
    (server tool : String) (m : List (String × ℕ)) → IsBlock (error_lines server tool m)
unfolding error_lines no_newline
IsBlock-error_lines server tool [] = IsBlock-nil
IsBlock-error_lines server tool ((reason, value) ∷ rest) =
    IsBlock-append
      (sample "mcpstead_tool_call_errors_total"
          (("server", server) ∷ ("tool", tool) ∷ ("reason", reason) ∷ []) none (decimal value)
        ∷ [])
      (error_lines server tool rest)
      (IsBlock-sample "mcpstead_tool_call_errors_total"
        (("server", server) ∷ ("tool", tool) ∷ ("reason", reason) ∷ []) (decimal value) refl
        (refl, (refl, (refl, tt))) (IsLine-decimal value))
      (IsBlock-error_lines server tool rest)

IsBlock-all_error_lines : (m : ToolCalls) → IsBlock (all_error_lines m)
unfolding all_error_lines
IsBlock-all_error_lines [] = IsBlock-nil
IsBlock-all_error_lines (((server, tool), metric) ∷ rest) =
    IsBlock-append (error_lines server tool metric.errors_by_reason) (all_error_lines rest)
      (IsBlock-error_lines server tool metric.errors_by_reason) (IsBlock-all_error_lines rest)

IsBlock-tool_duration_lines : (m : ToolCalls) → IsBlock (tool_duration_lines m)
unfolding tool_duration_lines no_newline
IsBlock-tool_duration_lines [] = IsBlock-nil
IsBlock-tool_duration_lines (((server, tool), metric) ∷ rest) =
    let labels : List (String × String) = ("server", server) ∷ ("tool", tool) ∷ [] in
    IsBlock-append
      (write_histogram "mcpstead_tool_call_duration_seconds" "Tool call duration." labels
        metric.duration duration_buckets)
      (tool_duration_lines rest)
      (IsBlock-histogram "mcpstead_tool_call_duration_seconds" "Tool call duration." labels
        metric.duration duration_buckets refl refl (refl, (refl, tt)))
      (IsBlock-tool_duration_lines rest)

IsBlock-histograms :
    (name help label : String) (m : List (String × HistogramMetric))
    → IsLine name
    → IsLine help
    → IsLine label
    → IsBlock (histograms name help label m)
unfolding histograms
IsBlock-histograms name help label [] n h k = IsBlock-nil
IsBlock-histograms name help label ((key, metric) ∷ rest) n h k =
    IsBlock-append (write_histogram name help ((label, key) ∷ []) metric duration_buckets)
      (histograms name help label rest)
      (IsBlock-histogram name help ((label, key) ∷ []) metric duration_buckets n h (k, tt))
      (IsBlock-histograms name help label rest n h k)

IsBlock-last_reload : (at : Option ℕ) → IsBlock (last_reload at)
unfolding no_newline
IsBlock-last_reload none = IsBlock-nil
IsBlock-last_reload (some value) = search blocks

ruleset sections = (
  blocks, IsBlock-all_error_lines, IsBlock-tool_duration_lines, IsBlock-histograms,
  IsBlock-last_reload,
)

pub IsBlock-tool_lines : (metrics : Metrics) → IsBlock (tool_lines metrics)
unfolding tool_lines no_newline
IsBlock-tool_lines metrics = search sections depth 20

pub IsBlock-request_lines : (metrics : Metrics) → IsBlock (request_lines metrics)
unfolding request_lines no_newline
IsBlock-request_lines metrics = search sections depth 20

pub IsBlock-initialize_lines : (metrics : Metrics) → IsBlock (initialize_lines metrics)
unfolding initialize_lines no_newline
IsBlock-initialize_lines metrics = search sections depth 20

pub IsBlock-backoff_lines : (metrics : Metrics) → IsBlock (backoff_lines metrics)
unfolding backoff_lines no_newline
IsBlock-backoff_lines metrics = search sections depth 20

pub IsBlock-refresh_lines : (metrics : Metrics) → IsBlock (refresh_lines metrics)
unfolding refresh_lines no_newline
IsBlock-refresh_lines metrics = search sections depth 20

pub IsBlock-access_lines : (metrics : Metrics) → IsBlock (access_lines metrics)
unfolding access_lines no_newline
IsBlock-access_lines metrics = search sections depth 20

pub IsBlock-process_lines : (stats : Option ProcessStats) → IsBlock (process_lines stats)
unfolding process_lines no_newline
IsBlock-process_lines none = IsBlock-nil
IsBlock-process_lines (some stats) = search blocks depth 20

one_or_zero : (b : Bool) → IsLine (if b then "1" else "0")
unfolding no_newline
one_or_zero true = refl
one_or_zero false = refl

IsLine-seen_text : (now : ℕ) (seen : Option ℕ) → IsLine (seen_text now seen)
unfolding no_newline
IsLine-seen_text now none = refl
IsLine-seen_text now (some seen) = IsLine-six (now - seen)

pub IsBlock-server_lines :
    {V : Type 0} (now : ℕ) (servers : List (String × ManagedServer V))
    → IsBlock (server_lines now servers)
unfolding server_lines no_newline
IsBlock-server_lines now servers = search (blocks, one_or_zero, IsLine-seen_text) depth 20

pub IsBlock-session_lines :
    (session_count : ℕ) (metrics : Metrics) → IsBlock (session_lines session_count metrics)
unfolding session_lines no_newline
IsBlock-session_lines session_count metrics = search blocks depth 20

IsBlock-times :
    (now start start_unix_seconds : ℕ)
    → IsBlock (
        append
          (figure "mcpstead_start_time_seconds" "Unix timestamp for process start." "gauge"
            (six start_unix_seconds))
          (figure "mcpstead_uptime_seconds" "Process uptime in seconds." "gauge"
            (six (now - start))))
unfolding no_newline
IsBlock-times now start start_unix_seconds = search blocks depth 20

IsBlock-build :
    (build : Build) → IsBlock (sample "mcpstead_build_info" (build_labels build) none "1" ∷ [])
unfolding no_newline
IsBlock-build build =
    IsBlock-sample "mcpstead_build_info" (build_labels build) "1" refl (refl, (refl, (refl, tt)))
      refl

pub IsBlock-gateway_lines :
    (build : Build) (now start start_unix_seconds : ℕ)
    → IsBlock (gateway_lines build now start start_unix_seconds)
unfolding gateway_lines no_newline
IsBlock-gateway_lines build now start start_unix_seconds =
    IsBlock-append (headings "mcpstead_build_info" "Build and version info." "gauge") _
      (IsBlock-headings "mcpstead_build_info" "Build and version info." "gauge" refl refl refl)
      (IsBlock-append (sample "mcpstead_build_info" (build_labels build) none "1" ∷ []) _
        (IsBlock-build build) (IsBlock-times now start start_unix_seconds))
