-- ===== src/Tests/Exposition.antt =====
-- The theorems on what the gateway shows, at one text and one state.
use Prim.Native.String.{◌∷◌ as then_char, ◌++◌ as joined}
use mcpstead.Exposition.Process.{split_whitespace, rsplit_once, stats_in, stats_of}
use mcpstead.Exposition.Process.Name.{stats_in-append}
use mcpstead.Base.Text.{strip_prefix}
use mcpstead.Base.{String, Option, some, [], ◌∷◌, ◌≡◌, refl, ◌↔◌, All, map, none, arith}
use mcpstead.Exposition.Labels.{escape_label}
use mcpstead.Exposition.Labels.Reading.{quote, read_value, read_value-escape_label}
use mcpstead.Exposition.Health.{health, health_server}
use mcpstead.Exposition.Health.Status.{IsUp, health_iff}
use mcpstead.Exposition.Family.{write_histogram}
use mcpstead.Exposition.Family.Observed.{counted_lines, write_histogram-observe_all}
use mcpstead.Exposition.Page.{Build, metrics_page, page_lines}
use mcpstead.Exposition.Page.Cut.{cut}
use mcpstead.Exposition.Page.Safe.{cut-metrics_page}
use mcpstead.State.Histogram.{seconds, duration_buckets}
use mcpstead.State.Histogram.Tally.{observe_all}
use mcpstead.State.Metrics.{default_metrics}
use mcpstead.Json.Sample.{Val}
use mcpstead.State.App.{AppState}
use mcpstead.Tests.Data.{new_config, state_of}

read_value-escape_label_example :
    read_value (joined (escape_label "a\\b\"c\nd") (then_char quote ",x"))
    ≡ some ("a\\b\"c\nd", ",x")
read_value-escape_label_example = read_value-escape_label "a\\b\"c\nd" ",x"

abbrev shown : AppState Val
shown = state_of new_config none

health_iff_example :
    (((health 60 shown).status ≡ "ok") ↔ All IsUp shown.registry)
    × ((health 60 shown).servers ≡ map (λ e. health_server 60 e.0 e.1) shown.registry)
health_iff_example = health_iff 60 shown

-- a reason that tries to add a line of its own
abbrev hostile : AppState Val
hostile = record shown {
  metrics = record default_metrics { mcp_auth_failures = ("a\"} 1\nmcpstead_fake 9", 3) ∷ [] };
}

abbrev build : Build
build = record { rust_version = none; git_sha = none }

cut-metrics_page_example :
    cut ((metrics_page build none 60 hostile).body) ≡ page_lines build none 60 hostile
unfolding state_of
cut-metrics_page_example = cut-metrics_page build none 60 hostile refl

write_histogram-observe_all_example :
    write_histogram "calls" "Calls."
      (("tool", "t") ∷ [])
      (observe_all duration_buckets (seconds 2 ∷ seconds 40 ∷ []))
      duration_buckets
    ≡ counted_lines "calls" "Calls."
        (("tool", "t") ∷ [])
        (seconds 2 ∷ seconds 40 ∷ [])
        duration_buckets
write_histogram-observe_all_example =
    write_histogram-observe_all "calls" "Calls." (("tool", "t") ∷ []) (seconds 2 ∷ seconds 40 ∷ [])
      duration_buckets (omega arith)

abbrev no_file : String → Option String
no_file path = none

stats_in-append_example :
    stats_in no_file none (joined "12 (a) S 1" (joined ") " "R 1 2 3"))
    ≡ stats_of no_file none (split_whitespace "R 1 2 3")
unfolding rsplit_once strip_prefix
stats_in-append_example = stats_in-append no_file none "12 (a) S 1" "R 1 2 3" refl
