-- ===== src/Exposition/Page/Safe.antt =====
-- src/metrics.rs: no value can add a line to the metrics page.
use mcpstead.Base.{ℕ, Option, ◌≡◌, true}
use mcpstead.State.App.{AppState}
use mcpstead.Exposition.Process.{ProcessStats}
use mcpstead.Exposition.Family.Blocks.{IsBlock, blocks}
use mcpstead.Exposition.Page.{Build, page_lines, metrics_page}
use mcpstead.Exposition.Page.Cut.{cut, cut-written}
use mcpstead.Exposition.Page.Sections.{
  IsBlock-gateway_lines, IsBlock-process_lines, IsBlock-server_lines, IsBlock-session_lines,
  IsBlock-tool_lines, IsBlock-request_lines, IsBlock-initialize_lines, IsBlock-backoff_lines,
  IsBlock-refresh_lines, IsBlock-access_lines,
}

IsBlock-page_lines :
    {V : Type 0} (build : Build) (stats : Option ProcessStats) (now : ℕ) (s : AppState V)
    → IsBlock (page_lines build stats now s)
unfolding page_lines
IsBlock-page_lines build stats now s =
    search
      (
        blocks, IsBlock-gateway_lines, IsBlock-process_lines, IsBlock-server_lines,
        IsBlock-session_lines, IsBlock-tool_lines, IsBlock-request_lines, IsBlock-initialize_lines,
        IsBlock-backoff_lines, IsBlock-refresh_lines, IsBlock-access_lines,
      )
      depth 20

-- When metrics are on, the lines that a reader finds in the page, cutting it at its line feeds, are
-- the lines that were written, whatever the names of tools, servers and methods, the reasons and the
-- counts: no value adds, splits or joins a line.
pub cut-metrics_page :
    {V : Type 0} (build : Build) (stats : Option ProcessStats) (now : ℕ) (s : AppState V)
    → s.metrics_enabled ≡ true
    → cut ((metrics_page build stats now s).body) ≡ page_lines build stats now s
unfolding metrics_page
cut-metrics_page build stats now s h =
    rw (h, metrics_page)
      (cut-written (page_lines build stats now s) ((IsBlock-page_lines build stats now s).lines))
