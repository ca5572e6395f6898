-- ===== src/Reload/Diff/Summary.antt =====
-- src/reload.rs: what the summary of a reload counts.
use mcpstead.Base.{
  ℕ, ◌+◌, ◌≡◌, refl, ◌∙◌, String, Option, none, some, List, [], ◌∷◌, arith, length, is_some,
  if◌then◌else◌,
}
use mcpstead.Base.Dict.{string_key, get, keys}
use mcpstead.Config.{Config, ServerConfig}
use mcpstead.State.App.{AppState}
use mcpstead.Reload.{
  ReloadSummary, ServerMap, servers_by_name, remove_old, remove_all, apply_new, apply_all,
  apply_upstream_diff, no_changes,
}

-- the servers of the new configuration that a summary accounts for
abbrev pub accounted : ReloadSummary → ℕ
accounted r = r.added + r.restarted + r.updated + r.unchanged

-- how many of the names a configuration lacks
abbrev pub count_missing : ServerMap → List String → ℕ
count_missing news [] = 0
count_missing news (name ∷ names) =
    (if is_some (get name news) then 0 else 1) + count_missing news names

module _ {V : Type 0} where
  remove_all_counts :
      (news : ServerMap) (names : List String) (s : AppState V) (summary : ReloadSummary)
      → ((remove_all news names (s, summary)).1.removed
          ≡ summary.removed + count_missing news names)
        × (accounted (remove_all news names (s, summary)).1 ≡ accounted summary)
  unfolding remove_all remove_old
  remove_all_counts news [] s summary = (omega arith, refl)
  remove_all_counts news (name ∷ names) s summary =
      let c = remove_old news name (s, summary) in
      ground (arith, remove_all_counts news names c.0 c.1)

  apply_new_counts :
      (name : String) (new : ServerConfig) (old : Option ServerConfig) (s : AppState V)
      (summary : ReloadSummary)
      → ((apply_new name new old (s, summary)).1.removed ≡ summary.removed)
        × (accounted (apply_new name new old (s, summary)).1 ≡ accounted summary + 1)
  unfolding apply_new
  apply_new_counts name new none s summary = ground arith
  apply_new_counts name new (some old) s summary = ground arith

  apply_all_counts :
      (olds news : ServerMap) (s : AppState V) (summary : ReloadSummary)
      → ((apply_all olds news (s, summary)).1.removed ≡ summary.removed)
        × (accounted (apply_all olds news (s, summary)).1 ≡ accounted summary + length news)
  unfolding apply_all
  apply_all_counts olds [] s summary = (refl, omega arith)
  apply_all_counts olds ((name, new) ∷ rest) s summary =
      let c = apply_new name new (get name olds) (s, summary) in
      let here = apply_new_counts name new (get name olds) s summary in
      let later = apply_all_counts olds rest c.0 c.1 in
      (later.0 ∙ here.0, omega (arith, later.1, here.1))

  -- The summary accounts for each server of the new configuration once, as added, restarted, updated
  -- or unchanged, and its removals are the servers of the old one that the new one lacks.
  pub summary_partition :
      (s : AppState V) (old new : Config)
      → (accounted (apply_upstream_diff s old new).1 ≡ length (servers_by_name new))
        × ((apply_upstream_diff s old new).1.removed
            ≡ count_missing (servers_by_name new) (keys (servers_by_name old)))
  unfolding apply_upstream_diff
  summary_partition s old new =
      let olds = servers_by_name old in
      let news = servers_by_name new in
      let c = remove_all news (keys olds) (s, no_changes) in
      let dropped = remove_all_counts news (keys olds) s no_changes in
      let kept = apply_all_counts olds news c.0 c.1 in
      (omega (arith, kept.1, dropped.1), omega (arith, kept.0, dropped.0))
