-- ===== src/Reload/Again.antt =====
-- src/reload.rs: a reload of a file that has not changed.
use mcpstead.Base.{
  ℕ, ◌+◌, ◌≡◌, refl, ◌∙◌, ap, String, true, Option, none, some, [], ◌∷◌, ok, err, Result, arith,
  length, if◌then◌else◌, not, ◌||◌, All,
}
use mcpstead.Base.Dict.{string_key, get, keys}
use mcpstead.Base.Dict.Entries.{found_entries}
use mcpstead.Base.Eq.{◌=?◌, =?_iff, string_eq, nat_eq}
use mcpstead.Config.{Config, ServerConfig, McpConfig, LoggingConfig}
use mcpstead.Config.Equality.{
  same_server, same_server_iff, session_eq, session_iff, logging_eq, logging_iff,
}
use mcpstead.State.App.{AppState}
use mcpstead.State.Metrics.{record_config_reload}
use mcpstead.Reload.{
  ReloadSummary, ServerMap, servers_by_name, reloadable_config, remove_old, remove_all, apply_new,
  apply_all, apply_upstream_diff, no_changes, install, load_checked, conclude, reload_config,
}
use mcpstead.Reload.Diff.{servers_by_name-IsDistinct}
use mcpstead.Reload.Follows.{Loaded}
use mcpstead.Reload.Kept.{KeptByDiff, conclude_kept}

host_again : (a b : String) (c d : ℕ) → (if not (a =? b) || not (c =? d) then a else b) ≡ a
host_again a b c d = ground (arith, =?_iff a b)

port_again : (a b : String) (c d : ℕ) → (if not (a =? b) || not (c =? d) then c else d) ≡ c
port_again a b c d = ground (arith, =?_iff c d)

logging_again : (a b : LoggingConfig) → (if not (a =? b) then a else b) ≡ a
logging_again a b = ground (arith, logging_iff a b)

-- the part of the endpoint under the session settings of another
abbrev with_session : McpConfig → McpConfig → McpConfig
with_session old new =
    if not (old.session =? new.session) then record new { session = old.session } else new

mcp_again : (old new : McpConfig) → with_session (with_session old new) new ≡ with_session old new
mcp_again old new =
    ground (arith, session_iff old.session new.session, session_iff new.session new.session)

abbrev with_parts : Config → String → ℕ → McpConfig → LoggingConfig → Config
with_parts new host port mcp logging = record new {
  host = host;
  port = port;
  logging = logging;
  mcp = mcp;
}

same_parts :
    (new : Config) (h h' : String) (p p' : ℕ) (m m' : McpConfig) (l l' : LoggingConfig)
    → h ≡ h'
    → p ≡ p'
    → m ≡ m'
    → l ≡ l'
    → with_parts new h p m l ≡ with_parts new h' p' m' l'
same_parts new h h' p p' m m' l l' a b c d = rw (a, b, c, d) refl

-- what a reload takes of a configuration is the same the second time
pub reloadable_config-again :
    (old new : Config)
    → reloadable_config (reloadable_config old new) new ≡ reloadable_config old new
unfolding reloadable_config
reloadable_config-again old new =
    let r = reloadable_config old new in
    same_parts new _ _ _ _ _ _ _ _ (host_again r.host new.host r.port new.port)
      (port_again r.host new.host r.port new.port) (mcp_again old.mcp new.mcp)
      (logging_again r.logging new.logging)

abbrev unchanged_by : ReloadSummary → ℕ → ReloadSummary
unchanged_by summary n = record summary { unchanged = n }

module _ {V : Type 0} where
  remove_old-found :
      (news : ServerMap) (name : String) (server : ServerConfig) (c : AppState V × ReloadSummary)
      → get name news ≡ some server
      → remove_old news name c ≡ c
  unfolding remove_old
  remove_old-found news name server (s, summary) found = rw (found, remove_old) refl

  remove_all-none :
      (news rest : ServerMap) (c : AppState V × ReloadSummary)
      → All (λ e. get e.0 news ≡ some e.1) rest
      → remove_all news (keys rest) c ≡ c
  unfolding remove_all
  remove_all-none news [] c found = refl
  remove_all-none news ((name, server) ∷ rest) c found =
      remove_all-none news rest (remove_old news name c) found.1
      ∙ remove_old-found news name server c found.0

  apply_new-same :
      (name : String) (new : ServerConfig) (old : Option ServerConfig) (s : AppState V)
      (summary : ReloadSummary)
      → old ≡ some new
      → apply_new name new old (s, summary) ≡ (s, unchanged_by summary (summary.unchanged + 1))
  unfolding apply_new
  apply_new-same name new none s summary h = cc
  apply_new-same name new (some old) s summary h =
      let same : same_server old new ≡ true = (same_server_iff old new).1 (ground (arith, h)) in
      rw (same, apply_new) refl

  apply_all-none :
      (olds rest : ServerMap) (s : AppState V) (summary : ReloadSummary)
      → All (λ e. get e.0 olds ≡ some e.1) rest
      → apply_all olds rest (s, summary)
        ≡ (s, unchanged_by summary (summary.unchanged + length rest))
  unfolding apply_all
  apply_all-none olds [] s summary found = ap (λ (n : ℕ). (s, unchanged_by summary n)) (omega arith)
  apply_all-none olds ((name, server) ∷ rest) s summary found =
      ap (apply_all olds rest) (apply_new-same name server (get name olds) s summary found.0)
      ∙ apply_all-none olds rest s (unchanged_by summary (summary.unchanged + 1)) found.1
      ∙ ap (λ (n : ℕ). (s, unchanged_by summary n)) (omega arith)

  -- the servers' part of a reload with no change
  apply_upstream_diff-same :
      (s : AppState V) (c : Config)
      → apply_upstream_diff s c c ≡ (s, unchanged_by no_changes (length (servers_by_name c)))
  unfolding apply_upstream_diff
  apply_upstream_diff-same s c =
      let m = servers_by_name c in
      let found = found_entries m (servers_by_name-IsDistinct c) in
      ap (apply_all m m) (remove_all-none m m (s, no_changes) found)
      ∙ apply_all-none m m s no_changes found
      ∙ ap (λ (n : ℕ). (s, unchanged_by no_changes n)) (omega arith)

  path_kept : (path : String) → KeptByDiff {V = V} (λ s. s.config_path ≡ path)
  path_kept path = record {
    metrics = λ f s e h. h;
    tasks = λ handles log s h. h;
    locks = λ locks s h. h;
    put = λ name server s h. h;
    taken = λ name s h. h;
    changed = λ name f s h. h;
    configured = λ config auth enabled s h. h;
  }

  -- what a reload of the same configuration and token makes of the state behind the first one
  abbrev pub Unchanged : ℕ → AppState V → Result String ReloadSummary × AppState V → Type 0
  Unchanged unix_now s r = r ≡ (
    ok (unchanged_by no_changes (length (servers_by_name s.live_config))),
    record s { metrics = record_config_reload unix_now "success" s.metrics },
  )

  -- the end of a reload, by the configuration and what its servers' part gave
  abbrev installed :
      ℕ
      → Option String
      → Config
      → AppState V × ReloadSummary
      → Result String ReloadSummary × AppState V
  installed unix_now token c d = (
    ok d.1,
    record (d.0) {
      live_config = c;
      mcp_auth = record { mode = c.mcp.auth.mode; bearer_token = token };
      metrics_enabled = c.metrics.enabled;
      metrics = record_config_reload unix_now "success" d.0.metrics;
    },
  )

  conclude-again :
      (unix_now later : ℕ) (s : AppState V) (loaded : Config) (token : Option String)
      → Unchanged later
          (conclude unix_now s (ok (loaded, token))).1
          (conclude later (conclude unix_now s (ok (loaded, token))).1 (ok (loaded, token)))
  unfolding conclude install
  conclude-again unix_now later s loaded token =
      let s' = (conclude unix_now s (ok (loaded, token))).1 in
      ap (λ (c : Config). installed later token c (apply_upstream_diff s' s'.live_config c))
        (reloadable_config-again s.live_config loaded)
      ∙ ap (installed later token s'.live_config) (apply_upstream_diff-same s' s'.live_config)

  again :
      (unix_now later : ℕ) (s : AppState V) (summary : ReloadSummary) (first second : Loaded)
      → second ≡ first
      → (conclude unix_now s first).0 ≡ ok summary
      → Unchanged later
          (conclude unix_now s first).1
          (conclude later (conclude unix_now s first).1 second)
  unfolding conclude
  again unix_now later s summary (err message) second e h = cc
  again unix_now later s summary (ok (loaded, token)) second e h =
      rw e (conclude-again unix_now later s loaded token)

  path-conclude :
      (unix_now : ℕ) (s : AppState V) (loaded : Loaded)
      → (conclude unix_now s loaded).1.config_path ≡ s.config_path
  path-conclude unix_now s loaded =
      conclude_kept (λ t. t.config_path ≡ s.config_path) (path_kept s.config_path) unix_now s loaded
        refl

module _ (read_to_string : String → Option String) (from_str : String → Option Config)
    (env : String → Option String) {V : Type 0} where
  -- After a reload that succeeded, another reload of the same file, in the same environment, does
  -- nothing: it succeeds, counts each server as unchanged, and leaves the registry, the tasks, the
  -- live configuration and all else of the state but the metrics, where it is recorded.
  pub reload_config-again :
      (unix_now later : ℕ) (s : AppState V) (summary : ReloadSummary)
      → (reload_config read_to_string from_str env unix_now s).0 ≡ ok summary
      → Unchanged later (reload_config read_to_string from_str env unix_now s).1 (
          reload_config read_to_string from_str env later
            (reload_config read_to_string from_str env unix_now s).1)
  unfolding reload_config
  reload_config-again unix_now later s summary =
      let first = load_checked read_to_string from_str env s.config_path in
      again unix_now later s summary first _
        (ap (load_checked read_to_string from_str env) (path-conclude unix_now s first))
