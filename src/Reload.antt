-- ===== src/Reload.antt =====
-- src/reload.rs: the reload of the configuration. A reload is one step here. The reload lock only keeps
-- other reloads out: that other tasks may run between its changes of the servers is left out.
pub mod Diff
pub mod Follows
pub mod Managed
pub mod Sound
pub mod Kept
pub mod Outcome
pub mod Again
pub mod Order
pub mod Http
use mcpstead.Base.{
  ℕ, ◌+◌, String, Bool, true, false, Option, none, some, List, [], ◌∷◌, map, Result, ok, err, ◌>>=◌,
  ◌>>◌, ◌||◌, not, if◌then◌else◌,
}
use mcpstead.Base.Dict.{string_key, get, keys, collect}
use mcpstead.Base.Eq.{◌=?◌, string_eq, nat_eq}
use mcpstead.Config.{Config, ServerConfig}
use mcpstead.Config.Equality.{same_server, session_eq, logging_eq, requires_fresh_upstream_session}
use mcpstead.Config.Load.{load_config, load_mcp_bearer_token}
use mcpstead.Config.Validate.{validate_config}
use mcpstead.State.Metrics.{record_config_reload}
use mcpstead.State.App.{AppState, new_server}
use mcpstead.Upstream.Registry.{
  abort_server_manager, spawn_server_manager, drop_upstream_session_reset_lock, change_server,
  put_server, remove_server,
}

pub record ReloadSummary : Type 0 where
  pub added : ℕ
  pub removed : ℕ
  pub restarted : ℕ
  pub updated : ℕ
  pub unchanged : ℕ

abbrev pub no_changes : ReloadSummary
no_changes = record { added = 0; removed = 0; restarted = 0; updated = 0; unchanged = 0 }

abbrev pub ServerMap : Type 0
ServerMap = List (String × ServerConfig)

abbrev pub named : ServerConfig → String × ServerConfig
named server = (server.name, server)

-- `servers_by_name`
unfoldable pub servers_by_name : Config → ServerMap
unfolding collect
servers_by_name config = collect [] (map named config.servers)

-- `reloadable_config`, without its warnings
unfoldable pub reloadable_config : Config → Config → Config
reloadable_config old new =
    let moved = not (old.host =? new.host) || not (old.port =? new.port) in
    let logging = not (old.logging =? new.logging) in
    let session = not (old.mcp.session =? new.mcp.session) in
    record new {
      host = if moved then old.host else new.host;
      port = if moved then old.port else new.port;
      logging = if logging then old.logging else new.logging;
      mcp = if session then record (new.mcp) { session = old.mcp.session } else new.mcp;
    }

module _ {V : Type 0} where
  -- one round of the first loop of `apply_upstream_diff`
  unfoldable pub remove_old :
      ServerMap → String → AppState V × ReloadSummary → AppState V × ReloadSummary
  remove_old new_servers name (s, summary) = elim (get name new_servers) [
    | some _ ↦ (s, summary)
    | none ↦ (
      drop_upstream_session_reset_lock name (remove_server name (abort_server_manager name s)),
      record summary { removed = summary.removed + 1 },
    )
  ]

  unfoldable pub remove_all :
      ServerMap → List String → AppState V × ReloadSummary → AppState V × ReloadSummary
  remove_all new_servers [] c = c
  remove_all new_servers (name ∷ names) c =
      remove_all new_servers names (remove_old new_servers name c)

  -- the arms of the second loop, by the server's old configuration
  unfoldable pub apply_new :
      String
      → ServerConfig
      → Option ServerConfig
      → AppState V × ReloadSummary
      → AppState V × ReloadSummary
  apply_new name new none (s, summary) = (
    spawn_server_manager name (put_server name (new_server new) s),
    record summary { added = summary.added + 1 },
  )
  apply_new name new (some old) (s, summary) =
      if same_server old new
      then (s, record summary { unchanged = summary.unchanged + 1 })
      else if requires_fresh_upstream_session old new
      then (
        spawn_server_manager name (
            drop_upstream_session_reset_lock name
              (put_server name (new_server new) (abort_server_manager name s))),
        record summary { restarted = summary.restarted + 1 },
      )
      else (
        change_server name (λ server. record server { config = new }) s,
        record summary { updated = summary.updated + 1 },
      )

  unfoldable pub apply_all :
      ServerMap → ServerMap → AppState V × ReloadSummary → AppState V × ReloadSummary
  apply_all old_servers [] c = c
  apply_all old_servers ((name, new) ∷ rest) c =
      apply_all old_servers rest (apply_new name new (get name old_servers) c)

  -- `apply_upstream_diff`
  unfoldable pub apply_upstream_diff : AppState V → Config → Config → AppState V × ReloadSummary
  unfolding remove_all remove_old apply_all apply_new
  apply_upstream_diff s old_config new_config =
      let old_servers = servers_by_name old_config in
      let new_servers = servers_by_name new_config in
      apply_all old_servers new_servers (remove_all new_servers (keys old_servers) (s, no_changes))

  -- the rest of `reload_config_inner`, of a configuration and token that were loaded
  unfoldable pub install : Config → Option String → AppState V → AppState V × ReloadSummary
  unfolding apply_upstream_diff reloadable_config
  install loaded bearer_token s =
      let new_config = reloadable_config s.live_config loaded in
      let (s', summary) = apply_upstream_diff s s.live_config new_config in
      (
        record s' {
          live_config = new_config;
          mcp_auth = record { mode = new_config.mcp.auth.mode; bearer_token = bearer_token };
          metrics_enabled = new_config.metrics.enabled;
        },
        summary,
      )

  abbrev pub record_reload_result : ℕ → String → AppState V → AppState V
  record_reload_result unix_now result s = record s {
    metrics = record_config_reload unix_now result s.metrics;
  }

  -- `reload_config`, by what the loading gave; on an error the state is kept
  unfoldable pub conclude :
      ℕ
      → AppState V
      → Result String (Config × Option String)
      → Result String ReloadSummary × AppState V
  unfolding install
  conclude unix_now s (ok (loaded, token)) =
      let (s', summary) = install loaded token s in
      (ok summary, record_reload_result unix_now "success" s')
  conclude unix_now s (err message) = (err message, record_reload_result unix_now "error" s)

-- the file system, the YAML parser and the environment's variables
module _ (read_to_string : String → Option String) (from_str : String → Option Config)
    (env : String → Option String) where
  -- the checks at the start of `reload_config_inner`
  unfoldable pub load_checked : String → Result String (Config × Option String)
  load_checked path = do
    loaded ← load_config read_to_string from_str path
    validate_config loaded
    token ← load_mcp_bearer_token env loaded
    ok (loaded, token)

  -- `reload_config`
  unfoldable pub reload_config :
      {V : Type 0} → ℕ → AppState V → Result String ReloadSummary × AppState V
  unfolding load_checked conclude
  reload_config unix_now s = conclude unix_now s (load_checked s.config_path)
