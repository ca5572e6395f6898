-- ===== src/Reload/Kept.antt =====
-- src/reload.rs: properties of the state that the operations of a reload keep, and with them a reload.
use mcpstead.Base.{
  Bool, ℕ, refl, String, Option, none, some, List, [], ◌∷◌, ok, err, Option-cases, Bool-cases, inl,
  inr,
}
use mcpstead.Base.Dict.{string_key, get, keys}
use mcpstead.Config.{Config, ServerConfig}
use mcpstead.Config.Equality.{same_server, requires_fresh_upstream_session}
use mcpstead.State.App.{AppState, new_server, ManagedServer, TaskEvent, McpAuthState}
use mcpstead.State.Metrics.{Metrics, record_config_reload}
use mcpstead.Upstream.Kept.{SameCounts}
use mcpstead.Upstream.Registry.{
  abort_server_manager, put_server, remove_server, change_server, spawn_server_manager,
  drop_upstream_session_reset_lock,
}
use mcpstead.Reload.{
  ReloadSummary, ServerMap, servers_by_name, remove_old, remove_all, apply_new, apply_all,
  apply_upstream_diff, no_changes, conclude, load_checked, reload_config, reloadable_config,
}
use mcpstead.Reload.Follows.{Loaded}

module _ {V : Type 0} where
  pub record KeptByDiff (P : AppState V → Type 0) : Type 0 where
    pub metrics :
        (f : Metrics → Metrics) (s : AppState V)
        → SameCounts s.metrics (f s.metrics)
        → P s
        → P (record s { metrics = f s.metrics })
    pub tasks :
        (handles : List (String × ℕ)) (log : List TaskEvent) (s : AppState V)
        → P s
        → P (record s { upstream_tasks = handles; task_log = log })
    pub locks :
        (locks : List (String × ℕ)) (s : AppState V)
        → P s
        → P (record s { upstream_session_reset_locks = locks })
    pub put :
        (name : String) (server : ManagedServer V) (s : AppState V)
        → P s
        → P (put_server name server s)
    pub taken : (name : String) (s : AppState V) → P s → P (remove_server name s)
    pub changed :
        (name : String) (f : ManagedServer V → ManagedServer V) (s : AppState V)
        → P s
        → P (change_server name f s)
    pub configured :
        (config : Config) (auth : McpAuthState) (enabled : Bool) (s : AppState V)
        → P s
        → P (record s { live_config = config; mcp_auth = auth; metrics_enabled = enabled })

  module _ (P : AppState V → Type 0) (kept : KeptByDiff P) where
    pub spawn_kept : (name : String) (s : AppState V) → P s → P (spawn_server_manager name s)
    unfolding spawn_server_manager
    spawn_kept name s b = kept.tasks _ _ s b

    abort_kept : (name : String) (s : AppState V) → P s → P (abort_server_manager name s)
    unfolding abort_server_manager
    abort_kept name s b = elim (Option-cases (get name s.upstream_tasks)) [
      | inl e ↦ rw (e, abort_server_manager) b
      | inr (handle, e) ↦ rw (e, abort_server_manager) (kept.tasks _ _ s b)
    ]

    drop_kept : (name : String) (s : AppState V) → P s → P (drop_upstream_session_reset_lock name s)
    unfolding drop_upstream_session_reset_lock
    drop_kept name s b = kept.locks _ s b

    remove_old_kept :
        (news : ServerMap) (name : String) (c : AppState V × ReloadSummary)
        → P c.0
        → P (remove_old news name c).0
    unfolding remove_old
    remove_old_kept news name (s, summary) b = elim (Option-cases (get name news)) [
      | inl e ↦
          let gone = remove_server name (abort_server_manager name s) in
          rw (e, remove_old)
            (drop_kept name gone
              (kept.taken name (abort_server_manager name s) (abort_kept name s b)))
      | inr (server, e) ↦ rw (e, remove_old) b
    ]

    remove_all_kept :
        (news : ServerMap) (names : List String) (c : AppState V × ReloadSummary)
        → P c.0
        → P (remove_all news names c).0
    unfolding remove_all
    remove_all_kept news [] c b = b
    remove_all_kept news (name ∷ names) c b =
        remove_all_kept news names (remove_old news name c) (remove_old_kept news name c b)

    apply_new_kept :
        (name : String) (new : ServerConfig) (old : Option ServerConfig)
        (c : AppState V × ReloadSummary)
        → P c.0
        → P (apply_new name new old c).0
    unfolding apply_new
    apply_new_kept name new none (s, summary) b =
        spawn_kept name (put_server name (new_server new) s) (kept.put name (new_server new) s b)
    apply_new_kept name new (some old) (s, summary) b =
        let aborted = abort_server_manager name s in
        let put = put_server name (new_server new) aborted in
        let put_kept = kept.put name (new_server new) aborted (abort_kept name s b) in
        elim (Bool-cases (same_server old new)) [
          | inl e ↦ rw (e, apply_new) b
          | inr e ↦ elim (Bool-cases (requires_fresh_upstream_session old new)) [
            | inl f ↦
                rw (e, f, apply_new)
                  (spawn_kept name (drop_upstream_session_reset_lock name put)
                    (drop_kept name put put_kept))
            | inr f ↦
                rw (e, f, apply_new)
                  (kept.changed name (λ server. record server { config = new }) s b)
          ]
        ]

    apply_all_kept :
        (olds news : ServerMap) (c : AppState V × ReloadSummary)
        → P c.0
        → P (apply_all olds news c).0
    unfolding apply_all
    apply_all_kept olds [] c b = b
    apply_all_kept olds ((name, new) ∷ rest) c b =
        apply_all_kept olds rest (apply_new name new (get name olds) c)
          (apply_new_kept name new (get name olds) c b)

    apply_upstream_diff_kept :
        (s : AppState V) (old new : Config) → P s → P (apply_upstream_diff s old new).0
    unfolding apply_upstream_diff
    apply_upstream_diff_kept s old new b =
        let olds = servers_by_name old in
        let news = servers_by_name new in
        apply_all_kept olds news (remove_all news (keys olds) (s, no_changes))
          (remove_all_kept news (keys olds) (s, no_changes) b)

    pub conclude_kept :
        (unix_now : ℕ) (s : AppState V) (result : Loaded) → P s → P (conclude unix_now s result).1
    unfolding conclude record_config_reload
    conclude_kept unix_now s (err message) b =
        kept.metrics (record_config_reload unix_now "error") s (refl, refl) b
    conclude_kept unix_now s (ok (loaded, token)) b =
        let config = reloadable_config s.live_config loaded in
        let diff = (apply_upstream_diff s s.live_config config).0 in
        let auth : McpAuthState = record { mode = config.mcp.auth.mode; bearer_token = token } in
        let installed : AppState V = record diff {
          live_config = config;
          mcp_auth = auth;
          metrics_enabled = config.metrics.enabled;
        } in
        kept.metrics (record_config_reload unix_now "success") installed (refl, refl)
          (kept.configured config auth config.metrics.enabled diff
            (apply_upstream_diff_kept s s.live_config config b))

    pub reload_config_kept :
        (read_to_string : String → Option String) (from_str : String → Option Config)
        (env : String → Option String) (unix_now : ℕ) (s : AppState V)
        → P s
        → P (reload_config read_to_string from_str env unix_now s).1
    unfolding reload_config
    reload_config_kept read_to_string from_str env unix_now s =
        conclude_kept unix_now s (load_checked read_to_string from_str env s.config_path)
