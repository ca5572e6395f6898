-- ===== src/Reload/Managed.antt =====
-- src/reload.rs: a managing task for each server, through every reload.
use mcpstead.Base.{
  ℕ, ◌≡◌, refl, String, Bool, true, not, ◌&&◌, ◌||◌, Option, none, some, List, [], ◌∷◌, arith,
  is_some, any, str_eq, eq_iff, ok, err, length,
}
use mcpstead.Base.Dict.{string_key, get, keys}
use mcpstead.Base.Dict.Laws.{get-insert, get-remove}
use mcpstead.Config.{Config, ServerConfig}
use mcpstead.State.App.{AppState, new_server}
use mcpstead.Upstream.Registry.{
  abort_server_manager, spawn_server_manager, drop_upstream_session_reset_lock, put_server,
}
use mcpstead.Reload.{
  ReloadSummary, ServerMap, servers_by_name, remove_old, remove_all, apply_new, apply_all,
  apply_upstream_diff, no_changes, reloadable_config, conclude,
}
use mcpstead.Reload.Diff.{any-keys}
use mcpstead.Reload.Follows.{Loaded}

module _ {V : Type 0} where
  -- whether a task manages the server of this name
  abbrev pub runs : String → AppState V → Bool
  runs id s = is_some (get id s.upstream_tasks)

  -- the servers of a configuration, and no others, each have a task
  pub record IsManaged (s : AppState V) (config : Config) : Type 0 where
    pub at : (id : String) → runs id s ≡ is_some (get id (servers_by_name config))

  pub runs-spawn :
      (name id : String) (s : AppState V)
      → runs id (spawn_server_manager name s) ≡ (str_eq name id || runs id s)
  unfolding spawn_server_manager
  runs-spawn name id s = ground (arith, get-insert name id (length s.task_log) s.upstream_tasks)

  runs-abort :
      (name id : String) (s : AppState V)
      → runs id (abort_server_manager name s) ≡ (not (str_eq name id) && runs id s)
  unfolding abort_server_manager
  runs-abort name id s = ground (arith, eq_iff name id, get-remove name id s.upstream_tasks)

  runs-remove_old :
      (news : ServerMap) (name id : String) (s : AppState V) (summary : ReloadSummary)
      → runs id (remove_old news name (s, summary)).0
        ≡ (not (str_eq name id && not (is_some (get name news))) && runs id s)
  unfolding remove_old drop_upstream_session_reset_lock
  runs-remove_old news name id s summary = ground (arith, runs-abort name id s)

  runs-remove_all :
      (news : ServerMap) (names : List String) (id : String) (s : AppState V)
      (summary : ReloadSummary)
      → runs id (remove_all news names (s, summary)).0
        ≡ (not (any (λ name. str_eq name id) names && not (is_some (get id news))) && runs id s)
  unfolding remove_all
  runs-remove_all news [] id s summary = ground arith
  runs-remove_all news (name ∷ names) id s summary =
      let c = remove_old news name (s, summary) in
      ground (
        arith,
        eq_iff name id,
        runs-remove_old news name id s summary,
        runs-remove_all news names id c.0 c.1,
      )

  runs-apply_new :
      (name id : String) (new : ServerConfig) (old : Option ServerConfig) (s : AppState V)
      (summary : ReloadSummary)
      → (is_some old ≡ true → runs name s ≡ true)
      → runs id (apply_new name new old (s, summary)).0 ≡ (str_eq name id || runs id s)
  unfolding apply_new drop_upstream_session_reset_lock
  runs-apply_new name id new none s summary h =
      runs-spawn name id (put_server name (new_server new) s)
  runs-apply_new name id new (some old) s summary h = ground (
    arith,
    eq_iff name id,
    h refl,
    runs-spawn name id (
        drop_upstream_session_reset_lock name
          (put_server name (new_server new) (abort_server_manager name s))),
    runs-abort name id s,
  )

  runs-apply_all :
      (olds news : ServerMap) (id : String) (s : AppState V) (summary : ReloadSummary)
      → ((k : String) → is_some (get k news) ≡ true → is_some (get k olds) ≡ true → runs k s ≡ true)
      → runs id (apply_all olds news (s, summary)).0 ≡ (is_some (get id news) || runs id s)
  unfolding apply_all get
  runs-apply_all olds [] id s summary h = refl
  runs-apply_all olds ((name, new) ∷ rest) id s summary h =
      let c = apply_new name new (get name olds) (s, summary) in
      let here = h name (ground (arith, eq_iff name name)) in
      let step = λ (k : String). runs-apply_new name k new (get name olds) s summary here in
      let later =
        runs-apply_all olds rest id c.0 c.1
          (λ k a b. ground (arith, step k, h k (ground (arith, a)) b)) in
      ground (arith, later, step id)

  pub apply_upstream_diff-IsManaged :
      (s : AppState V) (old new : Config)
      → IsManaged s old
      → IsManaged (apply_upstream_diff s old new).0 new
  unfolding apply_upstream_diff
  apply_upstream_diff-IsManaged s old new m =
      let olds = servers_by_name old in
      let news = servers_by_name new in
      let c = remove_all news (keys olds) (s, no_changes) in
      let removed = λ (k : String). runs-remove_all news (keys olds) k s no_changes in
      record {
        at = λ id. ground (
          arith,
          runs-apply_all olds news id c.0 c.1
              (λ k a b. ground (arith, removed k, m.at k, any-keys k olds)),
          removed id,
          m.at id,
          any-keys id olds,
        );
      }

  -- what a reload makes of the tasks, whether it succeeds or fails
  pub conclude-IsManaged :
      (unix_now : ℕ) (s : AppState V) (loaded : Loaded)
      → IsManaged s s.live_config
      → IsManaged (conclude unix_now s loaded).1 (conclude unix_now s loaded).1.live_config
  unfolding conclude
  conclude-IsManaged unix_now s (err message) m = record { at = m.at }
  conclude-IsManaged unix_now s (ok (loaded, token)) m = record {
    at =
        (apply_upstream_diff-IsManaged s s.live_config (reloadable_config s.live_config loaded)
          m).at;
  }
