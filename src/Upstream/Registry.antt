-- ===== src/Upstream/Registry.antt =====
-- src/upstream.rs: the registry's entries, the manager tasks and the reset locks. `now` is the
-- instant that a function reads from the clock.
use mcpstead.Base.{
  ℕ, ◌+◌, String, true, false, Option, none, some, List, [], ◌∷◌, ◌++◌, length, saturating_add,
}
use mcpstead.Base.Dict.{string_key, get, insert, remove, adjust, keys}
use mcpstead.Config.{ServerConfig}
use mcpstead.State.App.{AppState, ManagedServer, spawned, aborted}

module _ {V : Type 0} where
  -- `server_names`
  unfoldable pub server_names : AppState V → List String
  server_names s = keys s.registry

  -- `spawn_server_manager`: a handle is the place of its event in the log
  unfoldable pub spawn_server_manager : String → AppState V → AppState V
  spawn_server_manager name s =
      let handle : ℕ = length s.task_log in
      record s {
        upstream_tasks = insert name handle s.upstream_tasks;
        task_log = s.task_log ++ spawned handle name ∷ [];
      }

  -- `abort_server_manager`
  unfoldable pub abort_server_manager : String → AppState V → AppState V
  abort_server_manager name s = elim (get name s.upstream_tasks) [
    | none ↦ s
    | some handle ↦ record s {
      upstream_tasks = remove name s.upstream_tasks;
      task_log = s.task_log ++ aborted handle ∷ [];
    }
  ]

  -- `drop_upstream_session_reset_lock`
  unfoldable pub drop_upstream_session_reset_lock : String → AppState V → AppState V
  drop_upstream_session_reset_lock name s = record s {
    upstream_session_reset_locks = remove name s.upstream_session_reset_locks;
  }

  -- `upstream_session_reset_lock`: the lock of the name, made where there is none
  unfoldable pub upstream_session_reset_lock : String → AppState V → ℕ × AppState V
  upstream_session_reset_lock name s = elim (get name s.upstream_session_reset_locks) [
    | some lock ↦ (lock, s)
    | none ↦ (
      s.locks_made,
      record s {
        upstream_session_reset_locks = insert name s.locks_made s.upstream_session_reset_locks;
        locks_made = s.locks_made + 1;
      },
    )
  ]

  -- `registry.servers.get_mut(name)` and a change of the entry
  abbrev pub change_server : String → (ManagedServer V → ManagedServer V) → AppState V → AppState V
  change_server name f s = record s { registry = adjust name f s.registry }

  -- `registry.servers.insert(name, …)` and `registry.servers.remove(name)`
  abbrev pub put_server : String → ManagedServer V → AppState V → AppState V
  put_server name server s = record s { registry = insert name server s.registry }

  abbrev pub remove_server : String → AppState V → AppState V
  remove_server name s = record s { registry = remove name s.registry }

  abbrev pub config_of : Option (ManagedServer V) → Option ServerConfig
  config_of none = none
  config_of (some server) = some server.config

  -- `get_server_config`
  unfoldable pub get_server_config : String → AppState V → Option ServerConfig
  get_server_config name s = config_of (get name s.registry)

  abbrev pub connected_entry : ℕ → Option String → List V → ManagedServer V → ManagedServer V
  connected_entry now session_id tools server = record server {
    connected = true;
    last_error = none;
    session_id = session_id;
    tools = tools;
    last_seen = some now;
  }

  -- `set_server_connected`
  unfoldable pub set_server_connected :
      ℕ → String → Option String → List V → AppState V → AppState V
  set_server_connected now name session_id tools =
      change_server name (connected_entry now session_id tools)

  abbrev pub disconnected_entry : String → ManagedServer V → ManagedServer V
  disconnected_entry error server = record server {
    connected = false;
    last_error = some error;
    session_id = none;
    tools = [];
    reconnects = saturating_add server.reconnects 1;
  }

  -- `set_server_disconnected`
  unfoldable pub set_server_disconnected : String → String → AppState V → AppState V
  set_server_disconnected name error = change_server name (disconnected_entry error)

  abbrev pub session_entry : ℕ → Option String → ManagedServer V → ManagedServer V
  session_entry now session_id server = record server {
    session_id = session_id;
    connected = true;
    last_error = none;
    last_seen = some now;
  }

  -- `replace_server_session_id`
  unfoldable pub replace_server_session_id : ℕ → String → Option String → AppState V → AppState V
  replace_server_session_id now name session_id = change_server name (session_entry now session_id)

  abbrev pub session_of : Option (ManagedServer V) → Option String
  session_of none = none
  session_of (some server) = server.session_id

  -- `current_server_session_id`
  unfoldable pub current_server_session_id : String → AppState V → Option String
  current_server_session_id name s = session_of (get name s.registry)
