-- ===== src/Gateway/Others.antt =====
-- src/main.rs: what other tasks do while one waits. Each of them changes the state by operations that
-- take the locks of what they change for one change, so that a wait sees a sequence of such changes.
use mcpstead.Base.{ℕ, String, Option}
use mcpstead.Config.{Config}
use mcpstead.State.App.{AppState, ManagedServer}
use mcpstead.State.Metrics.{Metrics}
use mcpstead.State.Sessions.{
  touch_session, open_session, terminate_session, prune_idle_sessions, stop_accepting_new_sessions,
  terminate_all_sessions,
}
use mcpstead.Upstream.Host.{World, Host, HttpRequest}
use mcpstead.Upstream.Kept.{SameCounts, IsFree, SameConfig, IsKept, Keeps}
use mcpstead.Upstream.Registry.{change_server, upstream_session_reset_lock}
use mcpstead.Reload.{reload_config}

-- the YAML parser and the environment, which stay; a file may be another at each reload
module _ (from_str : String → Option Config) (env : String → Option String) {V : Type 0} where
  -- Metrics that do not count sessions are recorded, the entry of a server changes but for its
  -- configuration, a reset lock is looked up, a session is touched, opened or ended, idle sessions are
  -- ended, the shutdown begins or ends all sessions, and the configuration is reloaded.
  pub data OtherStep : AppState V → AppState V → Type 0 where
    recorded :
        (f : Metrics → Metrics) (s : AppState V)
        → SameCounts s.metrics (f s.metrics)
        → OtherStep s (record s { metrics = f s.metrics })
    changed :
        (name : String) (f : ManagedServer V → ManagedServer V) (s : AppState V)
        → SameConfig f
        → OtherStep s (change_server name f s)
    locked : (name : String) (s : AppState V) → OtherStep s (upstream_session_reset_lock name s).1
    touched : (now : ℕ) (id : String) (s : AppState V) → OtherStep s (touch_session now id s).0
    opened :
        (now : ℕ) (id : String) (s : AppState V) → IsFree id s → OtherStep s (open_session now id s)
    ended :
        (now : ℕ) (id reason : String) (s : AppState V)
        → OtherStep s (terminate_session now id reason s).0
    pruned : (now : ℕ) (s : AppState V) → OtherStep s (prune_idle_sessions now s).0
    closed : (s : AppState V) → OtherStep s (stop_accepting_new_sessions s)
    swept :
        (now : ℕ) (reason : String) (s : AppState V)
        → OtherStep s (terminate_all_sessions now reason s).0
    reloaded :
        (read_to_string : String → Option String) (unix_now : ℕ) (s : AppState V)
        → OtherStep s (reload_config read_to_string from_str env unix_now s).1

  pub data Others : AppState V → AppState V → Type 0 where
    idle : {s : AppState V} → Others s s
    later : {s t u : AppState V} → Others s t → OtherStep t u → Others s u

  -- while a task waits, the others do what they do
  pub record Interleaves (h : Host V) : Type 0 where
    pub send : (r : HttpRequest) (w : World V) → Others w.app (h.send r w).1.app
    pub wait_lock : (lock : ℕ) (w : World V) → Others w.app (h.wait_lock lock w).app
    pub sleep : (length : ℕ) (w : World V) → Others w.app (h.sleep length w).app

  module _ (P : AppState V → Type 0) (kept : IsKept P)
      (by_reload : (read_to_string : String → Option String) (unix_now : ℕ) (s : AppState V)
        → P s
        → P (reload_config read_to_string from_str env unix_now s).1) where
    OtherStep_kept : {s t : AppState V} → OtherStep s t → P s → P t
    OtherStep_kept (recorded f s same) b = kept.metrics f s same b
    OtherStep_kept (changed name f s same) b = kept.server name f s same b
    OtherStep_kept (locked name s) b = kept.reset_lock name s b
    OtherStep_kept (touched now id s) b = kept.touched now id s b
    OtherStep_kept (opened now id s free) b = kept.opened now id s free b
    OtherStep_kept (ended now id reason s) b = kept.ended now id reason s b
    OtherStep_kept (pruned now s) b = kept.pruned now s b
    OtherStep_kept (closed s) b = kept.closed s b
    OtherStep_kept (swept now reason s) b = kept.swept now reason s b
    OtherStep_kept (reloaded read_to_string unix_now s) b = by_reload read_to_string unix_now s b

    Others_kept : {s t : AppState V} → Others s t → P s → P t
    Others_kept idle b = b
    Others_kept (later run step) b = OtherStep_kept step (Others_kept run b)

    -- a property that each operation keeps is kept by what the others do
    pub Interleaves-Keeps : (h : Host V) → Interleaves h → Keeps P h
    Interleaves-Keeps h i = record {
      send = λ r w b. Others_kept (i.send r w) b;
      wait_lock = λ lock w b. Others_kept (i.wait_lock lock w) b;
      sleep = λ length w b. Others_kept (i.sleep length w) b;
    }
