-- ===== src/Gateway/Tasks.antt =====
-- src/main.rs: the tasks of the process and its end. What a task waits for, and which of two things
-- comes first, are arguments.
pub mod Eviction
pub mod Signals
pub mod Shutdown
use mcpstead.Base.{ℕ, String, Option, none, some, List, [], ◌∷◌, replicate}
use mcpstead.Config.{Config}
use mcpstead.State.App.{AppState}
use mcpstead.State.Sessions.{
  stop_accepting_new_sessions, terminate_all_sessions, prune_idle_sessions,
}
use mcpstead.Reload.{reload_config}
use mcpstead.Upstream.Host.{World, Host}

-- the arm of `select!` that is taken in a round
pub data Woken : Type 0 where
  cancelled : Woken
  slept : Woken

module _ {V : Type 0} (h : Host V) where
  -- one round of `session_gc_task` behind its sleep
  unfoldable pub gc_round : World V → World V
  unfolding prune_idle_sessions
  gc_round w =
      let woken = h.sleep w.app.session_gc_interval w in
      record woken { app = (prune_idle_sessions woken.now woken.app).0 }

  -- `session_gc_task`, by the arms that its rounds take
  unfoldable pub session_gc_task : List Woken → World V → World V
  unfolding gc_round
  session_gc_task [] w = w
  session_gc_task (cancelled ∷ rest) w = w
  session_gc_task (slept ∷ rest) w = session_gc_task rest (gc_round w)

-- the arm of `select!` in the other task, with the wall clock and the files at a signal
pub data Signal : Type 0 where
  stop : Signal
  hangup : ℕ → (String → Option String) → Signal

module _ (from_str : String → Option Config) (env : String → Option String) {V : Type 0} where
  -- the loop of `reload_signal_task`
  unfoldable pub reload_signals : List Signal → AppState V → AppState V
  unfolding reload_config
  reload_signals [] s = s
  reload_signals (stop ∷ rest) s = s
  reload_signals (hangup unix_now read_to_string ∷ rest) s =
      reload_signals rest (reload_config read_to_string from_str env unix_now s).1

  -- `reload_signal_task`: without a handler for the signal it ends
  unfoldable pub reload_signal_task : Option (List Signal) → AppState V → AppState V
  unfolding reload_signals
  reload_signal_task none s = s
  reload_signal_task (some signals) s = reload_signals signals s

-- how far the sweep of the sessions comes before its timeout: to its end, or to one of the two locks
-- that it waits for
pub data Sweep : Type 0 where
  finished : Sweep
  before_sessions : Sweep
  before_metrics : Sweep

module _ {V : Type 0} where
  -- `terminate_all_sessions` under `timeout`
  unfoldable pub timed_sweep : Sweep → ℕ → AppState V → AppState V
  unfolding terminate_all_sessions
  timed_sweep finished now s = (terminate_all_sessions now "gateway_shutdown" s).0
  timed_sweep before_sessions now s = s
  timed_sweep before_metrics now s = record s { sessions = [] }

  -- `shutdown_signal` behind the signal; the tasks have been cancelled
  unfoldable pub shutdown_signal : Sweep → ℕ → AppState V → AppState V
  unfolding stop_accepting_new_sessions timed_sweep
  shutdown_signal sweep now s = timed_sweep sweep now (stop_accepting_new_sessions s)
