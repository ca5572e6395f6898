-- ===== src/Gateway/Tasks/Shutdown.antt =====
-- src/main.rs: the state behind the signal to shut down.
use mcpstead.Base.{ℕ, ◌≡◌, refl, [], false}
use mcpstead.State.App.{AppState}
use mcpstead.State.Sessions.{
  stop_accepting_new_sessions, accepting_new_sessions, terminate_all_sessions,
}
use mcpstead.State.Sessions.Accounting.{Balanced, terminate_all_sessions-Balanced}
use mcpstead.Gateway.Tasks.{
  Sweep, finished, before_sessions, before_metrics, timed_sweep, shutdown_signal,
}

module _ {V : Type 0} where
  swept : (now : ℕ) (s : AppState V) → Balanced s → Balanced (shutdown_signal finished now s)
  unfolding shutdown_signal timed_sweep stop_accepting_new_sessions
  swept now s b =
      terminate_all_sessions-Balanced now "gateway_shutdown" (stop_accepting_new_sessions s)
        (record { distinct = b.distinct; balance = b.balance; fits = b.fits })

  -- Behind the signal to shut down no new session is accepted, however far the sweep comes; a sweep
  -- that comes to its end within the grace leaves no session and keeps the books balanced, so that
  -- each session that was opened has been counted as terminated once.
  pub shutdown_signal-closes :
      (sweep : Sweep) (now : ℕ) (s : AppState V)
      → Balanced s
      → (accepting_new_sessions (shutdown_signal sweep now s) ≡ false)
        × ((shutdown_signal finished now s).sessions ≡ [])
        × Balanced (shutdown_signal finished now s)
  unfolding shutdown_signal timed_sweep stop_accepting_new_sessions accepting_new_sessions
      terminate_all_sessions
  shutdown_signal-closes finished now s b = (refl, refl, swept now s b)
  shutdown_signal-closes before_sessions now s b = (refl, refl, swept now s b)
  shutdown_signal-closes before_metrics now s b = (refl, refl, swept now s b)
