-- ===== src/State/Sessions/Reach.antt =====
-- src/state.rs and src/downstream.rs: the sessions as a state machine. The tasks of the gateway take
-- the write lock of the sessions for one operation at a time, so a run is a sequence of such steps.
use mcpstead.Base.{ℕ, ◌<◌, ◌≡◌, String, none, u64_max}
use mcpstead.Base.Dict.{string_key, get}
use mcpstead.State.App.{AppState}
use mcpstead.State.Sessions.{
  stop_accepting_new_sessions, touch_session, open_session, terminate_session, prune_idle_sessions,
  terminate_all_sessions,
}
use mcpstead.State.Sessions.Accounting.{
  Balanced, touch_session-Balanced, open_session-Balanced, terminate_session-Balanced,
  prune_idle_sessions-Balanced, terminate_all_sessions-Balanced,
}

module _ {V : Type 0} where
  -- A new session has an id that no active session has. `post_mcp` tests `accepting_new_sessions`
  -- before it takes the lock, so a session may be opened also after the gateway has closed.
  pub data SessionStep : AppState V → AppState V → Type 0 where
    opened :
        (now : ℕ) (id : String) (s : AppState V)
        → get id s.sessions ≡ none
        → s.metrics.downstream_sessions_total < u64_max
        → SessionStep s (open_session now id s)
    touched : (now : ℕ) (id : String) (s : AppState V) → SessionStep s (touch_session now id s).0
    ended :
        (now : ℕ) (id reason : String) (s : AppState V)
        → SessionStep s (terminate_session now id reason s).0
    pruned : (now : ℕ) (s : AppState V) → SessionStep s (prune_idle_sessions now s).0
    closed : (s : AppState V) → SessionStep s (stop_accepting_new_sessions s)
    swept :
        (now : ℕ) (reason : String) (s : AppState V)
        → SessionStep s (terminate_all_sessions now reason s).0

  pub data SessionRun (s : AppState V) : AppState V → Type 0 where
    here : SessionRun s s
    next : {t u : AppState V} → SessionRun s t → SessionStep t u → SessionRun s u

  SessionStep-Balanced : {s t : AppState V} → SessionStep s t → Balanced s → Balanced t
  unfolding stop_accepting_new_sessions
  SessionStep-Balanced (opened now id s fresh room) b = open_session-Balanced now id s fresh room b
  SessionStep-Balanced (touched now id s) b = touch_session-Balanced now id s b
  SessionStep-Balanced (ended now id reason s) b = terminate_session-Balanced now id reason s b
  SessionStep-Balanced (pruned now s) b = prune_idle_sessions-Balanced now s b
  SessionStep-Balanced (closed s) b = record {
    distinct = b.distinct;
    balance = b.balance;
    fits = b.fits;
  }
  SessionStep-Balanced (swept now reason s) b = terminate_all_sessions-Balanced now reason s b

  -- In every run, however its steps are interleaved, each session that was opened is active or has
  -- been counted as terminated exactly once, and no id is active twice.
  pub SessionRun-Balanced : {s t : AppState V} → SessionRun s t → Balanced s → Balanced t
  SessionRun-Balanced here b = b
  SessionRun-Balanced (next run step) b = SessionStep-Balanced step (SessionRun-Balanced run b)
