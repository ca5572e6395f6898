-- ===== src/State/Sessions.antt =====
-- src/state.rs: the downstream sessions. Each function gets the instant that it reads from the clock.
pub mod Accounting
pub mod Idle
pub mod Reach
use mcpstead.Base.{
  ℕ, ◌+◌, ◌-◌, String, Bool, true, false, Option, none, some, List, [], ◌∷◌, if◌then◌else◌, ltb,
  length,
}
use mcpstead.Base.Dict.{string_key, get, insert, remove, adjust}
use mcpstead.State.Metrics.{Metrics, record_session_termination, record_session_opened}
use mcpstead.State.App.{AppState, DownstreamSession}

abbrev pub Sessions : Type 0
Sessions = List (String × DownstreamSession)

module _ {V : Type 0} where
  -- `accepting_new_sessions` and `stop_accepting_new_sessions`
  unfoldable pub accepting_new_sessions : AppState V → Bool
  accepting_new_sessions s = s.accepting_new_sessions

  unfoldable pub stop_accepting_new_sessions : AppState V → AppState V
  stop_accepting_new_sessions s = record s { accepting_new_sessions = false }

  -- `touch_session`
  unfoldable pub touch_session : ℕ → String → AppState V → AppState V × Bool
  touch_session now id s = elim (get id s.sessions) [
    | none ↦ (s, false)
    | some _ ↦
        (record s { sessions = adjust id (λ c. record c { last_activity = now }) s.sessions }, true)
  ]

  -- the insertion of a new session in `post_mcp`, and its record
  unfoldable pub open_session : ℕ → String → AppState V → AppState V
  open_session now id s = record s {
    sessions = insert id (record { created_at = now; last_activity = now }) s.sessions;
    metrics = record_session_opened s.metrics;
  }

  -- `terminate_session`
  unfoldable pub terminate_session : ℕ → String → String → AppState V → AppState V × Bool
  terminate_session now id reason s = elim (get id s.sessions) [
    | none ↦ (s, false)
    | some session ↦ (
      record s {
        sessions = remove id s.sessions;
        metrics = record_session_termination reason (now - session.created_at) s.metrics;
      },
      true,
    )
  ]

-- the filter of `prune_idle_sessions`
abbrev pub is_idle : ℕ → ℕ → DownstreamSession → Bool
is_idle now ttl session = ltb ttl (now - session.last_activity)

unfoldable pub idle_ids : ℕ → ℕ → Sessions → List String
idle_ids now ttl [] = []
idle_ids now ttl ((id, session) ∷ m) =
    let rest = idle_ids now ttl m in if is_idle now ttl session then id ∷ rest else rest

-- the loop of `prune_idle_sessions`
unfoldable pub prune_ids : ℕ → List String → Sessions × Metrics × ℕ → Sessions × Metrics × ℕ
prune_ids now [] (sessions, metrics, count) = (sessions, metrics, count)
prune_ids now (id ∷ ids) (sessions, metrics, count) = elim (get id sessions) [
  | none ↦ prune_ids now ids (sessions, metrics, count)
  | some session ↦ prune_ids now ids (
    remove id sessions,
    record_session_termination "idle_timeout" (now - session.created_at) metrics,
    count + 1,
  )
]

-- the loop of `terminate_all_sessions`
unfoldable pub record_all : ℕ → String → Sessions → Metrics → Metrics
record_all now reason [] metrics = metrics
record_all now reason ((id, session) ∷ m) metrics =
    record_all now reason m (record_session_termination reason (now - session.created_at) metrics)

module _ {V : Type 0} where
  -- `prune_idle_sessions`; with no idle session the loop has no round
  unfoldable pub prune_idle_sessions : ℕ → AppState V → AppState V × ℕ
  prune_idle_sessions now s =
      let (sessions, metrics, count) =
        prune_ids now (idle_ids now s.session_idle_ttl s.sessions) (s.sessions, s.metrics, 0) in
      (record s { sessions = sessions; metrics = metrics }, count)

  -- `terminate_all_sessions`
  unfoldable pub terminate_all_sessions : ℕ → String → AppState V → AppState V × ℕ
  terminate_all_sessions now reason s = (
    record s { sessions = []; metrics = record_all now reason s.sessions s.metrics },
    length s.sessions,
  )
