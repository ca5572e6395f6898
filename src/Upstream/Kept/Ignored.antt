-- ===== src/Upstream/Kept/Ignored.antt =====
-- src/state.rs and src/upstream.rs: properties that neither the sessions nor the metrics have a part
-- in are kept by the operations.
use mcpstead.Base.{ℕ, String, Bool, List, Option-cases, inl, inr}
use mcpstead.Base.Dict.{string_key, get}
use mcpstead.State.App.{AppState, ManagedServer}
use mcpstead.State.Metrics.{Metrics}
use mcpstead.State.Sessions.{
  Sessions, touch_session, open_session, terminate_session, prune_idle_sessions,
  terminate_all_sessions, stop_accepting_new_sessions,
}
use mcpstead.Upstream.Kept.{IsKept, SameConfig}
use mcpstead.Upstream.Registry.{change_server, upstream_session_reset_lock}

module _ {V : Type 0} where
  pub record IgnoresSessions (P : AppState V → Type 0) : Type 0 where
    pub sessions :
        (sessions : Sessions) (metrics : Metrics) (s : AppState V)
        → P s
        → P (record s { sessions = sessions; metrics = metrics })
    pub accepting :
        (open_still : Bool) (s : AppState V)
        → P s
        → P (record s { accepting_new_sessions = open_still })
    pub locks :
        (locks : List (String × ℕ)) (made : ℕ) (s : AppState V)
        → P s
        → P (record s { upstream_session_reset_locks = locks; locks_made = made })
    pub server :
        (name : String) (f : ManagedServer V → ManagedServer V) (s : AppState V)
        → SameConfig f
        → P s
        → P (change_server name f s)

  module _ (P : AppState V → Type 0) (ignores : IgnoresSessions P) where
    lock_kept : (name : String) (s : AppState V) → P s → P (upstream_session_reset_lock name s).1
    unfolding upstream_session_reset_lock
    lock_kept name s b = elim (Option-cases (get name s.upstream_session_reset_locks)) [
      | inl e ↦ rw (e, upstream_session_reset_lock) (ignores.locks _ _ s b)
      | inr (lock, e) ↦ rw (e, upstream_session_reset_lock) b
    ]

    touch_kept : (now : ℕ) (id : String) (s : AppState V) → P s → P (touch_session now id s).0
    unfolding touch_session
    touch_kept now id s b = elim (Option-cases (get id s.sessions)) [
      | inl e ↦ rw (e, touch_session) b
      | inr (session, e) ↦ rw (e, touch_session) (ignores.sessions _ s.metrics s b)
    ]

    end_kept :
        (now : ℕ) (id reason : String) (s : AppState V)
        → P s
        → P (terminate_session now id reason s).0
    unfolding terminate_session
    end_kept now id reason s b = elim (Option-cases (get id s.sessions)) [
      | inl e ↦ rw (e, terminate_session) b
      | inr (session, e) ↦ rw (e, terminate_session) (ignores.sessions _ _ s b)
    ]

    pub IgnoresSessions-IsKept : IsKept P
    unfolding open_session prune_idle_sessions stop_accepting_new_sessions terminate_all_sessions
    IgnoresSessions-IsKept = record {
      metrics = λ f s e b. ignores.sessions s.sessions (f s.metrics) s b;
      server = ignores.server;
      reset_lock = lock_kept;
      touched = touch_kept;
      opened = λ now id s f b. ignores.sessions _ _ s b;
      ended = end_kept;
      pruned = λ now s b. ignores.sessions _ _ s b;
      closed = λ s b. ignores.accepting _ s b;
      swept = λ now reason s b. ignores.sessions _ _ s b;
    }
