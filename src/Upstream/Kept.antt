-- ===== src/Upstream/Kept.antt =====
-- src/state.rs and src/upstream.rs: properties of the state that the operations on sessions, entries
-- and metrics keep, as an interface. What a task does keeps each of them.
pub mod Books
pub mod Ignored
use mcpstead.Base.{ℕ, ◌<◌, ◌≡◌, refl, String, Option, none, Result, ok, err, u64_max}
use mcpstead.Base.Dict.{string_key, get}
use mcpstead.State.App.{AppState, ManagedServer}
use mcpstead.State.Metrics.{Metrics}
use mcpstead.State.Sessions.{
  touch_session, open_session, terminate_session, prune_idle_sessions, terminate_all_sessions,
  stop_accepting_new_sessions,
}
use mcpstead.Upstream.Classify.{UpstreamError}
use mcpstead.Upstream.Host.{World, Host, HttpRequest, HttpResponse, Act, proceed}
use mcpstead.Upstream.Registry.{
  change_server, replace_server_session_id, set_server_connected, set_server_disconnected,
  upstream_session_reset_lock,
}

-- what the metrics count of the sessions is the same
abbrev pub SameCounts : Metrics → Metrics → Type 0
SameCounts m n =
    (n.downstream_session_terminations ≡ m.downstream_session_terminations)
    × (n.downstream_sessions_total ≡ m.downstream_sessions_total)

module _ {V : Type 0} where
  -- no session has the id, and the counter of sessions has room
  abbrev pub IsFree : String → AppState V → Type 0
  IsFree id s = (get id s.sessions ≡ none) × (s.metrics.downstream_sessions_total < u64_max)

  -- a change of an entry that leaves its configuration
  abbrev pub SameConfig : (ManagedServer V → ManagedServer V) → Type 0
  SameConfig f = (entry : ManagedServer V) → (f entry).config ≡ entry.config

  pub record IsKept (P : AppState V → Type 0) : Type 0 where
    pub metrics :
        (f : Metrics → Metrics) (s : AppState V)
        → SameCounts s.metrics (f s.metrics)
        → P s
        → P (record s { metrics = f s.metrics })
    pub server :
        (name : String) (f : ManagedServer V → ManagedServer V) (s : AppState V)
        → SameConfig f
        → P s
        → P (change_server name f s)
    pub reset_lock :
        (name : String) (s : AppState V) → P s → P (upstream_session_reset_lock name s).1
    pub touched : (now : ℕ) (id : String) (s : AppState V) → P s → P (touch_session now id s).0
    pub opened :
        (now : ℕ) (id : String) (s : AppState V) → IsFree id s → P s → P (open_session now id s)
    pub ended :
        (now : ℕ) (id reason : String) (s : AppState V)
        → P s
        → P (terminate_session now id reason s).0
    pub pruned : (now : ℕ) (s : AppState V) → P s → P (prune_idle_sessions now s).0
    pub closed : (s : AppState V) → P s → P (stop_accepting_new_sessions s)
    pub swept :
        (now : ℕ) (reason : String) (s : AppState V)
        → P s
        → P (terminate_all_sessions now reason s).0

  module _ (P : AppState V → Type 0) where
    -- the property holds of the world behind an action
    abbrev pub Behind : {A : Type 0} → A × World V → Type 0
    Behind r = P r.1.app

    -- what other tasks do while a request is under way, a lock is awaited or the task sleeps
    pub record Keeps (h : Host V) : Type 0 where
      pub send : (r : HttpRequest) (w : World V) → P w.app → Behind (h.send r w)
      pub wait_lock : (lock : ℕ) (w : World V) → P w.app → P (h.wait_lock lock w).app
      pub sleep : (length : ℕ) (w : World V) → P w.app → P (h.sleep length w).app

    pub proceed-Behind :
        {A B : Type 0} (r : Result UpstreamError A) (f : A → Act V B) (w : World V)
        → P w.app
        → ((a : A) (v : World V) → P v.app → Behind (f a v))
        → Behind (proceed r f w)
    proceed-Behind (ok a) f w b k = k a w b
    proceed-Behind (err e) f w b k = b

    module _ (kept : IsKept P) where
      pub session_kept :
          (now : ℕ) (name : String) (session : Option String) (s : AppState V)
          → P s
          → P (replace_server_session_id now name session s)
      unfolding replace_server_session_id
      session_kept now name session s b = kept.server name _ s (λ entry. refl) b
