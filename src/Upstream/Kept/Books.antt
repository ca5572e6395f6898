-- ===== src/Upstream/Kept/Books.antt =====
-- src/state.rs and src/upstream.rs: the books of the sessions are a property that the operations keep.
use mcpstead.Base.{String, Option-cases, inl, inr}
use mcpstead.Base.Dict.{string_key, get}
use mcpstead.State.App.{AppState}
use mcpstead.State.Sessions.{stop_accepting_new_sessions}
use mcpstead.State.Sessions.Accounting.{
  Balanced, touch_session-Balanced, open_session-Balanced, terminate_session-Balanced,
  prune_idle_sessions-Balanced, terminate_all_sessions-Balanced,
}
use mcpstead.Upstream.Kept.{IsKept}
use mcpstead.Upstream.Registry.{upstream_session_reset_lock}

module _ {V : Type 0} where
  reset_lock-Balanced :
      (name : String) (s : AppState V)
      → Balanced s
      → Balanced (upstream_session_reset_lock name s).1
  unfolding upstream_session_reset_lock
  reset_lock-Balanced name s b = elim (Option-cases (get name s.upstream_session_reset_locks)) [
    | inl e ↦
        rw (e, upstream_session_reset_lock)
          (record { distinct = b.distinct; balance = b.balance; fits = b.fits })
    | inr (lock, e) ↦ rw (e, upstream_session_reset_lock) b
  ]

  closed-Balanced : (s : AppState V) → Balanced s → Balanced (stop_accepting_new_sessions s)
  unfolding stop_accepting_new_sessions
  closed-Balanced s b = record { distinct = b.distinct; balance = b.balance; fits = b.fits }

pub Balanced-IsKept : (V : Type 0) → IsKept {V = V} Balanced
Balanced-IsKept V = record {
  metrics = λ f s e b. record {
    distinct = b.distinct;
    balance = rw e.0 (rw e.1 b.balance);
    fits = rw e.1 b.fits;
  };
  server = λ name f s e b. record { distinct = b.distinct; balance = b.balance; fits = b.fits };
  reset_lock = reset_lock-Balanced;
  touched = touch_session-Balanced;
  opened = λ now id s f b. open_session-Balanced now id s f.0 f.1 b;
  ended = terminate_session-Balanced;
  pruned = prune_idle_sessions-Balanced;
  closed = closed-Balanced;
  swept = terminate_all_sessions-Balanced;
}
