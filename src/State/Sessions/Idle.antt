-- ===== src/State/Sessions/Idle.antt =====
-- src/state.rs: what `prune_idle_sessions` removes, and how much it counts.
use mcpstead.Base.{
  ℕ, ◌+◌, ◌-◌, ◌≡◌, refl, String, Bool, false, Option, none, some, List, [], ◌∷◌, arith, length,
  any, str_eq, eq_iff, Option-cases, inl, inr, if◌then◌else◌, ltb,
}
use mcpstead.Base.Dict.{string_key, get, remove, IsDistinct}
use mcpstead.Base.Dict.Laws.{get-remove, IsDistinct-remove, length-remove}
use mcpstead.State.Metrics.{Metrics, record_session_termination}
use mcpstead.State.App.{AppState, DownstreamSession}
use mcpstead.State.Sessions.{Sessions, is_idle, idle_ids, prune_ids, prune_idle_sessions}

abbrev listed : String → List String → Bool
listed j ids = any (λ id. str_eq id j) ids

get-prune_ids :
    (now : ℕ) (j : String) (ids : List String) (sessions : Sessions) (m : Metrics) (count : ℕ)
    → get j (prune_ids now ids (sessions, m, count)).0
      ≡ (if listed j ids then none else get j sessions)
unfolding prune_ids
get-prune_ids now j [] sessions m count = refl
get-prune_ids now j (id ∷ ids) sessions m count = elim (Option-cases (get id sessions)) [
  | inl gone ↦
      rw (gone, prune_ids)
        (ground (arith, get-prune_ids now j ids sessions m count, eq_iff id j, gone))
  | inr (session, found) ↦
      rw (found, prune_ids)
        (ground (
          arith,
          get-prune_ids now j ids (remove id sessions)
              (record_session_termination "idle_timeout" (now - session.created_at) m) (count + 1),
          get-remove id j sessions,
        ))
]

abbrev idle_at : ℕ → ℕ → Option DownstreamSession → Bool
idle_at now ttl none = false
idle_at now ttl (some session) = is_idle now ttl session

listed-idle_ids :
    (now ttl : ℕ) (j : String) (sessions : Sessions)
    → IsDistinct sessions
    → listed j (idle_ids now ttl sessions) ≡ idle_at now ttl (get j sessions)
unfolding get idle_ids
listed-idle_ids now ttl j [] d = refl
listed-idle_ids now ttl j ((id, session) ∷ rest) d =
    ground (arith, eq_iff id j, listed-idle_ids now ttl j rest d.1)

-- what the pruning leaves of an entry
abbrev pub kept : ℕ → ℕ → Option DownstreamSession → Option DownstreamSession
kept now ttl none = none
kept now ttl (some session) = if ltb ttl (now - session.last_activity) then none else some session

pruned_length :
    (now : ℕ) (ids : List String) (sessions : Sessions) (m : Metrics) (count : ℕ)
    → IsDistinct sessions
    → length (prune_ids now ids (sessions, m, count)).0 + (prune_ids now ids (sessions, m, count)).2
      ≡ length sessions + count
unfolding prune_ids
pruned_length now [] sessions m count d = refl
pruned_length now (id ∷ ids) sessions m count d = elim (Option-cases (get id sessions)) [
  | inl gone ↦ rw (gone, prune_ids) (pruned_length now ids sessions m count d)
  | inr (session, found) ↦
      rw (found, prune_ids)
        (omega (
          arith,
          pruned_length now ids (remove id sessions)
              (record_session_termination "idle_timeout" (now - session.created_at) m) (count + 1)
              (IsDistinct-remove id sessions d),
          length-remove id session sessions d found,
        ))
]

IsDistinct-prune_ids :
    (now : ℕ) (ids : List String) (sessions : Sessions) (m : Metrics) (count : ℕ)
    → IsDistinct sessions
    → IsDistinct (prune_ids now ids (sessions, m, count)).0
unfolding prune_ids
IsDistinct-prune_ids now [] sessions m count d = d
IsDistinct-prune_ids now (id ∷ ids) sessions m count d = elim (Option-cases (get id sessions)) [
  | inl gone ↦ rw (gone, prune_ids) (IsDistinct-prune_ids now ids sessions m count d)
  | inr (session, found) ↦
      rw (found, prune_ids)
        (IsDistinct-prune_ids now ids (remove id sessions)
          (record_session_termination "idle_timeout" (now - session.created_at) m) (count + 1)
          (IsDistinct-remove id sessions d))
]

module _ {V : Type 0} where
  pub prune_idle_sessions-IsDistinct :
      (now : ℕ) (s : AppState V)
      → IsDistinct s.sessions
      → IsDistinct (prune_idle_sessions now s).0.sessions
  unfolding prune_idle_sessions
  prune_idle_sessions-IsDistinct now s =
      IsDistinct-prune_ids now (idle_ids now s.session_idle_ttl s.sessions) s.sessions s.metrics 0

  -- Pruning removes exactly the sessions whose last activity lies more than the idle time back, and
  -- returns how many they were; every other session stays as it is.
  pub prune_idle_sessions-exact :
      (now : ℕ) (s : AppState V)
      → IsDistinct s.sessions
      → ((id : String)
          → get id (prune_idle_sessions now s).0.sessions
            ≡ kept now s.session_idle_ttl (get id s.sessions))
        × (length (prune_idle_sessions now s).0.sessions + (prune_idle_sessions now s).1
            ≡ length s.sessions)
  unfolding prune_idle_sessions
  prune_idle_sessions-exact now s d =
      let ids = idle_ids now s.session_idle_ttl s.sessions in
      (
        λ id. ground (
          arith,
          get-prune_ids now id ids s.sessions s.metrics 0,
          listed-idle_ids now s.session_idle_ttl id s.sessions d,
        ),
        omega (arith, pruned_length now ids s.sessions s.metrics 0 d),
      )
