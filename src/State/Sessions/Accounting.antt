-- ===== src/State/Sessions/Accounting.antt =====
-- src/state.rs: every session that was opened is active or was counted as terminated, once.
use mcpstead.Base.{
  ℕ, ◌+◌, ◌-◌, ◌≤◌, ◌<◌, ◌≡◌, refl, ◌∙◌, String, none, some, List, [], ◌∷◌, arith, length, u64_max,
  u64_mod, Option-cases, inl, inr,
}
use mcpstead.Base.Dict.{string_key, get, remove, IsDistinct}
use mcpstead.Base.Dict.Laws.{
  IsDistinct-insert, IsDistinct-remove, IsDistinct-adjust, length-insert_new, length-remove,
  length-adjust,
}
use mcpstead.Base.Dict.Sum.{sum_values}
use mcpstead.State.Metrics.{Metrics, record_session_opened, record_session_termination}
use mcpstead.State.Metrics.Counters.{sum_values-add_count}
use mcpstead.State.App.{AppState, DownstreamSession}
use mcpstead.State.Sessions.{
  Sessions, touch_session, open_session, terminate_session, prune_ids, prune_idle_sessions,
  record_all, terminate_all_sessions, idle_ids,
}

abbrev pub terminated : Metrics → ℕ
terminated m = sum_values m.downstream_session_terminations

-- the books of the sessions: each id is held once, and what was opened is active or terminated
pub record IsBalanced (sessions : Sessions) (m : Metrics) : Type 0 where
  pub distinct : IsDistinct sessions
  pub balance : length sessions + terminated m ≡ m.downstream_sessions_total
  pub fits : m.downstream_sessions_total ≤ u64_max

terminated-record_session_termination :
    (reason : String) (duration : ℕ) (m : Metrics)
    → terminated m + 1 < u64_mod
    → terminated (record_session_termination reason duration m) ≡ terminated m + 1
unfolding record_session_termination
terminated-record_session_termination reason duration m =
    sum_values-add_count reason 1 m.downstream_session_terminations

total-record_session_termination :
    (reason : String) (duration : ℕ) (m : Metrics)
    → (record_session_termination reason duration m).downstream_sessions_total
      ≡ m.downstream_sessions_total
unfolding record_session_termination
total-record_session_termination reason duration m = refl

remove-IsBalanced :
    (id reason : String) (duration : ℕ) (session : DownstreamSession) (sessions : Sessions)
    (m : Metrics)
    → get id sessions ≡ some session
    → IsBalanced sessions m
    → IsBalanced (remove id sessions) (record_session_termination reason duration m)
remove-IsBalanced id reason duration session sessions m found b =
    let shorter = length-remove id session sessions b.distinct found in
    let counted = terminated-record_session_termination reason duration m in
    let total = total-record_session_termination reason duration m in
    record {
      distinct = IsDistinct-remove id sessions b.distinct;
      balance =
          omega
            (arith, shorter, total, counted (omega (arith, shorter, b.balance, b.fits)), b.balance);
      fits = omega (arith, total, b.fits);
    }

prune_ids-IsBalanced :
    (now : ℕ) (ids : List String) (sessions : Sessions) (m : Metrics) (count : ℕ)
    → IsBalanced sessions m
    → IsBalanced
        (prune_ids now ids (sessions, m, count)).0
        (prune_ids now ids (sessions, m, count)).1
unfolding prune_ids
prune_ids-IsBalanced now [] sessions m count b = b
prune_ids-IsBalanced now (id ∷ ids) sessions m count b = elim (Option-cases (get id sessions)) [
  | inl gone ↦ rw (gone, prune_ids) (prune_ids-IsBalanced now ids sessions m count b)
  | inr (session, found) ↦
      rw (found, prune_ids)
        (prune_ids-IsBalanced now ids (remove id sessions) _ (count + 1)
          (remove-IsBalanced id "idle_timeout" _ session sessions m found b))
]

record_all-terminated :
    (now : ℕ) (reason : String) (sessions : Sessions) (m : Metrics)
    → length sessions + terminated m < u64_mod
    → (terminated (record_all now reason sessions m) ≡ length sessions + terminated m)
      × ((record_all now reason sessions m).downstream_sessions_total ≡ m.downstream_sessions_total)
unfolding record_all
record_all-terminated now reason [] m h = (omega arith, refl)
record_all-terminated now reason ((id, session) ∷ rest) m h =
    let duration = now - session.created_at in
    let m' = record_session_termination reason duration m in
    let counted = terminated-record_session_termination reason duration m (omega arith) in
    let total = total-record_session_termination reason duration m in
    let rest_counted = record_all-terminated now reason rest m' (omega (arith, counted)) in
    (omega (arith, rest_counted.0, counted), rest_counted.1 ∙ total)

module _ {V : Type 0} where
  abbrev pub Balanced : AppState V → Type 0
  Balanced s = IsBalanced s.sessions s.metrics

  pub touch_session-Balanced :
      (now : ℕ) (id : String) (s : AppState V) → Balanced s → Balanced (touch_session now id s).0
  unfolding touch_session
  touch_session-Balanced now id s b = elim (Option-cases (get id s.sessions)) [
    | inl gone ↦ rw (gone, touch_session) b
    | inr (session, found) ↦
        let move : DownstreamSession → DownstreamSession = λ c. record c { last_activity = now } in
        rw (found, touch_session)
          (record {
            distinct = IsDistinct-adjust id move s.sessions b.distinct;
            balance = omega (arith, length-adjust id move s.sessions, b.balance);
            fits = b.fits;
          })
  ]

  pub open_session-Balanced :
      (now : ℕ) (id : String) (s : AppState V)
      → get id s.sessions ≡ none
      → s.metrics.downstream_sessions_total < u64_max
      → Balanced s
      → Balanced (open_session now id s)
  unfolding open_session record_session_opened
  open_session-Balanced now id s fresh room b = record {
    distinct = IsDistinct-insert id _ s.sessions b.distinct;
    balance = omega (
      arith,
      length-insert_new id (record { created_at = now; last_activity = now }) s.sessions fresh,
      b.balance,
    );
    fits = omega arith;
  }

  pub terminate_session-Balanced :
      (now : ℕ) (id reason : String) (s : AppState V)
      → Balanced s
      → Balanced (terminate_session now id reason s).0
  unfolding terminate_session
  terminate_session-Balanced now id reason s b = elim (Option-cases (get id s.sessions)) [
    | inl gone ↦ rw (gone, terminate_session) b
    | inr (session, found) ↦
        rw (found, terminate_session)
          (remove-IsBalanced id reason _ session s.sessions s.metrics found b)
  ]

  pub prune_idle_sessions-Balanced :
      (now : ℕ) (s : AppState V) → Balanced s → Balanced (prune_idle_sessions now s).0
  unfolding prune_idle_sessions
  prune_idle_sessions-Balanced now s b =
      prune_ids-IsBalanced now (idle_ids now s.session_idle_ttl s.sessions) s.sessions s.metrics 0 b

  pub terminate_all_sessions-Balanced :
      (now : ℕ) (reason : String) (s : AppState V)
      → Balanced s
      → Balanced (terminate_all_sessions now reason s).0
  unfolding terminate_all_sessions
  terminate_all_sessions-Balanced now reason s b =
      let swept =
        record_all-terminated now reason s.sessions s.metrics (omega (arith, b.balance, b.fits)) in
      record {
        distinct = tt;
        balance = omega (arith, swept.0, swept.1, b.balance);
        fits = omega (arith, swept.1, b.fits);
      }
