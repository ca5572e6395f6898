-- ===== src/Gateway/Tasks/Eviction.antt =====
-- src/main.rs: the task that ends idle sessions comes to each of them.
use mcpstead.Base.{
  ℕ, zero, suc, ◌+◌, ◌*◌, ◌≤◌, ◌<◌, ◌≡◌, ◌⊎◌, inl, inr, refl, ◌∙◌, ap, sym, String, Option, none,
  some, arith, replicate,
}
use mcpstead.Base.Dict.{string_key, get, IsDistinct}
use mcpstead.State.App.{DownstreamSession}
use mcpstead.State.Sessions.{prune_idle_sessions}
use mcpstead.State.Sessions.Idle.{kept, prune_idle_sessions-exact, prune_idle_sessions-IsDistinct}
use mcpstead.Upstream.Host.{World, Host}
use mcpstead.Gateway.Tasks.{slept, gc_round, session_gc_task}

kept_cases :
    (now ttl : ℕ) (c : DownstreamSession) (entry : Option DownstreamSession)
    → (entry ≡ none) ⊎ (entry ≡ some c)
    → (kept now ttl entry ≡ none) ⊎ ((kept now ttl entry ≡ some c) × (now ≤ c.last_activity + ttl))
kept_cases now ttl c none h = inl refl
kept_cases now ttl c (some session) h = ground (arith, h)

module _ {V : Type 0} where
  abbrev pub session_at : String → World V → Option DownstreamSession
  session_at id w = get id w.app.sessions

  -- While the task sleeps, the clock moves on by the length of the sleep at least, and the other tasks
  -- leave the settings as they are, hold each session once, and may end the session but neither touch
  -- nor open it.
  pub record LeavesAlone (h : Host V) (id : String) : Type 0 where
    pub clock : (d : ℕ) (w : World V) → w.now + d ≤ (h.sleep d w).now
    pub interval :
        (d : ℕ) (w : World V) → (h.sleep d w).app.session_gc_interval ≡ w.app.session_gc_interval
    pub ttl : (d : ℕ) (w : World V) → (h.sleep d w).app.session_idle_ttl ≡ w.app.session_idle_ttl
    pub distinct :
        (d : ℕ) (w : World V) → IsDistinct w.app.sessions → IsDistinct (h.sleep d w).app.sessions
    pub untouched :
        (d : ℕ) (w : World V)
        → (session_at id (h.sleep d w) ≡ none) ⊎ (session_at id (h.sleep d w) ≡ session_at id w)

  -- what one round makes of a session that is left alone
  abbrev AfterRound : String → DownstreamSession → World V → World V → Type 0
  AfterRound id c w w' =
      (session_at id w' ≡ none)
      ⊎ ((session_at id w' ≡ some c) × (w'.now ≤ c.last_activity + w.app.session_idle_ttl))

  module _ (h : Host V) (id : String) (q : LeavesAlone h id) where
    round_settings :
        (w : World V)
        → ((gc_round h w).app.session_gc_interval ≡ w.app.session_gc_interval)
          × ((gc_round h w).app.session_idle_ttl ≡ w.app.session_idle_ttl)
    unfolding gc_round prune_idle_sessions
    round_settings w = let d = w.app.session_gc_interval in (q.interval d w, q.ttl d w)

    round_clock : (w : World V) → w.now + w.app.session_gc_interval ≤ (gc_round h w).now
    unfolding gc_round
    round_clock w = q.clock w.app.session_gc_interval w

    round-IsDistinct :
        (w : World V) → IsDistinct w.app.sessions → IsDistinct (gc_round h w).app.sessions
    unfolding gc_round
    round-IsDistinct w d =
        let woken = h.sleep w.app.session_gc_interval w in
        prune_idle_sessions-IsDistinct woken.now woken.app
          (q.distinct w.app.session_gc_interval w d)

    round_session :
        (w : World V) (c : DownstreamSession)
        → IsDistinct w.app.sessions
        → (session_at id w ≡ none) ⊎ (session_at id w ≡ some c)
        → AfterRound id c w (gc_round h w)
    unfolding gc_round
    round_session w c d e =
        let d' = w.app.session_gc_interval in
        let woken = h.sleep d' w in
        let ttl = q.ttl d' w in
        let before : (session_at id woken ≡ none) ⊎ (session_at id woken ≡ some c) =
          ground (arith, q.untouched d' w, e) in
        let pruned = (prune_idle_sessions-exact woken.now woken.app (q.distinct d' w d)).0 id in
        rw (pruned, ttl)
          (kept_cases woken.now w.app.session_idle_ttl c (session_at id woken) before)

    round_gone :
        (w : World V)
        → IsDistinct w.app.sessions
        → session_at id w ≡ none
        → session_at id (gc_round h w) ≡ none
    unfolding gc_round
    round_gone w d e =
        let d' = w.app.session_gc_interval in
        let woken = h.sleep d' w in
        let before : session_at id woken ≡ none = elim (q.untouched d' w) [
          | inl gone ↦ gone
          | inr same ↦ same ∙ e
        ] in
        (prune_idle_sessions-exact woken.now woken.app (q.distinct d' w d)).0 id
        ∙ ap (kept woken.now woken.app.session_idle_ttl) before

    stays_gone :
        (n : ℕ) (w : World V)
        → IsDistinct w.app.sessions
        → session_at id w ≡ none
        → session_at id (session_gc_task h (replicate n slept) w) ≡ none
    unfolding session_gc_task
    stays_gone zero w d e = e
    stays_gone (suc n) w d e = stays_gone n (gc_round h w) (round-IsDistinct w d) (round_gone w d e)

    -- a session that is still held was not yet idle, so that its time comes
    comes_to :
        (n : ℕ) (w w' : World V) (c : DownstreamSession)
        → IsDistinct w'.app.sessions
        → w'.app.session_gc_interval ≡ w.app.session_gc_interval
        → w'.app.session_idle_ttl ≡ w.app.session_idle_ttl
        → AfterRound id c w w'
        → c.last_activity + w.app.session_idle_ttl < w'.now + n * w.app.session_gc_interval
        → session_at id (session_gc_task h (replicate n slept) w') ≡ none
    unfolding session_gc_task
    comes_to zero w w' c d i t r late = elim r [
      | inl gone ↦ gone
      | inr (held, early) ↦ absurd (omega (arith, early, late))
    ]
    comes_to (suc n) w w' c d i t r late = elim r [
      | inl gone ↦ stays_gone (suc n) w' d gone
      | inr (held, early) ↦
          let next = gc_round h w' in
          let settings = round_settings w' in
          comes_to n w next c (round-IsDistinct w' d) (settings.0 ∙ i) (settings.1 ∙ t)
            (rw (sym t) (round_session w' c d (inr held))) (ground (arith, round_clock w', i, late))
    ]

    -- A session that is left alone is ended by the task, in at most as many rounds as their intervals
    -- take to go past its idle time: it needs one round at least, a map that holds each session once,
    -- and tasks that neither touch nor open the session while the task sleeps.
    pub session_gc_task-evicts :
        (n : ℕ) (w : World V) (c : DownstreamSession)
        → IsDistinct w.app.sessions
        → session_at id w ≡ some c
        → c.last_activity + w.app.session_idle_ttl < w.now + suc n * w.app.session_gc_interval
        → session_at id (session_gc_task h (replicate (suc n) slept) w) ≡ none
    unfolding session_gc_task
    session_gc_task-evicts n w c d e late =
        let settings = round_settings w in
        comes_to n w (gc_round h w) c (round-IsDistinct w d) settings.0 settings.1
          (round_session w c d (inr e)) (ground (arith, round_clock w, late))
