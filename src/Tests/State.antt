-- ===== src/Tests/State.antt =====
-- The theorems on sessions and histograms at small inputs.
use mcpstead.Base.{◌+◌, ◌≡◌, refl, String, none, [], ◌∷◌, arith, length}
use mcpstead.Base.Dict.{string_key, get, insert}
use mcpstead.Json.Sample.{Val}
use mcpstead.State.App.{AppState}
use mcpstead.State.Histogram.{observe, duration_buckets, seconds, default_histogram}
use mcpstead.State.Histogram.Cumulative.{
  IsCumulative, observe-IsCumulative, observe-IsCumulative_first, duration_buckets-Ascending,
}
use mcpstead.State.Histogram.Tally.{observe_all, tally, observe_all-eq-tally}
use mcpstead.State.Sessions.{open_session, terminate_session, prune_idle_sessions}
use mcpstead.State.Sessions.Accounting.{Balanced}
use mcpstead.State.Sessions.Idle.{kept, prune_idle_sessions-exact}
use mcpstead.State.Sessions.Reach.{SessionRun, here, next, opened, ended, SessionRun-Balanced}
use mcpstead.Tests.Data.{old_config, state_of}

abbrev first_state : AppState Val
first_state = state_of old_config none

unfoldable one_session : AppState Val
unfolding open_session
one_session = open_session 60 "a" first_state

first_state-Balanced : Balanced first_state
unfolding state_of
first_state-Balanced = record { distinct = tt; balance = refl; fits = omega arith }

visit : SessionRun first_state (terminate_session 70 "a" "client_delete" one_session).0
unfolding one_session state_of open_session get
visit =
    next (next here (opened 60 "a" first_state refl (omega arith)))
      (ended 70 "a" "client_delete" one_session)

SessionRun-Balanced_example : Balanced (terminate_session 70 "a" "client_delete" one_session).0
SessionRun-Balanced_example = SessionRun-Balanced visit first_state-Balanced

prune_idle_sessions-exact_example :
    ((id : String)
      → get id (prune_idle_sessions (seconds 4000) one_session).0.sessions
        ≡ kept (seconds 4000) one_session.session_idle_ttl (get id one_session.sessions))
    × (length (prune_idle_sessions (seconds 4000) one_session).0.sessions
          + (prune_idle_sessions (seconds 4000) one_session).1
        ≡ length one_session.sessions)
unfolding one_session state_of open_session insert get
prune_idle_sessions-exact_example = prune_idle_sessions-exact (seconds 4000) one_session (refl, tt)

observe_all-eq-tally_example :
    observe_all duration_buckets (seconds 2 ∷ seconds 40 ∷ [])
    ≡ tally duration_buckets (seconds 2 ∷ seconds 40 ∷ [])
observe_all-eq-tally_example =
    observe_all-eq-tally duration_buckets (seconds 2) (seconds 40 ∷ []) (omega arith)

observe-IsCumulative_example :
    IsCumulative duration_buckets (
      observe
        (seconds 2)
        duration_buckets
        (observe (seconds 40) duration_buckets default_histogram))
observe-IsCumulative_example =
    observe-IsCumulative (seconds 2) duration_buckets
      (observe (seconds 40) duration_buckets default_histogram) duration_buckets-Ascending
      (observe-IsCumulative_first (seconds 40) duration_buckets duration_buckets-Ascending)
