-- ===== src/Downstream/Serve/Closing.antt =====
-- src/downstream.rs: the session of an `initialize`.
use mcpstead.Base.{
  ℕ, String, Bool, true, false, Option, none, some, ◌≡◌, ◌⊎◌, inl, inr, refl, arith, Option-cases,
  Bool-cases, eq_refl,
}
use mcpstead.Base.Dict.{string_key, get}
use mcpstead.Base.Dict.Laws.{get-remove}
use mcpstead.Json.{Json}
use mcpstead.State.App.{AppState}
use mcpstead.State.Sessions.{terminate_session}
use mcpstead.Upstream.Host.{World, Host}
use mcpstead.Upstream.Send.{mcp_session_id}
use mcpstead.Downstream.Auth.{Headers}
use mcpstead.Downstream.Response.{Response, downstream_response}
use mcpstead.Downstream.Serve.{respond, close_failed, initialize_response_succeeded}

terminate_session-gone :
    {V : Type 0} (now : ℕ) (id reason : String) (s : AppState V)
    → get id (terminate_session now id reason s).0.sessions ≡ none
unfolding terminate_session
terminate_session-gone now id reason s = elim (Option-cases (get id s.sessions)) [
  | inl gone ↦ rw (gone, terminate_session) gone
  | inr (session, found) ↦
      rw (found, terminate_session) ground (arith, get-remove id id s.sessions, eq_refl id)
]

-- the session that a response names
abbrev pub named_session : Response → Option String
named_session r = get mcp_session_id r.headers

module _ (j : Json) where
  downstream_response-session :
      (headers : Headers) (status : ℕ) (body : Option j.Value) (session_id : Option String)
      → named_session (downstream_response j headers status body session_id) ≡ session_id
  unfolding downstream_response get
  downstream_response-session headers status none none = refl
  downstream_response-session headers status none (some id) = refl
  downstream_response-session headers status (some v) none = refl
  downstream_response-session headers status (some v) (some id) = refl

  -- whether the response to a body has the success of an `initialize` in it
  abbrev pub succeeds : Option j.Value → Bool
  succeeds none = false
  succeeds (some response) = initialize_response_succeeded j response

  module _ (h : Host (j.Value)) where
    -- Of a post that was given a new session for its `initialize`: where the body's response succeeded,
    -- the world stays as it is and the response names the session; and where there is no response or it
    -- failed, the session is not held any more and the response names none.
    pub respond-session :
        (headers : Headers) (id : String) (body : Option j.Value) (w : World j.Value)
        → ((succeeds body ≡ true)
            × ((respond j h headers (some id) (body, w)).1 ≡ w)
            × (named_session (respond j h headers (some id) (body, w)).0 ≡ some id))
          ⊎ ((succeeds body ≡ false)
              × (get id (respond j h headers (some id) (body, w)).1.app.sessions ≡ none)
              × (named_session (respond j h headers (some id) (body, w)).0 ≡ none))
    unfolding respond close_failed
    respond-session headers id none w = inr (
      refl,
      terminate_session-gone w.now id "init_failed" w.app,
      downstream_response-session headers 202 none none,
    )
    respond-session headers id (some v) w = elim (Bool-cases (initialize_response_succeeded j v)) [
      | inl e ↦
          rw (e, respond)
            (inl (refl, refl, downstream_response-session headers 200 (some v) (some id)))
      | inr e ↦
          rw (e, respond)
            (inr (
              refl,
              terminate_session-gone w.now id "init_failed" w.app,
              downstream_response-session headers 200 (some v) none,
            ))
    ]
