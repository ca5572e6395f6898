-- ===== src/Upstream/Manager/Kept.antt =====
-- src/upstream.rs: a managing task keeps each property that the operations keep.
use mcpstead.Base.{
  ℕ, ◌-◌, refl, String, Option, none, some, Result, ok, err, List, ltb, Option-cases, Bool-cases,
  inl, inr,
}
use mcpstead.Base.Eq.{string_eq, option_eq}
use mcpstead.Base.Dict.{string_key}
use mcpstead.Config.{ServerConfig}
use mcpstead.Json.{Json}
use mcpstead.State.Metrics.{
  record_upstream_tools_refresh, record_upstream_reconnect_attempt, record_upstream_health_check,
  set_upstream_backoff, record_upstream_backoff_complete,
}
use mcpstead.Upstream.Classify.{UpstreamError, bind_option}
use mcpstead.State.App.{AppState}
use mcpstead.Upstream.Kept.{IsKept, Behind, Keeps, proceed-Behind}
use mcpstead.Upstream.Host.{World, Host, update_metrics}
use mcpstead.Upstream.Registry.{
  connected_entry, disconnected_entry, set_server_connected, set_server_disconnected,
  get_server_config,
}
use mcpstead.State.Histogram.{seconds, millis}
use mcpstead.Upstream.Request.{Reply, load_tools, initialize_and_load_tools}
use mcpstead.Upstream.Request.Kept.{upstream_request-Behind}
use mcpstead.Upstream.Session.{tools_of, initialize_upstream_session}
use mcpstead.Upstream.Session.Kept.{initialize_upstream_session-Behind}
use mcpstead.Upstream.Manager.{
  add_failure, Manager, Pause, until_refresh, backoff, Attempt, attempt, note_attempt, pause_for,
  round_with, manage_round,
}
use mcpstead.Upstream.Backoff.{backoff_delay}
use mcpstead.Base.{or_else}

module _ (j : Json) (h : Host (j.Value)) (P : AppState (j.Value) → Type 0) (kept : IsKept P)
    (keeps : Keeps P h) where
  tools_of-Behind :
      (config : ServerConfig) (session : Option String) (duration : ℕ)
      (reply : Option String × j.Value) (w : World j.Value)
      → P w.app
      → Behind P (tools_of j h config session duration reply w)
  unfolding tools_of record_upstream_tools_refresh
  tools_of-Behind config session duration (next, result) w b =
      elim (Option-cases (bind_option (j.field "tools" result) j.as_array)) [
        | inl e ↦
            rw (e, tools_of)
              (kept.metrics
                (record_upstream_tools_refresh (h.unix_time w.now) config.name "error" duration)
                w.app (refl, refl) b)
        | inr (tools, e) ↦
            rw (e, tools_of)
              (kept.metrics
                (record_upstream_tools_refresh (h.unix_time w.now) config.name "success" duration)
                w.app (refl, refl) b)
      ]

  -- the end of `load_tools`, by what the request gave
  loaded :
      (config : ServerConfig) (session : Option String) (started : ℕ)
      (r : Reply j h × World j.Value)
      → Behind P r
      → Behind P {A = Result UpstreamError (Option String × List j.Value)} (elim r.0 [
        | ok reply ↦ tools_of j h config session (r.1.now - started) reply r.1
        | err e ↦ (
          err e,
          update_metrics
              (record_upstream_tools_refresh
                (h.unix_time r.1.now)
                config.name
                "error"
                (r.1.now - started))
              r.1,
        )
      ])
  unfolding record_upstream_tools_refresh
  loaded config session started (ok reply, w) b =
      tools_of-Behind config session (w.now - started) reply w b
  loaded config session started (err e, w) b =
      kept.metrics
        (record_upstream_tools_refresh (h.unix_time w.now) config.name "error" (w.now - started))
        w.app (refl, refl) b

  load_tools-Behind :
      (config : ServerConfig) (session : Option String) (w : World j.Value)
      → P w.app
      → Behind P (load_tools j h config session w)
  unfolding load_tools record_upstream_tools_refresh
  load_tools-Behind config session w b =
      loaded config session w.now _
        (upstream_request-Behind j h P kept keeps config session _ "tools/list" _ w b)

  initialize_and_load_tools-Behind :
      (config : ServerConfig) (w : World j.Value)
      → P w.app
      → Behind P (initialize_and_load_tools j h config w)
  unfolding initialize_and_load_tools
  initialize_and_load_tools-Behind config w b =
      let opened = initialize_upstream_session j h config w in
      proceed-Behind P opened.0 (load_tools j h config) opened.1
        (initialize_upstream_session-Behind j h P kept keeps config w b) (load_tools-Behind config)

  attempt-Behind :
      (config : ServerConfig) (session : Option String) (w : World j.Value)
      → P w.app
      → Behind P (attempt j h config session w)
  unfolding attempt
  attempt-Behind config none w b = initialize_and_load_tools-Behind config w b
  attempt-Behind config (some session) w b = load_tools-Behind config (some session) w b

  note_attempt_kept :
      (name : String) (config : ServerConfig) (m : Manager) (a : Attempt j h)
      → Behind P a
      → P (note_attempt j h name config m a).2.app
  unfolding note_attempt record_upstream_reconnect_attempt record_upstream_health_check
      set_upstream_backoff set_server_connected set_server_disconnected
  note_attempt_kept name config m (ok (next, tools), w) b =
      let connect = connected_entry w.now (or_else next m.session_id) tools in
      let retried = record_upstream_reconnect_attempt name "success" in
      let checked = record_upstream_health_check name "success" in
      elim (Bool-cases (ltb 0 m.failures)) [
        | inl e ↦
            let w1 = update_metrics retried w in
            rw (e, note_attempt)
              (kept.server name connect _ (λ entry. refl)
                (kept.metrics checked w1.app (refl, refl)
                  (kept.metrics retried w.app (refl, refl) b)))
        | inr e ↦
            rw (e, note_attempt)
              (kept.server name connect _ (λ entry. refl)
                (kept.metrics checked w.app (refl, refl) b))
      ]
  note_attempt_kept name config m (err e, w) b =
      let retried = record_upstream_reconnect_attempt name "error" in
      let checked = record_upstream_health_check name "failure" in
      let w1 = update_metrics retried w in
      let delay = backoff_delay config.reconnect (add_failure m.failures) in
      kept.metrics (set_upstream_backoff name (millis delay)) _ (refl, refl)
        (kept.server name (disconnected_entry e.message) _ (λ entry. refl)
          (kept.metrics checked w1.app (refl, refl) (kept.metrics retried w.app (refl, refl) b)))

  pause_for_kept :
      (name : String) (pause : Pause) (w : World j.Value)
      → P w.app
      → P (pause_for j h name pause w).app
  unfolding pause_for record_upstream_backoff_complete
  pause_for_kept name (until_refresh length) w b = keeps.sleep (seconds length) w b
  pause_for_kept name (backoff delay) w b =
      let slept = h.sleep (millis delay) w in
      kept.metrics (record_upstream_backoff_complete name (millis delay)) slept.app (refl, refl)
        (keeps.sleep (millis delay) w b)

  -- what is left of a round, if the task goes on
  abbrev pub Goes : Option (Manager × World j.Value) → Type 0
  Goes none = Unit
  Goes (some (m, w)) = P w.app

  round_with_kept :
      (name : String) (found : Option ServerConfig) (m : Manager) (w : World j.Value)
      → P w.app
      → Goes (round_with j h name found m w)
  unfolding round_with
  round_with_kept name none m w b = tt
  round_with_kept name (some config) m w b =
      let noted = note_attempt j h name config m (attempt j h config m.session_id w) in
      pause_for_kept name noted.1 noted.2
        (note_attempt_kept name config m _ (attempt-Behind config m.session_id w b))

  -- A round of a managing task keeps the property.
  pub manage_round_kept :
      (name : String) (m : Manager) (w : World j.Value) → P w.app → Goes (manage_round j h name m w)
  unfolding manage_round
  manage_round_kept name m w = round_with_kept name (get_server_config name w.app) m w
