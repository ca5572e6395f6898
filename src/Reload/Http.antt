-- ===== src/Reload/Http.antt =====
-- src/reload.rs: the handler of a reload over HTTP. How the summary is written as JSON is an argument.
use mcpstead.Base.{ℕ, String, Bool, Option, Result, ok, err, [], ◌∷◌}
use mcpstead.Config.{Config}
use mcpstead.State.App.{AppState}
use mcpstead.Downstream.Auth.{
  Headers, AuthDecision, allow, deny, authorize_mcp, record_auth_decision,
}
use mcpstead.Downstream.Response.{Response, unauthorized_response, text_response}
use mcpstead.Reload.{ReloadSummary, reload_config}

module _ (ct_eq : String → String → Bool) (write_summary : ReloadSummary → String)
    (read_to_string : String → Option String) (from_str : String → Option Config)
    (env : String → Option String) {V : Type 0} where
  abbrev pub answer : Result String ReloadSummary × AppState V → Response × AppState V
  answer (ok summary, s) = (
    record {
      status = 200;
      headers = ("content-type", "application/json") ∷ [];
      body = write_summary summary;
    },
    s,
  )
  answer (err message, s) = (text_response 400 message, s)

  -- `reload_http` behind the decision
  unfoldable pub reload_decided : AuthDecision → ℕ → AppState V → Response × AppState V
  unfolding reload_config
  reload_decided (deny _) unix_now s = (unauthorized_response, s)
  reload_decided allow unix_now s = answer (reload_config read_to_string from_str env unix_now s)

  -- `reload_http`
  unfoldable pub reload_http : Headers → ℕ → AppState V → Response × AppState V
  unfolding reload_decided authorize_mcp record_auth_decision
  reload_http headers unix_now s =
      let auth = authorize_mcp ct_eq headers s.mcp_auth in
      reload_decided auth unix_now (record_auth_decision auth s)
