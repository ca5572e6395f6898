-- ===== src/Gateway/Routes/Kept.antt =====
-- src/main.rs: a request on any route keeps each property that the operations keep.
use mcpstead.Base.{ℕ, String, Option, none, some, Result, ok, err}
use mcpstead.Json.{Json}
use mcpstead.State.App.{AppState}
use mcpstead.Upstream.Host.{World}
use mcpstead.Upstream.Kept.{IsFree, IsKept, Behind, Keeps}
use mcpstead.Downstream.Auth.{AuthDecision, allow, deny, authorize_mcp, record_auth_decision}
use mcpstead.Downstream.Serve.Posts.{post_mcp_kept}
use mcpstead.Downstream.Serve.Others.{record_auth_decision_kept, get_mcp-Behind, delete_mcp-Behind}
use mcpstead.Reload.{ReloadSummary, reload_config}
use mcpstead.Reload.Http.{answer, reload_decided, reload_http}
use mcpstead.Gateway.Routes.{
  Handler, post_mcp_handler, get_mcp_handler, delete_mcp_handler, reload_http_handler,
  health_handler, metrics_handler, Request, Outside, routes, handler_at, call, build_app,
}

-- a reload keeps the property, whatever the files hold
abbrev pub KeptByReload : {V : Type 0} → Outside V → (AppState V → Type 0) → Type 0
KeptByReload {V} o P =
    (read_to_string : String → Option String) (unix_now : ℕ) (s : AppState V)
    → P s
    → P (reload_config read_to_string o.from_str o.env unix_now s).1

module _ (j : Json) (o : Outside (j.Value)) (P : AppState (j.Value) → Type 0) (kept : IsKept P)
    (keeps : Keeps P o.host) (reloaded : KeptByReload o P) where
  answer_kept :
      (r : Result String ReloadSummary × AppState j.Value)
      → P r.1
      → P (answer o.ct_eq o.write_summary o.read_to_string o.from_str o.env r).1
  answer_kept (ok summary, s) b = b
  answer_kept (err message, s) b = b

  reload_decided_kept :
      (d : AuthDecision) (unix_now : ℕ) (s : AppState j.Value)
      → P s
      → P (reload_decided o.ct_eq o.write_summary o.read_to_string o.from_str o.env d unix_now s).1
  unfolding reload_decided
  reload_decided_kept (deny reason) unix_now s b = b
  reload_decided_kept allow unix_now s b =
      answer_kept (reload_config o.read_to_string o.from_str o.env unix_now s)
        (reloaded o.read_to_string unix_now s b)

  call-Behind :
      (handler : Option Handler) (request : Request) (w : World j.Value)
      → IsFree o.new_uuid w.app
      → P w.app
      → Behind P (call j o handler request w)
  unfolding call reload_http
  call-Behind none request w f b = b
  call-Behind (some post_mcp_handler) request w f b =
      post_mcp_kept j o.host P kept keeps o.ct_eq o.new_uuid o.parse_error request.headers
        request.body w f b
  call-Behind (some get_mcp_handler) request w f b =
      get_mcp-Behind j o.host P kept keeps o.ct_eq o.new_uuid o.parse_error request.headers w b
  call-Behind (some delete_mcp_handler) request w f b =
      delete_mcp-Behind j o.host P kept keeps o.ct_eq o.new_uuid o.parse_error request.headers w b
  call-Behind (some reload_http_handler) request w f b =
      let d = authorize_mcp o.ct_eq request.headers w.app.mcp_auth in
      reload_decided_kept d (o.host.unix_time w.now) (record_auth_decision d w.app)
        (record_auth_decision_kept j o.host P kept keeps o.ct_eq o.new_uuid o.parse_error d w.app b)
  call-Behind (some health_handler) request w f b = b
  call-Behind (some metrics_handler) request w f b = b

  pub build_app-Behind :
      (request : Request) (w : World j.Value)
      → IsFree o.new_uuid w.app
      → P w.app
      → Behind P (build_app j o request w)
  unfolding build_app
  build_app-Behind request =
      call-Behind (handler_at o.accepts request.method request.path routes) request
