-- ===== src/Gateway/Routes/Denied.antt =====
-- src/main.rs: what a client without the token can do, on all routes.
use mcpstead.Base.{ℕ, String, Option, none, some, ◌≡◌, refl}
use mcpstead.Json.{Json}
use mcpstead.Upstream.Host.{World}
use mcpstead.Downstream.Auth.{AuthDecision, allow, deny, authorize_mcp, record_auth_decision}
use mcpstead.Downstream.Serve.Denied.{SameButMetrics, denied_requests}
use mcpstead.Reload.Http.{reload_decided, reload_http}
use mcpstead.Gateway.Routes.{
  Handler, post_mcp_handler, get_mcp_handler, delete_mcp_handler, reload_http_handler,
  health_handler, metrics_handler, Request, Outside, routes, handler_at, call, build_app,
}

module _ (j : Json) (o : Outside (j.Value)) where
  denied_reload :
      (d : AuthDecision) (unix_now : ℕ) (w : World j.Value) (reason : String)
      → d ≡ deny reason
      → SameButMetrics w.app
          (reload_decided o.ct_eq o.write_summary o.read_to_string o.from_str o.env d unix_now
            (record_auth_decision d w.app)).1
  unfolding reload_decided record_auth_decision
  denied_reload allow unix_now w reason e = cc
  denied_reload (deny _) unix_now w reason e = refl

  denied_call :
      (handler : Option Handler) (request : Request) (w : World j.Value) (reason : String)
      → authorize_mcp o.ct_eq request.headers w.app.mcp_auth ≡ deny reason
      → SameButMetrics w.app (call j o handler request w).1.app
  unfolding call reload_http
  denied_call none request w reason e = refl
  denied_call (some post_mcp_handler) request w reason e =
      (denied_requests j o.host o.ct_eq o.new_uuid o.parse_error request.headers request.body w
        reason e).0.1
  denied_call (some get_mcp_handler) request w reason e =
      (denied_requests j o.host o.ct_eq o.new_uuid o.parse_error request.headers request.body w
        reason e).1.1
  denied_call (some delete_mcp_handler) request w reason e =
      (denied_requests j o.host o.ct_eq o.new_uuid o.parse_error request.headers request.body w
        reason e).2.1
  denied_call (some reload_http_handler) request w reason e =
      denied_reload (authorize_mcp o.ct_eq request.headers w.app.mcp_auth) (o.host.unix_time w.now)
        w reason e
  denied_call (some health_handler) request w reason e = refl
  denied_call (some metrics_handler) request w reason e = refl

  -- A request whose headers the authentication denies changes nothing of the state but the metrics,
  -- whatever its method, its path and its body are: on none of the routes is a session touched, opened
  -- or ended, an upstream asked, or the configuration loaded.
  pub denied_anywhere :
      (request : Request) (w : World j.Value) (reason : String)
      → authorize_mcp o.ct_eq request.headers w.app.mcp_auth ≡ deny reason
      → SameButMetrics w.app (build_app j o request w).1.app
  unfolding build_app
  denied_anywhere request =
      denied_call (handler_at o.accepts request.method request.path routes) request
