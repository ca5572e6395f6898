-- ===== src/Gateway/Routes.antt =====
-- src/main.rs: the routes. How axum matches a method and answers what no route takes, what other crates
-- write and read, and the world outside are the fields of `Outside`.
pub mod Denied
pub mod Kept
use mcpstead.Base.{ℕ, String, Bool, true, false, Option, none, some, List, [], ◌∷◌, if◌then◌else◌}
use mcpstead.Base.Eq.{◌=?◌, string_eq}
use mcpstead.Json.{Json}
use mcpstead.Config.{Config}
use mcpstead.State.App.{AppState}
use mcpstead.Upstream.Host.{World, Host}
use mcpstead.Downstream.Auth.{Headers}
use mcpstead.Downstream.Response.{Response}
use mcpstead.Downstream.Serve.{post_mcp, get_mcp, delete_mcp, set_app}
use mcpstead.Reload.{ReloadSummary}
use mcpstead.Reload.Http.{reload_http}
use mcpstead.Exposition.Health.{HealthResponse, health}
use mcpstead.Exposition.Process.{ProcessStats}
use mcpstead.Exposition.Page.{Build, metrics_page}

-- axum's `get`, `post` and `delete`
pub data MethodRouter : Type 0 where
  get : MethodRouter
  post : MethodRouter
  delete : MethodRouter

pub data Handler : Type 0 where
  post_mcp_handler : Handler
  get_mcp_handler : Handler
  delete_mcp_handler : Handler
  reload_http_handler : Handler
  health_handler : Handler
  metrics_handler : Handler

pub record Request : Type 0 where
  pub method : String
  pub path : String
  pub headers : Headers
  pub body : Option String

-- the routes of `build_app`
unfoldable pub routes : List (String × List (MethodRouter × Handler))
routes =
    ("/mcp", (post, post_mcp_handler) ∷ (get, get_mcp_handler) ∷ (delete, delete_mcp_handler) ∷ [])
    ∷ ("/-/reload", (post, reload_http_handler) ∷ [])
    ∷ ("/health", (get, health_handler) ∷ [])
    ∷ ("/metrics", (get, metrics_handler) ∷ [])
    ∷ []

pub record Outside (V : Type 0) : Type 0 where
  pub accepts : MethodRouter → String → Bool
  pub fallback : Request → Response
  pub host : Host V
  pub ct_eq : String → String → Bool
  pub new_uuid : String
  pub parse_error : String
  pub write_summary : ReloadSummary → String
  pub write_health : HealthResponse → String
  pub read_to_string : String → Option String
  pub from_str : String → Option Config
  pub env : String → Option String
  pub build : Build
  pub stats : Option ProcessStats

module _ (accepts : MethodRouter → String → Bool) (method : String) where
  -- the handler of a path that takes the method
  unfoldable pub handler_in : List (MethodRouter × Handler) → Option Handler
  handler_in [] = none
  handler_in ((router, handler) ∷ rest) =
      let later = handler_in rest in if accepts router method then some handler else later

  unfoldable pub handler_at :
      String → List (String × List (MethodRouter × Handler)) → Option Handler
  unfolding handler_in
  handler_at path [] = none
  handler_at path ((p, handlers) ∷ rest) =
      let later = handler_at path rest in if p =? path then handler_in handlers else later

module _ (j : Json) (o : Outside (j.Value)) where
  -- `Json` of the health page
  abbrev pub health_page : World (j.Value) → Response
  health_page w = record {
    status = 200;
    headers = ("content-type", "application/json") ∷ [];
    body = o.write_health (health w.now w.app);
  }

  abbrev pub reloading :
      Response × AppState (j.Value) → World (j.Value) → Response × World (j.Value)
  reloading (response, s) w = (response, set_app j w s)

  -- the call of a handler
  unfoldable pub call : Option Handler → Request → World (j.Value) → Response × World (j.Value)
  unfolding post_mcp get_mcp delete_mcp reload_http health metrics_page
  call none request w = (o.fallback request, w)
  call (some post_mcp_handler) request w =
      post_mcp j o.host o.ct_eq o.new_uuid o.parse_error request.headers request.body w
  call (some get_mcp_handler) request w =
      get_mcp j o.host o.ct_eq o.new_uuid o.parse_error request.headers w
  call (some delete_mcp_handler) request w =
      delete_mcp j o.host o.ct_eq o.new_uuid o.parse_error request.headers w
  call (some reload_http_handler) request w =
      reloading
        (reload_http o.ct_eq o.write_summary o.read_to_string o.from_str o.env request.headers
          (o.host.unix_time w.now) w.app)
        w
  call (some health_handler) request w = (health_page w, w)
  call (some metrics_handler) request w = (metrics_page o.build o.stats w.now w.app, w)

  -- `build_app`, as what serves a request
  unfoldable pub build_app : Request → World (j.Value) → Response × World (j.Value)
  unfolding handler_at routes call
  build_app request w = call (handler_at o.accepts request.method request.path routes) request w
