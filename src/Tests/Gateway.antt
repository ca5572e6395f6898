-- ===== src/Tests/Gateway.antt =====
-- The theorems on the process, at one configuration, one session and one request.
use mcpstead.Base.{
  ◌≡◌, ◌↔◌, refl, inr, String, Option, none, some, [], ◌∷◌, Result, ok, arith, str_eq, replicate,
}
use mcpstead.Base.Dict.{string_key, get, insert}
use mcpstead.Base.{if◌then◌else◌}
use mcpstead.Config.{Config}
use mcpstead.Config.Validate.{check_servers, check_server}
use mcpstead.Json.Sample.{Val}
use mcpstead.State.App.{AppState, DownstreamSession}
use mcpstead.State.Sessions.{open_session}
use mcpstead.State.Sessions.Accounting.{Balanced, open_session-Balanced}
use mcpstead.Upstream.Host.{World}
use mcpstead.Downstream.Auth.{authorize_mcp, deny, get_header, raw_header}
use mcpstead.Downstream.Serve.Denied.{SameButMetrics}
use mcpstead.Gateway.Startup.{startup}
use mcpstead.Gateway.Startup.Served.{served}
use mcpstead.Gateway.Startup.Started.{started, IsStarted, startup_iff}
use mcpstead.Gateway.Tasks.{slept, session_gc_task, shutdown_signal, finished}
use mcpstead.Gateway.Tasks.Eviction.{session_at, LeavesAlone, session_gc_task-evicts}
use mcpstead.Base.{◌+◌}
use mcpstead.Upstream.Host.{Host}
use mcpstead.State.Sessions.{prune_idle_sessions, touch_session}
use mcpstead.Gateway.Tasks.{gc_round}
use mcpstead.Gateway.Others.{Interleaves, idle, later, pruned, touched}
use mcpstead.Gateway.Run.{collected, GatewayRun, here, next, requested, hung_up, shut_down}
use mcpstead.Downstream.Serve.{set_app}
use mcpstead.Upstream.Kept.{IsFree}
use mcpstead.Gateway.Healthy.{IsHealthy}
use mcpstead.Gateway.Run.Steady.{IsSteady, GatewayRun-IsSteady}
use mcpstead.Gateway.Run.Started.{startup-GatewayRun}
use mcpstead.Upstream.Registry.{server_names, spawn_server_manager}
use mcpstead.State.App.{build_state}
use mcpstead.Reload.{reload_config}
use mcpstead.Gateway.Startup.{spawn_all, spawn_managers}
use mcpstead.Gateway.Routes.{Request, Outside, build_app}
use mcpstead.Gateway.Routes.Denied.{denied_anywhere}
use mcpstead.Tests.Data.{old_config, new_config, bearer_config, state_of, json, host, world_of}

abbrev read_old : String → Option String
read_old path = some "old"

abbrev read_new : String → Option String
read_new path = some "new"

abbrev parse : String → Option Config
parse text = if str_eq text "old" then some old_config else some new_config

abbrev no_variable : String → Option String
no_variable name = none

abbrev any_address : String → Option String
any_address address = some address

abbrev bind_any : String → Result String (Unit {0})
bind_any address = ok tt

abbrev first_state : AppState Val
first_state = served 10 20 old_config none "config.yaml"

startup_iff_example :
    (started read_old parse no_variable (ok tt) any_address bind_any Val 10 20 (some "config.yaml")
      ≡ ok first_state)
    ↔ IsStarted read_old parse no_variable
        (ok tt)
        any_address
        bind_any
        Val
        10
        20
        (some "config.yaml")
        first_state
startup_iff_example =
    startup_iff read_old parse no_variable (ok tt) any_address bind_any Val 10 20
      (some "config.yaml") first_state

starts :
    startup read_old parse no_variable (ok tt) any_address bind_any 10 20 (some "config.yaml")
    ≡ ok first_state
unfolding startup check_servers check_server
starts = refl

abbrev session : DownstreamSession
session = record { created_at = 10; last_activity = 10 }

abbrev idle_world : World Val
idle_world = world_of (record (state_of old_config none) { sessions = ("a", session) ∷ [] })

host-LeavesAlone : LeavesAlone host "a"
host-LeavesAlone = record {
  clock = λ d w. omega arith;
  interval = λ d w. refl;
  ttl = λ d w. refl;
  distinct = λ d w h. h;
  untouched = λ d w. inr refl;
}

session_gc_task-evicts_example :
    session_at "a" (session_gc_task host (replicate 100 slept) idle_world) ≡ none
unfolding state_of
session_gc_task-evicts_example =
    session_gc_task-evicts host "a" host-LeavesAlone 99 idle_world session (refl, tt) refl
      (omega arith)

-- the session, with the counter that counts it
unfoldable counted : AppState Val
unfolding open_session
counted = open_session 60 "a" (state_of old_config none)

counted-Balanced : Balanced counted
unfolding counted state_of open_session insert get
counted-Balanced =
    open_session-Balanced 60 "a" (state_of old_config none) refl (omega arith)
      (record { distinct = tt; balance = refl; fits = omega arith })

abbrev outside : Outside Val
outside = record {
  accepts = λ router method. str_eq method "POST";
  fallback = λ request. record { status = 404; headers = []; body = "" };
  host = host;
  ct_eq = str_eq;
  new_uuid = "u-1";
  parse_error = "bad";
  write_summary = λ summary. "{}";
  write_health = λ shown. "{}";
  read_to_string = read_new;
  from_str = parse;
  env = no_variable;
  build = record { rust_version = none; git_sha = none };
  stats = none;
}

abbrev closed_world : World Val
closed_world = world_of (state_of bearer_config (some "secret"))

abbrev reload_request : Request
reload_request = record { method = "POST"; path = "/-/reload"; headers = []; body = none }

no_token : authorize_mcp str_eq [] closed_world.app.mcp_auth ≡ deny "missing_header"
unfolding authorize_mcp state_of get_header raw_header
no_token = refl

denied_anywhere_example :
    SameButMetrics closed_world.app (build_app json outside reload_request closed_world).1.app
denied_anywhere_example =
    denied_anywhere json outside reload_request closed_world "missing_header" no_token

abbrev first_new : AppState Val
first_new = served 10 20 new_config none "config.yaml"

starts_new :
    startup read_new parse no_variable (ok tt) any_address bind_any 10 20 (some "config.yaml")
    ≡ ok first_new
unfolding startup check_servers check_server
starts_new = refl

abbrev first_world : World Val
first_world = record { app = first_new; now = 10 }

abbrev post_request : Request
post_request = record { method = "POST"; path = "/mcp"; headers = []; body = some "{}" }

first_world-IsFree : IsFree "u-2" first_world.app
unfolding spawn_all spawn_managers server_names spawn_server_manager build_state get
first_world-IsFree = (refl, omega arith)

-- while a task waits, the others end idle sessions
abbrev busy_host : Host Val
busy_host = record {
  send = λ request w. (none, record w { app = (prune_idle_sessions 99 w.app).0 });
  wait_lock = λ lock w. record w { app = (touch_session 99 "u-2" w.app).0 };
  sleep = λ length w. record { app = (prune_idle_sessions 99 w.app).0; now = w.now + length };
  env_var = λ name. none;
  unix_time = λ now. now;
}

busy_host-Interleaves : Interleaves parse no_variable busy_host
busy_host-Interleaves = record {
  send = λ request w. later idle (pruned 99 w.app);
  wait_lock = λ lock w. later idle (touched 99 "u-2" w.app);
  sleep = λ length w. later idle (pruned 99 w.app);
}

abbrev busy_outside : Outside Val
busy_outside = record outside { host = busy_host }

abbrev posted : World Val
posted = (build_app json (record busy_outside { new_uuid = "u-2" }) post_request first_world).1

abbrev reloaded_world : World Val
reloaded_world = set_app json posted (reload_config read_old parse no_variable 30 posted.app).1

abbrev collected_world : World Val
collected_world = gc_round busy_host reloaded_world

-- a post, a reload of another file on a signal, a round of the collecting task and the shutdown
visit :
    GatewayRun json busy_outside first_world
      (set_app json collected_world (shutdown_signal finished 50 collected_world.app))
visit =
    next
      (next
        (next (next here (requested "u-2" read_new post_request first_world first_world-IsFree))
          (hung_up read_old 30 posted))
        (collected reloaded_world))
      (shut_down finished 50 collected_world (λ e. cc))

startup-GatewayRun_example : IsHealthy (shutdown_signal finished 50 collected_world.app)
startup-GatewayRun_example =
    startup-GatewayRun json busy_outside busy_host-Interleaves (ok tt) any_address bind_any 10 20
      (some "config.yaml") first_new
      (set_app json collected_world (shutdown_signal finished 50 collected_world.app)) starts_new
      visit

GatewayRun-IsSteady_example : IsSteady first_new (shutdown_signal finished 50 collected_world.app)
GatewayRun-IsSteady_example =
    GatewayRun-IsSteady json busy_outside busy_host-Interleaves first_world
      (set_app json collected_world (shutdown_signal finished 50 collected_world.app)) visit
