-- ===== src/Tests/Tools.antt =====
-- The theorems on the list of tools and on calls, at a server with one tool.
use mcpstead.Base.{
  ◌≡◌, refl, inl, String, true, Option, none, some, [], ◌∷◌, All, IsIn, Result, ok, str_eq,
}
use mcpstead.Base.Text.{contains}
use mcpstead.Base.Text.Split.{ends_with_underscore}
use mcpstead.Base.Dict.{string_key, get}
use mcpstead.Config.{Config}
use mcpstead.Json.{Json}
use mcpstead.Json.Sample.{Val, text, obj, num, arr, cons, nil, entry, end, sample_json, sample_laws}
use mcpstead.Base.Int.{pos}
use mcpstead.State.App.{AppState, ManagedServer, new_server}
use mcpstead.Upstream.Host.{World}
use mcpstead.Downstream.Tools.{collect_tools}
use mcpstead.Downstream.Tools.Listed.{IsReached, collect_tools-called}
use mcpstead.Gateway.Startup.{spawn_all}
use mcpstead.State.App.{build_state}
use mcpstead.Upstream.Request.{initialize_and_load_tools}
use mcpstead.Config.Load.{bearer_token}
use mcpstead.Upstream.Body.{parse_mcp_body, is_sse}
use mcpstead.Base.Text.{trim_start}
use mcpstead.Base.{false}
use mcpstead.Config.Validate.{check_servers, check_server}
use mcpstead.Gateway.Others.{Interleaves, idle}
use mcpstead.Upstream.Manager.{Manager, manage_round}
use mcpstead.Gateway.Startup.{startup}
use mcpstead.Gateway.Startup.Served.{served}
use mcpstead.Gateway.Routes.{Outside}
use mcpstead.Gateway.Run.{here, next, managed}
use mcpstead.Gateway.Run.Tools.{GatewayRun-collect_tools}
use mcpstead.Tests.Data.{search_server, old_config, state_of, host, world_of}

abbrev find_tool : Val
find_tool = obj (entry "name" (text "find") end)

-- every reply has the tool
abbrev tools_reply : Val
tools_reply = obj (entry "result" (obj (entry "tools" (arr (cons find_tool nil)) end)) end)

abbrev tools_json : Json
tools_json = sample_json (λ _. some tools_reply)

abbrev listed_tool : Val
listed_tool =
    obj (entry "name" (text "search__find") (entry "description" (text "Tool from search") end))

abbrev call_message : Val
call_message = obj (entry "params" listed_tool end)

abbrev connected_server : ManagedServer Val
connected_server = record (new_server search_server) {
  connected = true;
  session_id = some "s-1";
  tools = find_tool ∷ [];
}

abbrev tools_world : World Val
tools_world =
    world_of (record (state_of old_config none) { registry = ("search", connected_server) ∷ [] })

collect_tools-called_example :
    IsReached tools_json
      (sample_laws (λ _. some tools_reply))
      host
      tools_world
      listed_tool
      (num (pos 7))
      call_message
      listed_tool
unfolding contains collect_tools get
collect_tools-called_example =
    collect_tools-called tools_json (sample_laws (λ _. some tools_reply)) host tools_world
      listed_tool (num (pos 7)) call_message listed_tool (refl, tt)
      (record { no_separator = refl; closed = refl }, tt) (inl refl) refl refl

abbrev read_config : String → Option String
read_config path = some "old"

abbrev parse_config : String → Option Config
parse_config written = some old_config

abbrev no_variable : String → Option String
no_variable name = none

abbrev any_address : String → Option String
any_address address = some address

abbrev bind_any : String → Result String (Unit {0})
bind_any address = ok tt

abbrev outside : Outside Val
outside = record {
  accepts = λ router method. str_eq method "POST";
  fallback = λ request. record { status = 404; headers = []; body = "" };
  host = host;
  ct_eq = str_eq;
  new_uuid = "u-1";
  parse_error = "bad";
  write_summary = λ summary. "{}";
  write_health = λ shown. "{}";
  read_to_string = read_config;
  from_str = parse_config;
  env = no_variable;
  build = record { rust_version = none; git_sha = none };
  stats = none;
}

abbrev first_state : AppState Val
first_state = served 10 20 old_config none "config.yaml"

starts :
    startup read_config parse_config no_variable
      (ok tt)
      any_address
      bind_any
      10
      20
      (some "config.yaml")
    ≡ ok first_state
unfolding startup check_servers check_server
starts = refl

host-Interleaves : Interleaves parse_config no_variable host
host-Interleaves = record {
  send = λ request w. idle;
  wait_lock = λ lock w. idle;
  sleep = λ length w. idle;
}

abbrev first_world : World Val
first_world = record { app = first_state; now = 10 }

abbrev new_manager : Manager
new_manager = record { session_id = none; failures = 0 }

-- the first round of the server's managing task
abbrev first_round : Option (Manager × World Val)
first_round = manage_round tools_json host "search" new_manager first_world

abbrev after : Option (Manager × World Val) → Manager × World Val
after none = (new_manager, first_world)
after (some r) = r

abbrev second_world : World Val
second_world = (after first_round).1

first_round_goes : first_round ≡ some (after first_round)
unfolding manage_round spawn_all build_state get initialize_and_load_tools bearer_token
    parse_mcp_body is_sse contains trim_start
first_round_goes = refl

lists_it : IsIn listed_tool (collect_tools tools_json second_world.app.registry)
unfolding manage_round collect_tools spawn_all build_state get initialize_and_load_tools
    bearer_token parse_mcp_body is_sse contains trim_start
lists_it = inl refl

named_well : All (λ e. ends_with_underscore e.0 ≡ false) second_world.app.registry
unfolding manage_round spawn_all build_state get initialize_and_load_tools bearer_token
    parse_mcp_body is_sse contains trim_start
named_well = (refl, tt)

GatewayRun-collect_tools_example :
    IsReached tools_json
      (sample_laws (λ _. some tools_reply))
      host
      second_world
      listed_tool
      (num (pos 7))
      call_message
      listed_tool
GatewayRun-collect_tools_example =
    GatewayRun-collect_tools tools_json (sample_laws (λ _. some tools_reply)) outside
      host-Interleaves (ok tt) any_address bind_any 10 20 (some "config.yaml") first_state
      second_world listed_tool (num (pos 7)) call_message listed_tool starts
      (next here (
        managed "search" new_manager (after first_round).0 first_world second_world
          first_round_goes))
      named_well lists_it refl refl
