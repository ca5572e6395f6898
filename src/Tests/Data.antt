-- ===== src/Tests/Data.antt =====
-- Inputs for the examples: configurations, a state, a host that answers, and values.
use mcpstead.Base.{◌+◌, String, true, Option, none, some, [], ◌∷◌, ok}
use mcpstead.Config.{
  Config, ServerConfig, default_config, default_server, default_mcp, default_mcp_auth, bearer,
}
use mcpstead.Json.{Json}
use mcpstead.Json.Sample.{Val, flag, obj, end, entry, sample_json}
use mcpstead.State.App.{AppState, build_state}
use mcpstead.Upstream.Host.{World, Host, HttpResponse}

abbrev pub search_server : ServerConfig
search_server = record default_server { name = "search"; url = "http://search.local/mcp" }

abbrev pub files_server : ServerConfig
files_server = record default_server { name = "files"; url = "http://files.local/mcp" }

abbrev pub old_config : Config
old_config = record default_config { servers = search_server ∷ [] }

abbrev pub new_config : Config
new_config = record default_config { servers = search_server ∷ files_server ∷ [] }

abbrev pub bearer_config : Config
bearer_config = record old_config {
  mcp = record default_mcp { auth = record default_mcp_auth { mode = bearer } };
}

unfoldable pub state_of : Config → Option String → AppState Val
unfolding build_state
state_of config token = build_state 10 20 config token "config.yaml"

abbrev pub reply_value : Val
reply_value = obj (entry "result" (obj (entry "ok" (flag true) end)) end)

abbrev pub json : Json
json = sample_json (λ _. some reply_value)

abbrev pub response : HttpResponse
response = record {
  status = 200;
  session_header = some "s-2";
  content_type = some "application/json";
  body = ok (record { len = 2; utf8 = some "{}"; lossy = "{}" });
}

-- every request is answered, at the instant 99
abbrev pub host : Host Val
host = record {
  send = λ request w. (some response, record w { now = 99 });
  wait_lock = λ lock w. w;
  sleep = λ length w. record w { now = w.now + length };
  env_var = λ name. none;
  unix_time = λ now. now;
}

abbrev pub world_of : AppState Val → World Val
world_of app = record { app = app; now = 50 }
