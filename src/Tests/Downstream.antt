-- ===== src/Tests/Downstream.antt =====
-- The theorems on the endpoint at small requests.
use mcpstead.Base.{arith, ◌≡◌, refl, ◌↔◌, ◌⊎◌, String, true, none, some, [], ◌∷◌, str_eq, eq_iff}
use mcpstead.Base.Int.{pos}
use mcpstead.Base.Dict.{string_key, get}
use mcpstead.Base.Text.{split_once, contains}
use mcpstead.Config.{open_access, bearer}
use mcpstead.Json.Sample.{Val, text, obj, num, entry, end, arr, cons, nil, sample_laws}
use mcpstead.State.App.{McpAuthState}
use mcpstead.Upstream.Host.{World}
use mcpstead.Downstream.Auth.{Headers, get_header, raw_header, allow, deny, authorize_mcp}
use mcpstead.Downstream.Auth.Decision.{HasToken, authorize_mcp_iff}
use mcpstead.Downstream.Message.{handle_message}
use mcpstead.Downstream.Message.Answers.{Answered, handle_message-request}
use mcpstead.Downstream.Serve.{post_mcp, respond}
use mcpstead.Downstream.Serve.Closing.{succeeds, named_session, respond-session}
use mcpstead.Downstream.Serve.Silence.{IsNotification, IsSilent, handle_body-IsSilent}
use mcpstead.Downstream.Serve.{handle_body}
use mcpstead.Base.{false}
use mcpstead.State.Sessions.Accounting.{Balanced}
use mcpstead.Upstream.Kept.{IsFree, Keeps}
use mcpstead.Downstream.Serve.Posts.{post_mcp-Balanced}
use mcpstead.Downstream.Response.{downstream_response}
use mcpstead.Downstream.Response.Chain.{IsWritten, read_back, read_back-downstream_response}
use mcpstead.Base.{ok}
use mcpstead.Base.Text.{strip_suffix, strip_prefix, starts_with, trim, trim_start, trim_end}
use mcpstead.Base.Text.Lines.{no_newline}
use mcpstead.Downstream.Tools.{namespaced_tool}
use mcpstead.Downstream.Tools.Names.{HasText, namespaced_tool-routes}
use mcpstead.Tests.Data.{old_config, bearer_config, state_of, json, host, world_of, reply_value}
use mcpstead.Base.{false}

abbrev with_token : Headers
with_token = ("authorization", some "Bearer secret") ∷ []

abbrev secret : McpAuthState
secret = record { mode = bearer; bearer_token = some "secret" }

authorize_mcp_iff_example : (authorize_mcp str_eq with_token secret ≡ allow) ↔ (
    (secret.mode ≡ open_access)
    ⊎ ((secret.mode ≡ bearer) × HasToken with_token secret.bearer_token))
authorize_mcp_iff_example = authorize_mcp_iff str_eq eq_iff with_token secret

abbrev open_world : World Val
open_world = world_of (state_of old_config none)

abbrev closed_world : World Val
closed_world = world_of (state_of bearer_config (some "secret"))

no_header : authorize_mcp str_eq [] closed_world.app.mcp_auth ≡ deny "missing_header"
unfolding authorize_mcp state_of get_header raw_header
no_header = refl

abbrev request : Val
request = obj (
    entry "jsonrpc" (text "2.0")
      (entry "id" (num (pos 7)) (entry "method" (text "tools/list") end)))

handle_message-request_example :
    Answered json
      (sample_laws (λ _. some reply_value))
      host
      (num (pos 7))
      (handle_message json host request open_world)
handle_message-request_example =
    handle_message-request json (sample_laws (λ _. some reply_value)) host (num (pos 7)) request
      (entry "jsonrpc" (text "2.0")
        (entry "id" (num (pos 7)) (entry "method" (text "tools/list") end)))
      open_world refl refl (λ e. cc)

abbrev notification : Val
notification = obj (entry "jsonrpc" (text "2.0") (entry "method" (text "tools/call") end))

respond-session_example :
    ((succeeds json (some reply_value) ≡ true)
      × ((respond json host [] (some "u-1") (some reply_value, open_world)).1 ≡ open_world)
      × (named_session (respond json host [] (some "u-1") (some reply_value, open_world)).0
          ≡ some "u-1"))
    ⊎ ((succeeds json (some reply_value) ≡ false)
        × (get "u-1"
              (respond json host [] (some "u-1") (some reply_value, open_world)).1.app.sessions
            ≡ none)
        × (named_session (respond json host [] (some "u-1") (some reply_value, open_world)).0
            ≡ none))
respond-session_example = respond-session json host [] "u-1" (some reply_value) open_world

-- a batch of two notifications
abbrev silent_batch : Val
silent_batch = arr (cons notification (cons notification nil))

notification-IsNotification : IsNotification json notification
notification-IsNotification = record {
  object = entry "jsonrpc" (text "2.0") (entry "method" (text "tools/call") end);
  is_object = refl;
  no_id = refl;
}

handle_body-IsSilent_example :
    IsSilent json host open_world (handle_body json host silent_batch open_world)
handle_body-IsSilent_example =
    handle_body-IsSilent json host silent_batch open_world
      (notification-IsNotification, (notification-IsNotification, tt))

namespaced_tool-routes_example :
    (listed : Val) × (full_name : String) × (namespaced_tool json "search"
        (obj (entry "name" (text "find") end))
      ≡ some listed)
    × HasText json "name" listed full_name
    × (split_once full_name "__" ≡ some ("search", "find"))
unfolding contains
namespaced_tool-routes_example =
    namespaced_tool-routes json (sample_laws (λ _. some reply_value)) "search" "find"
      (obj (entry "name" (text "find") end)) (entry "name" (text "find") end) refl refl refl refl

host-Keeps : Keeps Balanced host
host-Keeps = record {
  send = λ r w b. record { distinct = b.distinct; balance = b.balance; fits = b.fits };
  wait_lock = λ lock w b. b;
  sleep = λ length w b. record { distinct = b.distinct; balance = b.balance; fits = b.fits };
}

open_world-IsFree : IsFree "u-1" open_world.app
unfolding state_of get
open_world-IsFree = (refl, omega arith)

open_world-Balanced : Balanced open_world.app
unfolding state_of
open_world-Balanced = record { distinct = tt; balance = refl; fits = omega arith }

post_mcp-Balanced_example :
    Balanced (post_mcp json host str_eq "u-1" "bad" [] (some "{}") open_world).1.app
post_mcp-Balanced_example =
    post_mcp-Balanced json host host-Keeps str_eq "u-1" "bad" [] (some "{}") open_world
      open_world-IsFree open_world-Balanced

abbrev events_wanted : Headers
events_wanted = ("accept", some "text/event-stream") ∷ []

written : IsWritten json (json.to_string reply_value) reply_value
unfolding no_newline strip_suffix trim trim_start trim_end starts_with strip_prefix
written = record {
  line = refl;
  no_cr = refl;
  told = refl;
  no_event = refl;
  no_data = refl;
  reads = refl;
  reads_whole = refl;
}

read_back-downstream_response_example :
    read_back json (downstream_response json events_wanted 200 (some reply_value) (some "s-1"))
    ≡ ok reply_value
read_back-downstream_response_example =
    read_back-downstream_response json events_wanted 200 reply_value (some "s-1") written
