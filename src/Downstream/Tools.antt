-- ===== src/Downstream/Tools.antt =====
-- src/downstream.rs: the tools of the upstreams under the names `server__tool`, and calls of them.
pub mod Names
pub mod Listed
use Prim.Native.String.{◌++◌}
use mcpstead.Base.{
  ℕ, ◌-◌, String, Bool, true, false, Option, none, some, List, [], ◌∷◌, Result, ok, err, ◌||◌,
  if◌then◌else◌, unwrap_or,
}
use mcpstead.Base.Text.{split_once, contains, to_ascii_lowercase}
use mcpstead.Base.Dict.{string_key, get, adjust}
use mcpstead.Json.{Json, object}
use mcpstead.State.App.{AppState, ManagedServer}
use mcpstead.State.Metrics.{record_tool_call}
use mcpstead.Upstream.Classify.{UpstreamError, bind_option}
use mcpstead.Upstream.Host.{World, Host, update_app, update_metrics}
use mcpstead.Upstream.Registry.{change_server}
use mcpstead.Upstream.Request.{upstream_request}
use mcpstead.Downstream.Rpc.{
  json_rpc_result, json_rpc_error, jsonrpc_invalid_params, jsonrpc_upstream_error,
}

-- `categorize_tool_error`
unfoldable pub categorize_tool_error : String → String
categorize_tool_error error =
    let e = to_ascii_lowercase error in
    if contains e "timeout" || contains e "timed out"
    then "upstream_timeout"
    else if contains e "http 401" || contains e "http 403" || contains e "unauthorized"
    then "upstream_auth_failed"
    else if contains e "json-rpc error"
        || contains e "not valid json"
        || contains e "sse"
        || contains e "request failed"
        || contains e "connection"
        || contains e "http"
    then "upstream_protocol_error"
    else "internal"

abbrev pub qualified : String → String → String
qualified server name = server ++ "__" ++ name

abbrev pub described : String → Option String → String
described server none = "Tool from " ++ server
described server (some description) = "[" ++ server ++ "] " ++ description

abbrev pub mark_seen : {V : Type 0} → ℕ → ManagedServer V → ManagedServer V
mark_seen now server = record server { last_seen = some now }

-- `mark_server_seen`
unfoldable pub mark_server_seen : {V : Type 0} → ℕ → String → AppState V → AppState V
mark_server_seen now name = change_server name (mark_seen now)

-- `get_call_target`, of the entry that it gives the parts of
unfoldable pub get_call_target : {V : Type 0} → String → AppState V → Option (ManagedServer V)
get_call_target name s = get name s.registry

module _ (j : Json) where
  open j use {Value, Map, field, as_str, as_object, as_bool, map_get, map_insert, of_map}

  -- `namespaced_tool` behind the reading of the name
  unfoldable pub renamed_tool : String → String → Map → Value
  renamed_tool server name map =
      let map' = map_insert "name" (j.string (qualified server name)) map in
      let description = described server (bind_option (map_get "description" map') as_str) in
      of_map (map_insert "description" (j.string description) map')

  -- `namespaced_tool`
  unfoldable pub namespaced_tool : String → Value → Option Value
  unfolding renamed_tool
  namespaced_tool server tool = bind_option (as_object tool) (λ map.
      bind_option (bind_option (map_get "name" map) as_str)
        (λ name. some (renamed_tool server name map)))

  abbrev pub push_tool : Option Value → List Value → List Value
  push_tool none tools = tools
  push_tool (some tool) tools = tool ∷ tools

  -- the inner loop of `list_downstream_tools`, before the tools of the later servers
  unfoldable pub tools_before : String → List Value → List Value → List Value
  unfolding namespaced_tool
  tools_before server [] later = later
  tools_before server (tool ∷ tools) later =
      push_tool (namespaced_tool server tool) (tools_before server tools later)

  -- the loops of `list_downstream_tools`
  unfoldable pub collect_tools : List (String × ManagedServer Value) → List Value
  unfolding tools_before
  collect_tools [] = []
  collect_tools ((name, server) ∷ rest) =
      let later = collect_tools rest in
      if server.connected then tools_before name server.tools later else later

  -- `list_downstream_tools`
  unfoldable pub list_downstream_tools : AppState Value → Value
  unfolding collect_tools
  list_downstream_tools s = object j (("tools", j.array (collect_tools s.registry)) ∷ [])

  -- `upstream_tool_returned_error`
  unfoldable pub upstream_tool_returned_error : Value → Bool
  upstream_tool_returned_error result =
      unwrap_or (bind_option (field "isError" result) as_bool) false

  module _ (h : Host Value) where
    -- the match at the end of `call_tool`; the record and the mark are at one instant
    unfoldable pub conclude_call :
        Value
        → String
        → String
        → ℕ
        → Result UpstreamError (Option String × Value) × World Value
        → Value × World Value
    unfolding mark_server_seen categorize_tool_error
    conclude_call response_id server tool started (ok (_, result), w) =
        let error_reason =
          if upstream_tool_returned_error result then some "upstream_returned_error" else none in
        let w1 = update_metrics (record_tool_call server tool (w.now - started) error_reason) w in
        (json_rpc_result j response_id result, update_app (mark_server_seen w.now server) w1)
    conclude_call response_id server tool started (err e, w) = (
      json_rpc_error j response_id jsonrpc_upstream_error e.message,
      update_metrics
          (record_tool_call server tool (w.now - started) (some (categorize_tool_error e.message)))
          w,
    )

    abbrev pub call_params : String → Value → Value
    call_params tool arguments = object j (("name", j.string tool) ∷ ("arguments", arguments) ∷ [])

    -- `call_tool` from `get_call_target` on, with the entry that this finds
    unfoldable pub call_target :
        Value
        → String
        → String
        → Value
        → Option (ManagedServer Value)
        → World Value
        → Value × World Value
    unfolding conclude_call upstream_request
    call_target response_id server tool arguments none w = (
      json_rpc_error j response_id jsonrpc_invalid_params ("unknown upstream '" ++ server ++ "'"),
      w,
    )
    call_target response_id server tool arguments (some entry) w =
        if entry.connected
        then conclude_call response_id server tool w.now (
            upstream_request j h entry.config entry.session_id response_id "tools/call"
              (call_params tool arguments) w)
        else (
          json_rpc_error j response_id jsonrpc_upstream_error
              ("upstream '" ++ server ++ "' is disconnected"),
          update_metrics (record_tool_call server tool 0 (some "upstream_disconnected")) w,
        )

    -- `call_tool` behind the reading of `params.name`
    unfoldable pub call_named : Value → Value → String → World Value → Value × World Value
    unfolding call_target get_call_target
    call_named response_id params full_name w = elim (split_once full_name "__") [
      | none ↦
          (json_rpc_error j response_id jsonrpc_invalid_params "tool name must be server__tool", w)
      | some (server, tool) ↦
          call_target response_id server tool (unwrap_or (field "arguments" params) (object j []))
            (get_call_target server w.app) w
    ]

    -- `call_tool` behind the reading of `params`
    unfoldable pub call_with : Value → Value → World Value → Value × World Value
    unfolding call_named
    call_with response_id params w = elim (bind_option (field "name" params) as_str) [
      | none ↦ (json_rpc_error j response_id jsonrpc_invalid_params "params.name is required", w)
      | some full_name ↦ call_named response_id params full_name w
    ]

    -- `call_tool`
    unfoldable pub call_tool : Value → Value → World Value → Value × World Value
    unfolding call_with
    call_tool response_id message w = elim (field "params" message) [
      | none ↦ (json_rpc_error j response_id jsonrpc_invalid_params "params are required", w)
      | some params ↦ call_with response_id params w
    ]
