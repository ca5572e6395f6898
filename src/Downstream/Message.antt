-- ===== src/Downstream/Message.antt =====
-- src/downstream.rs: what one JSON-RPC message does.
pub mod Answers
pub mod Silence
use Prim.Native.String.{◌++◌}
use mcpstead.Base.{
  ℕ, ◌-◌, String, Bool, true, false, Option, none, some, List, [], ◌∷◌, if◌then◌else◌, unwrap_or,
  is_some, not,
}
use mcpstead.Base.Eq.{◌=?◌, string_eq}
use mcpstead.Json.{Json, object}
use mcpstead.State.Metrics.{record_mcp_request}
use mcpstead.Upstream.Classify.{bind_option}
use mcpstead.Upstream.Host.{World, Host, update_metrics}
use mcpstead.Upstream.Session.{pkg_version}
use mcpstead.Downstream.Rpc.{
  json_rpc_result, json_rpc_error, is_json_rpc_error, jsonrpc_invalid_request,
  jsonrpc_method_not_found,
}
use mcpstead.Downstream.Tools.{list_downstream_tools, call_tool}

module _ (j : Json) where
  open j use {Value, Map, field, as_str, as_object, map_get}

  -- `method_label`
  unfoldable pub method_label : Value → String
  method_label message = elim (bind_option (field "method" message) as_str) [
    | none ↦ "invalid"
    | some m ↦
        if m =? "initialize"
        then "initialize"
        else if m =? "notifications/initialized"
        then "notifications/initialized"
        else if m =? "tools/list"
        then "tools/list"
        else if m =? "tools/call"
        then "tools/call"
        else "unknown"
  ]

  -- `value == Some(&json!(text))`
  abbrev pub is_text : Option Value → String → Bool
  is_text none text = false
  is_text (some value) text = j.beq value (j.string text)

  -- `message.pointer("/params/protocolVersion")`, as a text
  abbrev pub protocol_version : Value → Option String
  protocol_version message =
      bind_option (bind_option (field "params" message) (field "protocolVersion")) as_str

  abbrev pub server_info : Value
  server_info = object j (("name", j.string "mcpstead") ∷ ("version", j.string pkg_version) ∷ [])

  -- `initialize_result`
  unfoldable pub initialize_result : Value → Value
  initialize_result message = object j (
      ("protocolVersion", j.string (unwrap_or (protocol_version message) "2024-11-05"))
      ∷ ("capabilities", object j (("tools", object j (("listChanged", j.bool false) ∷ [])) ∷ []))
      ∷ ("serverInfo", server_info)
      ∷ [])

  abbrev pub answered : Value × World Value → Option Value × World Value
  answered (response, w) = (some response, w)

  -- what a branch of `handle_message` answers to a request; a notification gets nothing
  abbrev pub unless : Bool → Value → Option Value
  unless is_notification response = if is_notification then none else some response

  module _ (h : Host Value) where
    -- the match of `handle_message` on the method
    unfoldable pub run_method :
        Bool → Value → Value → String → World Value → Option Value × World Value
    unfolding initialize_result
    run_method is_notification id message method w =
        if method =? "initialize"
        then (unless is_notification (json_rpc_result j id (initialize_result message)), w)
        else if method =? "notifications/initialized"
        then (none, w)
        else if method =? "tools/list"
        then (unless is_notification (json_rpc_result j id (list_downstream_tools j w.app)), w)
        else if method =? "tools/call"
        then if is_notification then (none, w) else answered (call_tool j h id message w)
        else (
          unless is_notification (
              json_rpc_error j id jsonrpc_method_not_found ("method '" ++ method ++ "' not found")),
          w,
        )

    -- `handle_message` for an object
    unfoldable pub handle_object :
        Bool → Value → Value → Map → World Value → Option Value × World Value
    unfolding run_method
    handle_object is_notification id message object w =
        if is_text (map_get "jsonrpc" object) "2.0"
        then elim (bind_option (map_get "method" object) as_str) [
          | none ↦ (
            unless is_notification
                (json_rpc_error j id jsonrpc_invalid_request "method is required"),
            w,
          )
          | some method ↦ run_method is_notification id message method w
        ]
        else (
          unless is_notification
              (json_rpc_error j id jsonrpc_invalid_request "jsonrpc must be '2.0'"),
          w,
        )

    -- `handle_message`, by the object that the message is and the id that it has
    unfoldable pub handle_parsed :
        Option Map → Option Value → Value → World Value → Option Value × World Value
    unfolding handle_object
    handle_parsed none id message w =
        (some (json_rpc_error j j.null jsonrpc_invalid_request "request must be an object"), w)
    handle_parsed (some object) none message w = handle_object true j.null message object w
    handle_parsed (some object) (some id) message w = handle_object false id message object w

    -- `handle_message`
    unfoldable pub handle_message : Value → World Value → Option Value × World Value
    unfolding handle_parsed
    handle_message message w = handle_parsed (as_object message) (field "id" message) message w

    abbrev pub outcome_label : Option Value → String
    outcome_label none = "success"
    outcome_label (some response) = if is_json_rpc_error j response then "error" else "success"

    -- `handle_message_with_metrics`
    unfoldable pub handle_message_with_metrics : Value → World Value → Option Value × World Value
    unfolding handle_message method_label
    handle_message_with_metrics message w =
        let (response, w') = handle_message message w in
        (
          response,
          update_metrics
              (record_mcp_request (method_label message) (outcome_label response) (w'.now - w.now))
              w',
        )
