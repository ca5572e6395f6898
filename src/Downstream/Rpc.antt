-- ===== src/Downstream/Rpc.antt =====
-- src/downstream.rs: the messages of JSON-RPC that the gateway writes.
use mcpstead.Base.{String, Bool, [], ◌∷◌, is_some}
use mcpstead.Base.Int.{ℤ, negsuc}
use mcpstead.Json.{Json, object}

-- the codes -32700, -32600, -32601, -32602 and -32000
abbrev pub jsonrpc_parse_error : ℤ
jsonrpc_parse_error = negsuc 32699

abbrev pub jsonrpc_invalid_request : ℤ
jsonrpc_invalid_request = negsuc 32599

abbrev pub jsonrpc_method_not_found : ℤ
jsonrpc_method_not_found = negsuc 32600

abbrev pub jsonrpc_invalid_params : ℤ
jsonrpc_invalid_params = negsuc 32601

abbrev pub jsonrpc_upstream_error : ℤ
jsonrpc_upstream_error = negsuc 31999

module _ (j : Json) where
  open j use {Value, field}

  -- `json_rpc_result`
  unfoldable pub json_rpc_result : Value → Value → Value
  json_rpc_result id result =
      object j (("jsonrpc", j.string "2.0") ∷ ("id", id) ∷ ("result", result) ∷ [])

  abbrev pub error_object : ℤ → String → Value
  error_object code message = object j (("code", j.int code) ∷ ("message", j.string message) ∷ [])

  -- `json_rpc_error`
  unfoldable pub json_rpc_error : Value → ℤ → String → Value
  json_rpc_error id code message =
      object j
        (("jsonrpc", j.string "2.0") ∷ ("id", id) ∷ ("error", error_object code message) ∷ [])

  -- `is_json_rpc_error`
  unfoldable pub is_json_rpc_error : Value → Bool
  is_json_rpc_error value = is_some (field "error" value)
