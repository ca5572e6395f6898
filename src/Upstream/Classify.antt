-- ===== src/Upstream/Classify.antt =====
-- src/upstream.rs: which errors say that the upstream has dropped the session.
pub mod Reasons
use mcpstead.Base.{
  ℕ, String, Bool, true, false, Option, none, some, ◌||◌, ◌&&◌, if◌then◌else◌, or_else, unwrap_or,
  ◌==◌,
}
use mcpstead.Base.Int.{ℤ, negsuc, int_beq}
use mcpstead.Base.Text.{contains, to_ascii_lowercase}
use mcpstead.Json.{Json}

-- `UpstreamResponseError`; any other error has no reason
pub record UpstreamError : Type 0 where
  pub message : String
  pub session_reset_reason : Option String

abbrev pub plain : String → UpstreamError
plain message = record { message = message; session_reset_reason = none }

-- `classify_session_message`
unfoldable pub classify_session_message : String → Option String
unfolding contains to_ascii_lowercase
classify_session_message message =
    let m = to_ascii_lowercase message in
    if contains m "unknown mcp session"
    then some "unknown_session"
    else if contains m "session expired"
    then some "expired"
    else if contains m "session terminated"
    then some "terminated"
    else none

abbrev pub bind_option : {A B : Type 0} → Option A → (A → Option B) → Option B
bind_option none f = none
bind_option (some a) f = f a

-- -32001
abbrev pub unknown_session_code : ℤ
unknown_session_code = negsuc 32000

abbrev pub is_unknown_code : Option ℤ → Bool
is_unknown_code none = false
is_unknown_code (some n) = int_beq n unknown_session_code

-- the statuses 401, 403, 404 and 410
abbrev pub may_reset : ℕ → Bool
may_reset status = status == 401 || status == 403 || status == 404 || status == 410

module _ (j : Json) where
  open j use {Value, field, as_i64, as_str, from_str}

  -- `value.get("error").unwrap_or(value)`
  abbrev pub error_part : Value → Value
  error_part value = unwrap_or (field "error" value) value

  -- `json_rpc_error_code`
  unfoldable pub json_rpc_error_code : Value → Option ℤ
  json_rpc_error_code value = bind_option (field "code" (error_part value)) as_i64

  -- `json_rpc_error_message`
  unfoldable pub json_rpc_error_message : Value → Option String
  json_rpc_error_message value = bind_option (field "message" (error_part value)) as_str

  -- `classify_json_rpc_session_reset`
  unfoldable pub classify_json_rpc_session_reset : Value → Option String
  unfolding json_rpc_error_code
  classify_json_rpc_session_reset error =
      if is_unknown_code (json_rpc_error_code error)
      then some "unknown_session"
      else bind_option (bind_option (field "message" error) as_str) classify_session_message

  -- `classify_http_session_reset`
  unfoldable pub classify_http_session_reset : ℕ → String → Option String
  unfolding json_rpc_error_code json_rpc_error_message
  classify_http_session_reset status body =
      let value = from_str body in
      if status == 404 && is_unknown_code (bind_option value json_rpc_error_code)
      then some "unknown_session"
      else if may_reset status
      then or_else (bind_option (bind_option value json_rpc_error_message) classify_session_message)
          (classify_session_message body)
      else none
