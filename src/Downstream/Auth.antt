-- ===== src/Downstream/Auth.antt =====
-- src/downstream.rs: who may use the endpoint. A request's headers are pairs of a name in lower case
-- and a value, `none` if the value is not visible ASCII.
pub mod Decision
use mcpstead.Base.{String, Bool, true, false, Option, none, some, List, [], ◌∷◌, if◌then◌else◌}
use mcpstead.Base.Text.{trim, strip_prefix, is_empty, to_ascii_lowercase}
use mcpstead.Base.Dict.{string_key, get}
use mcpstead.Config.{McpAuthMode, open_access, bearer}
use mcpstead.State.Metrics.{Metrics, record_auth_success, record_auth_failure}
use mcpstead.State.App.{AppState, McpAuthState}

abbrev pub Headers : Type 0
Headers = List (String × Option String)

abbrev pub visible : Option (Option String) → Option String
visible none = none
visible (some value) = value

-- `headers.get(key).and_then(|value| value.to_str().ok())`
unfoldable pub raw_header : Headers → String → Option String
raw_header headers key = visible (get (to_ascii_lowercase key) headers)

-- `get_header`
unfoldable pub get_header : Headers → String → Option String
get_header headers key = elim (raw_header headers key) [ none ↦ none | some s ↦ some (trim s) ]

pub data AuthDecision : Type 0 where
  allow : AuthDecision
  deny : String → AuthDecision

-- the comparison of `subtle::ConstantTimeEq` on the bytes of two texts
module _ (ct_eq : String → String → Bool) where
  -- `authorize_mcp` behind the header's prefix
  unfoldable pub check_candidate : String → String → AuthDecision
  check_candidate token candidate =
      if is_empty candidate
      then deny "bad_format"
      else if ct_eq candidate token
      then allow
      else deny "wrong_token"

  -- `authorize_mcp` behind the configured token
  unfoldable pub check_header : String → Option String → AuthDecision
  unfolding check_candidate
  check_header token none = deny "missing_header"
  check_header token (some auth) = elim (strip_prefix auth "Bearer ") [
    | none ↦ deny "bad_format"
    | some candidate ↦ check_candidate token candidate
  ]

  unfoldable pub check_bearer : Headers → Option String → AuthDecision
  unfolding check_header
  check_bearer headers none = deny "internal"
  check_bearer headers (some token) = check_header token (get_header headers "authorization")

  -- the match of `authorize_mcp` on the mode
  unfoldable pub check_mode : Headers → McpAuthMode → Option String → AuthDecision
  unfolding check_bearer
  check_mode headers open_access token = allow
  check_mode headers bearer token = check_bearer headers token

  -- `authorize_mcp`, of the state of the authentication
  unfoldable pub authorize_mcp : Headers → McpAuthState → AuthDecision
  unfolding check_mode
  authorize_mcp headers auth_state = check_mode headers auth_state.mode auth_state.bearer_token

-- what `record_auth_decision` records of a decision, by the mode
unfoldable pub record_decision : McpAuthMode → AuthDecision → Metrics → Metrics
record_decision open_access decision m = m
record_decision bearer allow m = record_auth_success m
record_decision bearer (deny reason) m = record_auth_failure reason m

module _ {V : Type 0} where
  -- `record_auth_decision`
  unfoldable pub record_auth_decision : AuthDecision → AppState V → AppState V
  unfolding record_decision
  record_auth_decision decision s = record s {
    metrics = record_decision s.mcp_auth.mode decision s.metrics;
  }
