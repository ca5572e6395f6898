-- ===== src/Config/Load.antt =====
-- src/config.rs: upstream authentication and the loading of a configuration. The environment's
-- variables, the file system and the YAML parser are arguments.
use Prim.Native.String.{◌++◌}
use mcpstead.Base.{String, Option, none, some, Result, ok, err, ◌>>=◌, if◌then◌else◌}
use mcpstead.Base.Eq.{◌=?◌, string_eq}
use mcpstead.Config.{
  Config, ServerConfig, AuthConfig, mode, object, open_access, bearer, McpAuthMode,
}

-- `with_context`: the message of an error is that of its outermost context
abbrev pub context : {A : Type 0} → String → Option A → Result String A
context message none = err message
context message (some a) = ok a

abbrev pub requires_token_env : String → String
requires_token_env name = "bearer auth for server '" ++ name ++ "' requires token_env"

abbrev pub unsupported_mode : String → String
unsupported_mode m = "unsupported auth mode '" ++ m ++ "'"

abbrev pub unsupported_type : String → String
unsupported_type kind = "unsupported auth type '" ++ kind ++ "'"

abbrev pub missing_env_var : String → String → String
missing_env_var var server = "missing env var '" ++ var ++ "' for server '" ++ server ++ "'"

-- the arms of `validate_auth_config` by the server's name and `auth`
unfoldable pub validate_auth : String → Option AuthConfig → Result String (Unit {0})
validate_auth name none = ok tt
validate_auth name (some (mode m)) = if m =? "none" then ok tt else err (unsupported_mode m)
validate_auth name (some (object auth)) =
    if auth.kind =? "none"
    then ok tt
    else if auth.kind =? "bearer"
    then elim auth.token_env [ none ↦ err (requires_token_env name) | some _ ↦ ok tt ]
    else err (unsupported_type auth.kind)

-- `ServerConfig::validate_auth_config`
unfoldable pub validate_auth_config : ServerConfig → Result String (Unit {0})
unfolding validate_auth
validate_auth_config s = validate_auth s.name s.auth

abbrev pub read_token :
    (String → Option String) → String → Option String → Result String (Option String)
read_token env server none = err (requires_token_env server)
read_token env server (some var) = do
  token ← context (missing_env_var var server) (env var)
  ok (some token)

-- the arms of `bearer_token`
unfoldable pub token_of :
    (String → Option String) → String → Option AuthConfig → Result String (Option String)
token_of env name none = ok none
token_of env name (some (mode m)) = if m =? "none" then ok none else err (unsupported_mode m)
token_of env name (some (object auth)) =
    if auth.kind =? "none"
    then ok none
    else if auth.kind =? "bearer"
    then read_token env name auth.token_env
    else err (unsupported_type auth.kind)

-- `ServerConfig::bearer_token`
unfoldable pub bearer_token :
    (String → Option String) → ServerConfig → Result String (Option String)
unfolding token_of
bearer_token env s = token_of env s.name s.auth

-- `load_config`, with the file's text and its reading as YAML as arguments
unfoldable pub load_config :
    (String → Option String) → (String → Option Config) → String → Result String Config
load_config read_to_string from_str path = do
  text ← context ("read config '" ++ path ++ "': failed") (read_to_string path)
  context ("parse config '" ++ path ++ "': failed") (from_str text)

abbrev pub missing_bearer : String
missing_bearer = "MCPSTEAD_BEARER_TOKEN is required when mcp.auth.mode=bearer"

abbrev pub mcp_bearer_token : (String → Option String) → McpAuthMode → Result String (Option String)
mcp_bearer_token env open_access = ok none
mcp_bearer_token env bearer = do
  token ← context missing_bearer (env "MCPSTEAD_BEARER_TOKEN")
  ok (some token)

-- `load_mcp_bearer_token`
unfoldable pub load_mcp_bearer_token :
    (String → Option String) → Config → Result String (Option String)
load_mcp_bearer_token env config = mcp_bearer_token env config.mcp.auth.mode
