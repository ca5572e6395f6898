-- ===== src/Config/Validate/Tokens.antt =====
-- src/config.rs: what a server's token can fail on, once the configuration has been validated.
use mcpstead.Base.{
  String, Option, none, some, Result, ok, err, ◌≡◌, refl, arith, inl, inr, if◌then◌else◌,
  Option-cases,
}
use mcpstead.Base.Eq.{◌=?◌, string_eq}
use mcpstead.Config.{ServerConfig, AuthConfig, mode, object}
use mcpstead.Config.Load.{validate_auth_config, bearer_token, token_of, read_token, missing_env_var}
use mcpstead.Config.Validate.Valid.{IsSupported, validate_auth_iff}

-- the variable that an `auth` names for its token
abbrev pub variable_of : Option AuthConfig → Option String
variable_of none = none
variable_of (some (mode m)) = none
variable_of (some (object auth)) = if auth.kind =? "bearer" then auth.token_env else none

abbrev value_or_missing : String → String → Option String → Result String (Option String)
value_or_missing name var none = err (missing_env_var var name)
value_or_missing name var (some token) = ok (some token)

-- the token by the variable alone: none without one, and otherwise its value, which may be missing
abbrev pub token_in :
    (String → Option String) → String → Option String → Result String (Option String)
token_in env name none = ok none
token_in env name (some var) = value_or_missing name var (env var)

read_token-eq :
    (env : String → Option String) (name var : String)
    → read_token env name (some var) ≡ token_in env name (some var)
read_token-eq env name var = ground arith

token_of-eq :
    (env : String → Option String) (name : String) (auth : Option AuthConfig)
    → IsSupported auth
    → token_of env name auth ≡ token_in env name (variable_of auth)
unfolding token_of
token_of-eq env name none h = refl
token_of-eq env name (some (mode m)) h = rw h refl
token_of-eq env name (some (object auth)) h = elim h [
  | inl open_auth ↦ rw open_auth refl
  | inr (kind, named) ↦ elim (Option-cases auth.token_env) [
    | inl e ↦ absurd (named e)
    | inr (var, e) ↦ rw (kind, e) (read_token-eq env name var)
  ]
]

-- Once `validate_auth_config` has accepted a server, its token is the value of the variable that its
-- `auth` names, and none without one: reading it fails exactly where that variable is missing, with
-- the message that names it and the server.
pub bearer_token-validate_auth_config :
    (env : String → Option String) (server : ServerConfig)
    → validate_auth_config server ≡ ok tt
    → bearer_token env server ≡ token_in env server.name (variable_of server.auth)
unfolding bearer_token validate_auth_config
bearer_token-validate_auth_config env server h =
    token_of-eq env server.name server.auth ((validate_auth_iff server.name server.auth).0 h)
