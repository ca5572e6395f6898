-- ===== src/Config/Validate.antt =====
-- src/config.rs: `validate_config`.
pub mod Valid
pub mod Tokens
use Prim.Native.String.{◌++◌}
use mcpstead.Base.{
  ℕ, String, Bool, true, false, not, List, [], ◌∷◌, Result, ok, err, ◌>>=◌, ◌>>◌, bail_if, is_some,
  any, ◌==◌,
}
use mcpstead.Base.Text.{is_empty, contains}
use mcpstead.Base.Eq.{◌=?◌, string_eq}
use mcpstead.Config.{Config, ServerConfig}
use mcpstead.Config.Load.{validate_auth_config}

-- one round of the loop, the earlier servers' names in the set `names`
unfoldable pub check_server : List String → ServerConfig → Result String (Unit {0})
unfolding validate_auth_config contains
check_server names server = do
  bail_if (is_empty server.name) "server name cannot be empty"
  bail_if (contains server.name "__") ("server name '" ++ server.name ++ "' cannot contain '__'")
  bail_if (is_empty server.url) ("server '" ++ server.name ++ "' url cannot be empty")
  bail_if (any (λ name. name =? server.name) names)
      ("duplicate server name '" ++ server.name ++ "'")
  validate_auth_config server

-- the loop over the servers
unfoldable pub check_servers : List String → List ServerConfig → Result String (Unit {0})
check_servers names [] = ok tt
check_servers names (server ∷ rest) = do
  check_server names server
  check_servers (server.name ∷ names) rest

-- the warning on a long `gc_interval_seconds` changes nothing
unfoldable pub validate_config : Config → Result String (Unit {0})
validate_config config = do
  bail_if (is_some config.mcp.auth.bearer_token)
      "mcp.auth.bearer_token is not allowed; use MCPSTEAD_BEARER_TOKEN"
  bail_if (config.mcp.session.idle_ttl_seconds == 0)
      "mcp.session.idle_ttl_seconds must be greater than 0"
  bail_if (config.mcp.session.gc_interval_seconds == 0)
      "mcp.session.gc_interval_seconds must be greater than 0"
  bail_if (config.mcp.session.shutdown_grace_seconds == 0)
      "mcp.session.shutdown_grace_seconds must be greater than 0"
  check_servers [] config.servers
