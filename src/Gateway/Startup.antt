-- ===== src/Gateway/Startup.antt =====
-- src/main.rs: the start of the process, up to the listening socket. The file system, the YAML parser,
-- the environment, the building of the HTTP clients, the parsing of an address and the binding of a
-- socket are arguments.
pub mod Served
pub mod Started
use Prim.Native.String.{◌++◌}
use mcpstead.Base.{ℕ, String, Option, none, some, List, [], ◌∷◌, Result, ok, err, ◌>>=◌, ◌>>◌}
use mcpstead.Base.Text.Decimal.{decimal}
use mcpstead.Config.{Config}
use mcpstead.Config.Load.{context, load_config, load_mcp_bearer_token}
use mcpstead.Config.Validate.{validate_config}
use mcpstead.State.App.{AppState, build_state}
use mcpstead.Upstream.Registry.{server_names, spawn_server_manager}

abbrev pub no_config_path : String
no_config_path = "mcpstead requires --config <path> or MCPSTEAD_CONFIG=<path>"

-- `resolve_config_path`
unfoldable pub resolve_config_path : Option String → Result String String
resolve_config_path none = err no_config_path
resolve_config_path (some path) = ok path

module _ {V : Type 0} where
  -- the loop of `main` over the servers
  unfoldable pub spawn_managers : List String → AppState V → AppState V
  unfolding spawn_server_manager
  spawn_managers [] s = s
  spawn_managers (name ∷ names) s = spawn_managers names (spawn_server_manager name s)

  unfoldable pub spawn_all : AppState V → AppState V
  unfolding spawn_managers server_names
  spawn_all s = spawn_managers (server_names s) s

-- the text of the address
abbrev pub bind_address : Config → String
bind_address config = config.host ++ ":" ++ decimal config.port

abbrev pub invalid_bind_address : Config → String
invalid_bind_address config = "invalid bind address '" ++ bind_address config ++ "'"

module _ {Addr : Type 0} (parse_addr : String → Option Addr)
    (bind : Addr → Result String (Unit {0})) where
  -- the end of `main` before it serves
  unfoldable pub listen : Config → Result String (Unit {0})
  unfolding decimal
  listen config = do
    addr ← context (invalid_bind_address config) (parse_addr (bind_address config))
    bind addr

module _ (read_to_string : String → Option String) (from_str : String → Option Config)
    (env : String → Option String) (build_clients : Result String (Unit {0})) {Addr : Type 0}
    (parse_addr : String → Option Addr) (bind : Addr → Result String (Unit {0})) where
  -- `main` from its argument to the state that it serves, at an instant `now`; an error ends the
  -- process, also where its tasks have been spawned
  unfoldable pub startup : {V : Type 0} → ℕ → ℕ → Option String → Result String (AppState V)
  unfolding resolve_config_path load_config validate_config load_mcp_bearer_token build_state
      spawn_all listen
  startup now unix_now config_arg = do
    path ← resolve_config_path config_arg
    config ← load_config read_to_string from_str path
    validate_config config
    token ← load_mcp_bearer_token env config
    build_clients
    listen parse_addr bind config
    ok (spawn_all (build_state now unix_now config token path))
