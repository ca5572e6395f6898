-- ===== src/Config.antt =====
-- src/config.rs: the configuration file's types, their defaults, and the per-server helpers.
pub mod Equality
pub mod Load
pub mod Auth
pub mod Validate
use mcpstead.Base.{
  ℕ, String, Bool, true, false, Option, none, some, List, [], ◌∷◌, ◌||◌, not, unwrap_or,
}

abbrev pub default_accept : String
default_accept = "application/json, text/event-stream"

-- `enum McpAuthMode`; `none` is a constructor of `Option`
pub data McpAuthMode : Type 0 where
  open_access bearer : McpAuthMode

pub record McpAuthConfig : Type 0 where
  pub mode : McpAuthMode
  pub bearer_token : Option String

pub record McpSessionConfig : Type 0 where
  pub idle_ttl_seconds : ℕ
  pub gc_interval_seconds : ℕ
  pub shutdown_grace_seconds : ℕ

pub record McpConfig : Type 0 where
  pub auth : McpAuthConfig
  pub session : McpSessionConfig

pub record AuthObject : Type 0 where
  pub kind : String
  pub token_env : Option String

-- `enum AuthConfig`
pub data AuthConfig : Type 0 where
  mode : String → AuthConfig
  object : AuthObject → AuthConfig

pub record QuirksConfig : Type 0 where
  pub normalize_sse_events : Bool
  pub inject_accept_header : Option String

pub record ReconnectConfig : Type 0 where
  pub max_attempts : ℕ
  pub backoff_base_ms : ℕ
  pub backoff_max_ms : ℕ

pub record ToolsConfig : Type 0 where
  pub ttl_seconds : ℕ

-- `headers` is a `HashMap`: an association list in the order of its keys
pub record ServerConfig : Type 0 where
  pub name : String
  pub url : String
  pub protocol : String
  pub required : Bool
  pub tls_skip_verify : Bool
  pub auth : Option AuthConfig
  pub headers : List (String × String)
  pub quirks : QuirksConfig
  pub reconnect : ReconnectConfig
  pub tools : ToolsConfig

pub record MetricsConfig : Type 0 where
  pub enabled : Bool

pub record LoggingConfig : Type 0 where
  pub level : String

pub record Config : Type 0 where
  pub host : String
  pub port : ℕ
  pub mcp : McpConfig
  pub servers : List ServerConfig
  pub metrics : MetricsConfig
  pub logging : LoggingConfig

-- the `Default` implementations
abbrev pub default_session : McpSessionConfig
default_session = record {
  idle_ttl_seconds = 3600;
  gc_interval_seconds = 60;
  shutdown_grace_seconds = 5;
}

abbrev pub default_mcp_auth : McpAuthConfig
default_mcp_auth = record { mode = open_access; bearer_token = none }

abbrev pub default_mcp : McpConfig
default_mcp = record { auth = default_mcp_auth; session = default_session }

abbrev pub default_reconnect : ReconnectConfig
default_reconnect = record { max_attempts = 0; backoff_base_ms = 1000; backoff_max_ms = 30000 }

abbrev pub default_tools : ToolsConfig
default_tools = record { ttl_seconds = 300 }

abbrev pub default_quirks : QuirksConfig
default_quirks = record { normalize_sse_events = false; inject_accept_header = none }

abbrev pub default_server : ServerConfig
default_server = record {
  name = "";
  url = "";
  protocol = "streamable";
  required = false;
  tls_skip_verify = false;
  auth = none;
  headers = [];
  quirks = default_quirks;
  reconnect = default_reconnect;
  tools = default_tools;
}

abbrev pub default_metrics : MetricsConfig
default_metrics = record { enabled = true }

abbrev pub default_logging : LoggingConfig
default_logging = record { level = "info" }

abbrev pub default_config : Config
default_config = record {
  host = "127.0.0.1";
  port = 8766;
  mcp = default_mcp;
  servers = [];
  metrics = default_metrics;
  logging = default_logging;
}

-- `ServerConfig::accept_header`
unfoldable pub accept_header : ServerConfig → String
accept_header s = unwrap_or s.quirks.inject_accept_header default_accept
