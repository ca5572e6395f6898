-- ===== src/Exposition/Health.antt =====
-- src/metrics.rs: the health page, at an instant `now`.
pub mod Status
use mcpstead.Base.{
  ℕ, ◌-◌, String, Bool, true, false, Option, none, some, List, [], ◌∷◌, if◌then◌else◌, ◌||◌, not,
  length,
}
use mcpstead.State.App.{AppState, ManagedServer}

-- numbers of seconds are nanoseconds
pub record HealthServer : Type 0 where
  pub name : String
  pub url : String
  pub protocol : String
  pub required : Bool
  pub connected : Bool
  pub tools_count : ℕ
  pub last_seen_seconds_ago : Option ℕ
  pub reconnects : ℕ
  pub last_error : Option String

pub record HealthResponse : Type 0 where
  pub status : String
  pub uptime_seconds : ℕ
  pub servers : List HealthServer

abbrev pub since : ℕ → Option ℕ → Option ℕ
since now none = none
since now (some seen) = some (now - seen)

module _ {V : Type 0} where
  abbrev pub health_server : ℕ → String → ManagedServer V → HealthServer
  health_server now name server = record {
    name = name;
    url = server.config.url;
    protocol = server.config.protocol;
    required = server.config.required;
    connected = server.connected;
    tools_count = length server.tools;
    last_seen_seconds_ago = since now server.last_seen;
    reconnects = server.reconnects;
    last_error = server.last_error;
  }

  -- the loop of `health`: what it makes of the variables `degraded` and `servers`
  unfoldable pub health_servers :
      ℕ → List (String × ManagedServer V) → Bool → Bool × List HealthServer
  health_servers now [] degraded = (degraded, [])
  health_servers now ((name, server) ∷ rest) degraded =
      let (degraded', servers) =
        health_servers now rest (if server.connected then degraded else true) in
      (degraded', health_server now name server ∷ servers)

  -- `health`
  unfoldable pub health : ℕ → AppState V → HealthResponse
  unfolding health_servers
  health now s =
      let (degraded, servers) = health_servers now s.registry false in
      record {
        status = if degraded then "degraded" else "ok";
        uptime_seconds = now - s.start;
        servers = servers;
      }
