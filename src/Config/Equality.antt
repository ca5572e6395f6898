-- ===== src/Config/Equality.antt =====
-- src/config.rs: the derived `PartialEq` of the configuration types, field by field, and which
-- changes of a server want a fresh upstream session.
use mcpstead.Base.{
  ℕ, String, Bool, true, false, refl, sym, ◌∙◌, ◌≡◌, ◌↔◌, ap, ◌||◌, not, List, Option, arith,
}
use mcpstead.Base.Eq.{Eq, ◌=?◌, =?_iff, nat_eq, string_eq, bool_eq, option_eq, list_eq, pair_eq}
use mcpstead.Config.{
  AuthConfig, mode, object, AuthObject, QuirksConfig, ReconnectConfig, ToolsConfig, ServerConfig,
  McpSessionConfig, LoggingConfig,
}

-- A type is compared by its fields, from which its values can be rebuilt.
module _ {A F : Type 0} ⦃e : Eq F⦄ (fields : A → F) (rebuild : F → A) where
  pub by_fields_iff :
      ((a : A) → rebuild (fields a) ≡ a) → (a b : A) → ((fields a =? fields b) ≡ true) ↔ (a ≡ b)
  by_fields_iff back a b = (
    λ h. sym (back a) ∙ ap rebuild ((=?_iff _ _).0 h) ∙ back b,
    λ p. (=?_iff _ _).1 (ap fields p),
  )

abbrev pub auth_object_fields : AuthObject → String × Option String
auth_object_fields a = (a.kind, a.token_env)

abbrev pub auth_object_beq : AuthObject → AuthObject → Bool
auth_object_beq a b = auth_object_fields a =? auth_object_fields b

pub auth_object_iff : (a b : AuthObject) → (auth_object_beq a b ≡ true) ↔ (a ≡ b)
auth_object_iff =
    by_fields_iff auth_object_fields (λ f. record { kind = f.0; token_env = f.1 }) (λ a. refl)

abbrev pub auth_beq : AuthConfig → AuthConfig → Bool
auth_beq (mode a) (mode b) = a =? b
auth_beq (object a) (object b) = auth_object_beq a b
auth_beq _ _ = false

pub auth_iff : (a b : AuthConfig) → (auth_beq a b ≡ true) ↔ (a ≡ b)
auth_iff (mode a) (mode b) = ground (arith, =?_iff a b)
auth_iff (object a) (object b) = ground (arith, auth_object_iff a b)
auth_iff (mode a) (object b) = ground arith
auth_iff (object a) (mode b) = ground arith

instance abbrev pub auth_eq : Eq AuthConfig
auth_eq = record { beq = auth_beq; beq_iff = auth_iff }

abbrev pub quirks_fields : QuirksConfig → Bool × Option String
quirks_fields a = (a.normalize_sse_events, a.inject_accept_header)

pub quirks_iff : (a b : QuirksConfig) → ((quirks_fields a =? quirks_fields b) ≡ true) ↔ (a ≡ b)
quirks_iff =
    by_fields_iff quirks_fields
      (λ f. record { normalize_sse_events = f.0; inject_accept_header = f.1 }) (λ a. refl)

instance abbrev pub quirks_eq : Eq QuirksConfig
quirks_eq = record { beq = λ a b. quirks_fields a =? quirks_fields b; beq_iff = quirks_iff }

abbrev pub reconnect_fields : ReconnectConfig → ℕ × (ℕ × ℕ)
reconnect_fields a = (a.max_attempts, (a.backoff_base_ms, a.backoff_max_ms))

pub reconnect_iff :
    (a b : ReconnectConfig) → ((reconnect_fields a =? reconnect_fields b) ≡ true) ↔ (a ≡ b)
reconnect_iff =
    by_fields_iff reconnect_fields
      (λ f. record { max_attempts = f.0; backoff_base_ms = f.1.0; backoff_max_ms = f.1.1 })
      (λ a. refl)

instance abbrev pub reconnect_eq : Eq ReconnectConfig
reconnect_eq = record {
  beq = λ a b. reconnect_fields a =? reconnect_fields b;
  beq_iff = reconnect_iff;
}

pub tools_iff : (a b : ToolsConfig) → ((a.ttl_seconds =? b.ttl_seconds) ≡ true) ↔ (a ≡ b)
tools_iff = by_fields_iff (λ a. a.ttl_seconds) (λ f. record { ttl_seconds = f }) (λ a. refl)

instance abbrev pub tools_eq : Eq ToolsConfig
tools_eq = record { beq = λ a b. a.ttl_seconds =? b.ttl_seconds; beq_iff = tools_iff }

abbrev pub session_fields : McpSessionConfig → ℕ × (ℕ × ℕ)
session_fields a = (a.idle_ttl_seconds, (a.gc_interval_seconds, a.shutdown_grace_seconds))

pub session_iff :
    (a b : McpSessionConfig) → ((session_fields a =? session_fields b) ≡ true) ↔ (a ≡ b)
session_iff =
    by_fields_iff session_fields
      (λ f. record {
        idle_ttl_seconds = f.0;
        gc_interval_seconds = f.1.0;
        shutdown_grace_seconds = f.1.1;
      })
      (λ a. refl)

instance abbrev pub session_eq : Eq McpSessionConfig
session_eq = record { beq = λ a b. session_fields a =? session_fields b; beq_iff = session_iff }

pub logging_iff : (a b : LoggingConfig) → ((a.level =? b.level) ≡ true) ↔ (a ≡ b)
logging_iff = by_fields_iff (λ a. a.level) (λ f. record { level = f }) (λ a. refl)

instance abbrev pub logging_eq : Eq LoggingConfig
logging_eq = record { beq = λ a b. a.level =? b.level; beq_iff = logging_iff }

abbrev pub ServerFields : Type 0
ServerFields =
    String
    × (String
        × (String
            × (Bool
                × (Bool
                    × (Option AuthConfig
                        × (List (String × String)
                            × (QuirksConfig × (ReconnectConfig × ToolsConfig))))))))

abbrev pub server_fields : ServerConfig → ServerFields
server_fields s = (
  s.name,
  (
    s.url,
    (
      s.protocol,
      (s.required, (s.tls_skip_verify, (s.auth, (s.headers, (s.quirks, (s.reconnect, s.tools)))))),
    ),
  ),
)

abbrev pub server_of : ServerFields → ServerConfig
server_of (name, (url, (protocol, (required, (tls, (auth, (headers, (quirks, (rec, tools))))))))) =
    record {
      name = name;
      url = url;
      protocol = protocol;
      required = required;
      tls_skip_verify = tls;
      auth = auth;
      headers = headers;
      quirks = quirks;
      reconnect = rec;
      tools = tools;
    }

-- `==` on `ServerConfig`
unfoldable pub same_server : ServerConfig → ServerConfig → Bool
same_server a b = server_fields a =? server_fields b

pub same_server_iff : (a b : ServerConfig) → (same_server a b ≡ true) ↔ (a ≡ b)
unfolding same_server
same_server_iff = by_fields_iff server_fields server_of (λ a. refl)

-- `ServerConfig::requires_fresh_upstream_session`
unfoldable pub requires_fresh_upstream_session : ServerConfig → ServerConfig → Bool
requires_fresh_upstream_session a b =
    not (a.url =? b.url)
    || not (a.protocol =? b.protocol)
    || not (a.tls_skip_verify =? b.tls_skip_verify)
    || not (a.auth =? b.auth)
    || not (a.headers =? b.headers)
