-- ===== src/Config/Validate/Valid.antt =====
-- src/config.rs: which configurations `validate_config` accepts.
use mcpstead.Base.{
  >>-eq-ok_iff, ◌<◌, String, ◌≡◌, ◌≢◌, ◌↔◌, ◌⊎◌, false, none, some, List, [], ◌∷◌, ok, arith, any,
  refl, Option,
}
use mcpstead.Base.Text.{is_empty, contains}
use mcpstead.Base.Eq.{◌=?◌, =?_iff, string_eq}
use mcpstead.Config.{Config, ServerConfig, AuthConfig, mode, object}
use mcpstead.Config.Load.{validate_auth}
use mcpstead.Config.Validate.{check_server, check_servers, validate_config}

-- an `auth` that the gateway can act on: none, or a bearer token by the name of a variable
abbrev pub IsSupported : Option AuthConfig → Type 0
IsSupported none = Unit
IsSupported (some (mode m)) = m ≡ "none"
IsSupported (some (object auth)) =
    (auth.kind ≡ "none") ⊎ ((auth.kind ≡ "bearer") × (auth.token_env ≢ none))

abbrev pub NotIn : List String → String → Type 0
NotIn [] name = Unit
NotIn (x ∷ xs) name = (x ≢ name) × NotIn xs name

-- a server on its own
pub record IsUsable (s : ServerConfig) : Type 0 where
  pub name : s.name ≢ ""
  pub no_separator : contains s.name "__" ≡ false
  pub url : s.url ≢ ""
  pub auth : IsSupported s.auth

-- servers whose names are new, each after those before it
abbrev pub AllUsable : List String → List ServerConfig → Type 0
AllUsable names [] = Unit
AllUsable names (s ∷ rest) = IsUsable s × NotIn names s.name × AllUsable (s.name ∷ names) rest

pub record IsValid (c : Config) : Type 0 where
  pub no_token : c.mcp.auth.bearer_token ≡ none
  pub idle : 0 < c.mcp.session.idle_ttl_seconds
  pub interval : 0 < c.mcp.session.gc_interval_seconds
  pub grace : 0 < c.mcp.session.shutdown_grace_seconds
  pub servers : AllUsable [] c.servers

pub validate_auth_iff :
    (name : String) (auth : Option AuthConfig)
    → (validate_auth name auth ≡ ok tt) ↔ IsSupported auth
unfolding validate_auth
validate_auth_iff name none = ground arith
validate_auth_iff name (some (mode m)) = ground (arith, =?_iff m "none")
validate_auth_iff name (some (object auth)) =
    ground (arith, =?_iff auth.kind "none", =?_iff auth.kind "bearer")

is_empty_iff : (s : String) → (is_empty s ≡ false) ↔ (s ≢ "")
is_empty_iff String.[] = (λ h. cc, λ h. absurd (h refl))
is_empty_iff (String.◌∷◌ c s) = (λ _ e. cc, λ _. refl)

any-NotIn :
    (names : List String) (s : String) → (any (λ name. name =? s) names ≡ false) ↔ NotIn names s
any-NotIn [] s = ground arith
any-NotIn (x ∷ xs) s = grind (arith, =?_iff x s, any-NotIn xs s)

check_server_iff :
    (names : List String) (s : ServerConfig)
    → (check_server names s ≡ ok tt) ↔ (IsUsable s × NotIn names s.name)
unfolding check_server
check_server_iff names s = grind (
  arith,
  is_empty_iff s.name,
  is_empty_iff s.url,
  any-NotIn names s.name,
  validate_auth_iff s.name s.auth,
)

check_servers_iff :
    (names : List String) (servers : List ServerConfig)
    → (check_servers names servers ≡ ok tt) ↔ AllUsable names servers
unfolding check_servers
check_servers_iff names [] = ground arith
check_servers_iff names (s ∷ rest) = ground (
  arith,
  >>-eq-ok_iff (check_server names s) (check_servers (s.name ∷ names) rest) tt,
  check_server_iff names s,
  check_servers_iff (s.name ∷ names) rest,
)

-- `validate_config` accepts exactly the valid configurations: no bearer token in the file, no zero
-- duration, and servers that each have a name without the separator, a url and an `auth` that is
-- supported, under names that differ.
pub validate_config_iff : (c : Config) → (validate_config c ≡ ok tt) ↔ IsValid c
unfolding validate_config
validate_config_iff c = ground (arith, check_servers_iff [] c.servers)
