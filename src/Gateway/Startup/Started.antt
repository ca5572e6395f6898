-- ===== src/Gateway/Startup/Started.antt =====
-- src/main.rs: what has been checked and what runs once the process serves.
use mathlib.Core.Path.{subst}
use mcpstead.Base.{
  ℕ, ◌≡◌, ◌↔◌, refl, ◌∙◌, ap, sym, String, Option, none, some, Result, ok, err, ◌>>=◌, ◌>>◌, arith,
  >>-eq-ok_iff,
}
use mcpstead.Base.Dict.{string_key}
use mcpstead.Config.{Config}
use mcpstead.Config.Load.{load_config, load_mcp_bearer_token}
use mcpstead.Config.Validate.{validate_config}
use mcpstead.State.App.{AppState}
use mcpstead.Reload.{load_checked}
use mcpstead.Reload.Sound.{IsSound, load_checked-IsValid}
use mcpstead.Gateway.Startup.Served.{served, served-IsSound}
use mcpstead.Gateway.Startup.{resolve_config_path, listen, startup}

module _ {A B : Type 0} (f : A × Option String → Result String B) where
  abbrev paired : A → Option String → Result String (A × Option String)
  paired c token = ok (c, token)

  -- the steps behind the checks may as well follow the result of the checks
  after_token :
      (c : A) (reading : Result String (Option String))
      → (reading >>= λ token. f (c, token)) ≡ ((reading >>= paired c) >>= f)
  after_token c (err message) = refl
  after_token c (ok token) = refl

  after_check :
      (c : A) (check : Result String (Unit {0})) (reading : Result String (Option String))
      → (check >> (reading >>= λ token. f (c, token))) ≡ ((check >> (reading >>= paired c)) >>= f)
  after_check c (err message) reading = refl
  after_check c (ok _) reading = after_token c reading

  after_checks :
      (loading : Result String A) (check : A → Result String (Unit {0}))
      (reading : A → Result String (Option String))
      → (loading >>= λ c. check c >> (reading c >>= λ token. f (c, token)))
        ≡ ((loading >>= λ c. check c >> (reading c >>= paired c)) >>= f)
  after_checks (err message) check reading = refl
  after_checks (ok c) check reading = after_check c (check c) (reading c)

module _ (read_to_string : String → Option String) (from_str : String → Option Config)
    (env : String → Option String) (build_clients : Result String (Unit {0})) {Addr : Type 0}
    (parse_addr : String → Option Addr) (bind : Addr → Result String (Unit {0})) (V : Type 0)
    (now unix_now : ℕ) where
  abbrev pub started : Option String → Result String (AppState V)
  started = startup read_to_string from_str env build_clients parse_addr bind now unix_now

  -- the steps behind the checks of the configuration
  abbrev serve : String → Config × Option String → Result String (AppState V)
  serve path (config, token) = do
    build_clients
    listen parse_addr bind config
    ok (served now unix_now config token path)

  started-serve :
      (path : String)
      → started (some path) ≡ (load_checked read_to_string from_str env path >>= serve path)
  unfolding startup load_checked
  started-serve path =
      after_checks (serve path) (load_config read_to_string from_str path) validate_config
        (load_mcp_bearer_token env)

  -- how a state came to be served
  pub record IsStarted (config_arg : Option String) (s : AppState V) : Type 0 where
    pub path : String
    pub config : Config
    pub token : Option String
    pub given : config_arg ≡ some path
    pub accepted : load_checked read_to_string from_str env path ≡ ok (config, token)
    pub clients : build_clients ≡ ok tt
    pub bound : listen parse_addr bind config ≡ ok tt
    pub state : s ≡ served now unix_now config token path

  serve-IsStarted :
      (path : String) (s : AppState V) (result : Result String (Config × Option String))
      → load_checked read_to_string from_str env path ≡ result
      → (result >>= serve path) ≡ ok s
      → IsStarted (some path) s
  serve-IsStarted path s (err message) e h = cc
  serve-IsStarted path s (ok (config, token)) e h =
      let listening = listen parse_addr bind config in
      let done : Result String (AppState V) = ok (served now unix_now config token path) in
      let both = (>>-eq-ok_iff build_clients (listening >> done) s).0 h in
      let last = (>>-eq-ok_iff listening done s).0 both.1 in
      record {
        path = path;
        config = config;
        token = token;
        given = refl;
        accepted = e;
        clients = both.0;
        bound = last.0;
        state = ground (arith, last.1);
      }

  -- The process serves a state exactly when it was given a path, a reload from that path would accept
  -- the configuration, the HTTP clients can be built and the socket can be bound; the state is then
  -- the one built from that configuration, with a managing task spawned for each server. No server
  -- has to be reachable for it, not even one that is `required`, against what the README says of it.
  pub startup_iff :
      (config_arg : Option String) (s : AppState V)
      → (started config_arg ≡ ok s) ↔ IsStarted config_arg s
  unfolding startup resolve_config_path
  startup_iff none s = (λ h. cc, λ d. let g = d.given in cc)
  startup_iff (some path) s = (
    λ h.
        serve-IsStarted path s (load_checked read_to_string from_str env path) refl
          (sym (started-serve path) ∙ h),
    λ d.
        subst (λ (arg : Option String). started arg ≡ ok s) (sym d.given)
          (started-serve d.path
            ∙ ap (λ r. r >>= serve d.path) d.accepted
            ∙ rw (d.clients, d.bound) (ap ok (sym d.state))),
  )

  -- What the process serves at first is sound: a valid live configuration, a registry with exactly its
  -- servers, and a managing task for each of them.
  pub startup-IsSound :
      (config_arg : Option String) (s : AppState V) → started config_arg ≡ ok s → IsSound s
  startup-IsSound config_arg s h =
      let d = (startup_iff config_arg s).0 h in
      subst IsSound (sym d.state) (
        served-IsSound V now unix_now d.config d.token d.path
          (load_checked-IsValid read_to_string from_str env d.path d.config d.token d.accepted))
