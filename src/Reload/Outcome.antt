-- ===== src/Reload/Outcome.antt =====
-- src/reload.rs: when a reload succeeds, and what it leaves.
use mcpstead.Base.{
  ℕ, ◌≡◌, ◌↔◌, ◌⊎◌, refl, sym, ap, ◌∙◌, arith, String, Option, none, some, Result, ok, err, ◌>>=◌,
  ◌>>◌, inl, inr, >>-eq-ok_iff,
}
use mcpstead.Config.{Config, McpAuthMode, open_access, bearer}
use mcpstead.Config.Load.{
  context, missing_bearer, mcp_bearer_token, load_config, load_mcp_bearer_token,
}
use mcpstead.Config.Validate.{validate_config}
use mcpstead.Config.Validate.Valid.{IsValid, validate_config_iff}
use mcpstead.State.App.{AppState}
use mcpstead.State.Metrics.{record_config_reload}
use mathlib.Core.Path.{subst}
use mcpstead.Reload.{
  install, apply_upstream_diff, ReloadSummary, reloadable_config, load_checked, conclude,
  reload_config,
}
use mcpstead.Reload.Follows.{Loaded}

module _ {A B : Type 0} where
  -- a chain succeeds exactly when its first step does and what follows it does
  bind_iff :
      (r : Result String A) (f : A → Result String B) (b : B)
      → ((r >>= f) ≡ ok b) ↔ ((a : A) × (r ≡ ok a) × (f a ≡ ok b))
  bind_iff (ok a) f b = (λ h. (a, refl, h), λ d. ap f (ground (arith, d.1)) ∙ d.2)
  bind_iff (err e) f b = (λ h. cc, λ d. let g = d.1 in cc)

context_iff :
    {A : Type 0} (message : String) (found : Option A) (a : A)
    → (context message found ≡ ok a) ↔ (found ≡ some a)
context_iff message none a = (λ h. cc, λ h. cc)
context_iff message (some x) a = ground arith

-- the gateway's own token: none is read where access is open, and else it is the variable's value
abbrev pub IsToken : (String → Option String) → McpAuthMode → Option String → Type 0
IsToken env open_access token = token ≡ none
IsToken env bearer token = (t : String) × (env "MCPSTEAD_BEARER_TOKEN" ≡ some t) × (token ≡ some t)

module _ (read_to_string : String → Option String) (from_str : String → Option Config)
    (env : String → Option String) where
  -- the file can be read, it is YAML of a configuration, that is valid, and the token is there
  pub record IsLoaded (path : String) (config : Config) (token : Option String) : Type 0 where
    pub text : String
    pub reads : read_to_string path ≡ some text
    pub parses : from_str text ≡ some config
    pub valid : IsValid config
    pub has_token : IsToken env config.mcp.auth.mode token

  mcp_bearer_token_iff :
      (mode : McpAuthMode) (token : Option String)
      → (mcp_bearer_token env mode ≡ ok token) ↔ IsToken env mode token
  mcp_bearer_token_iff open_access token = ground arith
  mcp_bearer_token_iff bearer token =
      let variable = env "MCPSTEAD_BEARER_TOKEN" in
      let chain = bind_iff (context missing_bearer variable) (λ t. ok (some t)) token in
      (
        λ h.
            let d = chain.0 h in
            let e : some d.0 ≡ token = ground (arith, d.2) in
            (d.0, (context_iff missing_bearer variable d.0).0 d.1, sym e),
        λ d. chain.1 (d.0, (context_iff missing_bearer variable d.0).1 d.1, ap ok (sym d.2)),
      )

  load_config_iff :
      (path : String) (config : Config)
      → (load_config read_to_string from_str path ≡ ok config)
        ↔ ((text : String) × (read_to_string path ≡ some text) × (from_str text ≡ some config))
  unfolding load_config
  load_config_iff path config =
      let chain =
        bind_iff (context _ (read_to_string path)) (λ text. context _ (from_str text)) config in
      (
        λ h.
            let d = chain.0 h in
            (
              d.0,
              (context_iff _ (read_to_string path) d.0).0 d.1,
              (context_iff _ (from_str d.0) config).0 d.2,
            ),
        λ d. chain.1 (
          d.0,
          (context_iff _ (read_to_string path) d.0).1 d.1,
          (context_iff _ (from_str d.0) config).1 d.2,
        ),
      )

  -- the checks behind the reading of the file
  abbrev checks : Config → Loaded
  checks c = validate_config c >> (load_mcp_bearer_token env c >>= λ token. ok (c, token))

  abbrev IsChecked : Config → Config → Option String → Type 0
  IsChecked c config token = (c ≡ config) × IsValid config × IsToken env config.mcp.auth.mode token

  checks_pass :
      (config : Config) (token : Option String)
      → IsValid config
      → IsToken env config.mcp.auth.mode token
      → checks config ≡ ok (config, token)
  unfolding load_mcp_bearer_token
  checks_pass config token v t =
      let reading = load_mcp_bearer_token env config in
      (>>-eq-ok_iff (validate_config config) (reading >>= λ t. ok (config, t)) (config, token)).1 (
        (validate_config_iff config).1 v,
        (bind_iff reading (λ t. ok (config, t)) (config, token)).1
            (token, (mcp_bearer_token_iff config.mcp.auth.mode token).1 t, refl),
      )

  checks_iff :
      (c config : Config) (token : Option String)
      → (checks c ≡ ok (config, token)) ↔ IsChecked c config token
  unfolding load_mcp_bearer_token
  checks_iff c config token =
      let reading = load_mcp_bearer_token env c in
      let last = bind_iff reading (λ t. ok (c, t)) (config, token) in
      let both = >>-eq-ok_iff (validate_config c) (reading >>= λ t. ok (c, t)) (config, token) in
      (
        λ h.
            let d = last.0 (both.0 h).1 in
            let e : c ≡ config = ground (arith, d.2) in
            let same : d.0 ≡ token = ground (arith, d.2) in
            let read = (mcp_bearer_token_iff c.mcp.auth.mode d.0).0 d.1 in
            (
              e,
              subst IsValid e ((validate_config_iff c).0 (both.0 h).0),
              subst (λ (k : Config). IsToken env k.mcp.auth.mode token) e
                  (subst (IsToken env c.mcp.auth.mode) same read),
            ),
        λ d.
            subst (λ (k : Config). checks k ≡ ok (config, token)) (sym d.0)
              (checks_pass config token d.1 d.2),
      )

  load_checked_iff :
      (path : String) (config : Config) (token : Option String)
      → (load_checked read_to_string from_str env path ≡ ok (config, token))
        ↔ IsLoaded path config token
  unfolding load_checked
  load_checked_iff path config token =
      let chain = bind_iff (load_config read_to_string from_str path) checks (config, token) in
      (
        λ h.
            let d = chain.0 h in
            let file = (load_config_iff path d.0).0 d.1 in
            let checked = (checks_iff d.0 config token).0 d.2 in
            record {
              text = file.0;
              reads = file.1;
              parses = file.2 ∙ ap some checked.0;
              valid = checked.1;
              has_token = checked.2;
            },
        λ d. chain.1 (
          config,
          (load_config_iff path config).1 (d.text, d.reads, d.parses),
          (checks_iff config config token).1 (refl, d.valid, d.has_token),
        ),
      )

  module _ {V : Type 0} (unix_now : ℕ) (s : AppState V) where
    -- a reload that takes over a configuration and a token
    pub record IsApplied (r : Result String ReloadSummary × AppState V) : Type 0 where
      pub config : Config
      pub token : Option String
      pub loaded : IsLoaded s.config_path config token
      pub summary : ReloadSummary
      pub succeeds : r.0 ≡ ok summary
      pub live_config : r.1.live_config ≡ reloadable_config s.live_config config
      pub bearer_token : r.1.mcp_auth.bearer_token ≡ token

    -- a reload that is refused, and recorded
    pub record IsRefused (r : Result String ReloadSummary × AppState V) : Type 0 where
      pub nothing_loads :
          (config : Config) (token : Option String) → ¬ IsLoaded s.config_path config token
      pub message : String
      pub fails : r.0 ≡ err message
      pub state : r.1 ≡ record s { metrics = record_config_reload unix_now "error" s.metrics }

    decided :
        (result : Loaded)
        → load_checked read_to_string from_str env s.config_path ≡ result
        → IsApplied (conclude unix_now s result) ⊎ IsRefused (conclude unix_now s result)
    unfolding conclude install
    decided (ok (config, token)) e = inl (record {
      config = config;
      token = token;
      loaded = (load_checked_iff s.config_path config token).0 e;
      summary = (apply_upstream_diff s s.live_config (reloadable_config s.live_config config)).1;
      succeeds = refl;
      live_config = refl;
      bearer_token = refl;
    })
    decided (err message) e = inr (record {
      nothing_loads =
          λ config token d. let loads = (load_checked_iff s.config_path config token).1 d in cc;
      message = message;
      fails = refl;
      state = refl;
    })

    -- A reload succeeds exactly when the file at the configuration's path can be read and parsed, is a
    -- valid configuration, and the gateway's token is set where bearer tokens are asked for; it then
    -- takes over the configuration, but for what a reload may not change, and the token. Otherwise it
    -- fails, and changes nothing of the state but the metrics, where the failure is recorded.
    pub reload_config-outcome :
        IsApplied (reload_config read_to_string from_str env unix_now s)
        ⊎ IsRefused (reload_config read_to_string from_str env unix_now s)
    unfolding reload_config
    reload_config-outcome = decided (load_checked read_to_string from_str env s.config_path) refl
