-- ===== src/Reload/Sound.antt =====
-- src/reload.rs: the live configuration stays valid, with its entries and its tasks.
use mathlib.Core.Path.{subst}
use mcpstead.Base.{ℕ, ◌≡◌, refl, String, Option, ok, err, Result, ◌>>=◌, ◌>>◌, arith, >>-eq-ok_iff}
use mcpstead.Base.Eq.{string_eq, nat_eq}
use mcpstead.Config.{Config}
use mcpstead.Config.Equality.{session_eq, session_iff, logging_eq}
use mcpstead.Config.Load.{load_config, load_mcp_bearer_token}
use mcpstead.Config.Validate.{validate_config}
use mcpstead.Config.Validate.Valid.{IsValid, validate_config_iff}
use mcpstead.State.App.{AppState}
use mcpstead.Reload.{reloadable_config, load_checked, conclude, reload_config}
use mcpstead.Reload.Follows.{Follows, Loaded, reload_config-Follows}
use mcpstead.Reload.Managed.{IsManaged, conclude-IsManaged}

reloadable_config-IsValid :
    (old new : Config) → IsValid old → IsValid new → IsValid (reloadable_config old new)
unfolding reloadable_config
reloadable_config-IsValid old new o n = record {
  no_token = ground (arith, n.no_token);
  idle = ground (arith, o.idle, n.idle, session_iff old.mcp.session new.mcp.session);
  interval = ground (arith, o.interval, n.interval, session_iff old.mcp.session new.mcp.session);
  grace = ground (arith, o.grace, n.grace, session_iff old.mcp.session new.mcp.session);
  servers = n.servers;
}

-- a valid live configuration, an entry for each of its servers, and a task for each
pub record IsSound {V : Type 0} (s : AppState V) : Type 0 where
  pub valid : IsValid s.live_config
  pub entries : Follows s s.live_config
  pub tasks : IsManaged s s.live_config

module _ {V : Type 0} where
  conclude-IsValid :
      (unix_now : ℕ) (s : AppState V) (result : Loaded)
      → ((loaded : Config) (token : Option String) → result ≡ ok (loaded, token) → IsValid loaded)
      → IsValid s.live_config
      → IsValid (conclude unix_now s result).1.live_config
  unfolding conclude
  conclude-IsValid unix_now s (err message) h v = v
  conclude-IsValid unix_now s (ok (loaded, token)) h v =
      reloadable_config-IsValid s.live_config loaded v (h loaded token refl)

abbrev with_token : Config → Option String → Loaded
with_token c token = ok (c, token)

same_config :
    (reading : Result String (Option String)) (c loaded : Config) (token : Option String)
    → IsValid c
    → (reading >>= with_token c) ≡ with_token loaded token
    → IsValid loaded
same_config (err message) c loaded token v h = cc
same_config (ok t) c loaded token v h = let e : c ≡ loaded = ground (arith, h) in subst IsValid e v

module _ (read_to_string : String → Option String) (from_str : String → Option Config)
    (env : String → Option String) where
  -- the checks behind the reading of the file
  abbrev checks : Config → Loaded
  checks c = do validate_config c; token ← load_mcp_bearer_token env c; ok (c, token)

  checked :
      (loading : Result String Config) (loaded : Config) (token : Option String)
      → (loading >>= checks) ≡ with_token loaded token
      → IsValid loaded
  checked (err message) loaded token h = cc
  checked (ok c) loaded token h =
      let reading = load_mcp_bearer_token env c in
      let parts =
        (>>-eq-ok_iff (validate_config c) (reading >>= with_token c) (loaded, token)).0 h in
      same_config reading c loaded token ((validate_config_iff c).0 parts.0) parts.1

  pub load_checked-IsValid :
      (path : String) (loaded : Config) (token : Option String)
      → load_checked read_to_string from_str env path ≡ ok (loaded, token)
      → IsValid loaded
  unfolding load_checked
  load_checked-IsValid path = checked (load_config read_to_string from_str path)

  -- A reload, whether it succeeds or fails, keeps a sound state sound: the live configuration is one
  -- that `validate_config` accepts, the registry has its servers with their configurations and no
  -- others, and each of them, and no other, has a managing task.
  pub reload_config-IsSound :
      {V : Type 0} (unix_now : ℕ) (s : AppState V)
      → IsSound s
      → IsSound (reload_config read_to_string from_str env unix_now s).1
  unfolding reload_config
  reload_config-IsSound unix_now s d =
      let result = load_checked read_to_string from_str env s.config_path in
      record {
        valid = conclude-IsValid unix_now s result (load_checked-IsValid s.config_path) d.valid;
        entries = reload_config-Follows read_to_string from_str env unix_now s d.entries;
        tasks = conclude-IsManaged unix_now s result d.tasks;
      }
