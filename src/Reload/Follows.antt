-- ===== src/Reload/Follows.antt =====
-- src/reload.rs: the registry follows the live configuration, through every reload.
use mcpstead.Base.{
  ℕ, ◌≡◌, refl, ◌∙◌, ap, String, Option, none, some, List, [], ◌∷◌, arith, map, Result, ok, err,
  eq_iff,
}
use mcpstead.Base.Dict.{string_key, get, insert, collect}
use mcpstead.Base.Dict.Laws.{get-insert}
use mcpstead.Config.{Config, ServerConfig}
use mcpstead.Config.Equality.{same_server_iff, session_eq, session_iff, logging_eq, logging_iff}
use mcpstead.Base.Eq.{string_eq, nat_eq}
use mcpstead.State.App.{AppState, ManagedServer, new_server, registry_entry, build_state}
use mcpstead.Upstream.Registry.{config_of}
use mcpstead.Reload.{
  ServerMap, ReloadSummary, named, servers_by_name, apply_upstream_diff, reloadable_config,
  load_checked, conclude, reload_config,
}
use mcpstead.Reload.Diff.{desired, get-apply_upstream_diff}

module _ {V : Type 0} where
  -- each name is in the registry with the configuration that it has, and no other name is
  pub record Follows (s : AppState V) (config : Config) : Type 0 where
    pub at : (id : String) → config_of (get id s.registry) ≡ get id (servers_by_name config)

  config_of-desired :
      (old new : Option ServerConfig) (entry : Option (ManagedServer V))
      → config_of entry ≡ old
      → config_of (desired old new entry) ≡ new
  config_of-desired none none entry h = h
  config_of-desired (some old) none entry h = refl
  config_of-desired none (some new) entry h = refl
  config_of-desired (some old) (some new) none h = cc
  config_of-desired (some old) (some new) (some server) h = ground (arith, same_server_iff old new)

  apply_upstream_diff-Follows :
      (s : AppState V) (old new : Config)
      → Follows s old
      → Follows (apply_upstream_diff s old new).0 new
  apply_upstream_diff-Follows s old new f = record {
    at = λ id.
        ap config_of (get-apply_upstream_diff s old new id)
        ∙ config_of-desired (get id (servers_by_name old)) (get id (servers_by_name new))
            (get id s.registry) (f.at id);
  }

  insert_follows :
      (id : String) (server : ServerConfig) (m : List (String × ManagedServer V)) (n : ServerMap)
      → config_of (get id m) ≡ get id n
      → config_of (get id (insert server.name (new_server server) m))
        ≡ get id (insert server.name server n)
  insert_follows id server m n h =
      ground
        (arith, get-insert server.name id (new_server server) m, get-insert server.name id server n)

  collect_follows :
      (id : String) (servers : List ServerConfig) (m : List (String × ManagedServer V))
      (n : ServerMap)
      → ((k : String) → config_of (get k m) ≡ get k n)
      → config_of (get id (collect m (map registry_entry servers)))
        ≡ get id (collect n (map named servers))
  unfolding collect
  collect_follows id [] m n h = h id
  collect_follows id (server ∷ rest) m n h =
      collect_follows id rest (insert server.name (new_server server) m)
        (insert server.name server n) (λ k. insert_follows k server m n (h k))

  -- The first state follows the configuration that it is built from.
  pub build_state-Follows :
      (now unix_now : ℕ) (config : Config) (token : Option String) (path : String)
      → Follows (build_state {V = V} now unix_now config token path) config
  unfolding build_state servers_by_name get
  build_state-Follows now unix_now config token path = record {
    at = λ id. collect_follows id config.servers [] [] (λ k. refl);
  }

-- the settings that a reload leaves as they are
pub record IsFrozen (old new : Config) : Type 0 where
  pub host : new.host ≡ old.host
  pub port : new.port ≡ old.port
  pub logging : new.logging ≡ old.logging
  pub session : new.mcp.session ≡ old.mcp.session

reloadable_config-IsFrozen : (old new : Config) → IsFrozen old (reloadable_config old new)
unfolding reloadable_config
reloadable_config-IsFrozen old new = record {
  host = ground (arith, eq_iff old.host new.host);
  port = ground (arith, eq_iff old.host new.host);
  logging = ground (arith, logging_iff old.logging new.logging);
  session = ground (arith, session_iff old.mcp.session new.mcp.session);
}

abbrev pub Loaded : Type 0
Loaded = Result String (Config × Option String)

module _ {V : Type 0} where
  conclude-Follows :
      (unix_now : ℕ) (s : AppState V) (loaded : Loaded)
      → Follows s s.live_config
      → Follows (conclude unix_now s loaded).1 (conclude unix_now s loaded).1.live_config
  unfolding conclude
  conclude-Follows unix_now s (err message) f = record { at = f.at }
  conclude-Follows unix_now s (ok (loaded, token)) f =
      let new = reloadable_config s.live_config loaded in
      record { at = (apply_upstream_diff-Follows s s.live_config new f).at }

  conclude-IsFrozen :
      (unix_now : ℕ) (s : AppState V) (loaded : Loaded)
      → IsFrozen s.live_config (conclude unix_now s loaded).1.live_config
  unfolding conclude
  conclude-IsFrozen unix_now s (err message) = record {
    host = refl;
    port = refl;
    logging = refl;
    session = refl;
  }
  conclude-IsFrozen unix_now s (ok (loaded, token)) =
      reloadable_config-IsFrozen s.live_config loaded

module _ (read_to_string : String → Option String) (from_str : String → Option Config)
    (env : String → Option String) {V : Type 0} where
  abbrev pub reloaded : ℕ → AppState V → Result String ReloadSummary × AppState V
  reloaded = reload_config read_to_string from_str env

  -- If the registry follows the live configuration, it does so after a reload too, whether the
  -- reload succeeds or fails.
  pub reload_config-Follows :
      (unix_now : ℕ) (s : AppState V)
      → Follows s s.live_config
      → Follows (reloaded unix_now s).1 (reloaded unix_now s).1.live_config
  unfolding reload_config
  reload_config-Follows unix_now s =
      conclude-Follows unix_now s (load_checked read_to_string from_str env s.config_path)

  -- A reload never changes the address, the logging or the session settings of the live
  -- configuration.
  pub reload_config-IsFrozen :
      (unix_now : ℕ) (s : AppState V) → IsFrozen s.live_config (reloaded unix_now s).1.live_config
  unfolding reload_config
  reload_config-IsFrozen unix_now s =
      conclude-IsFrozen unix_now s (load_checked read_to_string from_str env s.config_path)
