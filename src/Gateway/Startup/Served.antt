-- ===== src/Gateway/Startup/Served.antt =====
-- src/main.rs: the state that the process serves at first.
use mathlib.Core.Path.{subst}
use mcpstead.Base.{
  ℕ, ◌≡◌, refl, ◌∙◌, ap, sym, String, ◌||◌, Option, none, some, List, [], ◌∷◌, arith, any, is_some,
  str_eq,
}
use mcpstead.Base.Dict.{string_key, get, keys}
use mcpstead.Config.{Config}
use mcpstead.Config.Validate.Valid.{IsValid}
use mcpstead.State.App.{AppState, ManagedServer, build_state}
use mcpstead.Upstream.Registry.{config_of, server_names, spawn_server_manager}
use mcpstead.Reload.Follows.{Follows, build_state-Follows}
use mcpstead.Reload.Managed.{IsManaged, runs, runs-spawn}
use mcpstead.Reload.Sound.{IsSound}
use mcpstead.Gateway.Startup.{spawn_managers, spawn_all}

module _ {V : Type 0} where
  runs-spawn_managers :
      (id : String) (names : List String) (s : AppState V)
      → runs id (spawn_managers names s) ≡ (any (λ name. str_eq name id) names || runs id s)
  unfolding spawn_managers
  runs-spawn_managers id [] s = refl
  runs-spawn_managers id (name ∷ names) s =
      ground
        (arith, runs-spawn name id s, runs-spawn_managers id names (spawn_server_manager name s))

  any-keys_registry :
      (id : String) (m : List (String × ManagedServer V))
      → any (λ name. str_eq name id) (keys m) ≡ is_some (get id m)
  unfolding get
  any-keys_registry id [] = refl
  any-keys_registry id ((name, server) ∷ m) = ground (arith, any-keys_registry id m)

  registry-spawn_managers :
      (names : List String) (s : AppState V) → (spawn_managers names s).registry ≡ s.registry
  unfolding spawn_managers spawn_server_manager
  registry-spawn_managers [] s = refl
  registry-spawn_managers (name ∷ names) s =
      registry-spawn_managers names (spawn_server_manager name s)

  live_config-spawn_managers :
      (names : List String) (s : AppState V) → (spawn_managers names s).live_config ≡ s.live_config
  unfolding spawn_managers spawn_server_manager
  live_config-spawn_managers [] s = refl
  live_config-spawn_managers (name ∷ names) s =
      live_config-spawn_managers names (spawn_server_manager name s)

  pub is_some-config_of :
      (entry : Option (ManagedServer V)) → is_some (config_of entry) ≡ is_some entry
  is_some-config_of none = refl
  is_some-config_of (some server) = refl

  -- the state that `main` builds and gives its tasks
  abbrev pub served : ℕ → ℕ → Config → Option String → String → AppState V
  served now unix_now config token path = spawn_all (build_state now unix_now config token path)

  served-Follows :
      (now unix_now : ℕ) (config : Config) (token : Option String) (path : String)
      → Follows (served now unix_now config token path) config
  unfolding spawn_all
  served-Follows now unix_now config token path =
      let s = build_state {V = V} now unix_now config token path in
      record {
        at = λ id.
            ap (λ (m : List (String × ManagedServer V)). config_of (get id m))
              (registry-spawn_managers (server_names s) s)
            ∙ (build_state-Follows now unix_now config token path).at id;
      }

  served-IsManaged :
      (now unix_now : ℕ) (config : Config) (token : Option String) (path : String)
      → IsManaged (served now unix_now config token path) config
  unfolding spawn_all server_names build_state get
  served-IsManaged now unix_now config token path =
      let s = build_state {V = V} now unix_now config token path in
      let f = build_state-Follows {V = V} now unix_now config token path in
      record {
        at = λ id. ground (
          arith,
          runs-spawn_managers id (server_names s) s,
          any-keys_registry id s.registry,
          is_some-config_of (get id s.registry),
          f.at id,
        );
      }

served-live_config :
    (V : Type 0) (now unix_now : ℕ) (config : Config) (token : Option String) (path : String)
    → (served {V = V} now unix_now config token path).live_config ≡ config
unfolding spawn_all build_state
served-live_config V now unix_now config token path =
    let s = build_state {V = V} now unix_now config token path in
    live_config-spawn_managers (server_names s) s

pub served-IsSound :
    (V : Type 0) (now unix_now : ℕ) (config : Config) (token : Option String) (path : String)
    → IsValid config
    → IsSound (served {V = V} now unix_now config token path)
served-IsSound V now unix_now config token path v =
    let e = sym (served-live_config V now unix_now config token path) in
    let s : AppState V = served now unix_now config token path in
    record {
      valid = subst IsValid e v;
      entries = subst (Follows s) e (served-Follows now unix_now config token path);
      tasks = subst (IsManaged s) e (served-IsManaged now unix_now config token path);
    }
