-- ===== src/Gateway/Run/Started.antt =====
-- src/main.rs: the state of the running gateway is well-formed, from the start of the process on.
use mcpstead.Base.{ℕ, ◌≡◌, refl, sym, arith, String, Option, List, [], ◌∷◌, Result, ok, map}
use mathlib.Core.Path.{subst}
use mcpstead.Base.Dict.{string_key}
use mcpstead.Base.Dict.Laws.{IsDistinct-collect}
use mcpstead.Config.{Config}
use mcpstead.Json.{Json}
use mcpstead.State.App.{AppState, build_state, registry_entry}
use mcpstead.State.Sessions.Accounting.{Balanced}
use mcpstead.Upstream.Host.{World}
use mcpstead.Gateway.Others.{Interleaves, Interleaves-Keeps}
use mcpstead.Upstream.Registry.{spawn_server_manager, server_names}
use mcpstead.Reload.Kept.{spawn_kept}
use mcpstead.Gateway.Startup.{startup, spawn_managers, spawn_all}
use mcpstead.Gateway.Startup.Served.{served}
use mcpstead.Gateway.Startup.Started.{startup_iff, startup-IsSound}
use mcpstead.Gateway.Healthy.{IsHealthy, IsHealthy-IsKept, reload_config-IsHealthy}
use mcpstead.Gateway.Healthy.Parts.{IsTidy, Balanced-KeptByDiff, IsTidy-KeptByDiff}
use mcpstead.Gateway.Routes.{Outside}
use mcpstead.Gateway.Run.{GatewayRun, GatewayRun_kept}

module _ {V : Type 0} (P : AppState V → Type 0)
    (spawned : (name : String) (s : AppState V) → P s → P (spawn_server_manager name s)) where
  spawn_managers_kept : (names : List String) (s : AppState V) → P s → P (spawn_managers names s)
  unfolding spawn_managers
  spawn_managers_kept [] s b = b
  spawn_managers_kept (name ∷ names) s b =
      spawn_managers_kept names (spawn_server_manager name s) (spawned name s b)

module _ (V : Type 0) (now unix_now : ℕ) (config : Config) (token : Option String)
    (path : String) where
  served-Balanced : Balanced (served {V = V} now unix_now config token path)
  unfolding spawn_all build_state
  served-Balanced =
      let s = build_state {V = V} now unix_now config token path in
      spawn_managers_kept Balanced (spawn_kept Balanced (Balanced-KeptByDiff V)) (server_names s) s
        (record { distinct = tt; balance = refl; fits = omega arith })

  served-IsTidy : IsTidy (served {V = V} now unix_now config token path)
  unfolding spawn_all build_state
  served-IsTidy =
      let s = build_state {V = V} now unix_now config token path in
      spawn_managers_kept IsTidy (spawn_kept IsTidy (IsTidy-KeptByDiff V)) (server_names s) s
        (record { distinct = IsDistinct-collect [] (map registry_entry config.servers) tt })

module _ (j : Json) (o : Outside (j.Value)) (i : Interleaves o.from_str o.env o.host)
    (build_clients : Result String (Unit {0})) {Addr : Type 0} (parse_addr : String → Option Addr)
    (bind : Addr → Result String (Unit {0})) (now unix_now : ℕ) (config_arg : Option String)
    (s : AppState j.Value) where
  -- the process is up with the state
  abbrev pub IsUp : Type 0
  IsUp =
      startup o.read_to_string o.from_str o.env build_clients parse_addr bind now unix_now
        config_arg
      ≡ ok s

  started-IsHealthy : IsUp → IsHealthy s
  started-IsHealthy h =
      let d =
        (startup_iff o.read_to_string o.from_str o.env build_clients parse_addr bind j.Value now
            unix_now config_arg s).0
          h in
      record {
        books =
            subst Balanced (sym d.state)
              (served-Balanced j.Value now unix_now d.config d.token d.path);
        sound =
            startup-IsSound o.read_to_string o.from_str o.env build_clients parse_addr bind j.Value
              now unix_now config_arg s h;
        tidy =
            subst IsTidy (sym d.state) (served-IsTidy j.Value now unix_now d.config d.token d.path);
      }

  -- From the start of the process on, however requests on any route, rounds of the collecting and of
  -- the managing tasks, reloads on signals and a shutdown follow each other, the state is
  -- well-formed; but the sweep of the sessions at the shutdown, if its timeout cuts it off, is not cut
  -- off between taking the sessions and recording their ends. Each session that was opened is active or has been counted as terminated exactly
  -- once, and no id is active twice; the live configuration is one that `validate_config` accepts, the
  -- registry has its servers with their configurations, each once, and no others, and each of them,
  -- and no other, has a managing task. While a step waits for an upstream, for a lock or in a sleep,
  -- the other tasks may do any of their changes, in any order.
  pub startup-GatewayRun :
      (w : World j.Value)
      → startup o.read_to_string o.from_str o.env build_clients parse_addr bind now unix_now
          config_arg
        ≡ ok s
      → GatewayRun j o (record { app = s; now = now }) w
      → IsHealthy w.app
  startup-GatewayRun w h run =
      let kept = IsHealthy-IsKept j.Value in
      let by_reload = λ (read_to_string : String → Option String).
        reload_config-IsHealthy read_to_string o.from_str o.env in
      GatewayRun_kept j o IsHealthy kept
        (Interleaves-Keeps o.from_str o.env IsHealthy kept by_reload o.host i) by_reload run
        (started-IsHealthy h)
