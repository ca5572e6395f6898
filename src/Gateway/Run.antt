-- ===== src/Gateway/Run.antt =====
-- src/main.rs: the running gateway as a state machine. A request, a round of a task and a signal are
-- steps; what other steps do in the middle of one stands in the world that the host gives back.
pub mod Started
pub mod Tools
pub mod Steady
use mcpstead.Base.{
  ◌≢◌, refl, ℕ, ◌≡◌, refl, sym, arith, String, Option, none, some, List, [], ◌∷◌, Result, ok,
}
use mathlib.Core.Path.{subst}
use mcpstead.Json.{Json}
use mcpstead.Config.{Config}
use mcpstead.State.App.{AppState, build_state}
use mcpstead.State.Sessions.Accounting.{Balanced}
use mcpstead.Upstream.Host.{World}
use mcpstead.Upstream.Registry.{spawn_server_manager, server_names}
use mcpstead.Upstream.Kept.{IsFree, IsKept, Keeps}
use mcpstead.Upstream.Manager.{Manager, manage_round}
use mcpstead.Upstream.Manager.Kept.{Goes, manage_round_kept}
use mcpstead.Downstream.Serve.{set_app}
use mcpstead.Reload.{reload_config}
use mcpstead.Gateway.Startup.{startup, spawn_managers, spawn_all}
use mcpstead.Gateway.Startup.Served.{served}
use mcpstead.Gateway.Startup.Started.{startup_iff}
use mcpstead.Gateway.Tasks.{
  Sweep, before_sessions, before_metrics, gc_round, shutdown_signal, finished, timed_sweep,
}
use mcpstead.State.Sessions.{stop_accepting_new_sessions}
use mcpstead.Gateway.Routes.Kept.{KeptByReload, build_app-Behind}
use mcpstead.Gateway.Routes.{Request, Outside, build_app}

module _ (j : Json) (o : Outside (j.Value)) where
  -- what a request finds: the id that is made for it, and the files
  abbrev pub at_request : String → (String → Option String) → Outside (j.Value)
  at_request new_uuid read_to_string = record o {
    new_uuid = new_uuid;
    read_to_string = read_to_string;
  }

  -- A request comes with an id that no session has, while the counter of sessions has room. The files
  -- that a reload reads may be others at each step. The sweep of a shutdown comes to its end, or is
  -- cut off before it takes the sessions; one that is cut off between taking them and recording their
  -- ends is no step.
  pub data GatewayStep : World (j.Value) → World (j.Value) → Type 0 where
    requested :
        (new_uuid : String) (read_to_string : String → Option String) (request : Request)
        (w : World (j.Value))
        → IsFree new_uuid w.app
        → GatewayStep w (build_app j (at_request new_uuid read_to_string) request w).1
    collected : (w : World (j.Value)) → GatewayStep w (gc_round o.host w)
    hung_up :
        (read_to_string : String → Option String) (unix_now : ℕ) (w : World (j.Value))
        → GatewayStep w
            (set_app j w (reload_config read_to_string o.from_str o.env unix_now w.app).1)
    managed :
        (name : String) (m m' : Manager) (w w' : World (j.Value))
        → manage_round j o.host name m w ≡ some (m', w')
        → GatewayStep w w'
    shut_down :
        (sweep : Sweep) (now : ℕ) (w : World (j.Value))
        → sweep ≢ before_metrics
        → GatewayStep w (set_app j w (shutdown_signal sweep now w.app))

  pub data GatewayRun : World (j.Value) → World (j.Value) → Type 0 where
    here : {w : World (j.Value)} → GatewayRun w w
    next : {w v u : World (j.Value)} → GatewayRun w v → GatewayStep v u → GatewayRun w u

  module _ (P : AppState (j.Value) → Type 0) (kept : IsKept P) (keeps : Keeps P o.host)
      (reloaded : KeptByReload o P) where
    gc_round_kept : (w : World j.Value) → P w.app → P (gc_round o.host w).app
    unfolding gc_round
    gc_round_kept w b =
        let woken = o.host.sleep w.app.session_gc_interval w in
        kept.pruned woken.now woken.app (keeps.sleep w.app.session_gc_interval w b)

    shutdown_kept :
        (sweep : Sweep) (now : ℕ) (s : AppState j.Value)
        → sweep ≢ before_metrics
        → P s
        → P (shutdown_signal sweep now s)
    unfolding shutdown_signal timed_sweep
    shutdown_kept before_sessions now s whole b = kept.closed s b
    shutdown_kept before_metrics now s whole b = absurd (whole refl)
    shutdown_kept finished now s whole b =
        kept.swept now "gateway_shutdown" (stop_accepting_new_sessions s) (kept.closed s b)

    managed_kept :
        (m : Manager) (w : World j.Value) (r : Option (Manager × World j.Value))
        → r ≡ some (m, w)
        → Goes j o.host P kept keeps r
        → P w.app
    managed_kept m w none e b = cc
    managed_kept m w (some (m', w')) e b =
        let same : w' ≡ w = ground (arith, e) in subst (λ (v : World j.Value). P v.app) same b

    GatewayStep_kept : {w v : World j.Value} → GatewayStep w v → P w.app → P v.app
    GatewayStep_kept (requested new_uuid read_to_string request w f) b =
        build_app-Behind j (at_request new_uuid read_to_string) P kept keeps reloaded request w f b
    GatewayStep_kept (collected w) b = gc_round_kept w b
    GatewayStep_kept (hung_up read_to_string unix_now w) b =
        reloaded read_to_string unix_now w.app b
    GatewayStep_kept (managed name m m' w w' e) b =
        managed_kept m' w' (manage_round j o.host name m w) e
          (manage_round_kept j o.host P kept keeps name m w b)
    GatewayStep_kept (shut_down sweep now w whole) b = shutdown_kept sweep now w.app whole b

    pub GatewayRun_kept : {w v : World j.Value} → GatewayRun w v → P w.app → P v.app
    GatewayRun_kept here b = b
    GatewayRun_kept (next run step) b = GatewayStep_kept step (GatewayRun_kept run b)
