-- ===== src/Gateway/Run/Steady.antt =====
-- src/main.rs: what stays as it was at the start, in every run of the gateway.
use mcpstead.Base.{ℕ, ◌≡◌, refl, ◌∙◌, String, Option}
use mcpstead.Config.{Config}
use mcpstead.Json.{Json}
use mcpstead.State.App.{AppState}
use mcpstead.Upstream.Host.{World}
use mcpstead.Upstream.Kept.Ignored.{IgnoresSessions, IgnoresSessions-IsKept}
use mcpstead.Reload.{reload_config}
use mcpstead.Reload.Follows.{IsFrozen, reload_config-IsFrozen}
use mcpstead.Reload.Kept.{KeptByDiff, reload_config_kept}
use mcpstead.Gateway.Others.{Interleaves, Interleaves-Keeps}
use mcpstead.Gateway.Routes.{Outside}
use mcpstead.Gateway.Run.{GatewayRun, GatewayRun_kept}

-- the settings that the tasks use, the path of the file and the instants of the start
abbrev pub Settings : Type 0
Settings = ℕ × ℕ × ℕ × String × ℕ × ℕ

abbrev pub settings_of : {V : Type 0} → AppState V → Settings
settings_of s = (
  s.session_idle_ttl, s.session_gc_interval, s.session_shutdown_grace, s.config_path, s.start,
  s.start_unix_seconds,
)

-- the settings are those of the first state, and so is what a reload may not change
pub record IsSteady {V : Type 0} (s t : AppState V) : Type 0 where
  pub settings : settings_of t ≡ settings_of s
  pub frozen : IsFrozen s.live_config t.live_config

IsFrozen-trans : {a b c : Config} → IsFrozen a b → IsFrozen b c → IsFrozen a c
IsFrozen-trans p q = record {
  host = q.host ∙ p.host;
  port = q.port ∙ p.port;
  logging = q.logging ∙ p.logging;
  session = q.session ∙ p.session;
}

module _ (V : Type 0) (s : AppState V) where
  settings_kept : KeptByDiff (λ (t : AppState V). settings_of t ≡ settings_of s)
  settings_kept = record {
    metrics = λ f t e h. h;
    tasks = λ handles log t h. h;
    locks = λ locks t h. h;
    put = λ name server t h. h;
    taken = λ name t h. h;
    changed = λ name f t h. h;
    configured = λ config auth enabled t h. h;
  }

  IsSteady-Ignores : IgnoresSessions (IsSteady s)
  IsSteady-Ignores = record {
    sessions = λ sessions metrics t h. record { settings = h.settings; frozen = h.frozen };
    accepting = λ open_still t h. record { settings = h.settings; frozen = h.frozen };
    locks = λ locks made t h. record { settings = h.settings; frozen = h.frozen };
    server = λ name f t e h. record { settings = h.settings; frozen = h.frozen };
  }

module _ (j : Json) (o : Outside (j.Value)) (i : Interleaves o.from_str o.env o.host)
    (w v : World j.Value) where
  reload_kept :
      (read_to_string : String → Option String) (unix_now : ℕ) (t : AppState j.Value)
      → IsSteady w.app t
      → IsSteady w.app (reload_config read_to_string o.from_str o.env unix_now t).1
  reload_kept read_to_string unix_now t h = record {
    settings =
        reload_config_kept (λ (u : AppState j.Value). settings_of u ≡ settings_of w.app)
          (settings_kept j.Value w.app) read_to_string o.from_str o.env unix_now t h.settings;
    frozen =
        IsFrozen-trans h.frozen (reload_config-IsFrozen read_to_string o.from_str o.env unix_now t);
  }

  -- In every run of the gateway, whatever the files hold at each reload and whatever changes other tasks
  -- make while a step waits, the address, the logging and the session settings of the live
  -- configuration stay as they are, and so do the times that the tasks use for the sessions, the path
  -- of the configuration and the instants of the start. The sweep of a shutdown in the run is not cut
  -- off between taking the sessions and recording their ends.
  pub GatewayRun-IsSteady : GatewayRun j o w v → IsSteady w.app v.app
  GatewayRun-IsSteady run =
      let kept = IgnoresSessions-IsKept (IsSteady w.app) (IsSteady-Ignores j.Value w.app) in
      GatewayRun_kept j o (IsSteady w.app) kept
        (Interleaves-Keeps o.from_str o.env (IsSteady w.app) kept reload_kept o.host i) reload_kept
        run
        (record {
          settings = refl;
          frozen = record { host = refl; port = refl; logging = refl; session = refl };
        })
