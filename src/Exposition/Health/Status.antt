-- ===== src/Exposition/Health/Status.antt =====
-- src/metrics.rs: what the health page says.
use mcpstead.Base.{
  ℕ, String, Bool, true, false, List, [], ◌∷◌, ◌≡◌, ◌↔◌, refl, arith, All, map, ap, if◌then◌else◌,
}
use mcpstead.State.App.{AppState, ManagedServer}
use mcpstead.Exposition.Health.{HealthServer, health_server, health_servers, health}

abbrev label : Bool → String
label b = if b then "degraded" else "ok"

status_iff : (b : Bool) → (label b ≡ "ok") ↔ (b ≡ false)
status_iff true = (λ h. cc, λ h. cc)
status_iff false = (λ _. refl, λ _. refl)

module _ {V : Type 0} where
  abbrev pub IsUp : String × ManagedServer V → Type 0
  IsUp (name, server) = server.connected ≡ true

  degraded_iff :
      (now : ℕ) (m : List (String × ManagedServer V)) (b : Bool)
      → ((health_servers now m b).0 ≡ false) ↔ ((b ≡ false) × All IsUp m)
  unfolding health_servers
  degraded_iff now [] b = ground arith
  degraded_iff now ((name, server) ∷ rest) b =
      ground (arith, degraded_iff now rest (if server.connected then b else true))

  servers-map :
      (now : ℕ) (m : List (String × ManagedServer V)) (b : Bool)
      → (health_servers now m b).1 ≡ map (λ e. health_server now e.0 e.1) m
  unfolding health_servers
  servers-map now [] b = refl
  servers-map now ((name, server) ∷ rest) b =
      ap (λ (r : List HealthServer). health_server now name server ∷ r)
        (servers-map now rest (if server.connected then b else true))

  -- The health page says "ok" exactly when every server is connected, and lists each server once, in
  -- the order of the registry.
  pub health_iff :
      (now : ℕ) (s : AppState V)
      → (((health now s).status ≡ "ok") ↔ All IsUp s.registry)
        × ((health now s).servers ≡ map (λ e. health_server now e.0 e.1) s.registry)
  unfolding health
  health_iff now s =
      let degraded = (health_servers now s.registry false).0 in
      let up : (label degraded ≡ "ok") ↔ All IsUp s.registry = (
        λ h. ((degraded_iff now s.registry false).0 ((status_iff degraded).0 h)).1,
        λ h. (status_iff degraded).1 ((degraded_iff now s.registry false).1 (refl, h)),
      ) in
      (up, servers-map now s.registry false)
