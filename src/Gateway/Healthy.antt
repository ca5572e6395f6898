-- ===== src/Gateway/Healthy.antt =====
-- src/state.rs, src/upstream.rs and src/reload.rs: what is well-formed in the state of the running
-- gateway, and that all its operations keep it.
pub mod Parts
use mcpstead.Base.{ℕ, String, Option, none, ok, sym}
use mathlib.Core.Path.{subst}
use mcpstead.Base.Dict.{string_key, IsDistinct}
use mcpstead.Config.{Config}
use mcpstead.State.App.{AppState}
use mcpstead.State.Sessions.Accounting.{Balanced}
use mcpstead.Reload.{reload_config}
use mcpstead.Reload.Kept.{reload_config_kept}
use mcpstead.Reload.Sound.{IsSound, reload_config-IsSound}
use mcpstead.Upstream.Kept.{IsKept}
use mcpstead.Upstream.Kept.Books.{Balanced-IsKept}
use mcpstead.Upstream.Kept.Ignored.{IgnoresSessions-IsKept}
use mcpstead.Gateway.Healthy.Parts.{
  IsSound-Ignores, IsTidy, IsTidy-Ignores, Balanced-KeptByDiff, IsTidy-KeptByDiff,
}

-- the books of the sessions are in order, the live configuration, the registry and the tasks agree,
-- and the registry has no name twice
pub record IsHealthy {V : Type 0} (s : AppState V) : Type 0 where
  pub books : Balanced s
  pub sound : IsSound s
  pub tidy : IsTidy s

healthy : {V : Type 0} {s : AppState V} → Balanced s → IsSound s → IsTidy s → IsHealthy s
healthy b d t = record { books = b; sound = d; tidy = t }

pub IsHealthy-IsKept : (V : Type 0) → IsKept {V = V} IsHealthy
IsHealthy-IsKept V =
    let p = Balanced-IsKept V in
    let q = IgnoresSessions-IsKept IsSound (IsSound-Ignores V) in
    let r = IgnoresSessions-IsKept IsTidy (IsTidy-Ignores V) in
    record {
      metrics = λ f s e b.
          healthy (p.metrics f s e b.books) (q.metrics f s e b.sound) (r.metrics f s e b.tidy);
      server = λ name f s e b.
          healthy (p.server name f s e b.books) (q.server name f s e b.sound)
            (r.server name f s e b.tidy);
      reset_lock = λ name s b.
          healthy (p.reset_lock name s b.books) (q.reset_lock name s b.sound)
            (r.reset_lock name s b.tidy);
      touched = λ now id s b.
          healthy (p.touched now id s b.books) (q.touched now id s b.sound)
            (r.touched now id s b.tidy);
      opened = λ now id s f b.
          healthy (p.opened now id s f b.books) (q.opened now id s f b.sound)
            (r.opened now id s f b.tidy);
      ended = λ now id reason s b.
          healthy (p.ended now id reason s b.books) (q.ended now id reason s b.sound)
            (r.ended now id reason s b.tidy);
      pruned = λ now s b.
          healthy (p.pruned now s b.books) (q.pruned now s b.sound) (r.pruned now s b.tidy);
      closed = λ s b. healthy (p.closed s b.books) (q.closed s b.sound) (r.closed s b.tidy);
      swept = λ now reason s b.
          healthy (p.swept now reason s b.books) (q.swept now reason s b.sound)
            (r.swept now reason s b.tidy);
    }

module _ (read_to_string : String → Option String) (from_str : String → Option Config)
    (env : String → Option String) {V : Type 0} where
  pub reload_config-IsHealthy :
      (unix_now : ℕ) (s : AppState V)
      → IsHealthy s
      → IsHealthy (reload_config read_to_string from_str env unix_now s).1
  reload_config-IsHealthy unix_now s b =
      healthy
        (reload_config_kept Balanced (Balanced-KeptByDiff V) read_to_string from_str env unix_now s
          b.books)
        (reload_config-IsSound read_to_string from_str env unix_now s b.sound)
        (reload_config_kept IsTidy (IsTidy-KeptByDiff V) read_to_string from_str env unix_now s
          b.tidy)
