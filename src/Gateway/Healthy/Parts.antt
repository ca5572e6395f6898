-- ===== src/Gateway/Healthy/Parts.antt =====
-- src/upstream.rs and src/reload.rs: the parts of what is well-formed, under the operations.
use mathlib.Core.Option
use mcpstead.Base.{
  ◌≡◌, ◌∙◌, refl, String, Option, none, some, Bool, true, false, if◌then◌else◌, ap, str_eq,
}
use mcpstead.Base.Dict.{string_key, get, IsDistinct}
use mcpstead.Base.Dict.Laws.{get-adjust, IsDistinct-adjust, IsDistinct-insert, IsDistinct-remove}
use mcpstead.State.App.{AppState, ManagedServer}
use mcpstead.State.Sessions.Accounting.{Balanced}
use mcpstead.Reload.Kept.{KeptByDiff}
use mcpstead.Reload.Sound.{IsSound}
use mcpstead.Upstream.Kept.{SameConfig}
use mcpstead.Upstream.Kept.Ignored.{IgnoresSessions}
use mcpstead.Upstream.Registry.{change_server, config_of}

module _ {V : Type 0} where
  -- no name is twice in the registry
  pub record IsTidy (s : AppState V) : Type 0 where
    pub distinct : IsDistinct s.registry

  config_of_changed :
      (here : Bool) (f : ManagedServer V → ManagedServer V) (entry : Option (ManagedServer V))
      → SameConfig f
      → config_of (if here then Option.map f entry else entry) ≡ config_of entry
  config_of_changed true f none same = refl
  config_of_changed true f (some server) same = ap some (same server)
  config_of_changed false f entry same = refl

  config_of-change_server :
      (name id : String) (f : ManagedServer V → ManagedServer V) (s : AppState V)
      → SameConfig f
      → config_of (get id (change_server name f s).registry) ≡ config_of (get id s.registry)
  config_of-change_server name id f s same =
      rw (get-adjust name id f s.registry)
        (config_of_changed (str_eq name id) f (get id s.registry) same)

module _ (V : Type 0) where
  pub IsSound-Ignores : IgnoresSessions {V = V} IsSound
  IsSound-Ignores = record {
    sessions = λ sessions metrics s d. record {
      valid = d.valid;
      entries = record { at = d.entries.at };
      tasks = record { at = d.tasks.at };
    };
    accepting = λ open_still s d. record {
      valid = d.valid;
      entries = record { at = d.entries.at };
      tasks = record { at = d.tasks.at };
    };
    locks = λ locks made s d. record {
      valid = d.valid;
      entries = record { at = d.entries.at };
      tasks = record { at = d.tasks.at };
    };
    server = λ name f s e d. record {
      valid = d.valid;
      entries = record { at = λ id. config_of-change_server name id f s e ∙ d.entries.at id };
      tasks = record { at = d.tasks.at };
    };
  }

  pub IsTidy-Ignores : IgnoresSessions {V = V} IsTidy
  IsTidy-Ignores = record {
    sessions = λ sessions metrics s d. record { distinct = d.distinct };
    accepting = λ open_still s d. record { distinct = d.distinct };
    locks = λ locks made s d. record { distinct = d.distinct };
    server = λ name f s e d. record { distinct = IsDistinct-adjust name f s.registry d.distinct };
  }

  pub IsTidy-KeptByDiff : KeptByDiff {V = V} IsTidy
  IsTidy-KeptByDiff = record {
    metrics = λ f s e d. record { distinct = d.distinct };
    tasks = λ handles log s d. record { distinct = d.distinct };
    locks = λ locks s d. record { distinct = d.distinct };
    put = λ name server s d. record {
      distinct = IsDistinct-insert name server s.registry d.distinct;
    };
    taken = λ name s d. record { distinct = IsDistinct-remove name s.registry d.distinct };
    changed = λ name f s d. record { distinct = IsDistinct-adjust name f s.registry d.distinct };
    configured = λ config auth enabled s d. record { distinct = d.distinct };
  }

  pub Balanced-KeptByDiff : KeptByDiff {V = V} Balanced
  Balanced-KeptByDiff = record {
    metrics = λ f s e b. record {
      distinct = b.distinct;
      balance = rw e.0 (rw e.1 b.balance);
      fits = rw e.1 b.fits;
    };
    tasks = λ handles log s b. record { distinct = b.distinct; balance = b.balance; fits = b.fits };
    locks = λ locks s b. record { distinct = b.distinct; balance = b.balance; fits = b.fits };
    put = λ name server s b. record { distinct = b.distinct; balance = b.balance; fits = b.fits };
    taken = λ name s b. record { distinct = b.distinct; balance = b.balance; fits = b.fits };
    changed = λ name f s b. record { distinct = b.distinct; balance = b.balance; fits = b.fits };
    configured = λ config auth enabled s b. record {
      distinct = b.distinct;
      balance = b.balance;
      fits = b.fits;
    };
  }
