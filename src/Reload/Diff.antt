-- ===== src/Reload/Diff.antt =====
-- src/reload.rs: what a reload makes of each server, told by its name alone.
pub mod Summary
use mathlib.Core.Option
use mcpstead.Base.{
  ℕ, ◌+◌, ◌≡◌, refl, ◌∙◌, String, Bool, true, false, Option, none, some, List, [], ◌∷◌, arith,
  if◌then◌else◌, str_eq, eq_iff, eq_refl, any, map, is_some, Bool-cases, inl, inr, ap,
}
use mathlib.Core.Path.{subst}
use text.Mathlib.Text.{◌==◌}
use mcpstead.Base.Dict.{string_key, get, insert, remove, adjust, keys, IsDistinct, collect}
use mcpstead.Base.Dict.Laws.{get-insert, get-remove, get-adjust, IsDistinct-collect}
use mcpstead.Config.{Config, ServerConfig}
use mcpstead.Config.Equality.{same_server, requires_fresh_upstream_session}
use mcpstead.State.App.{AppState, ManagedServer, new_server}
use mcpstead.Upstream.Registry.{
  abort_server_manager, spawn_server_manager, drop_upstream_session_reset_lock,
}
use mcpstead.Reload.{
  ReloadSummary, ServerMap, named, servers_by_name, remove_old, remove_all, apply_new, apply_all,
  apply_upstream_diff, no_changes,
}

-- the keys of a map are the names that it finds
pub any-keys :
    (id : String) (m : ServerMap) → any (λ name. str_eq name id) (keys m) ≡ is_some (get id m)
unfolding get
any-keys id [] = refl
any-keys id ((name, server) ∷ m) = ground (arith, any-keys id m)

pub servers_by_name-IsDistinct : (config : Config) → IsDistinct (servers_by_name config)
unfolding servers_by_name
servers_by_name-IsDistinct config = IsDistinct-collect [] (map named config.servers) tt

module _ {V : Type 0} where
  abbrev pub reconfigured : ServerConfig → ManagedServer V → ManagedServer V
  reconfigured new server = record server { config = new }

  -- the entry of a server that the new configuration names
  abbrev pub updated :
      ServerConfig → Option ServerConfig → Option (ManagedServer V) → Option (ManagedServer V)
  updated new none entry = some (new_server new)
  updated new (some old) entry =
      if same_server old new
      then entry
      else if requires_fresh_upstream_session old new
      then some (new_server new)
      else Option.map (reconfigured new) entry

  -- the entry that a reload should leave: by the server's old configuration, its new one, and its
  -- entry before
  abbrev pub desired :
      Option ServerConfig
      → Option ServerConfig
      → Option (ManagedServer V)
      → Option (ManagedServer V)
  desired none none entry = entry
  desired (some _) none entry = none
  desired old (some new) entry = updated new old entry

  registry-abort :
      (name : String) (s : AppState V) → (abort_server_manager name s).registry ≡ s.registry
  unfolding abort_server_manager
  registry-abort name s = ground arith

  get-apply_new :
      (name id : String) (new : ServerConfig) (old : Option ServerConfig) (s : AppState V)
      (summary : ReloadSummary)
      → get id (apply_new name new old (s, summary)).0.registry
        ≡ (if str_eq name id then updated new old (get id s.registry) else get id s.registry)
  unfolding apply_new spawn_server_manager drop_upstream_session_reset_lock
  get-apply_new name id new none s summary = get-insert name id (new_server new) s.registry
  get-apply_new name id new (some old) s summary = ground (
    arith,
    get-insert name id (new_server new) (abort_server_manager name s).registry,
    registry-abort name s,
    get-adjust name id (reconfigured new) s.registry,
  )

  -- what the first loop makes of an entry: the servers that the new configuration lacks go
  abbrev dropped : ServerMap → String → String → Option (ManagedServer V) → Option (ManagedServer V)
  dropped news name id entry = elim (get name news) [
    | none ↦ if str_eq name id then none else entry
    | some _ ↦ entry
  ]

  get-remove_old :
      (news : ServerMap) (name id : String) (s : AppState V) (summary : ReloadSummary)
      → get id (remove_old news name (s, summary)).0.registry
        ≡ dropped news name id (get id s.registry)
  unfolding remove_old drop_upstream_session_reset_lock
  get-remove_old news name id s summary =
      ground
        (arith, registry-abort name s, get-remove name id (abort_server_manager name s).registry)

  abbrev left : Bool → Option ServerConfig → Option (ManagedServer V) → Option (ManagedServer V)
  left was_old none entry = if was_old then none else entry
  left was_old (some _) entry = entry

  get-remove_all :
      (news : ServerMap) (names : List String) (id : String) (s : AppState V)
      (summary : ReloadSummary)
      → get id (remove_all news names (s, summary)).0.registry
        ≡ left (any (λ name. str_eq name id) names) (get id news) (get id s.registry)
  unfolding remove_all
  get-remove_all news [] id s summary = ground arith
  get-remove_all news (name ∷ names) id s summary =
      let c = remove_old news name (s, summary) in
      ground (
        arith,
        eq_iff name id,
        get-remove_old news name id s summary,
        get-remove_all news names id c.0 c.1,
      )

  abbrev applied :
      Option ServerConfig
      → Option ServerConfig
      → Option (ManagedServer V)
      → Option (ManagedServer V)
  applied old none entry = entry
  applied old (some new) entry = updated new old entry

  get-apply_all :
      (olds news : ServerMap) (id : String) (s : AppState V) (summary : ReloadSummary)
      → IsDistinct news
      → get id (apply_all olds news (s, summary)).0.registry
        ≡ applied (get id olds) (get id news) (get id s.registry)
  unfolding apply_all get
  get-apply_all olds [] id s summary d = refl
  get-apply_all olds ((name, new) ∷ rest) id s summary d =
      let c = apply_new name new (get name olds) (s, summary) in
      let here = get-apply_new name id new (get name olds) s summary in
      let later = get-apply_all olds rest id c.0 c.1 d.1 in
      elim (Bool-cases (str_eq name id)) [
        | inl same ↦
            let e : name ≡ id = (eq_iff name id).0 same in
            let absent : get id rest ≡ none = subst (λ (i : String). get i rest ≡ none) e d.0 in
            rw (same, ◌==◌)
              (later
                ∙ rw absent (
                    (here ∙ rw same)
                    ∙ ap (λ (i : String). updated new (get i olds) (get id s.registry)) e))
        | inr other ↦ rw other (later ∙ ap (applied (get id olds) (get id rest)) (here ∙ rw other))
      ]

  -- the first loop and then the second make what is desired
  desired-applied :
      (old new : Option ServerConfig) (entry : Option (ManagedServer V))
      → applied old new (left (is_some old) new entry) ≡ desired old new entry
  desired-applied none none entry = refl
  desired-applied (some old) none entry = refl
  desired-applied none (some new) entry = refl
  desired-applied (some old) (some new) entry = refl

  -- After the servers' part of a reload each name has the entry that is desired of it: removed if
  -- the new configuration lacks it, fresh if it is new or its endpoint or authentication changed,
  -- untouched if its configuration is the same, and otherwise the same entry, its session and tools
  -- included, under the new configuration.
  pub get-apply_upstream_diff :
      (s : AppState V) (old new : Config) (id : String)
      → get id (apply_upstream_diff s old new).0.registry
        ≡ desired (get id (servers_by_name old)) (get id (servers_by_name new)) (get id s.registry)
  unfolding apply_upstream_diff
  get-apply_upstream_diff s old new id =
      let olds = servers_by_name old in
      let news = servers_by_name new in
      let c = remove_all news (keys olds) (s, no_changes) in
      get-apply_all olds news id c.0 c.1 (servers_by_name-IsDistinct new)
      ∙ ap (applied (get id olds) (get id news)) (
          get-remove_all news (keys olds) id s no_changes
          ∙ ap (λ (b : Bool). left b (get id news) (get id s.registry)) (any-keys id olds))
      ∙ desired-applied (get id olds) (get id news) (get id s.registry)
