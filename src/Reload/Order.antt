-- ===== src/Reload/Order.antt =====
-- src/reload.rs: the order in which a configuration lists its servers does not matter.
use mathlib.Core.Path.{subst}
use mcpstead.Base.{
  ◌≡◌, ◌≢◌, ◌↔◌, refl, ◌∙◌, ap, sym, String, Option, none, some, List, [], ◌∷◌, map, arith,
  if◌then◌else◌, str_eq, eq_iff, IsIn, Option-cases, Bool-cases, inl, inr, is_some,
}
use mcpstead.Base.Dict.{string_key, get, collect, insert}
use mcpstead.Base.Dict.Laws.{get-insert}
use mcpstead.Config.{Config, ServerConfig}
use mcpstead.Config.Validate.Valid.{IsValid, AllUsable, NotIn}
use mcpstead.State.App.{AppState}
use mcpstead.Reload.{ServerMap, named, servers_by_name, apply_upstream_diff}
use mcpstead.Reload.Diff.{desired, get-apply_upstream_diff}
use mcpstead.Reload.Managed.{runs, IsManaged, apply_upstream_diff-IsManaged}

-- the first server with the name
unfoldable lookup : String → List ServerConfig → Option ServerConfig
lookup id [] = none
lookup id (s ∷ rest) = let later = lookup id rest in if str_eq s.name id then some s else later

abbrev or_found : Option ServerConfig → Option ServerConfig → Option ServerConfig
or_found none entry = entry
or_found (some s) entry = some s

or_found-none : (found : Option ServerConfig) → or_found found none ≡ found
or_found-none none = refl
or_found-none (some s) = refl

named_apart : (n x : String) (names : List String) → IsIn n names → NotIn names x → n ≢ x
named_apart n x [] i p = absurd i
named_apart n x (name ∷ names) i p = elim i [
  | inl e ↦ λ (h : n ≡ x). p.0 (e ∙ h)
  | inr later ↦ named_apart n x names later p.1
]

-- a name that was there before is not among the servers
lookup-none :
    (id : String) (names : List String) (servers : List ServerConfig)
    → IsIn id names
    → AllUsable names servers
    → lookup id servers ≡ none
unfolding lookup
lookup-none id names [] i u = refl
lookup-none id names (s ∷ rest) i u = ground (
  arith,
  eq_iff s.name id,
  named_apart id s.name names i u.1,
  lookup-none id (s.name ∷ names) rest (inr i) u.2,
)

get-collect :
    (id : String) (names : List String) (servers : List ServerConfig) (m : ServerMap)
    → AllUsable names servers
    → get id (collect m (map named servers)) ≡ or_found (lookup id servers) (get id m)
unfolding collect lookup
get-collect id names [] m u = refl
get-collect id names (s ∷ rest) m u =
    let later = get-collect id (s.name ∷ names) rest (insert s.name s m) u.2 in
    elim (Bool-cases (str_eq s.name id)) [
      | inl same ↦
          let e = (eq_iff s.name id).0 same in
          let gone = lookup-none id (s.name ∷ names) rest (inl e) u.2 in
          ground (arith, later, gone, get-insert s.name id s m, same)
      | inr other ↦ ground (arith, later, get-insert s.name id s m, other)
    ]

lookup-IsIn :
    (id : String) (x : ServerConfig) (servers : List ServerConfig)
    → lookup id servers ≡ some x
    → IsIn x servers × (x.name ≡ id)
unfolding lookup
lookup-IsIn id x [] h = cc
lookup-IsIn id x (s ∷ rest) h = elim (Bool-cases (str_eq s.name id)) [
  | inl same ↦
      let found : s ≡ x = ground (arith, h, same) in
      (inl found, ap (λ (c : ServerConfig). c.name) (sym found) ∙ (eq_iff s.name id).0 same)
  | inr other ↦
      let found : lookup id rest ≡ some x = ground (arith, h, other) in
      let later = lookup-IsIn id x rest found in (inr later.0, later.1)
]

IsIn-lookup :
    (x : ServerConfig) (names : List String) (servers : List ServerConfig)
    → AllUsable names servers
    → IsIn x servers
    → lookup x.name servers ≡ some x
unfolding lookup
IsIn-lookup x names [] u i = absurd i
IsIn-lookup x names (s ∷ rest) u i = elim i [
  | inl e ↦
      let same = (eq_iff s.name x.name).1 (ap (λ (c : ServerConfig). c.name) e) in
      rw same (ap some e)
  | inr later ↦
      let found = IsIn-lookup x (s.name ∷ names) rest u.2 later in
      elim (Bool-cases (str_eq s.name x.name)) [
        | inl same ↦
            let gone =
              lookup-none x.name (s.name ∷ names) rest (inl ((eq_iff s.name x.name).0 same)) u.2 in
            cc
        | inr other ↦ rw other found
      ]
]

abbrev found_by : Config → String → Option ServerConfig
found_by c id = lookup id c.servers

get-servers_by_name :
    (c : Config) (id : String) → IsValid c → get id (servers_by_name c) ≡ found_by c id
unfolding servers_by_name get
get-servers_by_name c id v =
    get-collect id [] c.servers [] v.servers ∙ or_found-none (found_by c id)

-- two configurations list the same servers, in whatever order
abbrev pub SameServers : Config → Config → Type 0
SameServers a b = (x : ServerConfig) → IsIn x a.servers ↔ IsIn x b.servers

found_alike :
    (a b : Config) (id : String) (x : ServerConfig)
    → IsValid b
    → SameServers a b
    → found_by a id ≡ some x
    → found_by b id ≡ some x
found_alike a b id x v same h =
    let i = lookup-IsIn id x a.servers h in
    subst (λ (k : String). lookup k b.servers ≡ some x) i.1
      (IsIn-lookup x [] b.servers v.servers ((same x).0 i.0))

same_found :
    (a b : Config) (id : String)
    → IsValid a
    → IsValid b
    → SameServers a b
    → found_by a id ≡ found_by b id
same_found a b id va vb same = elim (Option-cases (found_by a id)) [
  | inr (x, e) ↦ e ∙ sym (found_alike a b id x vb same e)
  | inl e ↦ elim (Option-cases (found_by b id)) [
    | inl f ↦ e ∙ sym f
    | inr (y, f) ↦ let g = found_alike b a id y va (λ x. ((same x).1, (same x).0)) f in cc
  ]
]

same_map :
    (a b : Config) (id : String)
    → IsValid a
    → IsValid b
    → SameServers a b
    → get id (servers_by_name a) ≡ get id (servers_by_name b)
same_map a b id va vb same =
    get-servers_by_name a id va ∙ same_found a b id va vb same ∙ sym (get-servers_by_name b id vb)

-- The order of the servers in a configuration does not matter: where two valid configurations list
-- the same servers, a reload to the one and a reload to the other leave the same entry, and the same
-- answer to whether there is a managing task, for each name. It needs tasks that agree with the old
-- configuration.
pub apply_upstream_diff-order :
    {V : Type 0} (s : AppState V) (old a b : Config) (id : String)
    → IsManaged s old
    → IsValid a
    → IsValid b
    → SameServers a b
    → (get id (apply_upstream_diff s old a).0.registry
        ≡ get id (apply_upstream_diff s old b).0.registry)
      × (runs id (apply_upstream_diff s old a).0 ≡ runs id (apply_upstream_diff s old b).0)
apply_upstream_diff-order s old a b id m va vb same =
    let e = same_map a b id va vb same in
    (
      get-apply_upstream_diff s old a id
          ∙ ap
              (λ (new : Option ServerConfig).
                desired (get id (servers_by_name old)) new (get id s.registry))
              e
          ∙ sym (get-apply_upstream_diff s old b id),
      (apply_upstream_diff-IsManaged s old a m).at id
          ∙ ap is_some e
          ∙ sym ((apply_upstream_diff-IsManaged s old b m).at id),
    )
