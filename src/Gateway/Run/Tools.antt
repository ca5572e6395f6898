-- ===== src/Gateway/Run/Tools.antt =====
-- src/downstream.rs and src/main.rs: in the running gateway, what is on the list of tools can be called.
use mcpstead.Base.{
  ℕ, ◌≡◌, ◌∙◌, ap, sym, String, true, false, Option, some, List, [], ◌∷◌, map, arith, All, IsIn,
  Result, ok, eq_iff, is_some,
}
use mcpstead.Base.Dict.Entries.{found_entries}
use mcpstead.Base.Dict.{string_key, get, collect, insert}
use mcpstead.Base.Dict.Laws.{get-insert}
use mcpstead.Base.Text.{contains}
use mcpstead.Base.Text.Split.{ends_with_underscore}
use mcpstead.Config.{ServerConfig}
use mcpstead.Config.Validate.Valid.{AllUsable}
use mcpstead.Json.{Json, JsonLaws}
use mcpstead.State.App.{AppState, ManagedServer}
use mcpstead.Upstream.Host.{World}
use mcpstead.Gateway.Others.{Interleaves}
use mcpstead.Downstream.Tools.{collect_tools}
use mcpstead.Downstream.Tools.Listed.{IsPlain, IsReached, collect_tools-called}
use mcpstead.Reload.{ServerMap, named, servers_by_name}
use mcpstead.Gateway.Startup.{startup}
use mcpstead.Gateway.Startup.Served.{is_some-config_of}
use mcpstead.Gateway.Healthy.{IsHealthy}
use mcpstead.Gateway.Routes.{Outside}
use mcpstead.Gateway.Run.{GatewayRun}
use mcpstead.Gateway.Run.Started.{startup-GatewayRun}

-- the name has no separator
abbrev IsWhole : String → Type 0
IsWhole name = contains name "__" ≡ false

usable_names :
    (names : List String) (servers : List ServerConfig)
    → AllUsable names servers
    → All (λ (s : ServerConfig). IsWhole s.name) servers
usable_names names [] u = tt
usable_names names (s ∷ rest) u = (u.0.no_separator, usable_names (s.name ∷ names) rest u.2)

-- the names of the collected servers are names of servers
collected_names :
    (id : String) (servers : List ServerConfig) (m : ServerMap)
    → All (λ (s : ServerConfig). IsWhole s.name) servers
    → (is_some (get id m) ≡ true → IsWhole id)
    → is_some (get id (collect m (map named servers))) ≡ true
    → IsWhole id
unfolding collect
collected_names id [] m u before h = before h
collected_names id (s ∷ rest) m u before h =
    collected_names id rest (insert s.name s m) u.1
      (λ found. ground (arith, get-insert s.name id s m, eq_iff s.name id, u.0, before, found)) h

module _ {V : Type 0} where
  -- the names of the registry of a well-formed state
  registered_name :
      (s : AppState V) (id : String) → IsHealthy s → is_some (get id s.registry) ≡ true → IsWhole id
  unfolding servers_by_name
  registered_name s id b found =
      collected_names id s.live_config.servers []
        (usable_names [] s.live_config.servers b.sound.valid.servers) (λ h. cc)
        (ap is_some (sym (b.sound.entries.at id)) ∙ is_some-config_of (get id s.registry) ∙ found)

  plain_names :
      (registry m : List (String × ManagedServer V))
      → ((id : String) → is_some (get id registry) ≡ true → IsWhole id)
      → All (λ e. get e.0 registry ≡ some e.1) m
      → All (λ e. ends_with_underscore e.0 ≡ false) m
      → All (λ e. IsPlain e.0) m
  plain_names registry [] whole found closed = tt
  plain_names registry ((name, server) ∷ m) whole found closed = (
    record { no_separator = whole name (ap is_some found.0); closed = closed.0 },
    plain_names registry m whole found.1 closed.1,
  )

module _ (j : Json) (laws : JsonLaws j) (o : Outside (j.Value))
    (i : Interleaves o.from_str o.env o.host) (build_clients : Result String (Unit {0}))
    {Addr : Type 0} (parse_addr : String → Option Addr) (bind : Addr → Result String (Unit {0}))
    (now unix_now : ℕ) (config_arg : Option String) (s : AppState j.Value) where
  -- In the running gateway, whatever steps it has taken since its start, each tool on the list is a tool
  -- of a connected server, and a call by the name on the list is one request to that server, in its
  -- session, for the tool under its own name with the call's arguments; the response has the result of
  -- that request or its error, under the call's id. It needs servers whose names do not end with an
  -- underscore, which the validation does not see to, and, where a shutdown was among the steps, a sweep
  -- that is not cut off between taking the sessions and recording their ends. While a step waits, the
  -- other tasks may do any of their changes, in any order.
  pub GatewayRun-collect_tools :
      (w : World j.Value) (listed id message params : j.Value)
      → startup o.read_to_string o.from_str o.env build_clients parse_addr bind now unix_now
          config_arg
        ≡ ok s
      → GatewayRun j o (record { app = s; now = now }) w
      → All (λ e. ends_with_underscore e.0 ≡ false) w.app.registry
      → IsIn listed (collect_tools j w.app.registry)
      → j.field "params" message ≡ some params
      → j.field "name" params ≡ j.field "name" listed
      → IsReached j laws o.host w listed id message params
  GatewayRun-collect_tools w listed id message params up run closed has_it has same =
      let b =
        startup-GatewayRun j o i build_clients parse_addr bind now unix_now config_arg s w up run in
      let found = found_entries w.app.registry b.tidy.distinct in
      let whole = λ (id : String). registered_name w.app id b in
      collect_tools-called j laws o.host w listed id message params b.tidy.distinct
        (plain_names w.app.registry w.app.registry whole found closed) has_it has same
