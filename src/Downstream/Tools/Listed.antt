-- ===== src/Downstream/Tools/Listed.antt =====
-- src/downstream.rs: what the list of tools offers is what a call reaches.
use mcpstead.Base.{
  ℕ, String, true, false, Option, none, some, List, [], ◌∷◌, ◌≡◌, refl, ◌∙◌, ap, inl, inr, All,
  All-IsIn, IsIn, Result, ok, err, Bool-cases, unwrap_or,
}
use mcpstead.Base.Dict.Entries.{found_entries}
use mcpstead.Base.Dict.{string_key, get, IsDistinct}
use mcpstead.Base.Text.{contains}
use mcpstead.Base.Text.Split.{split_once-append, ends_with_underscore}
use mcpstead.Json.{Json, JsonLaws, object}
use mcpstead.State.App.{ManagedServer}
use mcpstead.Upstream.Classify.{UpstreamError, bind_option}
use mcpstead.Upstream.Host.{World, Host}
use mcpstead.Upstream.Request.{upstream_request}
use mcpstead.Downstream.Rpc.{json_rpc_result, json_rpc_error, jsonrpc_upstream_error}
use mcpstead.Downstream.Tools.{
  namespaced_tool, qualified, push_tool, tools_before, collect_tools, conclude_call, call_params,
  call_target, call_named, call_with, call_tool, get_call_target,
}
use mcpstead.Downstream.Tools.Names.{HasText, renamed_tool-name}

-- a name of a server that the split of a tool's name gives back
pub record IsPlain (server : String) : Type 0 where
  pub no_separator : contains server "__" ≡ false
  pub closed : ends_with_underscore server ≡ false

-- the name of an object
abbrev pub name_of : (j : Json) → j.Value → Option String
name_of j tool = bind_option (j.as_object tool) (λ map. bind_option (j.map_get "name" map) j.as_str)

module _ (j : Json) (laws : JsonLaws j) (h : Host (j.Value)) where
  -- the request that a call of a server's tool makes, and what the gateway makes of its outcome
  abbrev pub forwarded :
      String
      → ManagedServer j.Value
      → String
      → j.Value
      → j.Value
      → World j.Value
      → j.Value × World j.Value
  forwarded server entry name id arguments w = conclude_call j h id server name w.now (
      upstream_request j h entry.config entry.session_id id "tools/call"
        (call_params j h name arguments) w)

  -- what `call_tool` takes for the arguments
  abbrev pub arguments_of : j.Value → j.Value
  arguments_of params = unwrap_or (j.field "arguments" params) (object j [])

  -- A call by a full name goes to the server that the name begins with, if it is connected.
  pub call_tool-forwards :
      (server name : String) (entry : ManagedServer j.Value) (id message params : j.Value)
      (w : World j.Value)
      → IsPlain server
      → get server w.app.registry ≡ some entry
      → entry.connected ≡ true
      → j.field "params" message ≡ some params
      → HasText j "name" params (qualified server name)
      → call_tool j h id message w ≡ forwarded server entry name id (arguments_of params) w
  unfolding call_tool call_with call_named call_target get_call_target
  call_tool-forwards server name entry id message params w plain found connected has named =
      rw (has, call_tool)
        (rw (named, call_with)
          (rw (split_once-append server name plain.no_separator plain.closed, call_named)
            (rw found (rw connected refl))))

  -- what a response has to say of the outcome of the request to the upstream
  abbrev pub Relays : j.Value → Result UpstreamError (Option String × j.Value) → j.Value → Type 0
  Relays id (ok (_, result)) response = response ≡ json_rpc_result j id result
  Relays id (err e) response = response ≡ json_rpc_error j id jsonrpc_upstream_error e.message

  conclude_call-Relays :
      (id : j.Value) (server name : String) (started : ℕ)
      (r : Result UpstreamError (Option String × j.Value) × World j.Value)
      → Relays id r.0 (conclude_call j h id server name started r).0
  unfolding conclude_call
  conclude_call-Relays id server name started (ok (_, result), w) = refl
  conclude_call-Relays id server name started (err e, w) = refl

  -- a tool of a connected server, listed under the server's name
  pub record IsOffered (registry : List (String × ManagedServer j.Value)) (listed : j.Value)
      : Type 0 where
    pub server : String
    pub name : String
    pub tool : j.Value
    pub entry : ManagedServer j.Value
    pub plain : IsPlain server
    pub found : get server registry ≡ some entry
    pub connected : entry.connected ≡ true
    pub offered : IsIn tool entry.tools
    pub own_name : name_of j tool ≡ some name
    pub renamed : namespaced_tool j server tool ≡ some listed
    pub full_name : HasText j "name" listed (qualified server name)

  module _ (registry : List (String × ManagedServer j.Value)) (server : String)
      (entry : ManagedServer j.Value) (plain : IsPlain server)
      (found : get server registry ≡ some entry) (connected : entry.connected ≡ true) where
    push_tool-IsOffered :
        (tool : j.Value) (read : Option j.Map) (name : Option String) (later : List j.Value)
        → IsIn tool entry.tools
        → All (IsOffered registry) later
        → j.as_object tool ≡ read
        → name_of j tool ≡ name
        → All (IsOffered registry) (push_tool j (namespaced_tool j server tool) later)
    unfolding namespaced_tool
    push_tool-IsOffered tool none name later i h e n = rw e h
    push_tool-IsOffered tool (some map) none later i h e n =
        let unnamed : bind_option (j.map_get "name" map) j.as_str ≡ none = rw e at n in
        rw (e, unnamed) h
    push_tool-IsOffered tool (some map) (some name) later i h e n =
        let named : bind_option (j.map_get "name" map) j.as_str ≡ some name = rw e at n in
        rw (e, named)
          (
            record {
              server = server;
              name = name;
              tool = tool;
              entry = entry;
              plain = plain;
              found = found;
              connected = connected;
              offered = i;
              own_name = n;
              renamed = rw (e, named) refl;
              full_name = renamed_tool-name j laws server name map;
            },
            h,
          )

    tools_before-IsOffered :
        (tools later : List j.Value)
        → ((tool : j.Value) → IsIn tool tools → IsIn tool entry.tools)
        → All (IsOffered registry) later
        → All (IsOffered registry) (tools_before j server tools later)
    unfolding tools_before
    tools_before-IsOffered [] later i h = h
    tools_before-IsOffered (tool ∷ tools) later i h =
        push_tool-IsOffered tool (j.as_object tool) (name_of j tool)
          (tools_before j server tools later) (i tool (inl refl))
          (tools_before-IsOffered tools later (λ t m. i t (inr m)) h) refl refl

  collect_tools-IsOffered :
      (registry m : List (String × ManagedServer j.Value))
      → All (λ e. IsPlain e.0) m
      → All (λ e. get e.0 registry ≡ some e.1) m
      → All (IsOffered registry) (collect_tools j m)
  unfolding collect_tools
  collect_tools-IsOffered registry [] p f = tt
  collect_tools-IsOffered registry ((name, server) ∷ rest) p f =
      let later = collect_tools-IsOffered registry rest p.1 f.1 in
      elim (Bool-cases server.connected) [
        | inl on ↦ rw on (
            tools_before-IsOffered registry name server p.0 f.0 on server.tools
              (collect_tools j rest) (λ tool i. i) later)
        | inr off ↦ rw off later
      ]

  -- what a call of a listed tool comes to
  pub record IsReached (w : World j.Value) (listed id message params : j.Value) : Type 0 where
    pub offer : IsOffered w.app.registry listed
    pub called :
        call_tool j h id message w
        ≡ forwarded offer.server offer.entry offer.name id (arguments_of params) w
    pub relayed :
        Relays id
          (upstream_request j h offer.entry.config offer.entry.session_id id "tools/call"
            (call_params j h offer.name (arguments_of params))
            w).0
          (call_tool j h id message w).0

  -- Each tool on the list is a tool of a connected server under the server's name; and a call by
  -- the listed name, with any id and arguments, is one request to that server, in its session, for the
  -- tool under its own name with these arguments, and the response has the result of that request or
  -- its error under the call's id. It needs a registry without doubles, whose names are plain.
  pub collect_tools-called :
      (w : World j.Value) (listed id message params : j.Value)
      → IsDistinct w.app.registry
      → All (λ e. IsPlain e.0) w.app.registry
      → IsIn listed (collect_tools j w.app.registry)
      → j.field "params" message ≡ some params
      → j.field "name" params ≡ j.field "name" listed
      → IsReached w listed id message params
  collect_tools-called w listed id message params d p i has same =
      let offers =
        collect_tools-IsOffered w.app.registry w.app.registry p (found_entries w.app.registry d) in
      let o =
        All-IsIn (IsOffered w.app.registry) listed (collect_tools j w.app.registry) offers i in
      let named : HasText j "name" params (qualified o.server o.name) =
        ap (λ (v : Option j.Value). bind_option v j.as_str) same ∙ o.full_name in
      let called =
        call_tool-forwards o.server o.name o.entry id message params w o.plain o.found o.connected
          has named in
      record {
        offer = o;
        called = called;
        relayed = rw called (
            conclude_call-Relays id o.server o.name w.now (
              upstream_request j h o.entry.config o.entry.session_id id "tools/call"
                (call_params j h o.name (arguments_of params)) w));
      }
