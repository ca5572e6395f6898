-- ===== src/Downstream/Message/Answers.antt =====
-- src/downstream.rs: requests and their answers.
use mcpstead.Base.{
  ℕ, String, false, Option, none, some, [], ◌∷◌, Result, ok, err, ◌≡◌, ◌≢◌, ◌⊎◌, inl, inr, refl,
  ◌∙◌, ap, Option-cases, Bool-cases, str_eq, if◌then◌else◌,
}
use mcpstead.Base.Int.{ℤ}
use mcpstead.Base.Eq.{◌=?◌, string_eq, =?_iff}
use mcpstead.Base.Text.{split_once}
use mcpstead.Json.{Json, JsonLaws, object}
use mcpstead.State.App.{ManagedServer}
use mcpstead.Upstream.Classify.{UpstreamError, bind_option}
use mcpstead.Upstream.Host.{World, Host}
use mcpstead.Downstream.Rpc.{json_rpc_result, json_rpc_error}
use mcpstead.Downstream.Tools.{conclude_call, call_target, call_named, call_with, call_tool}
use mcpstead.Downstream.Message.{run_method, handle_object, handle_message, is_text}

-- a JSON-RPC 2.0 response to the request with the id: a result or an error, and not both
pub record IsAnswer (j : Json) (id response : j.Value) : Type 0 where
  pub version : j.field "jsonrpc" response ≡ some (j.string "2.0")
  pub same_id : j.field "id" response ≡ some id
  pub one :
      ((result : j.Value) × (j.field "result" response ≡ some result)
        × (j.field "error" response ≡ none))
      ⊎ ((error : j.Value) × (j.field "error" response ≡ some error)
          × (j.field "result" response ≡ none))

module _ (j : Json) (laws : JsonLaws j) where
  -- a field of an object of three fields
  field-object :
      (key a b c : String) (x y z : j.Value)
      → j.field key (object j ((a, x) ∷ (b, y) ∷ (c, z) ∷ [])) ≡ (
          if str_eq c key
          then some z
          else if str_eq b key
          then some y
          else if str_eq a key
          then some x
          else none)
  field-object key a b c x y z =
      let m = j.map_insert a x j.map_new in
      laws.field-of_map key _
      ∙ laws.map_get-insert c key z (j.map_insert b y m)
      ∙ ap (λ (r : Option j.Value). if str_eq c key then some z else r)
          (laws.map_get-insert b key y m
            ∙ ap (λ (r : Option j.Value). if str_eq b key then some y else r)
                (laws.map_get-insert a key x j.map_new
                  ∙ ap (λ (r : Option j.Value). if str_eq a key then some x else r)
                      (laws.map_get-new key)))

  json_rpc_result-IsAnswer : (id result : j.Value) → IsAnswer j id (json_rpc_result j id result)
  unfolding json_rpc_result
  json_rpc_result-IsAnswer id result = record {
    version = field-object "jsonrpc" "jsonrpc" "id" "result" (j.string "2.0") id result;
    same_id = field-object "id" "jsonrpc" "id" "result" (j.string "2.0") id result;
    one = inl (
      result,
      field-object "result" "jsonrpc" "id" "result" (j.string "2.0") id result,
      field-object "error" "jsonrpc" "id" "result" (j.string "2.0") id result,
    );
  }

  json_rpc_error-IsAnswer :
      (id : j.Value) (code : ℤ) (message : String)
      → IsAnswer j id (json_rpc_error j id code message)
  unfolding json_rpc_error
  json_rpc_error-IsAnswer id code message =
      let error = object j (("code", j.int code) ∷ ("message", j.string message) ∷ []) in
      record {
        version = field-object "jsonrpc" "jsonrpc" "id" "error" (j.string "2.0") id error;
        same_id = field-object "id" "jsonrpc" "id" "error" (j.string "2.0") id error;
        one = inr (
          error,
          field-object "error" "jsonrpc" "id" "error" (j.string "2.0") id error,
          field-object "result" "jsonrpc" "id" "error" (j.string "2.0") id error,
        );
      }

  module _ (h : Host (j.Value)) (id : j.Value) where
    conclude_call-IsAnswer :
        (server tool : String) (started : ℕ)
        (r : Result UpstreamError (Option String × j.Value) × World j.Value)
        → IsAnswer j id (conclude_call j h id server tool started r).0
    unfolding conclude_call
    conclude_call-IsAnswer server tool started (ok (_, result), w) =
        json_rpc_result-IsAnswer id result
    conclude_call-IsAnswer server tool started (err e, w) = json_rpc_error-IsAnswer id _ _

    call_target-IsAnswer :
        (server tool : String) (arguments : j.Value) (target : Option (ManagedServer j.Value))
        (w : World j.Value)
        → IsAnswer j id (call_target j h id server tool arguments target w).0
    unfolding call_target
    call_target-IsAnswer server tool arguments none w = json_rpc_error-IsAnswer id _ _
    call_target-IsAnswer server tool arguments (some entry) w = elim (Bool-cases entry.connected) [
      | inl on ↦ rw on (conclude_call-IsAnswer server tool w.now _)
      | inr off ↦ rw off (json_rpc_error-IsAnswer id _ _)
    ]

    call_named-IsAnswer :
        (params : j.Value) (full_name : String) (w : World j.Value)
        → IsAnswer j id (call_named j h id params full_name w).0
    unfolding call_named
    call_named-IsAnswer params full_name w = elim (Option-cases (split_once full_name "__")) [
      | inl e ↦ rw (e, call_named) (json_rpc_error-IsAnswer id _ _)
      | inr ((server, tool), e) ↦ rw (e, call_named) (call_target-IsAnswer server tool _ _ w)
    ]

    call_with-IsAnswer :
        (params : j.Value) (w : World j.Value) → IsAnswer j id (call_with j h id params w).0
    unfolding call_with
    call_with-IsAnswer params w =
        elim (Option-cases (bind_option (j.field "name" params) j.as_str)) [
          | inl e ↦ rw (e, call_with) (json_rpc_error-IsAnswer id _ _)
          | inr (full_name, e) ↦ rw (e, call_with) (call_named-IsAnswer params full_name w)
        ]

    call_tool-IsAnswer :
        (message : j.Value) (w : World j.Value) → IsAnswer j id (call_tool j h id message w).0
    unfolding call_tool
    call_tool-IsAnswer message w = elim (Option-cases (j.field "params" message)) [
      | inl e ↦ rw (e, call_tool) (json_rpc_error-IsAnswer id _ _)
      | inr (params, e) ↦ rw (e, call_tool) (call_with-IsAnswer params w)
    ]

    abbrev pub Answered : Option j.Value × World j.Value → Type 0
    Answered r = (response : j.Value) × (r.0 ≡ some response) × IsAnswer j id response

    run_method-Answered :
        (message : j.Value) (method : String) (w : World j.Value)
        → (method =? "notifications/initialized") ≡ false
        → Answered (run_method j h false id message method w)
    unfolding run_method
    run_method-Answered message method w other = elim (Bool-cases (method =? "initialize")) [
      | inl e ↦ rw e (_, refl, json_rpc_result-IsAnswer id _)
      | inr e ↦ rw e (
          rw other (elim (Bool-cases (method =? "tools/list")) [
            | inl l ↦ rw l (_, refl, json_rpc_result-IsAnswer id _)
            | inr l ↦ rw l (elim (Bool-cases (method =? "tools/call")) [
              | inl c ↦ rw c (_, refl, call_tool-IsAnswer message w)
              | inr c ↦ rw c (_, refl, json_rpc_error-IsAnswer id _ _)
            ])
          ]))
    ]

    is_other :
        (method : String)
        → ◌≢◌ {A = Option String} (some method) (some "notifications/initialized")
        → (method =? "notifications/initialized") ≡ false
    is_other method other = elim (Bool-cases (method =? "notifications/initialized")) [
      | inl same ↦ absurd (other (ap some ((=?_iff method "notifications/initialized").0 same)))
      | inr e ↦ e
    ]

    handle_object-Answered :
        (message : j.Value) (map : j.Map) (w : World j.Value)
        → bind_option (j.map_get "method" map) j.as_str ≢ some "notifications/initialized"
        → Answered (handle_object j h false id message map w)
    unfolding handle_object
    handle_object-Answered message map w other =
        elim (Bool-cases (is_text j (j.map_get "jsonrpc" map) "2.0")) [
          | inr e ↦ rw (e, handle_object) (_, refl, json_rpc_error-IsAnswer id _ _)
          | inl e ↦
              rw (e, handle_object)
                (elim (Option-cases (bind_option (j.map_get "method" map) j.as_str)) [
                  | inl f ↦ rw f (_, refl, json_rpc_error-IsAnswer id _ _)
                  | inr (method, f) ↦
                      rw f (run_method-Answered message method w (is_other method (rw f at other)))
                ])
        ]

    -- A request, which is an object with an id, always gets one response, with that id and either a
    -- result or an error, whatever its fields and the upstreams' replies are. The one exception is
    -- the method notifications/initialized.
    pub handle_message-request :
        (message : j.Value) (map : j.Map) (w : World j.Value)
        → j.as_object message ≡ some map
        → j.field "id" message ≡ some id
        → bind_option (j.map_get "method" map) j.as_str ≢ some "notifications/initialized"
        → Answered (handle_message j h message w)
    unfolding handle_message
    handle_message-request message map w o e other =
        rw o (rw e (handle_object-Answered message map w other))
