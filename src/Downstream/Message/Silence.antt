-- ===== src/Downstream/Message/Silence.antt =====
-- src/downstream.rs: notifications.
use mcpstead.Base.{String, true, none, some, arith, ◌≡◌, refl, Option-cases, Bool-cases, inl, inr}
use mcpstead.Base.Eq.{string_eq}
use mcpstead.Json.{Json}
use mcpstead.Upstream.Classify.{bind_option}
use mcpstead.Upstream.Host.{World, Host}
use mcpstead.Downstream.Message.{run_method, handle_object, handle_message, is_text}

module _ (j : Json) (h : Host (j.Value)) where
  run_method_silent :
      (id message : j.Value) (method : String) (w : World j.Value)
      → run_method j h true id message method w ≡ (none, w)
  unfolding run_method
  run_method_silent id message method w = ground arith

  handle_object_silent :
      (id message : j.Value) (object : j.Map) (w : World j.Value)
      → handle_object j h true id message object w ≡ (none, w)
  unfolding handle_object
  handle_object_silent id message object w =
      elim (Bool-cases (is_text j (j.map_get "jsonrpc" object) "2.0")) [
        | inr other ↦ rw other refl
        | inl two ↦ rw two (elim (Option-cases (bind_option (j.map_get "method" object) j.as_str)) [
          | inl e ↦ rw e refl
          | inr (method, e) ↦ rw e (run_method_silent id message method w)
        ])
      ]

  -- An object without an id is a notification: whatever it holds, it gets no response and nothing is
  -- done for it, neither in the state nor towards an upstream.
  pub handle_message-notification :
      (message : j.Value) (object : j.Map) (w : World j.Value)
      → j.as_object message ≡ some object
      → j.field "id" message ≡ none
      → handle_message j h message w ≡ (none, w)
  unfolding handle_message
  handle_message-notification message object w o e =
      rw o (rw e (handle_object_silent j.null message object w))
