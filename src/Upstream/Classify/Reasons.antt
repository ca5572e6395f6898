-- ===== src/Upstream/Classify/Reasons.antt =====
-- src/upstream.rs: the reasons that a session reset can have, and when there is none.
use mcpstead.Base.{
  ℕ, String, Bool, true, false, Option, none, some, if◌then◌else◌, ◌≡◌, refl, ◌⊎◌, inl, arith,
  or_else, ◌==◌, ◌&&◌,
}
use mcpstead.Json.{Json}
use mcpstead.Upstream.Classify.{
  classify_session_message, classify_json_rpc_session_reset, classify_http_session_reset, may_reset,
  bind_option, json_rpc_error_message, json_rpc_error_code, is_unknown_code,
}

-- the values of the label `reason` of `mcpstead_upstream_session_resets_total`
abbrev pub IsReason : Option String → Type 0
IsReason none = Unit
IsReason (some r) = (r ≡ "unknown_session") ⊎ ((r ≡ "expired") ⊎ (r ≡ "terminated"))

classify_session_message-IsReason : (m : String) → IsReason (classify_session_message m)
unfolding classify_session_message
classify_session_message-IsReason m = ground arith

IsReason-or_else : (a b : Option String) → IsReason a → IsReason b → IsReason (or_else a b)
IsReason-or_else none b h k = k
IsReason-or_else (some r) b h k = h

IsReason-bind : (a : Option String) → IsReason (bind_option a classify_session_message)
IsReason-bind none = tt
IsReason-bind (some m) = classify_session_message-IsReason m

IsReason-if :
    (b : Bool) (x y : Option String) → IsReason x → IsReason y → IsReason (if b then x else y)
IsReason-if true x y h k = h
IsReason-if false x y h k = k

module _ (j : Json) where
  -- A status other than 401, 403, 404 and 410 is never taken for a lost session, whatever the body.
  pub session_reset_status :
      (status : ℕ) (body : String)
      → may_reset status ≡ false
      → classify_http_session_reset j status body ≡ none
  unfolding classify_http_session_reset
  session_reset_status status body h = ground arith

  -- Both classifications give one of the three documented reasons or none.
  pub session_reset_reasons :
      (status : ℕ) (body : String) (error : j.Value)
      → IsReason (classify_http_session_reset j status body)
        × IsReason (classify_json_rpc_session_reset j error)
  unfolding classify_http_session_reset classify_json_rpc_session_reset
  session_reset_reasons status body error = (
    IsReason-if
        (status == 404 && is_unknown_code (bind_option (j.from_str body) (json_rpc_error_code j)))
        (some "unknown_session")
        (if may_reset status
          then or_else
              (bind_option (bind_option (j.from_str body) (json_rpc_error_message j))
                classify_session_message)
              (classify_session_message body)
          else none)
        (inl refl)
        (IsReason-if (may_reset status)
          (or_else
            (bind_option (bind_option (j.from_str body) (json_rpc_error_message j))
              classify_session_message)
            (classify_session_message body))
          none
          (IsReason-or_else
            (bind_option (bind_option (j.from_str body) (json_rpc_error_message j))
              classify_session_message)
            (classify_session_message body)
            (IsReason-bind (bind_option (j.from_str body) (json_rpc_error_message j)))
            (classify_session_message-IsReason body))
          tt),
    IsReason-if (is_unknown_code (json_rpc_error_code j error)) (some "unknown_session")
        (bind_option (bind_option (j.field "message" error) j.as_str) classify_session_message)
        (inl refl) (IsReason-bind (bind_option (j.field "message" error) j.as_str)),
  )
