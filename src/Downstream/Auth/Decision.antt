-- ===== src/Downstream/Auth/Decision.antt =====
-- src/downstream.rs: which requests `authorize_mcp` lets through.
use Prim.Native.String.{◌++◌}
use mcpstead.Base.{
  String, Bool, true, false, Option, none, some, ◌≡◌, ◌↔◌, ◌⊎◌, inl, inr, refl, arith, Option-cases,
}
use mcpstead.Base.Text.{strip_prefix, is_empty}
use mcpstead.Base.Text.Split.{strip_prefix-append, strip_prefix_sound}
use mcpstead.Config.{McpAuthMode, open_access, bearer}
use mcpstead.State.App.{McpAuthState}
use mcpstead.Downstream.Auth.{
  Headers, get_header, allow, deny, check_candidate, check_header, check_bearer, check_mode,
  authorize_mcp,
}

-- the header `Authorization: Bearer <token>`, for the token that is configured
pub record HasToken (headers : Headers) (bearer_token : Option String) : Type 0 where
  pub token : String
  pub configured : bearer_token ≡ some token
  pub presented : get_header headers "authorization" ≡ some ("Bearer " ++ token)
  pub filled : is_empty token ≡ false

module _ (ct_eq : String → String → Bool)
    (ct_eq_iff : (a b : String) → (ct_eq a b ≡ true) ↔ (a ≡ b)) where
  check_candidate_iff :
      (token candidate : String)
      → (check_candidate ct_eq token candidate ≡ allow)
        ↔ ((is_empty candidate ≡ false) × (candidate ≡ token))
  unfolding check_candidate
  check_candidate_iff token candidate = ground (arith, ct_eq_iff candidate token)

  -- `check_header` lets the one header through that holds the token
  check_header_iff :
      (token : String) (header : Option String)
      → (check_header ct_eq token header ≡ allow)
        ↔ ((is_empty token ≡ false) × (header ≡ some ("Bearer " ++ token)))
  unfolding check_header
  check_header_iff token none = ground arith
  check_header_iff token (some auth) = (
    λ h. elim (Option-cases (strip_prefix auth "Bearer ")) [
      | inl e ↦ let k : deny "bad_format" ≡ allow = rw (e, check_header) at h in cc
      | inr (candidate, e) ↦
          let k : check_candidate ct_eq token candidate ≡ allow = rw (e, check_header) at h in
          let parts = (check_candidate_iff token candidate).0 k in
          let split = strip_prefix_sound auth "Bearer " candidate e in
          (cc (parts.0, parts.1), cc (parts.1, split))
    ],
    λ t.
        let e : auth ≡ "Bearer " ++ token = cc in
        let split : strip_prefix auth "Bearer " ≡ some token =
          rw e (strip_prefix-append "Bearer " token) in
        rw (split, check_header) ((check_candidate_iff token token).1 (t.0, refl)),
  )

  check_bearer_iff :
      (headers : Headers) (t : Option String)
      → (check_bearer ct_eq headers t ≡ allow) ↔ (
          (token : String) × (t ≡ some token)
          × (is_empty token ≡ false)
          × (get_header headers "authorization" ≡ some ("Bearer " ++ token)))
  unfolding check_bearer
  check_bearer_iff headers none = (λ h. cc, λ h. cc)
  check_bearer_iff headers (some token) =
      let iff = check_header_iff token (get_header headers "authorization") in
      (
        λ h. let parts = iff.0 h in (token, refl, parts.0, parts.1),
        λ (t, same, filled, shown). let e : t ≡ token = cc in iff.1 (rw e at filled, rw e at shown),
      )

  check_mode_iff :
      (headers : Headers) (mode : McpAuthMode) (t : Option String)
      → (check_mode ct_eq headers mode t ≡ allow)
        ↔ ((mode ≡ open_access) ⊎ ((mode ≡ bearer) × HasToken headers t))
  unfolding check_mode
  check_mode_iff headers open_access t = (λ _. inl refl, λ _. refl)
  check_mode_iff headers bearer t = (
    λ h.
        let (token, set, filled, shown) = (check_bearer_iff headers t).0 h in
        inr (refl, record { token = token; configured = set; filled = filled; presented = shown }),
    λ h. elim h [
      | inl e ↦ cc
      | inr (_, p) ↦ (check_bearer_iff headers t).1 (p.token, p.configured, p.filled, p.presented)
    ],
  )

  -- A request is let through exactly when access is open, or bearer tokens are asked for, one that
  -- is not empty is configured, and the trimmed Authorization header is "Bearer " and that token.
  pub authorize_mcp_iff :
      (headers : Headers) (a : McpAuthState)
      → (authorize_mcp ct_eq headers a ≡ allow)
        ↔ ((a.mode ≡ open_access) ⊎ ((a.mode ≡ bearer) × HasToken headers a.bearer_token))
  unfolding authorize_mcp
  authorize_mcp_iff headers a = check_mode_iff headers a.mode a.bearer_token
