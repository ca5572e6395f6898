-- ===== src/Upstream/Session.antt =====
-- src/upstream.rs: the opening of an upstream session and the loading of its tools.
pub mod Kept
pub mod Time
use Prim.Native.String.{◌++◌}
use mcpstead.Base.{ℕ, ◌-◌, String, Option, none, some, List, [], ◌∷◌, Result, ok, err, or_else}
use mcpstead.Base.Int.{pos}
use mcpstead.Json.{Json, object}
use mcpstead.Config.{ServerConfig}
use mcpstead.State.Metrics.{record_upstream_initialize, record_upstream_tools_refresh}
use mcpstead.Upstream.Classify.{UpstreamError, plain, bind_option}
use mcpstead.Upstream.Host.{World, Host, Act, update_metrics}
use mcpstead.Upstream.Send.{upstream_request_raw, upstream_notification}

abbrev pub result_label : {A : Type 0} → Result UpstreamError A → String
result_label (ok _) = "success"
result_label (err _) = "error"

abbrev pub no_tools_array : String → String
no_tools_array name = "upstream '" ++ name ++ "' tools/list returned no tools array"

-- `env!("CARGO_PKG_VERSION")`
abbrev pub pkg_version : String
pkg_version = "0.1.13"

module _ (j : Json) (h : Host (j.Value)) where
  open j use {Value}

  -- the parameters of the upstream `initialize`, for a version of the package
  abbrev pub initialize_params : String → Value
  initialize_params version = object j (
      ("protocolVersion", j.string "2024-11-05")
      ∷ ("capabilities", object j [])
      ∷ (
        "clientInfo",
        object j (("name", j.string "mcpstead") ∷ ("version", j.string version) ∷ []),
      )
      ∷ [])

  abbrev pub note_initialize :
      {A : Type 0} → ServerConfig → ℕ → Result UpstreamError A → World Value → World Value
  note_initialize config started initialize w =
      update_metrics
        (record_upstream_initialize config.name (result_label initialize) (w.now - started)) w

  -- `initialize_upstream_session` behind its request; the result of the notification is dropped
  unfoldable pub after_initialize :
      ServerConfig
      → ℕ
      → Result UpstreamError (Option String × Value) × World Value
      → Result UpstreamError (Option String) × World Value
  unfolding upstream_notification
  after_initialize config started (err e, w) =
      (err e, note_initialize {A = Option String} config started (err e) w)
  after_initialize config started (ok (session_id, result), w) =
      let noted = note_initialize config started (ok session_id) w in
      let (_, w') =
        upstream_notification j h config session_id "notifications/initialized" j.null noted in
      (ok session_id, w')

  -- `initialize_upstream_session`
  unfoldable pub initialize_upstream_session : ServerConfig → Act Value (Option String)
  unfolding upstream_request_raw after_initialize
  initialize_upstream_session config w = after_initialize config w.now (
      upstream_request_raw j h config none (j.int (pos 1)) "initialize"
        (initialize_params pkg_version) w)

  -- the end of `load_tools`: the tools of a reply to `tools/list`
  unfoldable pub tools_of :
      ServerConfig
      → Option String
      → ℕ
      → Option String × Value
      → Act Value (Option String × List Value)
  tools_of config session_id duration (next_session_id, result) w =
      let unix_now = h.unix_time w.now in
      elim (bind_option (j.field "tools" result) j.as_array) [
        | some tools ↦ (
          ok (or_else next_session_id session_id, tools),
          update_metrics (record_upstream_tools_refresh unix_now config.name "success" duration) w,
        )
        | none ↦ (
          err (plain (no_tools_array config.name)),
          update_metrics (record_upstream_tools_refresh unix_now config.name "error" duration) w,
        )
      ]
