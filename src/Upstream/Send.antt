-- ===== src/Upstream/Send.antt =====
-- src/upstream.rs: one exchange with an upstream.
use Prim.Native.String.{◌++◌, len}
use mcpstead.Base.{
  ℕ, String, Bool, Option, none, some, List, [], ◌∷◌, ◌++◌ as append, Result, ok, err, ◌&&◌, not,
  if◌then◌else◌, leb, ◌==◌, unwrap_or,
}
use mcpstead.Base.Text.{take_chars}
use mcpstead.Base.Text.Decimal.{decimal}
use mcpstead.Json.{Json, object}
use mcpstead.Config.{ServerConfig, accept_header}
use mcpstead.Config.Load.{bearer_token}
use mcpstead.State.Metrics.{record_upstream_bytes}
use mcpstead.Upstream.Classify.{
  UpstreamError, plain, classify_http_session_reset, classify_json_rpc_session_reset,
}
use mcpstead.Upstream.Body.{parse_mcp_body}
use mcpstead.Upstream.Host.{
  HttpRequest, HttpResponse, RawBody, Host, Act, ◌>>=◌, ◌>>◌, lift, metric,
}

abbrev pub mcp_session_id : String
mcp_session_id = "Mcp-Session-Id"

abbrev pub as_plain : {A : Type 0} → Result String A → Result UpstreamError A
as_plain (ok a) = ok a
as_plain (err message) = err (plain message)

abbrev pub session_header : Option String → List (String × String)
session_header none = []
session_header (some id) = (mcp_session_id, id) ∷ []

-- `text.chars().take(512)` in the message of an HTTP error
abbrev pub http_error : String → ℕ → String → String
http_error name status text =
    "upstream '" ++ name ++ "' HTTP " ++ decimal status ++ ": " ++ take_chars 512 text

-- `upstream_client`: whether it is the client that does not verify certificates
unfoldable pub upstream_client : ServerConfig → Bool
upstream_client config = config.tls_skip_verify

module _ (j : Json) (h : Host (j.Value)) where
  open j use {Value}

  -- the request of `send_upstream_body`, with the client of `upstream_client`
  unfoldable pub build_request : ServerConfig → Option String → Option String → String → HttpRequest
  unfolding accept_header upstream_client
  build_request config session_id token body = record {
    url = config.url;
    insecure = upstream_client config;
    headers =
        append (("content-type", "application/json") ∷ ("accept", accept_header config) ∷ [])
          (session_header session_id);
    bearer_auth = token;
    extra_headers = config.headers;
    body = body;
  }

  -- `parse_upstream_response` behind the reading of the body
  unfoldable pub interpret :
      ServerConfig → HttpResponse → RawBody → Result UpstreamError (Option String × Option Value)
  interpret config response body =
      let empty = body.len == 0 in
      let success = leb 200 response.status && leb response.status 299 in
      if response.status == 202 && empty
      then ok (response.session_header, none)
      else if not success
      then err (record {
        message = http_error config.name response.status body.lossy;
        session_reset_reason = classify_http_session_reset j response.status body.lossy;
      })
      else if empty
      then ok (response.session_header, none)
      else elim (parse_mcp_body j response.content_type body.utf8) [
        | ok value ↦ ok (response.session_header, some value)
        | err e ↦ err e
      ]

  -- `parse_upstream_response`
  unfoldable pub parse_upstream_response :
      ServerConfig → HttpResponse → Act Value (Option String × Option Value)
  unfolding interpret
  parse_upstream_response config response = do
    body ← lift (as_plain response.body)
    metric (record_upstream_bytes config.name "received" body.len)
    lift (interpret config response body)

  abbrev pub send_failed : String → String
  send_failed name = "upstream '" ++ name ++ "' request failed"

  -- `request.send().await`
  unfoldable pub send_request : ServerConfig → HttpRequest → Act Value HttpResponse
  send_request config request w =
      let (answer, w') = h.send request w in
      elim answer [
        | none ↦ (err (plain (send_failed config.name)), w')
        | some response ↦ (ok response, w')
      ]

  -- `send_upstream_body`
  unfoldable pub send_upstream_body :
      ServerConfig → Option String → Value → Act Value (Option String × Option Value)
  unfolding build_request send_request parse_upstream_response
  send_upstream_body config session_id body = do
    let text = j.to_string body
    metric (record_upstream_bytes config.name "sent" (len text))
    token ← lift (as_plain (bearer_token h.env_var config))
    response ← send_request config (build_request config session_id token text)
    parse_upstream_response config response

  -- the check of the reply in `upstream_request_raw`
  unfoldable pub reply_of :
      ServerConfig → Option String × Option Value → Result UpstreamError (Option String × Value)
  reply_of config (session, none) =
      err (plain ("upstream '" ++ config.name ++ "' returned no body"))
  reply_of config (session, some response) = elim (j.field "error" response) [
    | some error ↦ err (record {
      message = "upstream '" ++ config.name ++ "' JSON-RPC error: " ++ j.to_string error;
      session_reset_reason = classify_json_rpc_session_reset j error;
    })
    | none ↦ ok (session, unwrap_or (j.field "result" response) j.null)
  ]

  -- `upstream_request_raw`
  unfoldable pub upstream_request_raw :
      ServerConfig → Option String → Value → String → Value → Act Value (Option String × Value)
  unfolding send_upstream_body reply_of
  upstream_request_raw config session_id id method params = do
    reply ← send_upstream_body config session_id (
        object j (
          ("jsonrpc", j.string "2.0")
          ∷ ("id", id)
          ∷ ("method", j.string method)
          ∷ ("params", params)
          ∷ []))
    lift (reply_of config reply)

  abbrev pub notification_fields : String → Value → List (String × Value)
  notification_fields method params =
      append (("jsonrpc", j.string "2.0") ∷ ("method", j.string method) ∷ [])
        (if j.beq params j.null then [] else ("params", params) ∷ [])

  -- `upstream_notification`
  unfoldable pub upstream_notification :
      ServerConfig → Option String → String → Value → Act Value (Unit {0})
  unfolding send_upstream_body
  upstream_notification config session_id method params = do
    _ ← send_upstream_body config session_id (object j (notification_fields method params))
    lift (ok tt)
