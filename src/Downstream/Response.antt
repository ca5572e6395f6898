-- ===== src/Downstream/Response.antt =====
-- src/downstream.rs: the HTTP responses of the endpoint.
pub mod Chain
use Prim.Native.String.{◌++◌}
use mcpstead.Base.{
  ℕ, String, Bool, false, Option, none, some, List, [], ◌∷◌, ◌&&◌, not, if◌then◌else◌,
}
use mcpstead.Base.Text.{contains}
use mcpstead.Json.{Json}
use mcpstead.Upstream.Send.{session_header}
use mcpstead.Downstream.Auth.{Headers, raw_header}

pub record Response : Type 0 where
  pub status : ℕ
  pub headers : List (String × String)
  pub body : String

-- `unauthorized_response`
unfoldable pub unauthorized_response : Response
unauthorized_response = record {
  status = 401;
  headers = ("www-authenticate", "Bearer") ∷ [];
  body = "";
}

-- a status with a text, or alone
abbrev pub text_response : ℕ → String → Response
text_response status text = record {
  status = status;
  headers = ("content-type", "text/plain; charset=utf-8") ∷ [];
  body = text;
}

abbrev pub status_response : ℕ → Response
status_response status = record { status = status; headers = []; body = "" }

-- `wants_sse`
unfoldable pub wants_sse : Headers → Bool
unfolding raw_header
wants_sse headers = elim (raw_header headers "accept") [
  | none ↦ false
  | some accept ↦ contains accept "text/event-stream" && not (contains accept "application/json")
]

abbrev pub sse_frame : String → String
sse_frame json = "data: " ++ json ++ "\n\n"

module _ (j : Json) where
  -- `downstream_response`
  unfoldable pub downstream_response : Headers → ℕ → Option (j.Value) → Option String → Response
  unfolding wants_sse
  downstream_response headers status none session_id = record {
    status = status;
    headers = session_header session_id;
    body = "";
  }
  downstream_response headers status (some value) session_id =
      let json = j.to_string value in
      let content : String × String =
        if wants_sse headers
        then ("text/event-stream", sse_frame json)
        else ("application/json", json) in
      record {
        status = status;
        headers = ("content-type", content.0) ∷ session_header session_id;
        body = content.1;
      }
