-- ===== src/Upstream/Host.antt =====
-- What the gateway runs on: the network, the environment's variables and the wall clock, as an
-- interface, and the actions of src/upstream.rs over it.
use mcpstead.Base.{ℕ, Bool, String, Option, List, Result, ok, err}
use mcpstead.State.App.{AppState}
use mcpstead.State.Metrics.{Metrics}
use mcpstead.Upstream.Classify.{UpstreamError}

-- the state and the instant of the clock
pub record World (V : Type 0) : Type 0 where
  pub app : AppState V
  pub now : ℕ

-- the request that `send_upstream_body` builds: `extra_headers` are appended behind the others
pub record HttpRequest : Type 0 where
  pub url : String
  pub insecure : Bool
  pub headers : List (String × String)
  pub bearer_auth : Option String
  pub extra_headers : List (String × String)
  pub body : String

-- a body by what the code takes of it: its length in bytes, its text if it is UTF-8, and its text
-- with replacement characters
pub record RawBody : Type 0 where
  pub len : ℕ
  pub utf8 : Option String
  pub lossy : String

-- a response; a header that is no visible ASCII counts as absent
pub record HttpResponse : Type 0 where
  pub status : ℕ
  pub session_header : Option String
  pub content_type : Option String
  pub body : Result String RawBody

-- While a request is under way, a lock is awaited or the task sleeps, a number of nanoseconds, the
-- other tasks run: each may change the world.
pub record Host (V : Type 0) : Type 0 where
  pub send : HttpRequest → World V → Option HttpResponse × World V
  pub wait_lock : ℕ → World V → World V
  pub sleep : ℕ → World V → World V
  pub env_var : String → Option String
  pub unix_time : ℕ → ℕ

-- an action gives a result and the world behind it
abbrev pub Act : Type 0 → Type 0 → Type 0
Act V A = World V → Result UpstreamError A × World V

module _ {V A B : Type 0} where
  abbrev pub proceed : Result UpstreamError A → (A → Act V B) → Act V B
  proceed (ok a) f w = f a w
  proceed (err e) f w = (err e, w)

  infixl 5 ◌>>=◌ ◌>>◌
  -- `?`
  abbrev pub ◌>>=◌ : Act V A → (A → Act V B) → Act V B
  ◌>>=◌ m f w = let (r, w') = m w in proceed r f w'

  abbrev pub ◌>>◌ : Act V A → Act V B → Act V B
  m >> k = m >>= λ _. k

module _ {V : Type 0} where
  abbrev pub lift : {A : Type 0} → Result UpstreamError A → Act V A
  lift r w = (r, w)

  abbrev pub update_app : (AppState V → AppState V) → World V → World V
  update_app f w = record w { app = f w.app }

  abbrev pub update_metrics : (Metrics → Metrics) → World V → World V
  update_metrics f w = update_app (λ s. record s { metrics = f s.metrics }) w

  -- a recorder as an action
  abbrev pub metric : (Metrics → Metrics) → Act V (Unit {0})
  metric f w = (ok tt, update_metrics f w)
