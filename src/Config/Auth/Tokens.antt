-- ===== src/Config/Auth/Tokens.antt =====
-- src/config.rs: where the token that goes out to an upstream comes from.
use mcpstead.Base.{
  ◌≡◌, refl, String, Bool, true, false, Option, none, some, Result, ok, err, ◌>>=◌, arith,
  Bool-cases, Option-cases, inl, inr,
}
use mcpstead.Base.Eq.{◌=?◌, =?_iff, string_eq}
use mcpstead.Config.{AuthConfig, AuthObject, ServerConfig, mode, object}
use mcpstead.Config.Load.{context, missing_env_var, token_of, read_token, bearer_token}
use mcpstead.Config.Auth.{Yaml, read_mapping, deserialize}

-- the token is the value of a variable that an object without a token names
pub record IsNamed (y : Yaml) (env : String → Option String) (value : y.Value) (token : String)
    : Type 0 where
  pub mapping : y.Mapping
  pub is_mapping : y.as_mapping value ≡ some mapping
  pub no_token : y.contains_key "token" mapping ≡ false
  pub auth : AuthObject
  pub reads : y.from_value mapping ≡ ok auth
  pub kind : auth.kind ≡ "bearer"
  pub variable : String
  pub named : auth.token_env ≡ some variable
  pub set : env variable ≡ some token

-- what a token says of the `auth` that it was read by
record NamesToken (env : String → Option String) (auth : AuthObject) (token : String) : Type 0 where
  kind : auth.kind ≡ "bearer"
  variable : String
  named : auth.token_env ≡ some variable
  set : env variable ≡ some token

given :
    (message token : String) (found : Option String)
    → (do t ← context message found; ok (some t)) ≡ ok (some token)
    → found ≡ some token
given message token none h = cc
given message token (some t) h = ground (arith, h)

read_token-set :
    (env : String → Option String) (server token : String) (auth : AuthObject)
    (found : Option String)
    → auth.kind ≡ "bearer"
    → auth.token_env ≡ found
    → read_token env server found ≡ ok (some token)
    → NamesToken env auth token
read_token-set env server token auth none k e h = cc
read_token-set env server token auth (some var) k e h = record {
  kind = k;
  variable = var;
  named = e;
  set = given (missing_env_var var server) token (env var) h;
}

token_of-object :
    (env : String → Option String) (server token : String) (auth : AuthObject)
    → token_of env server (some (object auth)) ≡ ok (some token)
    → NamesToken env auth token
unfolding token_of
token_of-object env server token auth h = elim (Bool-cases (auth.kind =? "none")) [
  | inl e ↦ absurd (ground (arith, e, h))
  | inr e ↦ elim (Bool-cases (auth.kind =? "bearer")) [
    | inl k ↦
        read_token-set env server token auth auth.token_env ((=?_iff auth.kind "bearer").0 k) refl
          (ground (arith, e, k, h))
    | inr k ↦ absurd (ground (arith, e, k, h))
  ]
]

module _ (y : Yaml) where
  -- an `auth` that is an object was read from a mapping without a token
  record IsObject (value : y.Value) (auth : AuthObject) : Type 0 where
    mapping : y.Mapping
    is_mapping : y.as_mapping value ≡ some mapping
    no_token : y.contains_key "token" mapping ≡ false
    reads : y.from_value mapping ≡ ok auth

  mapping-object :
      (value : y.Value) (auth : AuthObject) (mapping : y.Mapping) (raw : Bool)
      (reading : Result String AuthObject)
      → y.as_mapping value ≡ some mapping
      → y.contains_key "token" mapping ≡ raw
      → y.from_value mapping ≡ reading
      → read_mapping y mapping ≡ ok (object auth)
      → IsObject value auth
  unfolding read_mapping
  mapping-object value auth mapping true reading m r e h = absurd (ground (arith, r, h))
  mapping-object value auth mapping false (err message) m r e h = absurd (ground (arith, r, e, h))
  mapping-object value auth mapping false (ok read) m r e h = record {
    mapping = mapping;
    is_mapping = m;
    no_token = r;
    reads = ground (arith, r, e, h);
  }

  deserialize-object :
      (value : y.Value) (auth : AuthObject)
      → deserialize y value ≡ ok (object auth)
      → IsObject value auth
  unfolding deserialize
  deserialize-object value auth h = elim (Option-cases (y.as_string value)) [
    | inr (m, e) ↦ absurd (ground (arith, e, h))
    | inl e ↦ elim (Option-cases (y.as_mapping value)) [
      | inl n ↦ absurd (ground (arith, e, n, h))
      | inr (mapping, n) ↦
          mapping-object value auth mapping (y.contains_key "token" mapping) (y.from_value mapping)
            n refl refl (ground (arith, e, n, h))
    ]
  ]

  -- A token that goes out to an upstream is the value of an environment variable: where the `auth` of
  -- a server was read from the file and gives a token, it was a mapping with the type bearer and
  -- without a token of its own, and the variable that it names is set to the token.
  pub deserialize-bearer_token :
      (env : String → Option String) (value : y.Value) (auth : AuthConfig) (server : ServerConfig)
      (token : String)
      → deserialize y value ≡ ok auth
      → server.auth ≡ some auth
      → bearer_token env server ≡ ok (some token)
      → IsNamed y env value token
  unfolding bearer_token token_of
  deserialize-bearer_token env value (mode m) server token d e h = absurd (ground (arith, e, h))
  deserialize-bearer_token env value (object auth) server token d e h =
      let o = deserialize-object value auth d in
      let t = token_of-object env server.name token auth (rw e at h) in
      record {
        mapping = o.mapping;
        is_mapping = o.is_mapping;
        no_token = o.no_token;
        auth = auth;
        reads = o.reads;
        kind = t.kind;
        variable = t.variable;
        named = t.named;
        set = t.set;
      }
