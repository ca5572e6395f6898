-- ===== src/Config/Auth.antt =====
-- src/config.rs: the reading of a server's `auth` from the configuration file. The value that
-- serde_yaml parsed is an interface.
pub mod Tokens
use mcpstead.Base.{String, Bool, Option, none, some, Result, ok, err, ◌>>=◌, if◌then◌else◌}
use mcpstead.Config.{AuthConfig, AuthObject, mode, object}

-- `serde_yaml::Value`
pub record Yaml : Type 1 where
  pub Value : Type 0
  pub Mapping : Type 0
  -- `Value::String` and `Value::Mapping`
  pub as_string : Value → Option String
  pub as_mapping : Value → Option Mapping
  -- `mapping.contains_key(Value::String(key))`
  pub contains_key : String → Mapping → Bool
  -- `serde_yaml::from_value`, by the derived reader of `AuthObject`
  pub from_value : Mapping → Result String AuthObject

module _ (y : Yaml) where
  open y use {Value, Mapping, as_string, as_mapping, contains_key, from_value}

  -- the arm of a mapping
  unfoldable pub read_mapping : Mapping → Result String AuthConfig
  read_mapping mapping =
      if contains_key "token" mapping
      then err "upstream auth token field is not allowed; use token_env"
      else (do auth ← from_value mapping; ok (object auth))

  -- `AuthConfig::deserialize`
  unfoldable pub deserialize : Value → Result String AuthConfig
  unfolding read_mapping
  deserialize value = elim (as_string value) [
    | some m ↦ ok (mode m)
    | none ↦ elim (as_mapping value) [
      | some mapping ↦ read_mapping mapping
      | none ↦ err "upstream auth must be 'none' or an object with type"
    ]
  ]
