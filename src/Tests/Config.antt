-- ===== src/Tests/Config.antt =====
-- The theorems on the validation, at a configuration of two servers and at one server.
use mcpstead.Base.{◌≡◌, ◌↔◌, refl, String, Option, none, some, ok}
use mcpstead.Config.{ServerConfig, object}
use mcpstead.Config.Load.{bearer_token}
use mcpstead.Config.Validate.{validate_config}
use mcpstead.Config.Validate.Valid.{IsValid, validate_config_iff}
use mcpstead.Base.{str_eq, is_some, Result, err, if◌then◌else◌}
use mcpstead.Json.Sample.{Val, Fields, text, obj, entry, end}
use mcpstead.Config.{AuthObject}
use mcpstead.Config.Load.{token_of}
use mcpstead.Config.Auth.{Yaml, read_mapping, deserialize}
use mcpstead.Config.Auth.Tokens.{IsNamed, deserialize-bearer_token}
use mcpstead.Tests.Data.{new_config, search_server}

validate_config_iff_example : (validate_config new_config ≡ ok tt) ↔ IsValid new_config
validate_config_iff_example = validate_config_iff new_config

abbrev guarded : ServerConfig
guarded = record search_server {
  auth = some (object (record { kind = "bearer"; token_env = some "SEARCH_TOKEN" }));
}

abbrev no_variable : String → Option String
no_variable name = none

abbrev get_text : String → Fields → Option String
get_text key end = none
get_text key (entry k (text t) rest) =
    let later = get_text key rest in if str_eq k key then some t else later
get_text key (entry k _ rest) = get_text key rest

abbrev text_of : Val → Option String
text_of (text t) = some t
text_of _ = none

abbrev fields_of : Val → Option Fields
fields_of (obj fields) = some fields
fields_of _ = none

abbrev auth_of : Fields → Result String AuthObject
auth_of fields = elim (get_text "type" fields) [
  | none ↦ err "missing field `type`"
  | some kind ↦ ok (record { kind = kind; token_env = get_text "token_env" fields })
]

abbrev small_yaml : Yaml
small_yaml = record {
  Value = Val;
  Mapping = Fields;
  as_string = text_of;
  as_mapping = fields_of;
  contains_key = λ key fields. is_some (get_text key fields);
  from_value = auth_of;
}

abbrev written_auth : Val
written_auth = obj (entry "type" (text "bearer") (entry "token_env" (text "SEARCH_TOKEN") end))

abbrev one_variable : String → Option String
one_variable name = if str_eq name "SEARCH_TOKEN" then some "secret" else none

deserialize-bearer_token_example : IsNamed small_yaml one_variable written_auth "secret"
unfolding deserialize read_mapping bearer_token token_of
deserialize-bearer_token_example =
    deserialize-bearer_token small_yaml one_variable written_auth
      (object (record { kind = "bearer"; token_env = some "SEARCH_TOKEN" })) guarded "secret" refl
      refl refl
