-- ===== src/Tests/Reload.antt =====
-- The theorems on reloads at one reload that adds a server.
use mcpstead.Base.{◌≡◌, refl, String, Option, none, some}
use mcpstead.Base.Dict.{string_key, get}
use mcpstead.Config.{Config}
use mcpstead.Config.Load.{load_config}
use mcpstead.Json.Sample.{Val}
use mcpstead.State.App.{AppState}
use mcpstead.Reload.{apply_upstream_diff, servers_by_name, reload_config}
use mcpstead.Reload.{no_changes}
use mcpstead.Base.{ok}
use mcpstead.Reload.Again.{Unchanged, reload_config-again}
use mcpstead.Config.Validate.{validate_config, check_servers, check_server}
use mcpstead.Config.Load.{load_mcp_bearer_token}
use mcpstead.Config.Equality.{same_server}
use mcpstead.Base.{◌∷◌, inl, inr}
use mcpstead.State.App.{build_state}
use mcpstead.Gateway.Startup.{spawn_all}
use mcpstead.Gateway.Startup.Served.{served, served-IsSound}
use mcpstead.Config.Validate.Valid.{IsValid, validate_config_iff}
use mcpstead.Reload.Managed.{IsManaged, runs}
use mcpstead.Base.{◌⊎◌}
use mcpstead.Reload.Outcome.{IsApplied, IsRefused, reload_config-outcome}
use mcpstead.Reload.Order.{SameServers, apply_upstream_diff-order}
use mcpstead.Reload.Diff.{desired, get-apply_upstream_diff}
use mcpstead.Reload.Diff.Summary.{accounted, summary_partition, count_missing}
use mcpstead.Base.{length}
use mcpstead.Base.Dict.{keys}
use mcpstead.Tests.Data.{search_server, files_server, old_config, new_config, state_of}
use mcpstead.Base.{[]}

abbrev old_state : AppState Val
old_state = state_of old_config none

abbrev read : String → Option String
read path = some "text"

abbrev parse : String → Option Config
parse text = some new_config

abbrev no_parse : String → Option Config
no_parse text = none

abbrev no_env : String → Option String
no_env name = none

get-apply_upstream_diff_example :
    get "files" (apply_upstream_diff old_state old_config new_config).0.registry
    ≡ desired
        (get "files" (servers_by_name old_config))
        (get "files" (servers_by_name new_config))
        (get "files" old_state.registry)
get-apply_upstream_diff_example = get-apply_upstream_diff old_state old_config new_config "files"

summary_partition_example :
    (accounted (apply_upstream_diff old_state old_config new_config).1
      ≡ length (servers_by_name new_config))
    × ((apply_upstream_diff old_state old_config new_config).1.removed
        ≡ count_missing (servers_by_name new_config) (keys (servers_by_name old_config)))
summary_partition_example = summary_partition old_state old_config new_config

reload_succeeds :
    (reload_config read parse no_env 30 old_state).0
    ≡ ok (record no_changes { added = 1; unchanged = 1 })
unfolding reload_config state_of load_config validate_config check_servers check_server
    load_mcp_bearer_token servers_by_name same_server
reload_succeeds = refl

reload_config-again_example :
    Unchanged 40
      (reload_config read parse no_env 30 old_state).1
      (reload_config read parse no_env 40 (reload_config read parse no_env 30 old_state).1)
reload_config-again_example =
    reload_config-again read parse no_env 30 40 old_state
      (record no_changes { added = 1; unchanged = 1 }) reload_succeeds

-- the servers of the new configuration in the other order
abbrev turned_config : Config
turned_config = record new_config { servers = files_server ∷ search_server ∷ [] }

abbrev served_state : AppState Val
served_state = served 10 20 old_config none "config.yaml"

old_config-IsValid : IsValid old_config
unfolding validate_config check_servers check_server
old_config-IsValid = (validate_config_iff old_config).0 refl

new_config-IsValid : IsValid new_config
unfolding validate_config check_servers check_server
new_config-IsValid = (validate_config_iff new_config).0 refl

turned_config-IsValid : IsValid turned_config
unfolding validate_config check_servers check_server
turned_config-IsValid = (validate_config_iff turned_config).0 refl

served_state-IsManaged : IsManaged served_state old_config
unfolding spawn_all build_state
served_state-IsManaged =
    (served-IsSound Val 10 20 old_config none "config.yaml" old_config-IsValid).tasks

same_servers : SameServers new_config turned_config
same_servers x = (
  λ i. elim i [
    | inl e ↦ inr (inl e)
    | inr i' ↦ elim i' [ inl e ↦ inl e | inr none_left ↦ absurd none_left ]
  ],
  λ i. elim i [
    | inl e ↦ inr (inl e)
    | inr i' ↦ elim i' [ inl e ↦ inl e | inr none_left ↦ absurd none_left ]
  ],
)

apply_upstream_diff-order_example :
    (get "files" (apply_upstream_diff served_state old_config new_config).0.registry
      ≡ get "files" (apply_upstream_diff served_state old_config turned_config).0.registry)
    × (runs "files" (apply_upstream_diff served_state old_config new_config).0
        ≡ runs "files" (apply_upstream_diff served_state old_config turned_config).0)
apply_upstream_diff-order_example =
    apply_upstream_diff-order served_state old_config new_config turned_config "files"
      served_state-IsManaged new_config-IsValid turned_config-IsValid same_servers

reload_config-outcome_example :
    IsApplied read parse no_env 30 old_state (reload_config read parse no_env 30 old_state)
    ⊎ IsRefused read parse no_env 30 old_state (reload_config read parse no_env 30 old_state)
reload_config-outcome_example = reload_config-outcome read parse no_env 30 old_state
