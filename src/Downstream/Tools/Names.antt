-- ===== src/Downstream/Tools/Names.antt =====
-- src/downstream.rs: the names of the listed tools lead back to their servers.
use mcpstead.Base.{String, false, some, ◌≡◌, refl, ◌∙◌}
use mcpstead.Base.Text.{split_once, contains}
use mcpstead.Base.Text.Split.{split_once-append, ends_with_underscore}
use mcpstead.Json.{Json, JsonLaws}
use mcpstead.Upstream.Classify.{bind_option}
use mcpstead.Downstream.Tools.{namespaced_tool, renamed_tool, qualified, described}

-- the value's field holds the text
abbrev pub HasText : (j : Json) → String → j.Value → String → Type 0
HasText j key value text = bind_option (j.field key value) j.as_str ≡ some text

module _ (j : Json) (laws : JsonLaws j) where
  pub renamed_tool-name :
      (server name : String) (map : j.Map)
      → HasText j "name" (renamed_tool j server name map) (qualified server name)
  unfolding renamed_tool
  renamed_tool-name server name map =
      let map' = j.map_insert "name" (j.string (qualified server name)) map in
      let text = described server (bind_option (j.map_get "description" map') j.as_str) in
      let e : j.field "name" (renamed_tool j server name map)
          ≡ some (j.string (qualified server name)) =
        laws.field-of_map "name" _
        ∙ laws.map_get-insert "description" "name" (j.string text) map'
        ∙ laws.map_get-insert "name" "name" (j.string (qualified server name)) map in
      rw e (laws.as_str-string (qualified server name))

  -- A tool is listed when it is an object with a text for its name; the listed name is then the
  -- server's name, "__" and that name, and, where the server's name neither holds "__" nor ends in
  -- "_", it is split into the two again.
  pub namespaced_tool-routes :
      (server name : String) (tool : j.Value) (map : j.Map)
      → j.as_object tool ≡ some map
      → bind_option (j.map_get "name" map) j.as_str ≡ some name
      → contains server "__" ≡ false
      → ends_with_underscore server ≡ false
      → (listed : j.Value) × (full_name : String) × (namespaced_tool j server tool ≡ some listed)
        × HasText j "name" listed full_name
        × (split_once full_name "__" ≡ some (server, name))
  unfolding namespaced_tool
  namespaced_tool-routes server name tool map o n plain closed = (
    renamed_tool j server name map,
    qualified server name,
    rw o (rw n refl),
    renamed_tool-name server name map,
    split_once-append server name plain closed,
  )
