-- ===== src/Mcp/Catalog.antt =====
-- app/mcp/discovery.py: from what a server lists to the catalog of tools.
pub mod Laws
use mcp_business_assistant.Prelude.{
  ℕ, ◌+◌, String, Bool, true, false, Option, none, some, List, [], ◌∷◌, map, length, keep, Dict,
  insert, if◌then◌else◌, str_eq, take,
}
use mcp_business_assistant.Prelude.Text.{◌⊕◌, is_empty_text, strip, sort_texts}
use mcp_business_assistant.Enums.{
  PermissionLevel, read, write, high_risk, is_read, is_write, is_high_risk,
}
use mcp_business_assistant.Json.{Fields, str, obj, field, end}
use mcp_business_assistant.Mcp.Types.{ToolSpec, qualify}
use mcp_business_assistant.Security.Permissions.{classify}

-- What the SDK's `Tool` says of a tool. The two hints are those of `annotations`.
pub record Tool : Type 0 where
  pub name : String
  pub description : Option String
  pub title : Option String
  pub input_schema : Option Fields
  pub output_schema : Option Fields
  pub annotations : Option (Option Bool × Option Bool)

abbrev stripped : Option String → String
stripped none = ""
stripped (some s) = strip s

abbrev empty_schema : Fields
empty_schema = field "type" (str "object") (field "properties" (obj end) end)

-- `schema or {…}`, and `schema or None`
abbrev schema_or_empty : Option Fields → Fields
schema_or_empty (some (field k v fs)) = field k v fs
schema_or_empty _ = empty_schema

abbrev schema_or_none : Option Fields → Option Fields
schema_or_none (some (field k v fs)) = some (field k v fs)
schema_or_none _ = none

abbrev first_hint : Option (Option Bool × Option Bool) → Option Bool
first_hint none = none
first_hint (some (h, _)) = h

abbrev second_hint : Option (Option Bool × Option Bool) → Option Bool
second_hint none = none
second_hint (some (_, h)) = h

-- `build_tool_spec`
unfoldable pub build_tool_spec : String → Tool → ToolSpec
build_tool_spec server tool =
    let qualified_name = qualify server tool.name in
    let description = stripped tool.description in
    record {
      qualified_name = qualified_name;
      name = tool.name;
      server = server;
      description =
          if is_empty_text description
          then tool.name ⊕ " (no description provided by the server)"
          else description;
      input_schema = schema_or_empty tool.input_schema;
      permission = classify qualified_name;
      output_schema = schema_or_none tool.output_schema;
      title = tool.title;
      server_read_only_hint = first_hint tool.annotations;
      server_destructive_hint = second_hint tool.annotations;
    }

-- `ToolCatalog`: the specifications by qualified name.
abbrev pub ToolCatalog : Type 0
ToolCatalog = Dict ToolSpec

unfoldable pub add_specs : ToolCatalog → List ToolSpec → ToolCatalog
add_specs catalog [] = catalog
add_specs catalog (spec ∷ specs) = add_specs (insert spec.qualified_name spec catalog) specs

-- `ToolCatalog(specs)`: of two tools with one name the later stays.
unfoldable pub catalog_of : List ToolSpec → ToolCatalog
unfolding add_specs
catalog_of specs = add_specs [] specs

-- Iteration over the catalog.
unfoldable pub specs_of : ToolCatalog → List ToolSpec
specs_of [] = []
specs_of ((_, spec) ∷ catalog) = spec ∷ specs_of catalog

unfoldable pub catalog_names : ToolCatalog → List String
catalog_names catalog = sort_texts (map (λ (e : String × ToolSpec). e.0) catalog)

unfoldable pub by_server : String → ToolCatalog → List ToolSpec
unfolding specs_of
by_server server catalog = keep (λ (s : ToolSpec). str_eq s.server server) (specs_of catalog)

abbrev pub same_level : PermissionLevel → PermissionLevel → Bool
same_level read level = is_read level
same_level write level = is_write level
same_level high_risk level = is_high_risk level

unfoldable pub by_permission : PermissionLevel → ToolCatalog → List ToolSpec
unfolding specs_of
by_permission level catalog =
    keep (λ (s : ToolSpec). same_level s.permission level) (specs_of catalog)

-- `readable_only`
unfoldable pub readable_only : ToolCatalog → ToolCatalog
unfolding by_permission catalog_of
readable_only catalog = catalog_of (by_permission read catalog)

-- `stats`: the counts of READ, WRITE and HIGH_RISK tools and of all.
unfoldable pub stats : ToolCatalog → ℕ × ℕ × ℕ × ℕ
unfolding by_permission
stats catalog = (
  length (by_permission read catalog),
  length (by_permission write catalog),
  length (by_permission high_risk catalog),
  length catalog,
)
