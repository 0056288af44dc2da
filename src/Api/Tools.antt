-- ===== src/Api/Tools.antt =====
-- app/api/routes/tools.py, with ToolOut and ToolListResponse of app/models/schemas/api.py.
use mcp_business_assistant.Prelude.{
  ℕ, String, Bool, true, false, Option, none, some, List, [], ◌∷◌, map, length, any, ◌&&◌, str_eq,
  if◌then◌else◌,
}
use mcp_business_assistant.Prelude.Text.{sort_texts}
use mcp_business_assistant.Enums.{PermissionLevel, is_high_risk, is_write}
use mcp_business_assistant.Json.{Fields}
use mcp_business_assistant.Mcp.Types.{ToolSpec}
use mcp_business_assistant.Mcp.Catalog.{ToolCatalog, specs_of, by_permission, stats}
use mcp_business_assistant.Mcp.Manager.{Manager, Listing, refresh_catalog, is_degraded}
use mcp_business_assistant.Security.Policy.{PolicySettings}
use mcp_business_assistant.Execution.Execute.{sort_specs}

pub record ToolOut : Type 0 where
  pub name : String
  pub server : String
  pub description : String
  pub permission : PermissionLevel
  pub requires_approval : Bool
  pub input_schema : Fields
  pub server_read_only_hint : Option Bool

-- The counts are those of READ, WRITE and HIGH_RISK tools and of all.
pub record ToolListResponse : Type 0 where
  pub tools : List ToolOut
  pub count : ℕ
  pub servers : List String
  pub counts_by_permission : ℕ × ℕ × ℕ × ℕ
  pub degraded : Bool

-- `_requires_approval`
abbrev pub requires_approval : PermissionLevel → PolicySettings → Bool
requires_approval level settings =
    if is_high_risk level then true else is_write level && settings.require_approval_for_writes

abbrev pub tool_out : PolicySettings → ToolSpec → ToolOut
tool_out settings spec = record {
  name = spec.qualified_name;
  server = spec.server;
  description = spec.description;
  permission = spec.permission;
  requires_approval = requires_approval spec.permission settings;
  input_schema = spec.input_schema;
  server_read_only_hint = spec.server_read_only_hint;
}

-- The elements of a set of texts.
unfoldable distinct : List String → List String
distinct [] = []
distinct (s ∷ ts) = let rest = distinct ts in if any (str_eq s) ts then rest else s ∷ rest

-- `ToolCatalog.servers`
unfoldable pub catalog_servers : ToolCatalog → List String
unfolding distinct
catalog_servers catalog =
    sort_texts (distinct (map (λ (s : ToolSpec). s.server) (specs_of catalog)))

abbrev pub selected_specs : Option PermissionLevel → ToolCatalog → List ToolSpec
selected_specs none catalog = specs_of catalog
selected_specs (some level) catalog = by_permission level catalog

-- `manager` after the discovery, if one was asked for.
abbrev pub refreshed : (String → Listing) → Bool → Manager → Manager
refreshed list true manager = refresh_catalog list manager
refreshed list false manager = manager

-- The response of `list_tools`
unfoldable pub listed_tools : PolicySettings → Option PermissionLevel → Manager → ToolListResponse
listed_tools settings permission manager = record {
  tools = map (tool_out settings) (sort_specs (selected_specs permission manager.catalog));
  count = length (selected_specs permission manager.catalog);
  servers = catalog_servers manager.catalog;
  counts_by_permission = stats manager.catalog;
  degraded = is_degraded manager;
}

-- `list_tools`, with the manager after it; `list` is what the servers list.
unfoldable pub list_tools :
    PolicySettings
    → (String → Listing)
    → Option PermissionLevel
    → Bool
    → Manager
    → ToolListResponse × Manager
unfolding listed_tools
list_tools settings list permission refresh manager =
    let manager' = refreshed list refresh manager in
    (listed_tools settings permission manager', manager')
