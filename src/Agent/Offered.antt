-- ===== src/Agent/Offered.antt =====
-- The tools that `discover_tools` of app/agents/nodes.py offers for a run.
use mathlib.Core.List.{Memᴰ}
use mcp_business_assistant.Prelude.{
  ◌≡◌, ◌≢◌, refl, sym, ◌∙◌, ap, inl, inr, true, List, [], ◌∷◌, keep, All, Bool-cases, arith,
}
use mcp_business_assistant.Enums.{UserRole, viewer, is_viewer, read}
use mcp_business_assistant.Errors.{ok}
use mcp_business_assistant.Mcp.Types.{ToolSpec}
use mcp_business_assistant.Mcp.Catalog.{
  ToolCatalog, specs_of, readable_only, by_permission, same_level,
}
use mcp_business_assistant.Mcp.Catalog.Laws.{IsLocal, catalog_of-specs}
use mcp_business_assistant.Security.Permissions.{classify}
use mcp_business_assistant.Agent.State.{AgentState}
use mcp_business_assistant.Agent.World.{AgentDependencies, World}
use mcp_business_assistant.Agent.Nodes.{discover_tools, visible_catalog}

-- A tool of the catalog that the registry classifies READ.
abbrev pub IsReadable : ToolCatalog → ToolSpec → Type 0
IsReadable catalog spec = Memᴰ spec (specs_of catalog) × (classify spec.qualified_name ≡ read)

IsReadable-All :
    (catalog : ToolCatalog) (specs : List ToolSpec)
    → ((spec : ToolSpec) → Memᴰ spec specs → Memᴰ spec (specs_of catalog))
    → All IsLocal specs
    → All (IsReadable catalog) (keep (λ (s : ToolSpec). same_level s.permission read) specs)
IsReadable-All catalog [] inside local = tt
IsReadable-All catalog (s ∷ specs) inside (first, rest) =
    let others = IsReadable-All catalog specs (λ spec there. inside spec (Memᴰ.tail there)) rest in
    elim (Bool-cases (same_level s.permission read)) [
      | inl e ↦
          let reads : s.permission ≡ read = ground (arith, e) in
          rw (keep, e) ((inside s (Memᴰ.head refl), sym first.classified ∙ reads), others)
      | inr e ↦ rw (keep, e) others
    ]

readable_only-All :
    (catalog : ToolCatalog)
    → All IsLocal (specs_of catalog)
    → All (IsReadable catalog) (specs_of (readable_only catalog))
unfolding readable_only by_permission
readable_only-All catalog local =
    catalog_of-specs (IsReadable catalog) _
      (IsReadable-All catalog (specs_of catalog) (λ spec there. there) local)

viewer_iff : (r : UserRole) → is_viewer r ≡ true → r ≡ viewer
viewer_iff r h = ground (arith, h)

-- Where the catalog holds what the registry makes of the tools, the node goes on with a state that
-- offers a viewer none but tools of the catalog that the registry classifies READ, and offers any
-- other user exactly the tools of the catalog.
pub discover_tools-IsReadable :
    (deps : AgentDependencies) (s : AgentState) (w : World)
    → All IsLocal (specs_of deps.gateway.manager.catalog)
    → (s' : AgentState) × ((discover_tools deps s w).0 ≡ ok s')
      × (s.user_role ≡ viewer → All (IsReadable deps.gateway.manager.catalog) s'.available_tools)
      × (s.user_role ≢ viewer → s'.available_tools ≡ specs_of deps.gateway.manager.catalog)
unfolding discover_tools visible_catalog
discover_tools-IsReadable deps s w local =
    let readable = readable_only-All deps.gateway.manager.catalog local in
    elim (Bool-cases (is_viewer s.user_role)) [
      | inl e ↦
          rw e (_, refl, (λ _. readable), (λ other. absurd (other (viewer_iff s.user_role e))))
      | inr e ↦ rw e (_, refl, (λ same. absurd (cc (ap is_viewer same, e))), (λ _. refl))
    ]
