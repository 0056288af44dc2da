-- ===== src/Mcp/Manager/Discovery.antt =====
-- What `refresh_catalog` puts into the catalog.
use mcp_business_assistant.Prelude.{
  String, ◌≡◌, refl, some, List, [], ◌∷◌, map, Dict, lookup, insert, All, All-append, Bool-cases,
  inl, inr, ◌⊎◌,
}
use mcp_business_assistant.Prelude.Text.{◌⊕◌}
use mcp_business_assistant.Mcp.Types.{ToolSpec}
use mcp_business_assistant.Mcp.Catalog.{Tool, build_tool_spec}
use mcp_business_assistant.Mcp.Catalog.Laws.{
  IsLocal, Holds, build_tool_spec-IsLocal, catalog_of-Holds,
}
use mcp_business_assistant.Mcp.Manager.{
  Connection, is_connected, Listing, listed, refused, discover, Manager, refresh_catalog,
}

module _ (list_tools : String → Listing) where
  -- The specification is what the registry makes of a tool that its server listed.
  pub record IsDiscovered (spec : ToolSpec) : Type 0 where
    pub tools : List Tool
    pub tool : Tool
    pub answered : list_tools spec.server ≡ listed tools
    pub built : spec ≡ build_tool_spec spec.server tool
    pub local : IsLocal spec

  built-All :
      (name : String) (answer tools : List Tool)
      → list_tools name ≡ listed answer
      → All IsDiscovered (map (build_tool_spec name) tools)
  unfolding build_tool_spec
  built-All name answer [] h = tt
  built-All name answer (tool ∷ tools) h = (
    record {
      tools = answer;
      tool = tool;
      answered = h;
      built = refl;
      local = build_tool_spec-IsLocal name tool;
    },
    built-All name answer tools h,
  )

  answer-cases :
      (name : String)
      → ((class : String) × (list_tools name ≡ refused class))
        ⊎ ((tools : List Tool) × (list_tools name ≡ listed tools))
  answer-cases name =
      elim (list_tools name)
        as (λ a.
          ((class : String) × (a ≡ refused class)) ⊎ ((tools : List Tool) × (a ≡ listed tools))) [
            | refused class ↦ inl (class, refl)
            | listed tools ↦ inr (tools, refl)
          ]

  discover-All :
      (connections : Dict Connection) (failures : Dict String)
      → All IsDiscovered (discover list_tools connections failures).0
  unfolding discover
  discover-All [] failures = tt
  discover-All ((name, connection) ∷ connections) failures =
      elim (Bool-cases (is_connected connection)) [
        | inr e ↦ rw (discover, e) (discover-All connections failures)
        | inl e ↦ elim (answer-cases name) [
          | inl (class, answer) ↦
              rw (discover, e, answer)
                (discover-All connections
                  (insert name ("tool discovery failed: " ⊕ class) failures))
          | inr (tools, answer) ↦
              rw (discover, e, answer)
                (All-append IsDiscovered _ _ (built-All name tools tools answer)
                  (discover-All connections failures))
        ]
      ]

  pub refresh_catalog-IsDiscovered :
      (manager : Manager) (k : String) (spec : ToolSpec)
      → lookup k (refresh_catalog list_tools manager).catalog ≡ some spec
      → (spec.qualified_name ≡ k) × IsDiscovered spec
  unfolding refresh_catalog
  refresh_catalog-IsDiscovered manager k spec there =
      (catalog_of-Holds IsDiscovered _ (discover-All manager.connections manager.failures)).entry k
        spec there

  pub refresh_catalog-Holds :
      (manager : Manager) → Holds IsLocal (refresh_catalog list_tools manager).catalog
  refresh_catalog-Holds manager = record {
    entry = λ k spec there.
        let (same, found) = refresh_catalog-IsDiscovered manager k spec there in
        (same, found.local);
  }
