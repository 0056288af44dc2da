-- ===== src/Mcp/Catalog/Laws.antt =====
-- What the catalog holds: every entry is classified by the local registry under its own name.
use mathlib.Core.Path.{subst}
use mcp_business_assistant.Prelude.{
  String, ◌≡◌, refl, some, List, [], ◌∷◌, All, insert, lookup, lookup-insert, str_eq, eq_iff,
  Bool-cases, inl, inr,
}
use mcp_business_assistant.Mcp.Types.{ToolSpec, qualify}
use mcp_business_assistant.Security.Permissions.{classify}
use mcp_business_assistant.Mcp.Catalog.{
  Tool, build_tool_spec, ToolCatalog, add_specs, catalog_of, specs_of,
}

-- The name is built from the server and the tool, and the level is the registry's.
pub record IsLocal (spec : ToolSpec) : Type 0 where
  pub named : spec.qualified_name ≡ qualify spec.server spec.name
  pub classified : spec.permission ≡ classify spec.qualified_name

pub build_tool_spec-IsLocal :
    (server : String) (tool : Tool) → IsLocal (build_tool_spec server tool)
unfolding build_tool_spec
build_tool_spec-IsLocal server tool = record { named = refl; classified = refl }

module _ (P : ToolSpec → Type 0) where
  -- Every entry stands under its own name, and its specification has the property.
  pub record Holds (catalog : ToolCatalog) : Type 0 where
    pub entry :
        (k : String) (spec : ToolSpec)
        → lookup k catalog ≡ some spec
        → (spec.qualified_name ≡ k) × P spec

  insert-Holds :
      (spec : ToolSpec) (catalog : ToolCatalog)
      → P spec
      → Holds catalog
      → Holds (insert spec.qualified_name spec catalog)
  insert-Holds spec catalog p h = record {
    entry = λ k found there. elim (Bool-cases (str_eq spec.qualified_name k)) [
      | inl same ↦
          let e : spec ≡ found =
            cc (rw (lookup-insert spec.qualified_name k spec catalog, same) at there) in
          subst (λ (s : ToolSpec). (s.qualified_name ≡ k) × P s) e ((eq_iff _ _).0 same, p)
      | inr other ↦
          h.entry k found (rw (lookup-insert spec.qualified_name k spec catalog, other) at there)
    ];
  }

  add_specs-Holds :
      (specs : List ToolSpec) (catalog : ToolCatalog)
      → Holds catalog
      → All P specs
      → Holds (add_specs catalog specs)
  unfolding add_specs
  add_specs-Holds [] catalog h ps = h
  add_specs-Holds (spec ∷ specs) catalog h (p, ps) =
      add_specs-Holds specs (insert spec.qualified_name spec catalog)
        (insert-Holds spec catalog p h) ps

  pub catalog_of-Holds : (specs : List ToolSpec) → All P specs → Holds (catalog_of specs)
  unfolding catalog_of lookup
  catalog_of-Holds specs ps =
      add_specs-Holds specs [] (record { entry = λ k spec there. absurd (cc) }) ps

module _ (P : ToolSpec → Type 0) where
  insert-specs :
      (k : String) (spec : ToolSpec) (catalog : ToolCatalog)
      → P spec
      → All P (specs_of catalog)
      → All P (specs_of (insert k spec catalog))
  unfolding specs_of insert
  insert-specs k spec [] p ps = (p, tt)
  insert-specs k spec ((j, w) ∷ catalog) p (q, ps) = elim (Bool-cases (str_eq j k)) [
    | inl e ↦ rw e (p, ps)
    | inr e ↦ rw e (q, insert-specs k spec catalog p ps)
  ]

  add_specs-specs :
      (specs : List ToolSpec) (catalog : ToolCatalog)
      → All P (specs_of catalog)
      → All P specs
      → All P (specs_of (add_specs catalog specs))
  unfolding add_specs
  add_specs-specs [] catalog held ps = held
  add_specs-specs (spec ∷ specs) catalog held (p, ps) =
      add_specs-specs specs (insert spec.qualified_name spec catalog)
        (insert-specs spec.qualified_name spec catalog p held) ps

  -- The catalog of some specifications holds no others.
  pub catalog_of-specs : (specs : List ToolSpec) → All P specs → All P (specs_of (catalog_of specs))
  unfolding catalog_of specs_of
  catalog_of-specs specs ps = add_specs-specs specs [] tt ps
