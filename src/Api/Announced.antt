-- ===== src/Api/Announced.antt =====
-- What the list of the tools announces of the approvals that they need.
use mcp_business_assistant.Prelude.{
  ◌≡◌, ◌≢◌, ap, sym, ◌∙◌, refl, inl, inr, Bool, true, false, Option, none, some, List, [], ◌∷◌, map,
  keep, All, Bool-cases, arith,
}
use mcp_business_assistant.Prelude.Text.{text_before}
use mcp_business_assistant.Enums.{PermissionLevel}
use mcp_business_assistant.Errors.{ok}
use mcp_business_assistant.Json.{Fields}
use mcp_business_assistant.Mcp.Types.{ToolSpec}
use mcp_business_assistant.Mcp.Catalog.{ToolCatalog, specs_of, by_permission, same_level}
use mcp_business_assistant.Mcp.Catalog.Laws.{IsLocal}
use mcp_business_assistant.Mcp.Manager.{Manager}
use mcp_business_assistant.Security.Permissions.{classify}
use mcp_business_assistant.Security.Policy.{
  PolicySettings, PolicyContext, PolicyDecision, allow, require_approval, evaluate,
  first_applicable_rule, risk_rules,
}
use mcp_business_assistant.Security.Policy.Gating.{
  evaluate_inv, evaluate_allows_iff, recipient_limit-cases,
}
use mcp_business_assistant.Execution.Execute.{insert_spec, sort_specs}
use mcp_business_assistant.Api.Tools.{
  ToolOut, tool_out, requires_approval, selected_specs, listed_tools,
}

module _ (settings : PolicySettings) (spec : ToolSpec) (arguments : Fields)
    (context : PolicyContext) {d : PolicyDecision}
    (decided : evaluate settings spec arguments context ≡ ok d) where
  never_allowed :
      requires_approval (classify spec.qualified_name) settings ≡ true → d.outcome ≢ allow
  never_allowed h e =
      let (_, _, level) = (evaluate_allows_iff settings spec arguments context decided).0 e in
      ground (arith, level, h)

  never_asked :
      requires_approval (classify spec.qualified_name) settings ≡ false
      → d.outcome ≢ require_approval
  unfolding first_applicable_rule risk_rules
  never_asked h e =
      let i = evaluate_inv settings spec arguments context decided in
      elim (recipient_limit-cases spec arguments) [
        | inl (passes, within) ↦ ground (arith, i, h)
        | inr (inl ((r, refused), beyond)) ↦ ground (arith, i, h)
        | inr (inr crashed) ↦ ground (arith, i, h)
      ]

module _ {A : Type 0} (P : A → Type 0) where
  keep-All : (test : A → Bool) (xs : List A) → All P xs → All P (keep test xs)
  keep-All test [] ps = tt
  keep-All test (x ∷ xs) ps = elim (Bool-cases (test x)) [
    | inl e ↦ rw (keep, e) (ps.0, keep-All test xs ps.1)
    | inr e ↦ rw (keep, e) (keep-All test xs ps.1)
  ]

  map-All :
      {B : Type 0} (Q : B → Type 0) (f : A → B) (xs : List A)
      → ((x : A) → P x → Q (f x))
      → All P xs
      → All Q (map f xs)
  map-All Q f [] k ps = tt
  map-All Q f (x ∷ xs) k ps = (k x ps.0, map-All Q f xs k ps.1)

module _ (P : ToolSpec → Type 0) where
  insert_spec-All :
      (s : ToolSpec) (specs : List ToolSpec) → P s → All P specs → All P (insert_spec s specs)
  unfolding insert_spec
  insert_spec-All s [] p ps = (p, tt)
  insert_spec-All s (t ∷ ts) p ps =
      elim (Bool-cases (text_before t.qualified_name s.qualified_name)) [
        | inl later ↦ rw later (ps.0, insert_spec-All s ts p ps.1)
        | inr first ↦ rw first (p, ps)
      ]

  sort_specs-All : (specs : List ToolSpec) → All P specs → All P (sort_specs specs)
  unfolding sort_specs
  sort_specs-All [] ps = tt
  sort_specs-All (s ∷ ss) ps = insert_spec-All s (sort_specs ss) ps.0 (sort_specs-All ss ps.1)

-- The listing of a tool says what the policy decides on its calls, whatever the arguments and the
-- user.
pub record IsAnnounced (settings : PolicySettings) (out : ToolOut) : Type 0 where
  pub spec : ToolSpec
  pub name : spec.qualified_name ≡ out.name
  pub gated :
      out.requires_approval ≡ true
      → (arguments : Fields) (context : PolicyContext) (d : PolicyDecision)
      → evaluate settings spec arguments context ≡ ok d
      → d.outcome ≢ allow
  pub free :
      out.requires_approval ≡ false
      → (arguments : Fields) (context : PolicyContext) (d : PolicyDecision)
      → evaluate settings spec arguments context ≡ ok d
      → d.outcome ≢ require_approval

IsLocal-IsAnnounced :
    (settings : PolicySettings) (spec : ToolSpec)
    → IsLocal spec
    → IsAnnounced settings (tool_out settings spec)
IsLocal-IsAnnounced settings spec local =
    let e = ap (λ level. requires_approval level settings) local.classified in
    record {
      spec = spec;
      name = refl;
      gated = λ h arguments context d decided.
          never_allowed settings spec arguments context decided (sym e ∙ h);
      free = λ h arguments context d decided.
          never_asked settings spec arguments context decided (sym e ∙ h);
    }

selected-All :
    (permission : Option PermissionLevel) (catalog : ToolCatalog)
    → All IsLocal (specs_of catalog)
    → All IsLocal (selected_specs permission catalog)
unfolding by_permission
selected-All none catalog local = local
selected-All (some level) catalog local =
    keep-All IsLocal (λ (s : ToolSpec). same_level s.permission level) (specs_of catalog) local

-- Where the catalog holds what the registry makes of the tools, the list of the tools tells the
-- truth about the approvals: a call of a tool that is listed as needing an approval is never allowed
-- at once, and a call of one that is listed as not needing any never waits for an approval, whatever
-- the arguments and the user.
pub listed_tools-IsAnnounced :
    (settings : PolicySettings) (permission : Option PermissionLevel) (manager : Manager)
    → All IsLocal (specs_of manager.catalog)
    → All (IsAnnounced settings) (listed_tools settings permission manager).tools
unfolding listed_tools
listed_tools-IsAnnounced settings permission manager local =
    map-All IsLocal (IsAnnounced settings) (tool_out settings) _ (IsLocal-IsAnnounced settings)
      (sort_specs-All IsLocal _ (selected-All permission manager.catalog local))
