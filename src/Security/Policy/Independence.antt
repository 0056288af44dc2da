-- ===== src/Security/Policy/Independence.antt =====
-- What the decision does not depend on, and that it fails closed.
use mcp_business_assistant.Prelude.{
  ℕ, ◌≤◌, String, ◌≡◌, ◌≢◌, ◌∙◌, refl, ap, true, false, none, [], ◌∷◌, arith, Dict, lookup,
  contains, is_some, inl, inr, Bool-cases, Option-cases, str_eq,
}
use mcp_business_assistant.Enums.{high_risk}
use mcp_business_assistant.Errors.{ok}
use mcp_business_assistant.Json.{Fields}
use mcp_business_assistant.Mcp.Types.{ToolSpec}
use mcp_business_assistant.Security.Permissions.{classify, is_registered, tool_permissions}
use mcp_business_assistant.Security.Policy.{
  PolicySettings, PolicyContext, PolicyDecision, PolicyOutcome, allow, require_approval, deny,
  evaluate, first_applicable_rule, risk_rules, recipient_limit,
}
use mcp_business_assistant.Security.Policy.Summary.{summarise_action}
use mcp_business_assistant.Security.Policy.Gating.{
  evaluate_inv, recipient_limit-cases, evaluate_allows_iff,
}

contains-lookup {ℓ} : {V : Type ℓ} (k : String) (d : Dict V) → contains k d ≡ is_some (lookup k d)
unfolding contains lookup
contains-lookup k [] = refl
contains-lookup k ((j, v) ∷ d) = elim (Bool-cases (str_eq j k)) [
  | inl e ↦ rw e
  | inr e ↦ rw e (contains-lookup k d)
]

lookup-absent {ℓ} :
    {V : Type ℓ} (k : String) (d : Dict V) → contains k d ≡ false → lookup k d ≡ none
lookup-absent k d h = elim (Option-cases (lookup k d)) [
  | inl e ↦ e
  | inr (v, e) ↦ absurd (cc (contains-lookup k d, ap is_some e))
]

-- A tool that the registry does not list is HIGH_RISK.
pub classify-unregistered : (name : String) → is_registered name ≡ false → classify name ≡ high_risk
unfolding classify is_registered
classify-unregistered name h = rw (lookup-absent name tool_permissions h)

-- A tool that the registry does not list is never allowed to run at once: whatever its server says
-- of it, whoever calls it, with whatever arguments and settings.
pub evaluate_unregistered :
    (settings : PolicySettings) (spec : ToolSpec) (arguments : Fields) (context : PolicyContext)
    {d : PolicyDecision}
    → is_registered spec.qualified_name ≡ false
    → evaluate settings spec arguments context ≡ ok d
    → (d.permission ≡ high_risk) × (d.outcome ≢ allow)
evaluate_unregistered settings spec arguments context {d} new h =
    let risk = classify-unregistered spec.qualified_name new in
    let i = evaluate_inv settings spec arguments context h in
    (
      i.1 ∙ risk,
      λ e.
          let w = (evaluate_allows_iff settings spec arguments context h).0 e in
          ground (arith, w.2, risk),
    )

-- The decision reads nothing of a specification but its qualified name: the server's hints,
-- descriptions and schemas do not count.
evaluate_reads_name :
    (settings : PolicySettings) (spec spec' : ToolSpec) (arguments : Fields)
    (context : PolicyContext)
    → spec.qualified_name ≡ spec'.qualified_name
    → evaluate settings spec arguments context ≡ evaluate settings spec' arguments context
unfolding evaluate first_applicable_rule recipient_limit summarise_action
evaluate_reads_name settings spec spec' arguments context same =
    ap (λ (n : String). evaluate settings (record spec { qualified_name = n }) arguments context)
      same

-- How strict an outcome is.
abbrev pub strictness : PolicyOutcome → ℕ
strictness allow = 0
strictness require_approval = 1
strictness deny = 2

-- Requiring approval for writes only makes the policy stricter.
pub evaluate_monotone :
    (settings : PolicySettings) (spec : ToolSpec) (arguments : Fields) (context : PolicyContext)
    {d d' : PolicyDecision}
    → evaluate settings spec arguments context ≡ ok d
    → evaluate (record { require_approval_for_writes = true }) spec arguments context ≡ ok d'
    → strictness d.outcome ≤ strictness d'.outcome
unfolding first_applicable_rule risk_rules
evaluate_monotone settings spec arguments context {d} {d'} h h' =
    let i = evaluate_inv settings spec arguments context h in
    let i' =
      evaluate_inv (record { require_approval_for_writes = true }) spec arguments context h' in
    elim (recipient_limit-cases spec arguments) [
      | inl (passes, _) ↦ ground (arith, i, i')
      | inr (inl ((r, refused), _)) ↦ ground (arith, i, i')
      | inr (inr crashed) ↦ ground (arith, i, i')
    ]
