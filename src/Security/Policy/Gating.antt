-- ===== src/Security/Policy/Gating.antt =====
-- What the policy lets pass: the gate is a function of the local classification, the role, the
-- setting and the number of recipients.
use mcp_business_assistant.Prelude.{
  ℕ, ◌≤◌, String, ◌≡◌, ◌≢◌, refl, true, false, Option, none, some, arith, inl, inr, ◌⊎◌, ◌↔◌,
  str_eq, eq_iff, Bool-cases, ltb,
}
use mcp_business_assistant.Enums.{viewer, read, write, is_viewer}
use mcp_business_assistant.Errors.{ok, crash}
use mcp_business_assistant.Json.{Fields, has_key}
use mcp_business_assistant.Mcp.Types.{ToolSpec}
use mcp_business_assistant.Security.Permissions.{classify}
use mcp_business_assistant.Security.Policy.{
  PolicySettings, PolicyContext, PolicyDecision, allow, deny, evaluate, first_applicable_rule,
  risk_rules, recipient_limit, count_recipients, check_limit, too_many_reason,
  malformed_arguments_key,
}

-- An email goes to at most fifty recipients; the limit says nothing of other tools.
abbrev pub WithinLimit : ToolSpec → Fields → Type 0
WithinLimit spec arguments =
    spec.qualified_name ≡ "email__send_email"
    → (n : ℕ) × (count_recipients arguments ≡ some n) × (n ≤ 50)

-- The limit rule passes, refuses an email that breaks the limit, or meets a `TypeError`.
checked_limit :
    (o : Option ℕ)
    → ((check_limit o ≡ ok none) × ((n : ℕ) × (o ≡ some n) × (n ≤ 50)))
      ⊎ (((r : String) × (check_limit o ≡ ok (some r))) × ¬ ((n : ℕ) × (o ≡ some n) × (n ≤ 50)))
      ⊎ (check_limit o ≡ crash)
checked_limit none = inr (inr refl)
checked_limit (some n) = elim (Bool-cases (ltb 50 n)) [
  | inl many ↦ inr (inl ((too_many_reason n, rw many), λ (m, e, few). ground arith))
  | inr few ↦ inl (rw few, (n, refl, ground arith))
]

pub recipient_limit-cases :
    (spec : ToolSpec) (arguments : Fields)
    → ((recipient_limit spec arguments ≡ ok none) × WithinLimit spec arguments)
      ⊎ (((r : String) × (recipient_limit spec arguments ≡ ok (some r)))
          × ¬ WithinLimit spec arguments)
      ⊎ (recipient_limit spec arguments ≡ crash)
unfolding recipient_limit
recipient_limit-cases spec arguments =
    elim (Bool-cases (str_eq spec.qualified_name "email__send_email")) [
      | inl e ↦ elim (checked_limit (count_recipients arguments)) [
        | inl (passes, few) ↦ inl (rw e passes, λ _. few)
        | inr (inl ((r, refused), many)) ↦
            inr (inl ((r, rw e refused), λ w. many (w ((eq_iff _ _).0 e))))
        | inr (inr crashed) ↦ inr (inr (rw e crashed))
      ]
      | inr e ↦ inl (rw e refl, λ same. absurd (cc ((eq_iff _ _).1 same)))
    ]

module _ (settings : PolicySettings) (spec : ToolSpec) (arguments : Fields)
    (context : PolicyContext) where
  -- A decision is that of the first rule that applies, at the tool's local classification.
  pub evaluate_inv :
      {d : PolicyDecision}
      → evaluate settings spec arguments context ≡ ok d
      → (first_applicable_rule settings spec arguments context (classify spec.qualified_name)
          ≡ ok (d.outcome, d.reason))
        × (d.permission ≡ classify spec.qualified_name)
        × (d.tool_name ≡ spec.qualified_name)
  unfolding evaluate
  evaluate_inv {d} h = ground arith

  -- The policy allows a call exactly when its arguments parsed, it is no email to more than fifty
  -- recipients, and its tool is classified READ, or WRITE for a caller who is not a viewer where
  -- writes need no approval.
  pub evaluate_allows_iff :
      {d : PolicyDecision}
      → evaluate settings spec arguments context ≡ ok d
      → (d.outcome ≡ allow) ↔ (
          (has_key malformed_arguments_key arguments ≡ false)
          × WithinLimit spec arguments
          × ((classify spec.qualified_name ≡ read)
              ⊎ ((classify spec.qualified_name ≡ write)
                  × (is_viewer context.user_role ≡ false)
                  × (settings.require_approval_for_writes ≡ false))))
  unfolding first_applicable_rule risk_rules
  evaluate_allows_iff {d} h =
      let i = evaluate_inv h in
      elim (recipient_limit-cases spec arguments) [
        | inl (passes, within) ↦ (λ e. ground (arith, i), λ w. ground (arith, i, w))
        | inr (inl ((r, refused), beyond)) ↦
            (λ e. absurd (ground (arith, i)), λ w. absurd (beyond w.1))
        | inr (inr crashed) ↦ (λ e. absurd (ground (arith, i)), λ w. absurd (ground (arith, i, w)))
      ]

  -- A malformed call, a call of a viewer to a tool that is not READ, and an email past the limit
  -- are denied, whatever the classification and the settings.
  pub evaluate_denies :
      {d : PolicyDecision}
      → evaluate settings spec arguments context ≡ ok d
      → (d.outcome ≡ deny) ↔ (
          (has_key malformed_arguments_key arguments ≡ true)
          ⊎ ((context.user_role ≡ viewer) × (classify spec.qualified_name ≢ read))
          ⊎ ¬ WithinLimit spec arguments)
  unfolding first_applicable_rule risk_rules
  evaluate_denies {d} h =
      let i = evaluate_inv h in
      elim (recipient_limit-cases spec arguments) [
        | inl (passes, within) ↦ (λ e. ground (arith, i), λ w. ground (arith, i, w))
        | inr (inl ((r, refused), beyond)) ↦ (λ e. inr (inr beyond), λ w. ground (arith, i, w))
        | inr (inr crashed) ↦ (λ e. ground (arith, i), λ w. ground (arith, i, w))
      ]
