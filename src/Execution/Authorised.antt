-- ===== src/Execution/Authorised.antt =====
-- Which calls reach a server: `execute` hands a call to the MCP manager once, or not at all.
use mathlib.Core.Path.{subst}
use mcp_business_assistant.Prelude.{
  ℕ, ◌≡◌, ◌≢◌, refl, ◌∙◌, ap, ◌⊎◌, inl, inr, Option, none, some, [], ◌∷◌, ◌++◌, lookup,
  Option-cases,
}
use mcp_business_assistant.Errors.{Result, ok, err, crash}
use mcp_business_assistant.Database.{Database, ApprovalRequest, record_audit}
use mcp_business_assistant.Action.{Action, continue, lift}
use mcp_business_assistant.Mcp.Types.{ToolSpec, ToolCall}
use mcp_business_assistant.Mcp.Validation.{validate_arguments}
use mcp_business_assistant.Security.Policy.{
  PolicyContext, PolicyDecision, PolicyOutcome, allow, require_approval, deny, evaluate,
}
use mcp_business_assistant.Approval.Service.{ApprovalGrant, verify_grant}
use mcp_business_assistant.Approval.Evolution.{Keeps}
use mcp_business_assistant.Approval.Methods.{verify_grant-Keeps}
use mcp_business_assistant.Approval.Grant.{IsHonoured, verify_grant-ok_iff}
use mcp_business_assistant.Execution.Gateway.{Gateway, ExecutionOutcome, dispatch, finish, run}
use mcp_business_assistant.Execution.Execute.{
  execute_gated, execute_outcome, execute_decided, execute_known, execute,
}
use mcp_business_assistant.Execution.Paths.{
  finish-Keeps, request_approval-Keeps, deny_call-Keeps, deny_unknown_tool-Keeps,
  reject_arguments-Keeps,
}

-- What other sessions do while a tool runs is no call of this one.
abbrev pub LeavesTrace : Gateway → Type 0
LeavesTrace gateway = (db : Database) → (gateway.meanwhile db).dispatched ≡ db.dispatched

-- An action either goes on with a value, or ends there.
pub continue-cases :
    {A B : Type 0} (f : A → Action B) (x : Result A × Database)
    → ((a : A) × (x.0 ≡ ok a) × (continue f x ≡ f a x.1))
      ⊎ (((a : A) → x.0 ≢ ok a) × ((continue f x).1 ≡ x.1))
continue-cases f (ok a, db) = inl (a, refl, refl)
continue-cases f (err e, db) = inr (λ a h. cc (h), refl)
continue-cases f (crash, db) = inr (λ a h. cc (h), refl)

continue-quiet :
    {A B : Type 0} (f : A → Action B) (x : Result A × Database)
    → ((a : A) → Keeps (f a))
    → (continue f x).1.dispatched ≡ x.1.dispatched
continue-quiet f (ok a, db) k = ((k a).at db).quiet
continue-quiet f (err e, db) k = refl
continue-quiet f (crash, db) k = refl

run-dispatched :
    (gateway : Gateway) (call : ToolCall) (spec : ToolSpec) (d : PolicyDecision) (c u : Option ℕ)
    (approval : Option ApprovalRequest) (db : Database)
    → LeavesTrace gateway
    → (run gateway call spec d c u approval db).1.dispatched ≡ db.dispatched ++ call ∷ []
unfolding run dispatch record_audit
run-dispatched gateway call spec d c u approval db leaves =
    continue-quiet (finish gateway call spec d c u approval) _
      (finish-Keeps gateway call spec d c u approval)
    ∙ leaves _

-- A call is handed over exactly where a condition holds, and then once.
abbrev pub Verdict : Type 0 → Database → Database → ToolCall → Type 0
Verdict P db db' call =
    (P × (db'.dispatched ≡ db.dispatched ++ call ∷ [])) ⊎ ((¬ P) × (db'.dispatched ≡ db.dispatched))

-- What a grant must be for a call that needs an approval.
abbrev pub IsGranted : Gateway → ToolCall → Option ApprovalGrant → Database → Type 0
IsGranted gateway call grant db =
    (g : ApprovalGrant) × (r : ApprovalRequest) × (grant ≡ some g)
    × IsHonoured gateway.sha256 g call.tool_name db r

-- What the decision on a call must be.
abbrev pub IsPermitted :
    Gateway → ToolCall → Option ApprovalGrant → Database → PolicyDecision → Type 0
IsPermitted gateway call grant db d =
    (d.outcome ≡ allow) ⊎ ((d.outcome ≡ require_approval) × IsGranted gateway call grant db)

-- When `execute` may hand a call over: the tool is in the catalog, its arguments pass the schema, and
-- the policy allows the call, or asks for an approval and the grant is honoured by the table.
pub record IsAuthorised (gateway : Gateway) (call : ToolCall) (context : PolicyContext)
    (grant : Option ApprovalGrant) (db : Database) : Type 0 where
  pub spec : ToolSpec
  pub decision : PolicyDecision
  pub in_catalog : lookup call.tool_name gateway.manager.catalog ≡ some spec
  pub valid : validate_arguments gateway.stack spec.input_schema call.arguments ≡ some []
  pub decided : evaluate gateway.settings spec call.arguments context ≡ ok decision
  pub permitted : IsPermitted gateway call grant db decision

module _ (gateway : Gateway) (call : ToolCall) (c u : Option ℕ) (db : Database)
    (leaves : LeavesTrace gateway) where
  gated :
      (grant : Option ApprovalGrant) (spec : ToolSpec) (d : PolicyDecision)
      → Verdict
          (IsGranted gateway call grant db)
          db
          (execute_gated gateway call spec d grant c u db).1
          call
  unfolding execute_gated
  gated none spec d =
      inr (
        λ (g, r, same, _). cc (same),
        ((request_approval-Keeps gateway call spec d c u).at db).quiet,
      )
  gated (some g) spec d =
      let verified = verify_grant gateway.sha256 g call.tool_name in
      elim (continue-cases (λ r. run gateway call spec d c u (some r)) (verified db)) [
        | inl (r, accepted, runs) ↦
            let honoured = (verify_grant-ok_iff gateway.sha256 g call.tool_name db r).1 accepted in
            let unchanged : verified db ≡ (ok r, db) =
              (verify_grant-ok_iff gateway.sha256 g call.tool_name db r).0.1 honoured in
            inl (
              (g, r, refl, honoured),
              ap (λ (x : Result ExecutionOutcome × Database). x.1.dispatched) runs
                  ∙ run-dispatched gateway call spec d c u (some r) (verified db).1 leaves
                  ∙ ap (λ (x : Result ApprovalRequest × Database). x.1.dispatched ++ call ∷ [])
                      unchanged,
            )
        | inr (never, stops) ↦ inr (
          λ (g', r, same, honoured).
              let v : IsHonoured gateway.sha256 g call.tool_name db r =
                subst (λ x. IsHonoured gateway.sha256 x call.tool_name db r) (cc (same)) honoured in
              never r (
                ap (λ (x : Result ApprovalRequest × Database). x.0)
                  ((verify_grant-ok_iff gateway.sha256 g call.tool_name db r).0.1 v)),
          ap (λ (x : Database). x.dispatched) stops
              ∙ ((verify_grant-Keeps gateway.sha256 g call.tool_name).at db).quiet,
        )
      ]

  decided_by :
      (grant : Option ApprovalGrant) (spec : ToolSpec) (d : PolicyDecision) (o : PolicyOutcome)
      → d.outcome ≡ o
      → Verdict
          (IsPermitted gateway call grant db d)
          db
          (execute_outcome gateway call spec grant c u o d db).1
          call
  unfolding execute_outcome
  decided_by grant spec d allow e =
      inl (inl e, run-dispatched gateway call spec d c u none db leaves)
  decided_by grant spec d deny e = inr (
    λ p. elim p [ inl allowed ↦ cc (e, allowed) | inr (asks, _) ↦ cc (e, asks) ],
    ((deny_call-Keeps call spec d c u).at db).quiet,
  )
  decided_by grant spec d require_approval e = elim (gated grant spec d) [
    | inl (granted, once) ↦ inl (inr (e, granted), once)
    | inr (refused, never) ↦
        inr (
          λ p. elim p [ inl allowed ↦ cc (e, allowed) | inr (_, granted) ↦ refused granted ],
          never,
        )
  ]

  -- What makes a call authorised, once its specification is known.
  abbrev Passes : PolicyContext → Option ApprovalGrant → ToolSpec → Type 0
  Passes context grant spec =
      (d : PolicyDecision) × (validate_arguments gateway.stack spec.input_schema call.arguments
        ≡ some [])
      × (evaluate gateway.settings spec call.arguments context ≡ ok d)
      × IsPermitted gateway call grant db d

  evaluated :
      (context : PolicyContext) (grant : Option ApprovalGrant) (spec : ToolSpec)
      → validate_arguments gateway.stack spec.input_schema call.arguments ≡ some []
      → Verdict
          (Passes context grant spec)
          db
          (execute_known gateway call spec context grant c u db).1
          call
  unfolding execute_known
  evaluated context grant spec valid =
      elim (continue-cases (execute_decided gateway call spec grant c u)
        (lift (evaluate gateway.settings spec call.arguments context) db)) [
          | inl (d, decided, goes_on) ↦ elim (decided_by grant spec d d.outcome refl) [
            | inl (permitted, once) ↦ inl ((d, valid, decided, permitted), rw (valid, goes_on) once)
            | inr (refused, never) ↦ inr (
              λ (d', _, decided', permitted).
                  let same : d' ≡ d = cc (decided, decided') in
                  refused (subst (IsPermitted gateway call grant db) same permitted),
              rw (valid, goes_on) never,
            )
          ]
          | inr (never, stops) ↦ inr (λ (d, _, decided, _). never d decided, rw (valid, stops) refl)
        ]

  validated :
      (context : PolicyContext) (grant : Option ApprovalGrant) (spec : ToolSpec)
      → Verdict
          (Passes context grant spec)
          db
          (execute_known gateway call spec context grant c u db).1
          call
  unfolding execute_known
  validated context grant spec =
      elim (Option-cases (validate_arguments gateway.stack spec.input_schema call.arguments)) [
        | inl e ↦ inr (λ (_, valid, _, _). cc (e, valid), rw e refl)
        | inr ([], e) ↦ evaluated context grant spec e
        | inr (p ∷ ps, e) ↦ inr (
          λ (_, valid, _, _). cc (e, valid),
          rw e ((reject_arguments-Keeps call spec (p ∷ ps) c u).at db).quiet,
        )
      ]

  -- Where the other sessions leave the trace alone, a call that is authorised is handed to the MCP
  -- manager exactly once, and a call that is not authorised is not handed over at all.
  pub execute-dispatched :
      (context : PolicyContext) (grant : Option ApprovalGrant)
      → (IsAuthorised gateway call context grant db
          × ((execute gateway call context grant c u db).1.dispatched ≡ db.dispatched ++ call ∷ []))
        ⊎ ((¬ IsAuthorised gateway call context grant db)
            × ((execute gateway call context grant c u db).1.dispatched ≡ db.dispatched))
  unfolding execute
  execute-dispatched context grant =
      elim (Option-cases (lookup call.tool_name gateway.manager.catalog)) [
        | inl e ↦ inr (
          λ v. cc (e, v.in_catalog),
          rw (execute, e) ((deny_unknown_tool-Keeps gateway call c u).at db).quiet,
        )
        | inr (spec, e) ↦ elim (validated context grant spec) [
          | inl ((d, valid, decided, permitted), once) ↦ inl (
            record {
              spec = spec;
              decision = d;
              in_catalog = e;
              valid = valid;
              decided = decided;
              permitted = permitted;
            },
            rw (execute, e) once,
          )
          | inr (refused, never) ↦ inr (
            λ v.
                let same : v.spec ≡ spec = cc (e, v.in_catalog) in
                refused
                  (subst (Passes context grant) same (v.decision, v.valid, v.decided, v.permitted)),
            rw (execute, e) never,
          )
        ]
      ]
