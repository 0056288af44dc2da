-- ===== src/Execution/HighRisk.antt =====
-- A HIGH_RISK tool never runs without an approval.
use mathlib.Core.Path.{subst}
use mcp_business_assistant.Prelude.{
  ℕ, String, ◌≡◌, ◌≢◌, ◌∙◌, ap, inl, inr, Option, some, ◌++◌, [], ◌∷◌, arith, ◌<◌,
}
use mcp_business_assistant.Errors.{Result, ok}
use mcp_business_assistant.Json.{obj}
use mcp_business_assistant.Core.Payload.{canonical_json}
use mcp_business_assistant.Approval.Grant.{IsHonoured, verify_grant-ok_iff, honoured_arguments}
use mcp_business_assistant.Enums.{high_risk, approved}
use mcp_business_assistant.Database.{Database, ApprovalRequest, find_approval}
use mcp_business_assistant.Mcp.Types.{ToolSpec, ToolCall}
use mcp_business_assistant.Mcp.Catalog.Laws.{IsLocal, Holds}
use mcp_business_assistant.Security.Permissions.{classify}
use mcp_business_assistant.Security.Policy.{
  PolicyContext, PolicyDecision, allow, require_approval, evaluate,
}
use mcp_business_assistant.Security.Policy.Gating.{evaluate_allows_iff}
use mcp_business_assistant.Approval.Service.{ApprovalGrant}
use mcp_business_assistant.Execution.Gateway.{Gateway}
use mcp_business_assistant.Execution.Execute.{execute, execute_approved, approved_call}
use mcp_business_assistant.Execution.Authorised.{
  LeavesTrace, IsAuthorised, IsGranted, execute-dispatched,
}

-- The entries of the catalog stand under their own names, as `refresh_catalog` builds it.
abbrev pub NamesItsTools : Gateway → Type 0
NamesItsTools gateway = Holds IsLocal gateway.manager.catalog

high_risk_asks :
    (gateway : Gateway) (spec : ToolSpec) (call : ToolCall) (context : PolicyContext)
    (d : PolicyDecision)
    → classify spec.qualified_name ≡ high_risk
    → evaluate gateway.settings spec call.arguments context ≡ ok d
    → d.outcome ≢ allow
high_risk_asks gateway spec call context d risk h e =
    let w = (evaluate_allows_iff gateway.settings spec call.arguments context h).0 e in
    ground (arith, w.2, risk)

pub authorised_high_risk :
    (gateway : Gateway) (call : ToolCall) (context : PolicyContext) (grant : Option ApprovalGrant)
    (db : Database)
    → NamesItsTools gateway
    → classify call.tool_name ≡ high_risk
    → (v : IsAuthorised gateway call context grant db)
    → (v.decision.outcome ≡ require_approval) × IsGranted gateway call grant db
authorised_high_risk gateway call context grant db names risk v =
    let (same, _) = names.entry call.tool_name v.spec v.in_catalog in
    elim v.permitted [
      | inl allowed ↦ absurd (
          high_risk_asks gateway v.spec call context v.decision (ap classify same ∙ risk) v.decided
            allowed)
      | inr granted ↦ granted
    ]

-- A call of a tool that the registry classifies HIGH_RISK, as it does every tool that it does not
-- list, is handed to a server only with a grant that the approval table honours at that moment:
-- for any caller, settings, arguments and answers of the servers.
pub high_risk_needs_grant :
    (gateway : Gateway) (call : ToolCall) (context : PolicyContext) (grant : Option ApprovalGrant)
    (c u : Option ℕ) (db : Database)
    → LeavesTrace gateway
    → NamesItsTools gateway
    → classify call.tool_name ≡ high_risk
    → (execute gateway call context grant c u db).1.dispatched ≢ db.dispatched
    → IsGranted gateway call grant db
high_risk_needs_grant gateway call context grant c u db leaves names risk ran =
    elim (execute-dispatched gateway call c u db leaves context grant) [
      | inl (v, _) ↦ (authorised_high_risk gateway call context grant db names risk v).1
      | inr (_, never) ↦ absurd (ran never)
    ]

-- Where the digest has no collisions, what a confirmation of a HIGH_RISK action sends to a server is
-- the tool of the approved row, in time, with arguments of the same canonical text as the stored
-- ones, and the call is sent once.
pub execute_approved-stored :
    (gateway : Gateway) (grant : ApprovalGrant) (context : PolicyContext) (c u : ℕ) (db : Database)
    → LeavesTrace gateway
    → NamesItsTools gateway
    → ((a b : String) → gateway.sha256 a ≡ gateway.sha256 b → a ≡ b)
    → classify grant.tool_name ≡ high_risk
    → (execute_approved gateway grant context c u db).1.dispatched ≢ db.dispatched
    → (r : ApprovalRequest) × (find_approval grant.approval_id db.approvals ≡ some r)
      × (r.status ≡ approved)
      × (db.now < r.expires_at)
      × (r.tool_name ≡ grant.tool_name)
      × (canonical_json (obj (approved_call grant).arguments) ≡ canonical_json (obj r.arguments))
      × ((execute_approved gateway grant context c u db).1.dispatched
          ≡ db.dispatched ++ approved_call grant ∷ [])
unfolding execute_approved approved_call
execute_approved-stored gateway grant context c u db leaves names injective risk ran =
    let call = approved_call grant in
    elim (execute-dispatched gateway call (some c) (some u) db leaves context (some grant)) [
      | inr (_, never) ↦ absurd (ran never)
      | inl (v, once) ↦
          let (_, (h, r, same, w)) =
            authorised_high_risk gateway call context (some grant) db names risk v in
          let e : h ≡ grant = cc (same) in
          let honoured : IsHonoured gateway.sha256 grant grant.tool_name db r =
            subst (λ x. IsHonoured gateway.sha256 x grant.tool_name db r) e w in
          let accepted =
            (verify_grant-ok_iff gateway.sha256 grant grant.tool_name db r).0.1 honoured in
          (
            r,
            honoured.found,
            honoured.status,
            honoured.in_time,
            honoured.row_tool,
            honoured_arguments gateway.sha256 grant grant.tool_name db r injective
                (ap (λ (x : Result ApprovalRequest × Database). x.0) accepted),
            once,
          )
    ]
