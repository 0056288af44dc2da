-- ===== src/Execution/Requests.antt =====
-- What `execute` leaves behind when the policy asks for an approval and there is no grant.
use mathlib.Core.Path.{subst}
use mcp_business_assistant.Prelude.{
  ℕ, ◌+◌, ◌*◌, ◌≡◌, refl, sym, ◌∙◌, ap, true, Option, none, some, [], lookup, str_eq_refl, arith,
}
use mcp_business_assistant.Errors.{Result, ok}
use mcp_business_assistant.Enums.{ApprovalStatus}
use mcp_business_assistant.Database.{Database, ApprovalRequest, find_approval, record_audit}
use mcp_business_assistant.Mcp.Types.{ToolSpec, ToolCall}
use mcp_business_assistant.Mcp.Validation.{validate_arguments}
use mcp_business_assistant.Security.Policy.{
  PolicyContext, PolicyDecision, PolicyOutcome, require_approval, evaluate,
}
use mcp_business_assistant.Core.Payload.{verify_payload}
use mcp_business_assistant.Approval.Repository.{create_row}
use mcp_business_assistant.Approval.Service.{create_request, verify_integrity, minute}
use mcp_business_assistant.Approval.Rows.{find_approval-append_new}
use mcp_business_assistant.Approval.Evolution.{WellFormed}
use mcp_business_assistant.Execution.Gateway.{
  Gateway, ExecutionOutcome, approval_required, request_approval,
}
use mcp_business_assistant.Execution.Execute.{
  execute, execute_known, execute_outcome, execute_gated,
}

-- The request of a call, as the table holds it after the call.
pub record IsRequested (gateway : Gateway) (call : ToolCall) (d : PolicyDecision) (c u : ℕ)
    (db db' : Database) (outcome : ExecutionOutcome) : Type 0 where
  pub row : ApprovalRequest
  pub status : outcome.status ≡ approval_required
  pub shown : outcome.approval ≡ some row
  pub stored : find_approval row.id db'.approvals ≡ some row
  pub waits : row.status ≡ ApprovalStatus.pending
  pub conversation : row.conversation_id ≡ c
  pub owner : row.user_id ≡ u
  pub tool : row.tool_name ≡ d.tool_name
  pub arguments : row.arguments ≡ call.arguments
  pub intact : verify_integrity gateway.sha256 row ≡ true
  pub limit : row.expires_at ≡ db.now + gateway.approval_ttl_minutes * minute
  pub quiet : db'.dispatched ≡ db.dispatched

requests :
    (gateway : Gateway) (call : ToolCall) (spec : ToolSpec) (d : PolicyDecision) (c u : ℕ)
    (db : Database)
    → WellFormed db
    → (outcome : ExecutionOutcome) × ((request_approval gateway call spec d (some c) (some u) db).0
        ≡ ok outcome)
      × IsRequested gateway call d c u db
          (request_approval gateway call spec d (some c) (some u) db).1
          outcome
unfolding request_approval create_request create_row verify_integrity verify_payload record_audit
requests gateway call spec d c u db w = (
  _,
  refl,
  record {
    row = _;
    status = refl;
    shown = refl;
    stored = find_approval-append_new db.approvals _ (w.fresh db.next_id (omega arith));
    waits = refl;
    conversation = refl;
    owner = refl;
    tool = refl;
    arguments = refl;
    intact = str_eq_refl _;
    limit = refl;
    quiet = refl;
  },
)

gated_requests :
    (gateway : Gateway) (call : ToolCall) (spec : ToolSpec) (d : PolicyDecision) (c u : Option ℕ)
    (db : Database) (o : PolicyOutcome)
    → o ≡ require_approval
    → execute_outcome gateway call spec none c u o d db
      ≡ request_approval gateway call spec d c u db
unfolding execute_outcome execute_gated
gated_requests gateway call spec d c u db o asks = rw asks refl

-- Where the policy asks for an approval of a valid call and there is no grant, the call ends with the
-- outcome APPROVAL_REQUIRED, nothing is handed to a server, and the table holds, under an id of its
-- own, a pending and intact row of the user and the conversation with the tool of the decision and
-- the arguments of the call, which expires after the time to live.
pub execute-IsRequested :
    (gateway : Gateway) (call : ToolCall) (context : PolicyContext) (spec : ToolSpec)
    (d : PolicyDecision) (c u : ℕ) (db : Database)
    → WellFormed db
    → lookup call.tool_name gateway.manager.catalog ≡ some spec
    → validate_arguments gateway.stack spec.input_schema call.arguments ≡ some []
    → evaluate gateway.settings spec call.arguments context ≡ ok d
    → d.outcome ≡ require_approval
    → (outcome : ExecutionOutcome) × ((execute gateway call context none (some c) (some u) db).0
        ≡ ok outcome)
      × IsRequested gateway call d c u db
          (execute gateway call context none (some c) (some u) db).1
          outcome
unfolding execute execute_known
execute-IsRequested gateway call context spec d c u db w found valid decided asks =
    let whole : execute gateway call context none (some c) (some u) db
        ≡ request_approval gateway call spec d (some c) (some u) db =
      rw (execute, found, valid, decided)
        (gated_requests gateway call spec d (some c) (some u) db d.outcome asks) in
    let (outcome, ends, requested) = requests gateway call spec d c u db w in
    (
      outcome,
      ap (λ (x : Result ExecutionOutcome × Database). x.0) whole ∙ ends,
      subst
          (λ (x : Result ExecutionOutcome × Database).
            IsRequested gateway call d c u db x.1 outcome)
          (sym whole) requested,
    )
