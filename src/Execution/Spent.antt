-- ===== src/Execution/Spent.antt =====
-- An approval is used up by the run that it lets through.
use mathlib.Core.Path.{subst}
use mcp_business_assistant.Prelude.{
  ℕ, String, ◌≡◌, ◌≢◌, refl, sym, ◌∙◌, ap, inl, inr, Bool, true, false, Option, some, ◌==◌, ==_iff,
  Bool-cases,
}
use mcp_business_assistant.Prelude.Text.{or_text}
use mcp_business_assistant.Errors.{Result, ok, err, crash}
use mcp_business_assistant.Enums.{is_pending, is_approved, high_risk}
use mcp_business_assistant.Database.{Database, ApprovalRequest, find_approval, save, record_audit}
use mcp_business_assistant.Action.{Action, continue}
use mcp_business_assistant.Mcp.Types.{ToolSpec, ToolCall}
use mcp_business_assistant.Security.Permissions.{classify}
use mcp_business_assistant.Security.Policy.{
  PolicyContext, PolicyDecision, PolicyOutcome, require_approval,
}
use mcp_business_assistant.Approval.Repository.{set_executed, set_failed}
use mcp_business_assistant.Approval.Service.{
  ApprovalGrant, verify_grant, mark_executed, mark_failed,
}
use mcp_business_assistant.Approval.Rows.{find_approval-update_where, find_approval-id}
use mcp_business_assistant.Approval.Steps.{Reach, Reach-Leads}
use mcp_business_assistant.Approval.Grant.{IsHonoured, verify_grant-ok_iff}
use mcp_business_assistant.Execution.Gateway.{
  Gateway, ExecutionOutcome, Attempt, returned, caught, dispatch, finish, run,
}
use mcp_business_assistant.Execution.Execute.{
  execute_gated, execute_outcome, execute_known, execute,
}
use mcp_business_assistant.Execution.Authorised.{LeavesTrace, IsAuthorised, execute-dispatched}
use mcp_business_assistant.Execution.HighRisk.{NamesItsTools, authorised_high_risk}

-- The row of a key was decided, and is not approved any more.
abbrev pub IsSpent : ℕ → Database → Type 0
IsSpent k db =
    (q : ApprovalRequest) × (find_approval k db.approvals ≡ some q)
    × (is_pending q.status ≡ false)
    × (is_approved q.status ≡ false)

-- A row stays used up.
stays-IsSpent :
    (sha256 : String → String) (k : ℕ) {db db' : Database}
    → Reach sha256 db db'
    → IsSpent k db
    → IsSpent k db'
stays-IsSpent sha256 k reach (q, there, decided, over) =
    let (p, there', e) = (Reach-Leads sha256 reach).rows k q there in
    (p, there', e.decided decided, e.spent decided over)

-- A grant for a row that is used up is not honoured.
spent_not-IsHonoured :
    (sha256 : String → String) (g : ApprovalGrant) (tool : String) (db : Database)
    (r : ApprovalRequest)
    → IsSpent g.approval_id db
    → ¬ IsHonoured sha256 g tool db r
spent_not-IsHonoured sha256 g tool db r (q, there, decided, over) v =
    let same : q ≡ r = cc (there, v.found) in
    let granted : is_approved r.status ≡ true = ap is_approved v.status in
    let refused : is_approved r.status ≡ false =
      sym (ap (λ (x : ApprovalRequest). is_approved x.status) same) ∙ over in
    cc (granted, refused)

-- The write at the end of a run.
save-spends :
    (change : ApprovalRequest → ApprovalRequest) (k : ℕ) (db : Database) (q : ApprovalRequest)
    → ((r : ApprovalRequest) → (change r).id ≡ r.id)
    → ((r : ApprovalRequest) → is_pending (change r).status ≡ false)
    → ((r : ApprovalRequest) → is_approved (change r).status ≡ false)
    → find_approval k db.approvals ≡ some q
    → IsSpent k (save k change db)
unfolding save
save-spends change k db q keeps decided over there =
    let test : ApprovalRequest → Bool = λ r. r.id == k in
    let hit : test q ≡ true = (==_iff q.id k).1 (find_approval-id k db.approvals there) in
    (
      change q,
      rw (find_approval-update_where test change keeps k db.approvals, there, hit) refl,
      decided q,
      over q,
    )

finish-spends :
    (gateway : Gateway) (call : ToolCall) (spec : ToolSpec) (d : PolicyDecision) (c u : Option ℕ)
    (r : ApprovalRequest) (a : Attempt) (db : Database) (q : ApprovalRequest)
    → find_approval r.id db.approvals ≡ some q
    → IsSpent r.id (finish gateway call spec d c u (some r) a db).1
unfolding finish mark_failed mark_executed record_audit save
finish-spends gateway call spec d c u r (caught e) db q there =
    save-spends (set_failed db.now e.message) r.id db q (λ x. refl) (λ x. refl) (λ x. refl) there
finish-spends gateway call spec d c u r (returned result) db q there =
    elim (Bool-cases result.success) [
      | inl e ↦ rw e (
          save-spends (set_executed db.now result.structured_content) r.id db q (λ x. refl)
            (λ x. refl) (λ x. refl) there)
      | inr e ↦ rw e (
          save-spends (set_failed db.now (or_text result.error "The tool reported an error.")) r.id
            db q (λ x. refl) (λ x. refl) (λ x. refl) there)
    ]

-- What the other sessions do while a tool runs are steps of the approval service.
abbrev pub Interleaves : Gateway → Type 0
Interleaves gateway = (db : Database) → Reach gateway.sha256 db (gateway.meanwhile db)

pub Interleaves-LeavesTrace : (gateway : Gateway) → Interleaves gateway → LeavesTrace gateway
Interleaves-LeavesTrace gateway steps db = (Reach-Leads gateway.sha256 (steps db)).quiet

ended :
    {A B : Type 0} (f : A → Action B) (x : Result A × Database) (y : B)
    → (continue f x).0 ≡ ok y
    → (a : A) × (continue f x ≡ f a x.1)
ended f (ok a, db) y h = (a, refl)
ended f (err e, db) y h = absurd (cc)
ended f (crash, db) y h = absurd (cc)

-- A run that ends with an outcome, whether the tool succeeded or not, uses the approval up.
run-spends :
    (gateway : Gateway) (call : ToolCall) (spec : ToolSpec) (d : PolicyDecision) (c u : Option ℕ)
    (r : ApprovalRequest) (db : Database) (outcome : ExecutionOutcome)
    → Interleaves gateway
    → find_approval r.id db.approvals ≡ some r
    → (run gateway call spec d c u (some r) db).0 ≡ ok outcome
    → IsSpent r.id (run gateway call spec d c u (some r) db).1
unfolding run dispatch record_audit
run-spends gateway call spec d c u r db outcome steps there ends =
    let (a, whole) = ended (finish gateway call spec d c u (some r)) _ outcome ends in
    let (q, there', _) = (Reach-Leads gateway.sha256 (steps _)).rows r.id r there in
    subst (λ (x : Result ExecutionOutcome × Database). IsSpent r.id x.1) (sym whole)
      (finish-spends gateway call spec d c u r a _ q there')

gated_runs :
    (gateway : Gateway) (call : ToolCall) (g : ApprovalGrant) (c u : Option ℕ) (db : Database)
    (spec : ToolSpec) (d : PolicyDecision) (r : ApprovalRequest) (o : PolicyOutcome)
    → o ≡ require_approval
    → verify_grant gateway.sha256 g call.tool_name db ≡ (ok r, db)
    → execute_outcome gateway call spec (some g) c u o d db
      ≡ run gateway call spec d c u (some r) db
unfolding execute_outcome execute_gated
gated_runs gateway call g c u db spec d r o asks accepted = rw (asks, accepted) refl

-- With an honoured grant, `execute` is a run for the row.
execute_runs :
    (gateway : Gateway) (call : ToolCall) (context : PolicyContext) (g : ApprovalGrant)
    (c u : Option ℕ) (db : Database) (v : IsAuthorised gateway call context (some g) db)
    (r : ApprovalRequest)
    → v.decision.outcome ≡ require_approval
    → IsHonoured gateway.sha256 g call.tool_name db r
    → execute gateway call context (some g) c u db
      ≡ run gateway call v.spec v.decision c u (some r) db
unfolding execute execute_known execute_gated
execute_runs gateway call context g c u db v r asks honoured =
    let accepted = (verify_grant-ok_iff gateway.sha256 g call.tool_name db r).0.1 honoured in
    rw (execute, v.in_catalog, v.valid, v.decided)
      (gated_runs gateway call g c u db v.spec v.decision r v.decision.outcome asks accepted)

asked :
    (gateway : Gateway) (call : ToolCall) (context : PolicyContext) (g : ApprovalGrant)
    (db : Database)
    → NamesItsTools gateway
    → classify call.tool_name ≡ high_risk
    → (v : IsAuthorised gateway call context (some g) db)
    → (v.decision.outcome ≡ require_approval)
      × (r : ApprovalRequest) × IsHonoured gateway.sha256 g call.tool_name db r
asked gateway call context g db names risk v =
    let (asks, (h, r, same, honoured)) =
      authorised_high_risk gateway call context (some g) db names risk v in
    let e : h ≡ g = cc (same) in
    (asks, r, subst (λ x. IsHonoured gateway.sha256 x call.tool_name db r) e honoured)

first_spends :
    (gateway : Gateway) (call : ToolCall) (context : PolicyContext) (g : ApprovalGrant)
    (c u : Option ℕ) (db : Database) (outcome : ExecutionOutcome)
    → Interleaves gateway
    → NamesItsTools gateway
    → classify call.tool_name ≡ high_risk
    → (execute gateway call context (some g) c u db).0 ≡ ok outcome
    → (execute gateway call context (some g) c u db).1.dispatched ≢ db.dispatched
    → IsSpent g.approval_id (execute gateway call context (some g) c u db).1
first_spends gateway call context g c u db outcome steps names risk ends ran =
    let leaves = Interleaves-LeavesTrace gateway steps in
    elim (execute-dispatched gateway call c u db leaves context (some g)) [
      | inr (_, never) ↦ absurd (ran never)
      | inl (v, _) ↦
          let (asks, r, honoured) = asked gateway call context g db names risk v in
          let runs = execute_runs gateway call context g c u db v r asks honoured in
          let row = find_approval-id g.approval_id db.approvals honoured.found in
          let there : find_approval r.id db.approvals ≡ some r =
            ap (λ k. find_approval k db.approvals) row ∙ honoured.found in
          let spent =
            run-spends gateway call v.spec v.decision c u r db outcome steps there
              (sym (ap (λ (x : Result ExecutionOutcome × Database). x.0) runs) ∙ ends) in
          subst (λ k. IsSpent k (execute gateway call context (some g) c u db).1) row
            (subst (λ (x : Result ExecutionOutcome × Database). IsSpent r.id x.1) (sym runs) spent)
    ]

-- One approval lets a HIGH_RISK tool run once: when a call under a grant was handed to a server and
-- ended with an outcome, a success or a failure, then in every later state that the sessions reach
-- no call of a HIGH_RISK tool under a grant for the same approval is handed over.
pub approval_used_once :
    (gateway : Gateway) (call call' : ToolCall) (context context' : PolicyContext)
    (g g' : ApprovalGrant) (c u c' u' : Option ℕ) (db db' : Database) (outcome : ExecutionOutcome)
    → Interleaves gateway
    → NamesItsTools gateway
    → classify call.tool_name ≡ high_risk
    → classify call'.tool_name ≡ high_risk
    → g'.approval_id ≡ g.approval_id
    → (execute gateway call context (some g) c u db).0 ≡ ok outcome
    → (execute gateway call context (some g) c u db).1.dispatched ≢ db.dispatched
    → Reach gateway.sha256 (execute gateway call context (some g) c u db).1 db'
    → (execute gateway call' context' (some g') c' u' db').1.dispatched ≡ db'.dispatched
approval_used_once gateway call call' context context' g g' c u c' u' db db' outcome steps names
      risk risk' same ends ran reach =
    let leaves = Interleaves-LeavesTrace gateway steps in
    let spent = first_spends gateway call context g c u db outcome steps names risk ends ran in
    let later = stays-IsSpent gateway.sha256 g.approval_id reach spent in
    elim (execute-dispatched gateway call' c' u' db' leaves context' (some g')) [
      | inr (_, never) ↦ never
      | inl (v, _) ↦
          let (_, r, honoured) = asked gateway call' context' g' db' names risk' v in
          absurd (
            spent_not-IsHonoured gateway.sha256 g' call'.tool_name db' r
              (subst (λ k. IsSpent k db') (sym same) later) honoured)
    ]
