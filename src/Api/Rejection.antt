-- ===== src/Api/Rejection.antt =====
-- What a request to reject an approval prevents.
use mcp_business_assistant.Prelude.{
  ℕ, String, ◌≡◌, ◌∙◌, sym, ap, inl, inr, false, Option, some, List, Option-cases,
}
use mcp_business_assistant.Enums.{is_pending}
use mcp_business_assistant.Errors.{ok, Result-cases}
use mcp_business_assistant.Database.{Database, ApprovalRequest, User, find_approval}
use mcp_business_assistant.Approval.Service.{get_request, reject, reject_read}
use mcp_business_assistant.Approval.Rows.{find_approval-id}
use mcp_business_assistant.Approval.Evolution.{WellFormed}
use mcp_business_assistant.Approval.Methods.{reject_read-Keeps}
use mcp_business_assistant.Approval.Steps.{Reach, Reach-Leads}
use mcp_business_assistant.Approval.Rejection.{reject_read-ok}
use mcp_business_assistant.Conversation.Ownership.{Conversation}
use mcp_business_assistant.Agent.World.{AgentDependencies, World}
use mcp_business_assistant.Api.Answers.{ApprovalDecisionResponse}
use mcp_business_assistant.Api.Approvals.{confirm_approval, reject_approval}
use mcp_business_assistant.Api.Silent.{IsQuiet}
use mcp_business_assistant.Api.Confirmation.{confirm_approval-sends}

-- A row under the id that is decided, in a table that is well formed.
record IsDecided (k : ℕ) (db : Database) : Type 0 where
  well : WellFormed db
  row : ApprovalRequest
  found : find_approval k db.approvals ≡ some row
  decided : is_pending row.status ≡ false

IsDecided-Reach :
    (sha256 : String → String) (k : ℕ) {db db' : Database}
    → Reach sha256 db db'
    → IsDecided k db
    → IsDecided k db'
IsDecided-Reach sha256 k reach d =
    let leads = Reach-Leads sha256 reach in
    let (row, found, kept) = leads.rows k d.row d.found in
    record { well = leads.well d.well; row = row; found = found; decided = kept.decided d.decided }

-- A request to confirm what is decided sends nothing.
decided_never_sent :
    (deps : AgentDependencies) (between : Database → Database) (conversations : List Conversation)
    (k : ℕ) (user : User) (comment : Option String) (w : World)
    → IsQuiet deps
    → ((db : Database) → Reach deps.gateway.sha256 db (between db))
    → IsDecided k w.database
    → (confirm_approval deps between conversations k user comment w).1.database.dispatched
      ≡ w.database.dispatched
decided_never_sent deps between conversations k user comment w quiet others d =
    elim (confirm_approval-sends deps between conversations k user comment w quiet others d.well) [
      | inl never ↦ never
      | inr (call, stored, _) ↦
          let same : some stored.row ≡ some d.row = sym stored.found ∙ d.found in
          let (_, _, pending, _) = stored.passed in absurd (cc (same, pending, d.decided))
    ]

reject-IsDecided :
    (sha256 : String → String) (between : Database → Database) (k : ℕ) (user : User)
    (comment : Option String) (db : Database) {row : ApprovalRequest}
    → ((db : Database) → Reach sha256 db (between db))
    → WellFormed db
    → (reject between k user comment db).0 ≡ ok row
    → IsDecided k (reject between k user comment db).1
unfolding reject get_request
reject-IsDecided sha256 between k user comment db {row} others w h =
    elim (Option-cases (find_approval k db.approvals)) [
      | inl e ↦ absurd (cc (rw e at h))
      | inr (r, e) ↦
          let well = (Reach-Leads sha256 (others db)).well w in
          let (_, (q, _, _, refused), after) =
            reject_read-ok r user comment (between db) well (rw e at h) in
          let key : r.id ≡ k = find_approval-id k db.approvals e in
          record {
            well = rw e (((reject_read-Keeps r user comment).at (between db)).well well);
            row = row;
            found = rw e (
                ap (λ i. find_approval i (reject_read r user comment (between db)).1.approvals)
                  (sym key)
                ∙ after);
            decided = ap (λ (x : ApprovalRequest). is_pending x.status) refused;
          }
    ]

-- After a request to reject an approval has succeeded, no request to confirm the same approval hands
-- a call to the servers, whoever makes it, whatever the sessions did through the approval service in
-- between, and whatever they do meanwhile that leaves the trace of the calls alone.
pub rejected_never_sent :
    (deps : AgentDependencies) (between between' : Database → Database)
    (conversations : List Conversation) (k : ℕ) (user user' : User)
    (comment comment' : Option String) (w w' : World) (r : ApprovalDecisionResponse)
    → IsQuiet deps
    → ((db : Database) → Reach deps.gateway.sha256 db (between db))
    → ((db : Database) → Reach deps.gateway.sha256 db (between' db))
    → WellFormed w.database
    → (reject_approval between k user comment w).0 ≡ ok r
    → Reach deps.gateway.sha256 (reject_approval between k user comment w).1.database w'.database
    → (confirm_approval deps between' conversations k user' comment' w').1.database.dispatched
      ≡ w'.database.dispatched
unfolding reject_approval
rejected_never_sent deps between between' conversations k user user' comment comment' w w' r quiet
      others others' well won reach =
    elim (Result-cases (reject between k user comment w.database).0) [
      | inr (inl (e, refused)) ↦ absurd (cc (rw refused at won))
      | inr (inr refused) ↦ absurd (cc (rw refused at won))
      | inl (row, rejects) ↦
          decided_never_sent deps between' conversations k user' comment' w' quiet others' (
            IsDecided-Reach deps.gateway.sha256 k (rw rejects at reach) (
              reject-IsDecided deps.gateway.sha256 between k user comment w.database others well
                rejects))
    ]
