-- ===== src/Api/Confirmation.antt =====
-- What a request to confirm an approval sends to the servers of tools.
use mcp_business_assistant.Prelude.{
  Option-cases, ℕ, String, ◌≡◌, ◌∙◌, sym, ap, refl, inl, inr, ◌⊎◌, Option, none, some, List, [],
  ◌∷◌, ◌++◌,
}
use mcp_business_assistant.Enums.{UserRole}
use mcp_business_assistant.Errors.{ok, Result-cases}
use mcp_business_assistant.Database.{Database, ApprovalRequest, User, find_approval}
use mcp_business_assistant.Security.Policy.{PolicyContext}
use mcp_business_assistant.Mcp.Types.{ToolCall}
use mcp_business_assistant.Approval.Service.{ApprovalGrant, get_request, confirm}
use mcp_business_assistant.Approval.Rows.{find_approval-id}
use mcp_business_assistant.Approval.Evolution.{WellFormed, Keeps, Steady, keeps_rules}
use mcp_business_assistant.Approval.Methods.{get_request-Keeps, confirm_read-Keeps}
use mcp_business_assistant.Approval.Confirm.{Passed, confirm_read-ok}
use mcp_business_assistant.Approval.Steps.{Reach, Reach-Leads}
use mcp_business_assistant.Conversation.Ownership.{Conversation, get_or_create}
use mcp_business_assistant.Execution.Gateway.{agent_visible_result}
use mcp_business_assistant.Execution.Authorised.{execute-dispatched}
use mcp_business_assistant.Execution.Execute.{execute_approved, approved_call}
use mcp_business_assistant.Agent.World.{AgentDependencies, World, pure, ◌>>=◌, on_database}
use mcp_business_assistant.Agent.Runner.{finish_resumption, resume_after_approval}
use mcp_business_assistant.Api.Silent.{
  silent_rules, follow_quiet, IsQuiet, finish_resumption-Silent,
}
use mcp_business_assistant.Api.Approvals.{confirm_approval, confirmed_response, run_confirmed}

-- What a resumption hands over: nothing, or the call of its grant.
resumption_sends :
    (deps : AgentDependencies) (u : ℕ) (role : UserRole) (grant : ApprovalGrant) (w : World)
    → IsQuiet deps
    → ((resume_after_approval deps u role grant w).1.database.dispatched ≡ w.database.dispatched)
      ⊎ ((resume_after_approval deps u role grant w).1.database.dispatched
          ≡ w.database.dispatched ++ approved_call grant ∷ [])
unfolding resume_after_approval execute_approved
resumption_sends deps u role grant w quiet =
    let context : PolicyContext = record { user_role = role } in
    let call = execute_approved deps.gateway grant context deps.conversation_id u in
    let rest =
      follow_quiet (λ o. finish_resumption deps grant (agent_visible_result o)) (on_database call w)
        (λ o. finish_resumption-Silent deps quiet grant (agent_visible_result o)) in
    elim (execute-dispatched deps.gateway (approved_call grant) (some deps.conversation_id) (some u)
      w.database quiet.leaves context (some grant)) [
        | inl (_, once) ↦ inr (rest ∙ once)
        | inr (_, never) ↦ inl (rest ∙ never)
      ]

-- The row behind a confirmation that succeeded, as it stood when the request came in.
record IsConfirmed (sha256 : String → String) (k : ℕ) (user : User) (db : Database)
    (grant : ApprovalGrant) : Type 0 where
  row : ApprovalRequest
  found : find_approval k db.approvals ≡ some row
  passed : Passed sha256 row db.now user
  same_tool : grant.tool_name ≡ row.tool_name
  same_arguments : grant.arguments ≡ row.arguments

module _ (sha256 : String → String) (between : Database → Database)
    (others : (db : Database) → Reach sha256 db (between db)) where
  confirm-Keeps :
      (k : ℕ) (user : User) (comment : Option String)
      → Keeps (confirm sha256 between k user comment)
  unfolding confirm
  confirm-Keeps k user comment =
      let steady : Steady between = record { at = λ db. Reach-Leads sha256 (others db) } in
      search (keeps_rules, get_request-Keeps, confirm_read-Keeps) depth 12

  confirm-IsConfirmed :
      (k : ℕ) (user : User) (comment : Option String) (db : Database) {claim_of : ApprovalRequest}
      {grant : ApprovalGrant}
      → WellFormed db
      → (confirm sha256 between k user comment db).0 ≡ ok (claim_of, grant)
      → IsConfirmed sha256 k user db grant
  unfolding confirm get_request
  confirm-IsConfirmed k user comment db {claim_of} {grant} w h =
      elim (Option-cases (find_approval k db.approvals)) [
        | inl e ↦ absurd (cc (rw e at h))
        | inr (r, e) ↦
            let leads = Reach-Leads sha256 (others db) in
            let (passed, (q, there, _, _, claimed, granted), _) =
              confirm_read-ok sha256 r db.now user comment (between db) (leads.well w)
                (rw e at h) in
            let (p, now_there, kept) = leads.rows k r e in
            let key : r.id ≡ k = find_approval-id k db.approvals e in
            let same : some p ≡ some q =
              sym now_there ∙ ap (λ i. find_approval i (between db).approvals) (sym key) ∙ there in
            record {
              row = r;
              found = e;
              passed = passed;
              same_tool =
                  ap (λ (g : ApprovalGrant). g.tool_name) granted
                  ∙ ap (λ (x : ApprovalRequest). x.tool_name) claimed
                  ∙ cc (same, kept.tool_name);
              same_arguments =
                  ap (λ (g : ApprovalGrant). g.arguments) granted
                  ∙ ap (λ (x : ApprovalRequest). x.arguments) claimed
                  ∙ cc (same, kept.arguments);
            }
      ]

-- After the confirmation, the request sends nothing or the call of the grant.
confirmed_sends :
    (deps : AgentDependencies) (conversations : List Conversation) (user : User)
    (request : ApprovalRequest) (grant : ApprovalGrant) (w : World)
    → IsQuiet deps
    → ((run_confirmed deps conversations user (request, grant) w).1.database.dispatched
        ≡ w.database.dispatched)
      ⊎ ((run_confirmed deps conversations user (request, grant) w).1.database.dispatched
          ≡ w.database.dispatched ++ approved_call grant ∷ [])
unfolding run_confirmed
confirmed_sends deps conversations user request grant w quiet =
    elim (Result-cases
      (get_or_create conversations w.database.next_id user (some request.conversation_id) none).0) [
        | inr (inl (e, refused)) ↦ inl (rw refused refl)
        | inr (inr refused) ↦ inl (rw refused refl)
        | inl (c, found) ↦
            let here : AgentDependencies = record deps { conversation_id = c.id } in
            let opened = record w { conversation_status = c.status } in
            let rest =
              follow_quiet
                (λ result. on_database (get_request request.id) >>= λ refreshed.
                  pure (confirmed_response refreshed result))
                (resume_after_approval here user.id user.role grant opened)
                (λ result. search silent_rules depth 12) in
            let silent : IsQuiet here = record { leaves = quiet.leaves; thinks = quiet.thinks } in
            elim (resumption_sends here user.id user.role grant opened silent) [
              | inl never ↦ inl (rw found (rest ∙ never))
              | inr once ↦ inr (rw found (rest ∙ once))
            ]
      ]

-- What a request to confirm hands over: the call of a stored row.
pub record IsStoredCall (sha256 : String → String) (k : ℕ) (user : User) (db : Database)
    (call : ToolCall) : Type 0 where
  pub row : ApprovalRequest
  pub found : find_approval k db.approvals ≡ some row
  pub passed : Passed sha256 row db.now user
  pub same_tool : call.tool_name ≡ row.tool_name
  pub same_arguments : call.arguments ≡ row.arguments

-- However a request to confirm an approval ends, it hands no call to the servers, or one: then the
-- table held, when the request came in, a row under the id of the request which was pending,
-- unexpired, intact and for this user to decide, and the call has the tool and the arguments of that
-- row. This holds whatever other sessions do through the service between the read of the row and
-- its update, and whatever they do later that leaves the trace of the calls alone.
pub confirm_approval-sends :
    (deps : AgentDependencies) (between : Database → Database) (conversations : List Conversation)
    (k : ℕ) (user : User) (comment : Option String) (w : World)
    → IsQuiet deps
    → ((db : Database) → Reach deps.gateway.sha256 db (between db))
    → WellFormed w.database
    → ((confirm_approval deps between conversations k user comment w).1.database.dispatched
        ≡ w.database.dispatched)
      ⊎ ((call : ToolCall) × IsStoredCall deps.gateway.sha256 k user w.database call
          × ((confirm_approval deps between conversations k user comment w).1.database.dispatched
              ≡ w.database.dispatched ++ call ∷ []))
unfolding confirm_approval approved_call
confirm_approval-sends deps between conversations k user comment w quiet others well =
    let action = confirm deps.gateway.sha256 between k user comment in
    let kept =
      ((confirm-Keeps deps.gateway.sha256 between others k user comment).at w.database).quiet in
    elim (Result-cases (action w.database).0) [
      | inr (inl (e, refused)) ↦ inl (rw refused kept)
      | inr (inr refused) ↦ inl (rw refused kept)
      | inl ((request, grant), won) ↦
          let after = record w { database = (action w.database).1 } in
          elim (confirmed_sends deps conversations user request grant after quiet) [
            | inl never ↦ inl (rw won (never ∙ kept))
            | inr once ↦
                let row =
                  confirm-IsConfirmed deps.gateway.sha256 between others k user comment w.database
                    well won in
                inr (
                  approved_call grant,
                  record {
                    row = row.row;
                    found = row.found;
                    passed = row.passed;
                    same_tool = row.same_tool;
                    same_arguments = row.same_arguments;
                  },
                  rw won (once ∙ ap (λ l. l ++ approved_call grant ∷ []) kept),
                )
          ]
    ]
