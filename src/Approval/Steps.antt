-- ===== src/Approval/Steps.antt =====
-- The service under concurrent use: a step is one method of some session, on whatever rows and
-- grants the session holds, and steps interleave freely.
use mcp_business_assistant.Prelude.{
  ℕ, ◌+◌, String, ◌≡◌, ◌≢◌, sym, ◌∙◌, ap, false, Option, some, arith, refl,
}
use mcp_business_assistant.Errors.{Result, ok}
use mcp_business_assistant.Enums.{is_pending}
use mcp_business_assistant.Json.{Fields}
use mcp_business_assistant.Database.{Database, ApprovalRequest, User, find_approval}
use mcp_business_assistant.Security.Policy.{PolicyDecision}
use mcp_business_assistant.Approval.Service.{
  ApprovalGrant, create_request, confirm_read, verify_grant, reject_read, mark_executed,
  mark_failed, expire_stale,
}
use mcp_business_assistant.Approval.Evolution.{
  Evolves-refl, After, WellFormed, Leads, Leads-refl, Leads-trans, Keeps,
}
use mcp_business_assistant.Approval.Methods.{
  create_request-Keeps, confirm_read-Keeps, verify_grant-Keeps, reject_read-Keeps,
  mark_executed-Keeps, mark_failed-Keeps, expire_stale-Keeps,
}
use mcp_business_assistant.Approval.Confirm.{confirm_read-ok}

module _ (sha256 : String → String) where
  -- The row and the moment of a decision were read at some earlier time, and may be out of date.
  pub data Step (db db' : Database) : Type 0 where
    creating :
        (ttl conversation_id user_id : ℕ) (decision : PolicyDecision) (server : String)
        (arguments : Fields) (call : Option String)
        → db'
          ≡ (create_request sha256 ttl conversation_id user_id decision server arguments call db).1
        → Step db db'
    confirming :
        (r : ApprovalRequest) (read_at : ℕ) (user : User) (comment : Option String)
        → db' ≡ (confirm_read sha256 r read_at user comment db).1
        → Step db db'
    rejecting :
        (r : ApprovalRequest) (user : User) (comment : Option String)
        → db' ≡ (reject_read r user comment db).1
        → Step db db'
    verifying :
        (grant : ApprovalGrant) (tool : String)
        → db' ≡ (verify_grant sha256 grant tool db).1
        → Step db db'
    executing :
        (r : ApprovalRequest) (result : Option Fields)
        → db' ≡ (mark_executed r result db).1
        → Step db db'
    failing :
        (r : ApprovalRequest) (message : String) → db' ≡ (mark_failed r message db).1 → Step db db'
    sweeping : db' ≡ (expire_stale db).1 → Step db db'
    waiting : (time : ℕ) → db' ≡ record db { now = db.now + time } → Step db db'

  pub data Reach (db : Database) : Database → Type 0 where
    here : Reach db db
    next : {mid end : Database} → Reach db mid → Step mid end → Reach db end

  Leads-by :
      {A : Type 0} {db db' : Database} {m : Database → Result A × Database}
      → Keeps m
      → db' ≡ (m db).1
      → Leads db db'
  Leads-by {db = db} k e = rw e (k.at db)

  Step-Leads : {db db' : Database} → Step db db' → Leads db db'
  Step-Leads (creating t c u d s a i e) = Leads-by (create_request-Keeps sha256 t c u d s a i) e
  Step-Leads (confirming r t u c e) = Leads-by (confirm_read-Keeps sha256 r t u c) e
  Step-Leads (rejecting r u c e) = Leads-by (reject_read-Keeps r u c) e
  Step-Leads (verifying g t e) = Leads-by (verify_grant-Keeps sha256 g t) e
  Step-Leads (executing r x e) = Leads-by (mark_executed-Keeps r x) e
  Step-Leads (failing r m e) = Leads-by (mark_failed-Keeps r m) e
  Step-Leads (sweeping e) = Leads-by expire_stale-Keeps e
  Step-Leads {db} (waiting n e) = rw e (record {
    well = λ w. record { keyed = w.keyed; fresh = w.fresh };
    rows = λ k r there. (r, there, Evolves-refl r);
    clock = omega arith;
    quiet = refl;
  })

  pub Reach-Leads : {db db' : Database} → Reach db db' → Leads db db'
  Reach-Leads {db} here = Leads-refl db
  Reach-Leads (next r s) = Leads-trans (Reach-Leads r) (Step-Leads s)

  -- Whatever the sessions do, in whatever order, the row of an id keeps the payload with which it
  -- was created, and once it has been decided it never becomes pending again.
  pub rows_evolve :
      {db db' : Database} (k : ℕ) (r : ApprovalRequest)
      → Reach db db'
      → find_approval k db.approvals ≡ some r
      → After k r db'
  rows_evolve k r reach there = (Reach-Leads reach).rows k r there

  -- After a confirmation that succeeded, no other confirmation of the same request succeeds,
  -- whoever makes it, whatever copy of the row it holds, and whatever happened in between.
  pub confirm_once :
      (r r' : ApprovalRequest) (read_at read_at' : ℕ) (user user' : User)
      (comment comment' : Option String) (db db' : Database) (x y : ApprovalRequest × ApprovalGrant)
      → WellFormed db
      → (confirm_read sha256 r read_at user comment db).0 ≡ ok x
      → Reach (confirm_read sha256 r read_at user comment db).1 db'
      → r'.id ≡ r.id
      → (confirm_read sha256 r' read_at' user' comment' db').0 ≢ ok y
  confirm_once r r' t t' u u' c c' db db' (row, grant) (row', grant') w won reach same again =
      let (_, (q, _, _, _, claimed, _), there) = confirm_read-ok sha256 r t u c db w won in
      let (p, there', e) = (Reach-Leads reach).rows r.id row there in
      let w' = (Reach-Leads reach).well (((confirm_read-Keeps sha256 r t u c).at db).well w) in
      let (_, (q', found, waits, _, _, _), _) = confirm_read-ok sha256 r' t' u' c' db' w' again in
      let approved_now : is_pending row.status ≡ false =
        ap (λ (a : ApprovalRequest). is_pending a.status) claimed in
      let same_row : some p ≡ some q' =
        sym there' ∙ ap (λ k. find_approval k db'.approvals) (sym same) ∙ found in
      cc (e.decided approved_now, same_row, waits)
