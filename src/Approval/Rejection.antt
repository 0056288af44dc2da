-- ===== src/Approval/Rejection.antt =====
-- What a rejection that succeeds leaves.
use mcp_business_assistant.Prelude.{
  ℕ, String, ◌≡◌, ◌∙◌, sym, ap, refl, inl, inr, true, Option, some, arith, ltb, Bool-cases,
}
use mcp_business_assistant.Errors.{ok}
use mcp_business_assistant.Enums.{is_pending}
use mcp_business_assistant.Database.{
  Database, ApprovalRequest, User, find_approval, count_where, record_audit,
}
use mcp_business_assistant.Approval.Repository.{rejectable, refuse, reject_pending}
use mcp_business_assistant.Approval.Service.{reject_read, reject_row, refresh}
use mcp_business_assistant.Approval.Rows.{found_of_count_where, find_approval-update_where}
use mcp_business_assistant.Approval.Evolution.{WellFormed}
use mcp_business_assistant.Approval.Confirm.{MayDecide, assert_can_decide-cases}

-- An update that wins found the row pending, and the row is now rejected.
reject_row_won :
    (k user : ℕ) (comment : Option String) (db : Database)
    → WellFormed db
    → ltb 0 (count_where (rejectable k) db.approvals) ≡ true
    → (q : ApprovalRequest) × (find_approval k db.approvals ≡ some q)
      × (is_pending q.status ≡ true)
      × (find_approval k (reject_row k user comment db).1.approvals
          ≡ some (refuse db.now user comment q))
unfolding reject_row reject_pending
reject_row_won k user comment db w h =
    let (q, there, passes) =
      found_of_count_where (rejectable k) k db.approvals (λ r t. ground arith) w.keyed h in
    (
      q,
      there,
      ground arith,
      rw
          (
            find_approval-update_where (rejectable k) (refuse db.now user comment) (λ r. refl) k
                db.approvals,
            there,
            passes,
          )
          refl,
    )

-- A rejection that succeeds found the row pending at the moment of its own update, by a user who
-- may decide it, and leaves it rejected in that user's name.
pub reject_read-ok :
    (r : ApprovalRequest) (user : User) (comment : Option String) (db : Database)
    {row : ApprovalRequest}
    → WellFormed db
    → (reject_read r user comment db).0 ≡ ok row
    → MayDecide user r
      × ((q : ApprovalRequest) × (find_approval r.id db.approvals ≡ some q)
          × (is_pending q.status ≡ true)
          × (row ≡ refuse db.now user.id comment q))
      × (find_approval r.id (reject_read r user comment db).1.approvals ≡ some row)
unfolding reject_read reject_row reject_pending refresh record_audit
reject_read-ok r user comment db {row} w h = elim (assert_can_decide-cases r user db) [
  | inr ((e, refused), _) ↦ absurd (cc (rw refused at h))
  | inl (let_in, may) ↦ elim (Bool-cases (is_pending r.status)) [
    | inr decided ↦ absurd (cc (rw (let_in, decided) at h))
    | inl waiting ↦ elim (Bool-cases (ltb 0 (count_where (rejectable r.id) db.approvals))) [
      | inr lost ↦ absurd (cc (rw (let_in, waiting, lost) at h))
      | inl won ↦
          let (q, there, pends, after) = reject_row_won r.id user.id comment db w won in
          let refused = refuse db.now user.id comment q in
          let same : refused ≡ row = cc (rw (let_in, waiting, won, after) at h) in
          (
            may,
            (q, there, pends, sym same),
            rw (let_in, waiting, won, after) (after ∙ ap some same),
          )
    ]
  ]
]
