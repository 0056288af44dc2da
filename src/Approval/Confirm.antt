-- ===== src/Approval/Confirm.antt =====
-- What a confirmation that succeeds has checked and done.
use mcp_business_assistant.Prelude.{
  ℕ, ◌<◌, String, ◌≡◌, ◌≢◌, refl, sym, ◌∙◌, ap, Bool, true, false, not, ◌&&◌, Option, some, arith,
  ◌==◌, if◌then◌else◌, inl, inr, ◌⊎◌, Bool-cases, Option-cases,
}
use mcp_business_assistant.Errors.{AppError, Result, ok, err, crash}
use mcp_business_assistant.Enums.{is_pending, is_admin}
use mcp_business_assistant.Database.{
  Database, ApprovalRequest, User, find_approval, can_approve, is_expired, record_audit,
}
use mcp_business_assistant.Action.{Action, continue, raise, ◌>>◌}
use mcp_business_assistant.Approval.Repository.{claimable, claim, claim_pending}
use mcp_business_assistant.Approval.Service.{
  ApprovalGrant, grant_of, role_error, owner_error, assert_can_decide, verify_integrity,
  confirm_read, claim_row, mint_grant, lost_race, refresh, expire, fail_integrity,
}
use mcp_business_assistant.Approval.Rows.{
  found_of_count_where, count_where-found, find_approval-update_where,
}
use mcp_business_assistant.Approval.Evolution.{WellFormed}

-- Who may decide a request: an active operator or admin, and the one who raised it or an admin.
abbrev pub MayDecide : User → ApprovalRequest → Type 0
MayDecide user r = (can_approve user ≡ true) × ((is_admin user.role ≡ true) ⊎ (r.user_id ≡ user.id))

pub assert_can_decide-cases :
    (r : ApprovalRequest) (user : User) (db : Database)
    → ((assert_can_decide r user db ≡ (ok tt, db)) × MayDecide user r)
      ⊎ (((e : AppError) × (assert_can_decide r user db ≡ (err e, db))) × ¬ MayDecide user r)
unfolding assert_can_decide
assert_can_decide-cases r user db = elim (Bool-cases (can_approve user)) [
  | inl may ↦ elim (Bool-cases (not (is_admin user.role) && not (r.user_id == user.id))) [
    | inl other ↦ inr ((owner_error, rw (may, other) refl), λ m. ground (arith, m.1))
    | inr own ↦ inl (rw (may, own) refl, (may, ground arith))
  ]
  | inr barred ↦ inr ((role_error, rw barred refl), λ m. cc (m.0))
]

-- A claim that wins found the row pending and unexpired, and the row is now approved.
pub claim_row_won :
    (k user : ℕ) (comment : Option String) (db : Database)
    → WellFormed db
    → (claim_row k user comment db).0 ≡ ok true
    → (q : ApprovalRequest) × (find_approval k db.approvals ≡ some q)
      × (claimable k db.now q ≡ true)
      × (find_approval k (claim_row k user comment db).1.approvals
          ≡ some (claim db.now user comment q))
unfolding claim_row claim_pending
claim_row_won k user comment db w h =
    let test : ApprovalRequest → Bool = claimable k db.now in
    let (q, there, passes) =
      found_of_count_where test k db.approvals (λ r t. ground arith) w.keyed (ground arith) in
    (
      q,
      there,
      passes,
      rw
          (
            find_approval-update_where test (claim db.now user comment) (λ r. refl) k db.approvals,
            there,
            passes,
          )
          refl,
    )

-- A claim of a row that is pending and unexpired wins.
pub claim_row_wins :
    (k user : ℕ) (comment : Option String) (db : Database) (q : ApprovalRequest)
    → find_approval k db.approvals ≡ some q
    → claimable k db.now q ≡ true
    → (claim_row k user comment db).0 ≡ ok true
unfolding claim_row claim_pending
claim_row_wins k user comment db q there passes =
    rw (count_where-found (claimable k db.now) k db.approvals there passes) refl

-- What `confirm` does with the outcome of the claim.
abbrev pub after_claim :
    ApprovalRequest
    → User
    → Option String
    → Result Bool × Database
    → Result (ApprovalRequest × ApprovalGrant) × Database
after_claim r user comment =
    continue (λ won. if won then mint_grant r user comment else lost_race r)

lost_race_never :
    {A : Type 0} (r : ApprovalRequest) (db : Database) (x : A) → (lost_race {A = A} r db).0 ≢ ok x
unfolding lost_race refresh
lost_race_never r db x h = elim (Option-cases (find_approval r.id db.approvals)) [
  | inl gone ↦ cc (rw gone at h)
  | inr (q, there) ↦ elim (Bool-cases (is_expired db.now q)) [
    | inl late ↦ cc (rw (there, late) at h)
    | inr in_time ↦ cc (rw (there, in_time) at h)
  ]
]

-- A grant is minted from the row that is in the table.
mint_grant_ok :
    (r : ApprovalRequest) (user : User) (comment : Option String) (db : Database)
    {row : ApprovalRequest} {grant : ApprovalGrant}
    → (mint_grant r user comment db).0 ≡ ok (row, grant)
    → (find_approval r.id db.approvals ≡ some row)
      × (grant ≡ grant_of row user db.now)
      × (find_approval r.id (mint_grant r user comment db).1.approvals ≡ some row)
unfolding mint_grant refresh record_audit
mint_grant_ok r user comment db {row} {grant} h =
    elim (Option-cases (find_approval r.id db.approvals)) [
      | inl gone ↦ absurd (cc (rw gone at h))
      | inr (q, there) ↦
          let minted : ok (q, grant_of q user db.now) ≡ ok (row, grant) = rw there at h in
          let same : q ≡ row = cc minted in
          let grants : grant_of q user db.now ≡ grant = cc minted in
          (
            there ∙ ap some same,
            sym grants ∙ ap (λ x. grant_of x user db.now) same,
            rw there (there ∙ ap some same),
          )
    ]

after_claim_ok :
    (r : ApprovalRequest) (user : User) (comment : Option String) (p : Result Bool × Database)
    {row : ApprovalRequest} {grant : ApprovalGrant}
    → (after_claim r user comment p).0 ≡ ok (row, grant)
    → (p.0 ≡ ok true)
      × (find_approval r.id p.1.approvals ≡ some row)
      × (grant ≡ grant_of row user p.1.now)
      × (find_approval r.id (after_claim r user comment p).1.approvals ≡ some row)
after_claim_ok r user comment (ok true, db) h =
    let (there, grants, after) = mint_grant_ok r user comment db h in (refl, there, grants, after)
after_claim_ok r user comment (ok false, db) {row} {grant} h =
    absurd (lost_race_never r db (row, grant) h)
after_claim_ok r user comment (err e, db) h = absurd (cc)
after_claim_ok r user comment (crash, db) h = absurd (cc)

never_ok :
    {A : Type 0} (p : Result (Unit {0}) × Database) (e : AppError) (x : A)
    → (continue (λ _. raise {A = A} e) p).0 ≢ ok x
never_ok (ok _, db) e x h = cc
never_ok (err _, db) e x h = cc
never_ok (crash, db) e x h = cc

pub then_raise :
    {A : Type 0} (m : Action (Unit {0})) (e : AppError) (db : Database) (x : A)
    → ((m >> raise {A = A} e) db).0 ≢ ok x
then_raise m e db x = never_ok (m db) e x

pub expires_later : (r : ApprovalRequest) (now : ℕ) → is_expired now r ≡ false → now < r.expires_at
unfolding is_expired
expires_later r now h = ground arith

module _ (sha256 : String → String) where
  -- The checks that the row which was read has passed when `confirm` goes on to the claim.
  abbrev pub Passed : ApprovalRequest → ℕ → User → Type 0
  Passed r read_at user =
      MayDecide user r
      × (verify_integrity sha256 r ≡ true)
      × (is_pending r.status ≡ true)
      × (read_at < r.expires_at)

  -- Past its checks, `confirm` claims the row; it cannot succeed otherwise.
  confirm_read-cases :
      (r : ApprovalRequest) (read_at : ℕ) (user : User) (comment : Option String) (db : Database)
      → (Passed r read_at user
          × (confirm_read sha256 r read_at user comment db
              ≡ after_claim r user comment (claim_row r.id user.id comment db)))
        ⊎ ((x : ApprovalRequest × ApprovalGrant)
            → (confirm_read sha256 r read_at user comment db).0 ≢ ok x)
  unfolding confirm_read
  confirm_read-cases r read_at user comment db = elim (assert_can_decide-cases r user db) [
    | inr ((e, refused), _) ↦ inr (λ x h. cc (rw refused at h))
    | inl (let_in, may) ↦ elim (Bool-cases (verify_integrity sha256 r)) [
      | inr tampered ↦
          inr (λ x h. then_raise (fail_integrity r (some user)) _ db x (rw (let_in, tampered) at h))
      | inl intact ↦ elim (Bool-cases (is_pending r.status)) [
        | inr decided ↦ inr (λ x h. cc (rw (let_in, intact, decided) at h))
        | inl waiting ↦ elim (Bool-cases (is_expired read_at r)) [
          | inl late ↦
              inr (λ x h. then_raise (expire r) _ db x (rw (let_in, intact, waiting, late) at h))
          | inr in_time ↦ inl (
            (may, intact, waiting, expires_later r read_at in_time),
            rw (let_in, intact, waiting, in_time) refl,
          )
        ]
      ]
    ]
  ]

  -- A confirmation that succeeds passed every check on the row it read, found the row pending and
  -- unexpired at the moment of its own update, and leaves it approved in the user's name. The grant
  -- carries the arguments and the digest of that row.
  pub confirm_read-ok :
      (r : ApprovalRequest) (read_at : ℕ) (user : User) (comment : Option String) (db : Database)
      {row : ApprovalRequest} {grant : ApprovalGrant}
      → WellFormed db
      → (confirm_read sha256 r read_at user comment db).0 ≡ ok (row, grant)
      → Passed r read_at user
        × ((q : ApprovalRequest) × (find_approval r.id db.approvals ≡ some q)
            × (is_pending q.status ≡ true)
            × (db.now < q.expires_at)
            × (row ≡ claim db.now user.id comment q)
            × (grant ≡ grant_of row user db.now))
        × (find_approval r.id (confirm_read sha256 r read_at user comment db).1.approvals
            ≡ some row)
  confirm_read-ok r read_at user comment db {row} {grant} w h =
      elim (confirm_read-cases r read_at user comment db) [
        | inr never ↦ absurd (never (row, grant) h)
        | inl (passed, claims) ↦
            let won =
              after_claim_ok r user comment (claim_row r.id user.id comment db) (rw claims at h) in
            let (q, there, claimable_then, now_there) =
              claim_row_won r.id user.id comment db w won.0 in
            let same : claim db.now user.id comment q ≡ row = cc in
            (
              passed,
              (q, there, ground arith, ground arith, sym same, ground (arith, won)),
              rw claims won.3,
            )
      ]
