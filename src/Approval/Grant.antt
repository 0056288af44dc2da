-- ===== src/Approval/Grant.antt =====
-- When a grant is honoured: `verify_grant` against the table, and what it says of the arguments.
use mathlib.Core.Path.{subst}
use mcp_business_assistant.Prelude.{
  ℕ, ◌<◌, ◌≤◌, String, ◌≡◌, ◌≢◌, ◌↔◌, refl, sym, ◌∙◌, ap, true, not, ◌||◌, none, some, arith,
  str_eq, eq_iff, inl, inr, ◌⊎◌, Bool-cases, Option-cases,
}
use mcp_business_assistant.Errors.{Result, ok}
use mcp_business_assistant.Enums.{approved, is_approved}
use mcp_business_assistant.Json.{obj}
use mcp_business_assistant.Core.Payload.{canonical_json, hash_payload, verify_payload}
use mcp_business_assistant.Database.{Database, ApprovalRequest, find_approval, is_expired}
use mcp_business_assistant.Approval.Service.{
  ApprovalGrant, get_request, verify_integrity, verify_grant, expire, fail_integrity,
}
use mcp_business_assistant.Approval.Confirm.{then_raise, expires_later}

expired_before : (r : ApprovalRequest) (now : ℕ) → is_expired now r ≡ true → r.expires_at ≤ now
unfolding is_expired
expired_before r now h = ground arith

module _ (sha256 : String → String) where
  -- What the table must say for a grant to be honoured for a tool.
  pub record IsHonoured (grant : ApprovalGrant) (tool : String) (db : Database)
      (r : ApprovalRequest) : Type 0 where
    pub found : find_approval grant.approval_id db.approvals ≡ some r
    pub row_tool : r.tool_name ≡ tool
    pub grant_tool : grant.tool_name ≡ tool
    pub status : r.status ≡ approved
    pub in_time : db.now < r.expires_at
    pub intact : hash_payload sha256 (obj r.arguments) ≡ r.arguments_hash
    pub bound : hash_payload sha256 (obj grant.arguments) ≡ r.arguments_hash

  -- The checks of `verify_grant` on the row that it found, in their order.
  checks :
      (grant : ApprovalGrant) (tool : String) (db : Database) (r : ApprovalRequest)
      → find_approval grant.approval_id db.approvals ≡ some r
      → (IsHonoured grant tool db r × (verify_grant sha256 grant tool db ≡ (ok r, db)))
        ⊎ (((x : ApprovalRequest) → (verify_grant sha256 grant tool db).0 ≢ ok x)
            × ¬ IsHonoured grant tool db r)
  unfolding verify_grant get_request verify_payload verify_integrity
  checks grant tool db r there =
      elim (Bool-cases (not (str_eq r.tool_name tool) || not (str_eq grant.tool_name tool))) [
        | inl other ↦ inr (
          λ x h. cc (rw (there, other) at h),
          λ v. ground (
            arith,
            eq_iff r.tool_name tool,
            eq_iff grant.tool_name tool,
            v.row_tool,
            v.grant_tool,
          ),
        )
        | inr same ↦ elim (Bool-cases (is_approved r.status)) [
          | inr undecided ↦
              inr (λ x h. cc (rw (there, same, undecided) at h), λ v. ground (arith, v.status))
          | inl granted ↦ elim (Bool-cases (is_expired db.now r)) [
            | inl late ↦ inr (
              λ x h. then_raise (expire r) _ db x (rw (there, same, granted, late) at h),
              λ v.
                  let passed = expired_before r db.now late in let valid = v.in_time in omega arith,
            )
            | inr in_time ↦
                elim (Bool-cases
                  (str_eq (hash_payload sha256 (obj r.arguments)) r.arguments_hash)) [
                    | inr tampered ↦ inr (
                      λ x h.
                          then_raise (fail_integrity r none) _ db x
                            (rw (there, same, granted, in_time, tampered) at h),
                      λ v. cc ((eq_iff _ _).1 v.intact),
                    )
                    | inl intact ↦
                        elim (Bool-cases
                          (str_eq (hash_payload sha256 (obj grant.arguments)) r.arguments_hash)) [
                            | inr swapped ↦ inr (
                              λ x h. cc (rw (there, same, granted, in_time, intact, swapped) at h),
                              λ v. cc ((eq_iff _ _).1 v.bound),
                            )
                            | inl bound ↦ inl (
                              record {
                                found = there;
                                row_tool = (eq_iff r.tool_name tool).0 (ground arith);
                                grant_tool = (eq_iff grant.tool_name tool).0 (ground arith);
                                status = ground arith;
                                in_time = expires_later r db.now in_time;
                                intact = (eq_iff _ _).0 intact;
                                bound = (eq_iff _ _).0 bound;
                              },
                              rw (there, same, granted, in_time, intact, bound) refl,
                            )
                          ]
                  ]
          ]
        ]
      ]

  not_found_never :
      (grant : ApprovalGrant) (tool : String) (db : Database) (r : ApprovalRequest)
      → find_approval grant.approval_id db.approvals ≡ none
      → (verify_grant sha256 grant tool db).0 ≢ ok r
  unfolding verify_grant get_request
  not_found_never grant tool db r gone h = cc (rw gone at h)

  honours :
      (grant : ApprovalGrant) (tool : String) (db : Database) {q r : ApprovalRequest}
      → IsHonoured grant tool db q
      → q ≡ r
      → IsHonoured grant tool db r
  honours grant tool db v e = subst (IsHonoured grant tool db) e v

  found_and_IsHonoured :
      (grant : ApprovalGrant) (tool : String) (db : Database) (r : ApprovalRequest)
      → (verify_grant sha256 grant tool db).0 ≡ ok r
      → IsHonoured grant tool db r
  found_and_IsHonoured grant tool db r h =
      elim (Option-cases (find_approval grant.approval_id db.approvals)) [
        | inl gone ↦ absurd (not_found_never grant tool db r gone h)
        | inr (q, there) ↦ elim (checks grant tool db q there) [
          | inl (v, accepted) ↦ honours grant tool db v (cc (rw accepted at h))
          | inr (never, _) ↦ absurd (never r h)
        ]
      ]

  -- A grant is honoured, and the row returned, exactly when the table holds that row under the
  -- grant's id, for this tool, approved, unexpired, with its stored arguments intact and with the
  -- digest of the arguments of the grant. Then nothing is written.
  pub verify_grant-ok_iff :
      (grant : ApprovalGrant) (tool : String) (db : Database) (r : ApprovalRequest)
      → ((verify_grant sha256 grant tool db ≡ (ok r, db)) ↔ IsHonoured grant tool db r)
        × ((verify_grant sha256 grant tool db).0 ≡ ok r → IsHonoured grant tool db r)
  verify_grant-ok_iff grant tool db r =
      let sound = found_and_IsHonoured grant tool db r in
      (
        (
          λ h. sound (ap (λ (p : Result ApprovalRequest × Database). p.0) h),
          λ v. elim (checks grant tool db r v.found) [
            | inl (_, accepted) ↦ accepted
            | inr (_, refused) ↦ absurd (refused v)
          ],
        ),
        sound,
      )

  -- Where the digest has no collision between the two texts, an honoured grant carries the
  -- arguments of the row, up to the order of keys that the canonical text forgets.
  pub honoured_arguments :
      (grant : ApprovalGrant) (tool : String) (db : Database) (r : ApprovalRequest)
      → ((a b : String) → sha256 a ≡ sha256 b → a ≡ b)
      → (verify_grant sha256 grant tool db).0 ≡ ok r
      → canonical_json (obj grant.arguments) ≡ canonical_json (obj r.arguments)
  unfolding hash_payload
  honoured_arguments grant tool db r injective h =
      let v = found_and_IsHonoured grant tool db r h in injective _ _ (v.bound ∙ sym v.intact)
