-- ===== src/Approval/Repository.antt =====
-- app/repositories/approval_repository.py. An update in bulk returns its row count.
use mcp_business_assistant.Prelude.{
  ℕ, ◌+◌, String, Bool, true, ◌&&◌, Option, none, some, List, [], ◌∷◌, ◌++◌, ltb, leb, ◌==◌, keep,
  take, if◌then◌else◌,
}
use mcp_business_assistant.Enums.{
  PermissionLevel, ApprovalStatus, approved, rejected, expired, executed, failed, is_pending,
}
use mcp_business_assistant.Json.{Fields}
use mcp_business_assistant.Database.{Database, ApprovalRequest, update_where, count_where}

-- `bool(rowcount)`
abbrev is_positive : ℕ → Bool
is_positive n = ltb 0 n

-- The new row of `create_request`, at a fresh id.
abbrev pub new_request :
    ℕ
    → ℕ
    → ℕ
    → String
    → String
    → Fields
    → String
    → PermissionLevel
    → String
    → String
    → ℕ
    → Option String
    → ℕ
    → ApprovalRequest
new_request id conversation_id user_id tool_name server_name arguments arguments_hash level summary
      risk_reason expires_at tool_call_id now =
    record {
      id = id;
      conversation_id = conversation_id;
      user_id = user_id;
      tool_name = tool_name;
      server_name = server_name;
      arguments = arguments;
      arguments_hash = arguments_hash;
      permission_level = level;
      summary = summary;
      risk_reason = risk_reason;
      tool_call_id = tool_call_id;
      status = ApprovalStatus.pending;
      created_at = now;
      expires_at = expires_at;
      decided_at = none;
      decided_by_id = none;
      decision_note = none;
      executed_at = none;
      execution_result = none;
      error = none;
    }

unfoldable pub create_row :
    (conversation_id user_id : ℕ) (tool_name server_name : String) (arguments : Fields)
    (arguments_hash : String) (level : PermissionLevel) (summary risk_reason : String)
    (expires_at : ℕ) (tool_call_id : Option String)
    → Database
    → ApprovalRequest × Database
create_row conversation_id user_id tool_name server_name arguments arguments_hash level summary
      risk_reason expires_at tool_call_id db =
    let row : ApprovalRequest =
      new_request db.next_id conversation_id user_id tool_name server_name arguments arguments_hash
        level summary risk_reason expires_at tool_call_id db.now in
    (row, record db { approvals = db.approvals ++ row ∷ []; next_id = db.next_id + 1 })

-- The WHERE clause of `claim_pending`, and what it sets.
abbrev pub claimable : ℕ → ℕ → ApprovalRequest → Bool
claimable approval_id now r = r.id == approval_id && is_pending r.status && ltb now r.expires_at

abbrev pub claim : ℕ → ℕ → Option String → ApprovalRequest → ApprovalRequest
claim now decided_by note r = record r {
  status = approved;
  decided_at = some now;
  decided_by_id = some decided_by;
  decision_note = note;
}

-- The check and the write are one statement.
unfoldable pub claim_pending : ℕ → ℕ → Option String → Database → Bool × Database
claim_pending approval_id decided_by note db =
    let test : ApprovalRequest → Bool = claimable approval_id db.now in
    (
      is_positive (count_where test db.approvals),
      record db { approvals = update_where test (claim db.now decided_by note) db.approvals },
    )

abbrev pub rejectable : ℕ → ApprovalRequest → Bool
rejectable approval_id r = r.id == approval_id && is_pending r.status

abbrev pub refuse : ℕ → ℕ → Option String → ApprovalRequest → ApprovalRequest
refuse now decided_by note r = record r {
  status = rejected;
  decided_at = some now;
  decided_by_id = some decided_by;
  decision_note = note;
}

unfoldable pub reject_pending : ℕ → ℕ → Option String → Database → Bool × Database
reject_pending approval_id decided_by note db =
    let test : ApprovalRequest → Bool = rejectable approval_id in
    (
      is_positive (count_where test db.approvals),
      record db { approvals = update_where test (refuse db.now decided_by note) db.approvals },
    )

-- `mark_executed` and `mark_failed`, on the row that the session has loaded
abbrev pub set_executed : ℕ → Option Fields → ApprovalRequest → ApprovalRequest
set_executed now result r = record r {
  status = executed;
  executed_at = some now;
  execution_result = result;
}

abbrev pub set_failed : ℕ → String → ApprovalRequest → ApprovalRequest
set_failed now error r = record r { status = failed; executed_at = some now; error = some error }

abbrev pub stale : ℕ → ApprovalRequest → Bool
stale now r = is_pending r.status && leb r.expires_at now

abbrev pub set_expired : ℕ → ApprovalRequest → ApprovalRequest
set_expired now r = record r { status = expired; decided_at = some now }

unfoldable pub expire_stale_rows : Database → ℕ × Database
expire_stale_rows db = (
  count_where (stale db.now) db.approvals,
  record db { approvals = update_where (stale db.now) (set_expired db.now) db.approvals },
)

-- The filters of `list_pending`; an absent filter lets every row pass.
abbrev matches : Option ℕ → ℕ → Bool
matches none _ = true
matches (some k) j = j == k

abbrev pub listed : Option ℕ → Option ℕ → ApprovalRequest → Bool
listed user_id conversation_id r =
    is_pending r.status && matches user_id r.user_id && matches conversation_id r.conversation_id

-- `order_by(created_at.desc())`, as an insertion sort
insert_newest : ApprovalRequest → List ApprovalRequest → List ApprovalRequest
insert_newest r [] = r ∷ []
insert_newest r (q ∷ qs) =
    let later = q ∷ insert_newest r qs in
    if ltb r.created_at q.created_at then later else r ∷ q ∷ qs

unfoldable pub newest_first : List ApprovalRequest → List ApprovalRequest
unfolding insert_newest
newest_first [] = []
newest_first (r ∷ rs) = insert_newest r (newest_first rs)

-- `clamp_limit` of app/repositories/base.py
unfoldable pub clamp_limit : Option ℕ → ℕ → ℕ
clamp_limit none default = default
clamp_limit (some n) default = if ltb n 1 then 1 else if ltb 200 n then 200 else n

unfoldable pub list_pending_rows : Option ℕ → Option ℕ → Option ℕ → Database → List ApprovalRequest
unfolding newest_first clamp_limit
list_pending_rows user_id conversation_id limit db =
    take (clamp_limit limit 25) (newest_first (keep (listed user_id conversation_id) db.approvals))
