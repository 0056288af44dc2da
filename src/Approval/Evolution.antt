-- ===== src/Approval/Evolution.antt =====
-- What every method of the service keeps of the approval table: the payload of a row never
-- changes, and a row that was decided never becomes pending again.
use mcp_business_assistant.Prelude.{
  ℕ, ◌≤◌, ◌≡◌, refl, ◌∙◌, Bool, true, false, Option, none, some, arith, ◌==◌, if◌then◌else◌, inl,
  inr, Bool-cases,
}
use mcp_business_assistant.Enums.{is_pending, is_approved}
use mcp_business_assistant.Errors.{AppError, Result, ok, err, crash}
use mcp_business_assistant.Database.{
  Database, ApprovalRequest, AuditEntry, find_approval, update_where, save, record_audit,
}
use mcp_business_assistant.Action.{
  Action, pure, raise, or_crash, ◌>>=◌, modify, gets, raise_if, continue,
}
use mcp_business_assistant.Approval.Rows.{
  HasKeys, changed, find_approval-update_where, update_where-HasKeys,
}

-- The parts of a row that are set when it is created, the one-way gate out of `pending`, and the
-- one-way gate out of `approved`.
pub record Evolves (r r' : ApprovalRequest) : Type 0 where
  pub id : r'.id ≡ r.id
  pub conversation_id : r'.conversation_id ≡ r.conversation_id
  pub user_id : r'.user_id ≡ r.user_id
  pub tool_name : r'.tool_name ≡ r.tool_name
  pub server_name : r'.server_name ≡ r.server_name
  pub arguments : r'.arguments ≡ r.arguments
  pub arguments_hash : r'.arguments_hash ≡ r.arguments_hash
  pub summary : r'.summary ≡ r.summary
  pub expires_at : r'.expires_at ≡ r.expires_at
  pub decided : is_pending r.status ≡ false → is_pending r'.status ≡ false
  pub spent :
      is_pending r.status ≡ false → is_approved r.status ≡ false → is_approved r'.status ≡ false

pub Evolves-refl : (r : ApprovalRequest) → Evolves r r
Evolves-refl r = ground arith

pub Evolves-trans : {p q r : ApprovalRequest} → Evolves p q → Evolves q r → Evolves p r
Evolves-trans e f = record {
  id = f.id ∙ e.id;
  conversation_id = f.conversation_id ∙ e.conversation_id;
  user_id = f.user_id ∙ e.user_id;
  tool_name = f.tool_name ∙ e.tool_name;
  server_name = f.server_name ∙ e.server_name;
  arguments = f.arguments ∙ e.arguments;
  arguments_hash = f.arguments_hash ∙ e.arguments_hash;
  summary = f.summary ∙ e.summary;
  expires_at = f.expires_at ∙ e.expires_at;
  decided = λ h. f.decided (e.decided h);
  spent = λ h k. f.spent (e.decided h) (e.spent h k);
}

-- The row of a key after some writes, evolved from the row before.
abbrev pub After : ℕ → ApprovalRequest → Database → Type 0
After k r db = (r' : ApprovalRequest) × (find_approval k db.approvals ≡ some r') × Evolves r r'

-- The ids are a primary key, and those from `next_id` on are unused.
pub record WellFormed (db : Database) : Type 0 where
  pub keyed : HasKeys db.approvals
  pub fresh : (k : ℕ) → db.next_id ≤ k → find_approval k db.approvals ≡ none

-- What leads from one state of the tables to another, without a call of a tool.
pub record Leads (db db' : Database) : Type 0 where
  pub well : WellFormed db → WellFormed db'
  pub rows : (k : ℕ) (r : ApprovalRequest) → find_approval k db.approvals ≡ some r → After k r db'
  pub clock : db.now ≤ db'.now
  pub quiet : db'.dispatched ≡ db.dispatched

pub Leads-refl : (db : Database) → Leads db db
Leads-refl db = record {
  well = λ w. w;
  rows = λ k r h. (r, h, Evolves-refl r);
  clock = omega arith;
  quiet = refl;
}

pub Leads-trans : {a b c : Database} → Leads a b → Leads b c → Leads a c
Leads-trans f g = record {
  well = λ w. g.well (f.well w);
  rows = λ k r h.
      let (q, there, e) = f.rows k r h in
      let (p, there', e') = g.rows k q there in (p, there', Evolves-trans e e');
  clock = omega (arith, f.clock, g.clock);
  quiet = g.quiet ∙ f.quiet;
}

-- A change that lets the rows evolve that pass the test.
abbrev pub Gentle : (ApprovalRequest → Bool) → (ApprovalRequest → ApprovalRequest) → Type 0
Gentle test change =
    (r : ApprovalRequest) → (change r).id ≡ r.id × (test r ≡ true → Evolves r (change r))

changed-Evolves :
    (test : ApprovalRequest → Bool) (change : ApprovalRequest → ApprovalRequest)
    → Gentle test change
    → (r : ApprovalRequest) → Evolves r (changed test change r)
changed-Evolves test change gentle r = elim (Bool-cases (test r)) [
  | inl e ↦ rw e ((gentle r).1 e)
  | inr e ↦ rw e (Evolves-refl r)
]

-- An update of rows in place.
pub update-Leads :
    (test : ApprovalRequest → Bool) (change : ApprovalRequest → ApprovalRequest) (db : Database)
    → Gentle test change
    → Leads db (record db { approvals = update_where test change db.approvals })
update-Leads test change db gentle =
    let looked_up = find_approval-update_where test change (λ r. (gentle r).0) in
    record {
      well = λ w. record {
        keyed = update_where-HasKeys test change (λ r. (gentle r).0) db.approvals w.keyed;
        fresh = λ k h. rw (looked_up k db.approvals, w.fresh k h) refl;
      };
      rows = λ k r h. (
        changed test change r,
        rw (looked_up k db.approvals, h) refl,
        changed-Evolves test change gentle r,
      );
      clock = omega arith;
      quiet = refl;
    }

-- A change that lets every row evolve.
abbrev pub AlwaysGentle : (ApprovalRequest → ApprovalRequest) → Type 0
AlwaysGentle change = (r : ApprovalRequest) → Evolves r (change r)

pub always-Gentle :
    (test : ApprovalRequest → Bool) (change : ApprovalRequest → ApprovalRequest)
    → AlwaysGentle change
    → Gentle test change
always-Gentle test change gentle r = ((gentle r).id, λ _. gentle r)

pub save-Leads :
    (k : ℕ) (change : ApprovalRequest → ApprovalRequest) (db : Database)
    → AlwaysGentle change
    → Leads db (save k change db)
unfolding save
save-Leads k change db gentle =
    update-Leads (λ r. r.id == k) change db (always-Gentle (λ r. r.id == k) change gentle)

pub record_audit-Leads : (entry : AuditEntry) (db : Database) → Leads db (record_audit entry db)
unfolding record_audit
record_audit-Leads entry db = record {
  well = λ w. record { keyed = w.keyed; fresh = w.fresh };
  rows = λ k r h. (r, h, Evolves-refl r);
  clock = omega arith;
  quiet = refl;
}

-- A change of the database, and an action however it ends, that lead on so.
pub record Steady (f : Database → Database) : Type 0 where
  pub at : (db : Database) → Leads db (f db)

pub record Keeps {A : Type 0} (m : Action A) : Type 0 where
  pub at : (db : Database) → Leads db (m db).1

pub record_audit-Steady : (entry : AuditEntry) → Steady (record_audit entry)
record_audit-Steady entry = record { at = record_audit-Leads entry }

module _ {A : Type 0} where
  pub Keeps-pure : (a : A) → Keeps (pure a)
  Keeps-pure a = record { at = Leads-refl }

  pub Keeps-raise : (e : AppError) → Keeps (raise {A = A} e)
  Keeps-raise e = record { at = Leads-refl }

  pub Keeps-or_crash : (o : Option A) → Keeps (or_crash o)
  Keeps-or_crash none = record { at = Leads-refl }
  Keeps-or_crash (some a) = record { at = Leads-refl }

  pub Keeps-gets : (f : Database → A) → Keeps (gets f)
  Keeps-gets f = record { at = Leads-refl }

  pub Keeps-if : (b : Bool) (m n : Action A) → Keeps m → Keeps n → Keeps (if b then m else n)
  Keeps-if true m n km kn = km
  Keeps-if false m n km kn = kn

pub Keeps-raise_if : (b : Bool) (e : AppError) → Keeps (raise_if b e)
Keeps-raise_if true e = record { at = Leads-refl }
Keeps-raise_if false e = record { at = Leads-refl }

pub Keeps-modify : (f : Database → Database) → Steady f → Keeps (modify f)
Keeps-modify f s = record { at = s.at }

continue-Leads :
    {A B : Type 0} (f : A → Action B) (x : Result A × Database) {db : Database}
    → Leads db x.1
    → ((a : A) → Keeps (f a))
    → Leads db (continue f x).1
continue-Leads f (ok a, db') h kf = Leads-trans h ((kf a).at db')
continue-Leads f (err e, db') h kf = h
continue-Leads f (crash, db') h kf = h

pub Keeps-bind :
    {A B : Type 0} (m : Action A) (f : A → Action B)
    → Keeps m
    → ((a : A) → Keeps (f a))
    → Keeps (m >>= f)
Keeps-bind m f km kf = record { at = λ db. continue-Leads f (m db) (km.at db) kf }

pub ruleset keeps_rules = (
  Keeps-pure, Keeps-raise, Keeps-or_crash, Keeps-gets, Keeps-if, Keeps-raise_if, Keeps-modify,
  Keeps-bind, record_audit-Steady,
)
