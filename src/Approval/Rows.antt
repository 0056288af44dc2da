-- ===== src/Approval/Rows.antt =====
-- How the primitive writes of the approval table look through the lookup of a row.
use mathlib.Core.Option
use mathlib.Core.Option.{some-injective}
use mathlib.Core.Path.{subst}
use mcp_business_assistant.Prelude.{
  ℕ, ◌≡◌, ◌≢◌, refl, sym, Bool, true, none, some, List, [], ◌∷◌, ◌++◌, arith, ◌==◌, ==_iff,
  if◌then◌else◌, inl, inr, Bool-cases, ltb,
}
use mcp_business_assistant.Database.{ApprovalRequest, find_approval, update_where, count_where}

abbrev pub changed :
    (ApprovalRequest → Bool)
    → (ApprovalRequest → ApprovalRequest)
    → ApprovalRequest
    → ApprovalRequest
changed test change r = if test r then change r else r

-- A change that keeps the key of every row.
abbrev pub KeepsId : (ApprovalRequest → ApprovalRequest) → Type 0
KeepsId change = (r : ApprovalRequest) → (change r).id ≡ r.id

changed-id :
    (test : ApprovalRequest → Bool) (change : ApprovalRequest → ApprovalRequest)
    → KeepsId change
    → (r : ApprovalRequest) → (changed test change r).id ≡ r.id
changed-id test change keeps r = elim (Bool-cases (test r)) [
  | inl e ↦ rw e (keeps r)
  | inr e ↦ rw e
]

pub find_approval-update_where :
    (test : ApprovalRequest → Bool) (change : ApprovalRequest → ApprovalRequest)
    → KeepsId change
    → (k : ℕ) (rs : List ApprovalRequest)
    → find_approval k (update_where test change rs)
      ≡ Option.map (changed test change) (find_approval k rs)
unfolding find_approval update_where
find_approval-update_where test change keeps k [] = refl
find_approval-update_where test change keeps k (r ∷ rs) = elim (Bool-cases (r.id == k)) [
  | inl e ↦ rw (changed-id test change keeps r, e)
  | inr e ↦
      rw (changed-id test change keeps r, e) (find_approval-update_where test change keeps k rs)
]

-- The row that is found has the key.
pub find_approval-id :
    (k : ℕ) (rs : List ApprovalRequest) {r : ApprovalRequest}
    → find_approval k rs ≡ some r
    → r.id ≡ k
unfolding find_approval
find_approval-id k [] h = absurd (cc)
find_approval-id k (q ∷ rs) h = elim (Bool-cases (q.id == k)) [
  | inl e ↦ ground arith
  | inr e ↦ find_approval-id k rs (rw e at h)
]

pub find_approval-append_old :
    (k : ℕ) (rs : List ApprovalRequest) (new : ApprovalRequest) {r : ApprovalRequest}
    → find_approval k rs ≡ some r
    → find_approval k (rs ++ new ∷ []) ≡ some r
unfolding find_approval
find_approval-append_old k [] new h = absurd (cc)
find_approval-append_old k (q ∷ rs) new h = elim (Bool-cases (q.id == k)) [
  | inl e ↦ rw e (rw e at h)
  | inr e ↦ rw e (find_approval-append_old k rs new (rw e at h))
]

pub find_approval-append_new :
    (rs : List ApprovalRequest) (new : ApprovalRequest)
    → find_approval new.id rs ≡ none
    → find_approval new.id (rs ++ new ∷ []) ≡ some new
unfolding find_approval
find_approval-append_new [] new h = ground arith
find_approval-append_new (q ∷ rs) new h = elim (Bool-cases (q.id == new.id)) [
  | inl e ↦ absurd (cc (rw e at h))
  | inr e ↦ rw e (find_approval-append_new rs new (rw e at h))
]

pub find_approval-append_none :
    (k : ℕ) (rs : List ApprovalRequest) (new : ApprovalRequest)
    → find_approval k rs ≡ none
    → k ≢ new.id
    → find_approval k (rs ++ new ∷ []) ≡ none
unfolding find_approval
find_approval-append_none k [] new h ne = ground arith
find_approval-append_none k (q ∷ rs) new h ne = elim (Bool-cases (q.id == k)) [
  | inl e ↦ absurd (cc (rw e at h))
  | inr e ↦ rw e (find_approval-append_none k rs new (rw e at h) ne)
]

-- Where the row of a key is the one that passes a test on that key, an update counts it.
pub count_where-found :
    (test : ApprovalRequest → Bool) (k : ℕ) (rs : List ApprovalRequest) {r : ApprovalRequest}
    → find_approval k rs ≡ some r
    → test r ≡ true
    → ltb 0 (count_where test rs) ≡ true
unfolding find_approval count_where
count_where-found test k [] h t = absurd (cc)
count_where-found test k (q ∷ rs) {r} h t = elim (Bool-cases (q.id == k)) [
  | inl e ↦
      let same : some q ≡ some r = rw e at h in
      let t' = subst (λ x. test x ≡ true) (sym (some-injective q r same)) t in rw t' (ground arith)
  | inr e ↦ let ih = count_where-found test k rs (rw e at h) t in ground (arith, ih)
]

-- The primary key: no two rows share an id.
abbrev pub HasKeys : List ApprovalRequest → Type 0
HasKeys [] = Unit
HasKeys (r ∷ rs) = (find_approval r.id rs ≡ none) × HasKeys rs

-- A test that only the row of one key can pass.
abbrev pub OnlyAt : (ApprovalRequest → Bool) → ℕ → Type 0
OnlyAt test k = (r : ApprovalRequest) → test r ≡ true → r.id ≡ k

-- Where such an update counts a row, the row of the key passed the test.
pub found_of_count_where :
    (test : ApprovalRequest → Bool) (k : ℕ) (rs : List ApprovalRequest)
    → OnlyAt test k
    → HasKeys rs
    → ltb 0 (count_where test rs) ≡ true
    → (r : ApprovalRequest) × (find_approval k rs ≡ some r) × (test r ≡ true)
unfolding find_approval count_where
found_of_count_where test k [] only keyed h = absurd (cc)
found_of_count_where test k (q ∷ rs) only keyed h = elim (Bool-cases (test q)) [
  | inl t ↦ (q, rw ((==_iff q.id k).1 (only q t)), t)
  | inr t ↦
      let (r, there, passes) = found_of_count_where test k rs only keyed.1 (ground arith) in
      elim (Bool-cases (q.id == k)) [
        | inl e ↦ absurd (cc (rw ((==_iff q.id k).0 e) at keyed.0, there))
        | inr e ↦ (r, rw e there, passes)
      ]
]

-- An update that keeps the keys keeps the primary key.
pub update_where-HasKeys :
    (test : ApprovalRequest → Bool) (change : ApprovalRequest → ApprovalRequest)
    → KeepsId change
    → (rs : List ApprovalRequest) → HasKeys rs
    → HasKeys (update_where test change rs)
unfolding update_where
update_where-HasKeys test change keeps [] h = tt
update_where-HasKeys test change keeps (r ∷ rs) h = (
  rw (changed-id test change keeps r, find_approval-update_where test change keeps r.id rs, h.0)
      refl,
  update_where-HasKeys test change keeps rs h.1,
)

pub append-HasKeys :
    (rs : List ApprovalRequest) (new : ApprovalRequest)
    → find_approval new.id rs ≡ none
    → HasKeys rs
    → HasKeys (rs ++ new ∷ [])
unfolding find_approval
append-HasKeys [] new h keyed = (refl, tt)
append-HasKeys (r ∷ rs) new h keyed = elim (Bool-cases (r.id == new.id)) [
  | inl e ↦ absurd (cc (rw e at h))
  | inr e ↦ (
    find_approval-append_none r.id rs new keyed.0 (ground arith),
    append-HasKeys rs new (rw e at h) keyed.1,
  )
]
