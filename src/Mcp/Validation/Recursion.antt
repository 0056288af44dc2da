-- ===== src/Mcp/Validation/Recursion.antt =====
-- The recursion of `_check_value`: how deep it must be allowed to go.
use mcp_business_assistant.Prelude.{
  ℕ, suc, String, ◌≡◌, inl, inr, Bool, Option, some, List, [], ◌∷◌, Option-cases,
}
use mcp_business_assistant.Json.{Json, Fields, obj}
use mcp_business_assistant.Mcp.Validation.Values.{◌>>=◌}
use mcp_business_assistant.Mcp.Validation.{resolve_ref, any_branch, check_value}

-- A check that answers wherever another does, and the same.
abbrev Extends : (Json → Option (List String)) → (Json → Option (List String)) → Type 0
Extends check more =
    (d : Json) (problems : List String) → check d ≡ some problems → more d ≡ some problems

any_branch-more :
    (check more : Json → Option (List String)) (branches : List Json) (b : Bool)
    → Extends check more
    → any_branch check branches ≡ some b
    → any_branch more branches ≡ some b
unfolding any_branch
any_branch-more check more [] b e h = h
any_branch-more check more (branch ∷ branches) b e h = elim (Option-cases (check branch)) [
  | inl none_here ↦ absurd (cc (rw none_here at h))
  | inr ([], fits) ↦ rw (e branch [] fits) (rw fits at h)
  | inr (p ∷ ps, fits) ↦
      rw (e branch (p ∷ ps) fits) (any_branch-more check more branches b e (rw fits at h))
]

module _ (root : Fields) (name : String) (value : Json) where
  -- The check of one branch, as `_check_value` makes it.
  abbrev pub branch_check : ℕ → Json → Option (List String)
  branch_check n branch = do
    resolved ← resolve_ref root branch
    check_value n root name value (obj resolved)

  branch_check-more :
      (n : ℕ)
      → ((d : Json) (problems : List String)
          → check_value n root name value d ≡ some problems
          → check_value (suc n) root name value d ≡ some problems)
      → Extends (branch_check n) (branch_check (suc n))
  branch_check-more n more branch problems h = elim (Option-cases (resolve_ref root branch)) [
    | inl e ↦ absurd (cc (rw e at h))
    | inr (d, e) ↦ rw e (more (obj d) problems (rw e at h))
  ]
