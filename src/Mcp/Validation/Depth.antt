-- ===== src/Mcp/Validation/Depth.antt =====
-- How deep a stack the validation needs: that of the definitions, where none of them is a reference
-- into `$defs`.
use mathlib.Core.Path.{subst}
use mcp_business_assistant.Prelude.{
  ℕ, zero, suc, ◌+◌, ◌≤◌, String, ◌≡◌, refl, sym, ◌∙◌, ap, inl, inr, Option, none, some, List, [],
  ◌∷◌, map, All, Bool-cases, Option-cases, arith, ◌||◌, str_eq,
}
use mcp_business_assistant.Json.{
  Json, Items, Fields, null, bool, int, float, str, arr, obj, nil, cons, end, field, has_key, get,
  items, keys, is_truthy, is_null,
}
use mcp_business_assistant.Core.Redaction.Laws.{depth, depth_items, depth_fields}
use mcp_business_assistant.Mcp.Validation.Values.{◌>>=◌, iterate, or_value, characters, starts_with}
use mcp_business_assistant.Mcp.Validation.{
  check_argument, check_arguments, check_against, validate_arguments, follow, resolve_ref,
  any_branch, check_value, branches_of,
}
use mcp_business_assistant.Mcp.Validation.Recursion.{branch_check}

pub get-depth :
    (k : String) (fs : Fields) (v : Json) → get k fs ≡ some v → depth v ≤ depth_fields fs
unfolding get depth
get-depth k end v h = absurd (cc)
get-depth k (field j w fs) v h = elim (Bool-cases (str_eq j k)) [
  | inl e ↦ let same : w ≡ v = cc (rw e at h) in omega (arith, ap depth same)
  | inr e ↦ omega (arith, get-depth k fs v (rw e at h))
]

-- Values of a depth at most `n`.
abbrev Shallow : ℕ → List Json → Type 0
Shallow n = All (λ v. depth v ≤ n)

items-depth : (vs : Items) (n : ℕ) → depth_items vs ≤ n → Shallow n (items vs)
unfolding depth items
items-depth nil n h = tt
items-depth (cons v vs) n h = (omega (arith, h), items-depth vs n (omega (arith, h)))

characters-depth : (s : String) (n : ℕ) → Shallow n (characters s)
unfolding depth characters
characters-depth String.[] n = tt
characters-depth (String.◌∷◌ c s) n = (omega arith, characters-depth s n)

names-depth : (ks : List String) (n : ℕ) → Shallow n (map str ks)
unfolding depth
names-depth [] n = tt
names-depth (k ∷ ks) n = (omega arith, names-depth ks n)

-- What is iterated is shallower than a dict that holds it.
iterate-depth :
    (v : Json) (branches : List Json) (n : ℕ)
    → depth v ≤ suc n
    → iterate v ≡ some branches
    → Shallow n branches
unfolding iterate depth
iterate-depth (arr vs) branches n d h =
    let same : items vs ≡ branches = cc (h) in
    subst (Shallow n) same (items-depth vs n (omega (arith, d)))
iterate-depth (str s) branches n d h =
    let same : characters s ≡ branches = cc (h) in subst (Shallow n) same (characters-depth s n)
iterate-depth (obj fs) branches n d h =
    let same : map str (keys fs) ≡ branches = cc (h) in
    subst (Shallow n) same (names-depth (keys fs) n)
iterate-depth null branches n d h = absurd (cc)
iterate-depth (bool b) branches n d h = absurd (cc)
iterate-depth (int i) branches n d h = absurd (cc)
iterate-depth (float m k r) branches n d h = absurd (cc)

pub or_value-depth :
    (o : Option Json) (v : Json) (n : ℕ)
    → ((w : Json) → o ≡ some w → depth w ≤ n)
    → depth v ≤ n
    → depth (or_value o v) ≤ n
or_value-depth none v n h hv = hv
or_value-depth (some w) v n h hv = elim (Bool-cases (is_truthy w)) [
  | inl e ↦ rw (or_value, e) (h w refl)
  | inr e ↦ rw (or_value, e) hv
]

pub branches-depth :
    (d : Fields) (branches : List Json) (n : ℕ)
    → depth_fields d ≤ suc n
    → branches_of d ≡ some branches
    → Shallow n branches
unfolding depth
branches-depth d branches n shallow h =
    let found : (k : String) (w : Json) → get k d ≡ some w → depth w ≤ suc n =
      λ k w there. omega (arith, get-depth k d w there, shallow) in
    iterate-depth _ branches n
      (or_value-depth (get "anyOf" d) _ (suc n) (found "anyOf")
        (or_value-depth (get "oneOf" d) (arr nil) (suc n) (found "oneOf") (omega arith)))
      h

-- Without `$defs` no reference is followed.
follow_plain :
    (root fs : Fields) (o : Option Json) → get "$defs" root ≡ none → follow root fs o ≡ some fs
unfolding get
follow_plain root fs none plain = refl
follow_plain root fs (some null) plain = refl
follow_plain root fs (some (bool b)) plain = refl
follow_plain root fs (some (int i)) plain = refl
follow_plain root fs (some (float m k r)) plain = refl
follow_plain root fs (some (arr vs)) plain = refl
follow_plain root fs (some (obj gs)) plain = refl
follow_plain root fs (some (str ref)) plain = elim (Bool-cases (starts_with "#/$defs/" ref)) [
  | inl e ↦ rw (e, plain) refl
  | inr e ↦ rw e refl
]

pub resolve_ref-depth :
    (root : Fields) (v : Json) (d : Fields)
    → get "$defs" root ≡ none
    → resolve_ref root v ≡ some d
    → depth (obj d) ≤ depth v
unfolding resolve_ref depth
resolve_ref-depth root (obj fs) d plain h =
    let same : fs ≡ d = cc (follow_plain root fs (get "$ref" fs) plain, h) in
    omega (arith, ap depth_fields same)
resolve_ref-depth root null d plain h = absurd (cc)
resolve_ref-depth root (bool b) d plain h = absurd (cc)
resolve_ref-depth root (int i) d plain h = absurd (cc)
resolve_ref-depth root (float m k r) d plain h = absurd (cc)
resolve_ref-depth root (str s) d plain h = absurd (cc)
resolve_ref-depth root (arr vs) d plain h = absurd (cc)

any_branch-same :
    (check other : Json → Option (List String)) (branches : List Json)
    → All (λ b. check b ≡ other b) branches
    → any_branch check branches ≡ any_branch other branches
unfolding any_branch
any_branch-same check other [] same = refl
any_branch-same check other (b ∷ branches) (same, others) = elim (Option-cases (other b)) [
  | inl e ↦ rw (same, e) refl
  | inr ([], e) ↦ rw (same, e) refl
  | inr (p ∷ ps, e) ↦ rw (same, e) (any_branch-same check other branches others)
]

module _ (root : Fields) (name : String) (value : Json) (plain : get "$defs" root ≡ none) where
  branch-same :
      (n : ℕ)
      → ((v : Json)
          → depth v ≤ n
          → check_value n root name value v ≡ check_value (suc n) root name value v)
      → (b : Json) → depth b ≤ n
      → branch_check root name value n b ≡ branch_check root name value (suc n) b
  branch-same n same b shallow = elim (Option-cases (resolve_ref root b)) [
    | inl e ↦ rw e refl
    | inr (d, e) ↦ rw e (same (obj d) (omega (arith, resolve_ref-depth root b d plain e, shallow)))
  ]

  branches-same :
      (n : ℕ)
      → ((v : Json)
          → depth v ≤ n
          → check_value n root name value v ≡ check_value (suc n) root name value v)
      → (branches : List Json) → Shallow n branches
      → All
          (λ b. branch_check root name value n b ≡ branch_check root name value (suc n) b)
          branches
  branches-same n same [] shallow = tt
  branches-same n same (b ∷ branches) (first, rest) =
      (branch-same n same b first, branches-same n same branches rest)

  -- Beyond the depth of the definition, one more frame changes nothing, also not an exception.
  enough :
      (n : ℕ) (v : Json)
      → depth v ≤ n
      → check_value n root name value v ≡ check_value (suc n) root name value v
  unfolding check_value depth
  enough zero null h = refl
  enough zero (bool b) h = refl
  enough zero (int i) h = refl
  enough zero (float m k r) h = refl
  enough zero (str s) h = refl
  enough zero (arr vs) h = refl
  enough zero (obj fs) h = absurd (omega (arith, h))
  enough (suc n) v h = elim (Option-cases (resolve_ref root v)) [
    | inl e ↦ rw e refl
    | inr (d, e) ↦ elim (Bool-cases (has_key "anyOf" d || has_key "oneOf" d)) [
      | inr simple ↦ rw (e, ◌>>=◌, simple) refl
      | inl alternatives ↦ elim (Option-cases (branches_of d)) [
        | inl bad ↦ rw (e, ◌>>=◌, alternatives, bad) refl
        | inr (branches, list) ↦
            let inside = resolve_ref-depth root v d plain e in
            let shallow = branches-depth d branches n (omega (arith, inside, h)) list in
            let same = any_branch-same _ _ branches (branches-same n (enough n) branches shallow) in
            rw (e, ◌>>=◌, alternatives, list, same) refl
      ]
    ]
  ]

argument-enough :
    (schema : Fields) (n : ℕ) (k : String) (v : Json) (definition : Option Json)
    → get "$defs" schema ≡ none
    → ((d : Json) → definition ≡ some d → depth d ≤ n)
    → check_argument n schema k v definition ≡ check_argument (suc n) schema k v definition
argument-enough schema n k v none plain shallow = refl
argument-enough schema n k v (some d) plain shallow = elim (Bool-cases (is_null d || is_null v)) [
  | inl e ↦ rw (check_argument, e) refl
  | inr e ↦ rw (check_argument, e) (enough schema k v plain n d (shallow d refl))
]

arguments-enough :
    (schema : Fields) (n : ℕ) (properties arguments : Fields)
    → get "$defs" schema ≡ none
    → depth_fields properties ≤ n
    → check_arguments n schema properties arguments
      ≡ check_arguments (suc n) schema properties arguments
unfolding check_arguments
arguments-enough schema n properties end plain shallow = refl
arguments-enough schema n properties (field k v arguments) plain shallow =
    let first =
      argument-enough schema n k v (get k properties) plain
        (λ d there. omega (arith, get-depth k properties d there, shallow)) in
    let rest = arguments-enough schema n properties arguments plain shallow in rw (first, rest) refl

against-enough :
    (schema : Fields) (n : ℕ) (arguments : Fields) (properties : Json)
    → get "$defs" schema ≡ none
    → depth properties ≤ n
    → check_against n schema arguments properties
      ≡ check_against (suc n) schema arguments properties
unfolding depth
against-enough schema n arguments (obj properties) plain shallow =
    let same = arguments-enough schema n properties arguments plain (omega (arith, shallow)) in
    rw (check_against, same) refl
against-enough schema n arguments null plain shallow = refl
against-enough schema n arguments (bool b) plain shallow = refl
against-enough schema n arguments (int i) plain shallow = refl
against-enough schema n arguments (float m k r) plain shallow = refl
against-enough schema n arguments (str s) plain shallow = refl
against-enough schema n arguments (arr vs) plain shallow = refl

one_more :
    (schema : Fields) (n : ℕ) (arguments : Fields)
    → get "$defs" schema ≡ none
    → depth (obj schema) ≤ n
    → validate_arguments n schema arguments ≡ validate_arguments (suc n) schema arguments
unfolding validate_arguments depth
one_more schema n arguments plain shallow =
    let properties = or_value (get "properties" schema) (obj end) in
    let inside : depth properties ≤ n =
      or_value-depth (get "properties" schema) (obj end) n
        (λ w there. omega (arith, get-depth "properties" schema w there, shallow))
        (omega (arith, shallow)) in
    rw (against-enough schema n arguments properties plain inside) refl

-- For a schema without `$defs`, any stack deeper than the schema gives the same answer.
pub validate_arguments-same :
    (schema : Fields) (extra stack : ℕ) (arguments : Fields)
    → get "$defs" schema ≡ none
    → depth (obj schema) ≤ stack
    → validate_arguments (extra + stack) schema arguments
      ≡ validate_arguments stack schema arguments
validate_arguments-same schema zero stack arguments plain shallow =
    let none_more : 0 + stack ≡ stack = omega arith in rw none_more refl
validate_arguments-same schema (suc extra) stack arguments plain shallow =
    let one_frame : suc extra + stack ≡ suc (extra + stack) = omega arith in
    rw one_frame (
      sym (one_more schema (extra + stack) arguments plain (omega (arith, shallow)))
      ∙ validate_arguments-same schema extra stack arguments plain shallow)
