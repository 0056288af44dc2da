-- ===== src/Mcp/Validation/Raises.antt =====
-- What an exception of the validation comes from where the stack is deep enough: never from the
-- recursion.
use mathlib.Core.List.{Memᴰ}
use mcp_business_assistant.Prelude.{
  ℕ, zero, suc, ◌+◌, ◌≤◌, String, ◌≡◌, ◌≢◌, refl, ap, inl, inr, true, false, Option, none, some,
  List, [], ◌∷◌, Bool-cases, Option-cases, arith, ◌||◌, All,
}
use mcp_business_assistant.Json.{
  Json, Fields, null, bool, int, float, str, arr, obj, nil, end, field, has_key, get, is_null,
  entries,
}
use mcp_business_assistant.Core.Redaction.Laws.{depth, depth_fields}
use mcp_business_assistant.Mcp.Validation.Values.{◌>>=◌, iterate, or_value}
use mcp_business_assistant.Mcp.Validation.{
  check_argument, check_arguments, check_against, validate_arguments, resolve_ref, any_branch,
  check_plain, check_value, branches_of, type_texts, missing_required,
}
use mcp_business_assistant.Mcp.Validation.Recursion.{branch_check}
use mcp_business_assistant.Mcp.Validation.Depth.{
  get-depth, or_value-depth, branches-depth, resolve_ref-depth, validate_arguments-same,
}

-- The check of a value against a definition meets an exception, after finitely many steps into the
-- alternatives: a definition that is no dict, a test of a definition without alternatives, or
-- alternatives that are no list.
pub data Raises (root : Fields) (name : String) (value : Json) : Json → Type 0 where
  unresolved : {def : Json} → resolve_ref root def ≡ none → Raises root name value def
  untestable :
      {def : Json} {d : Fields}
      → resolve_ref root def ≡ some d
      → check_plain name value d ≡ none
      → Raises root name value def
  no_list :
      {def : Json} {d : Fields}
      → resolve_ref root def ≡ some d
      → branches_of d ≡ none
      → Raises root name value def
  stray :
      {def b : Json} {d : Fields} {branches : List Json}
      → resolve_ref root def ≡ some d
      → branches_of d ≡ some branches
      → Memᴰ b branches
      → resolve_ref root b ≡ none
      → Raises root name value def
  within :
      {def b : Json} {d e : Fields} {branches : List Json}
      → resolve_ref root def ≡ some d
      → branches_of d ≡ some branches
      → Memᴰ b branches
      → resolve_ref root b ≡ some e
      → Raises root name value (obj e)
      → Raises root name value def

-- One of the branches met an exception.
any_branch-none :
    (check : Json → Option (List String)) (branches : List Json)
    → any_branch check branches ≡ none
    → (b : Json) × Memᴰ b branches × (check b ≡ none)
unfolding any_branch
any_branch-none check [] h = absurd (cc (h))
any_branch-none check (b ∷ branches) h = elim (Option-cases (check b)) [
  | inl e ↦ (b, Memᴰ.head refl, e)
  | inr ([], e) ↦ absurd (cc (rw e at h))
  | inr (p ∷ ps, e) ↦
      let (c, there, raised) = any_branch-none check branches (rw e at h) in
      (c, Memᴰ.tail there, raised)
]

type_texts-none :
    (root : Fields) (branches : List Json)
    → type_texts root branches ≡ none
    → (b : Json) × Memᴰ b branches × (resolve_ref root b ≡ none)
unfolding type_texts
type_texts-none root [] h = absurd (cc (h))
type_texts-none root (b ∷ branches) h = elim (Option-cases (resolve_ref root b)) [
  | inl e ↦ (b, Memᴰ.head refl, e)
  | inr (d, e) ↦ elim (Option-cases (type_texts root branches)) [
    | inl f ↦
        let (c, there, raised) = type_texts-none root branches f in (c, Memᴰ.tail there, raised)
    | inr (texts, f) ↦ absurd (cc (rw (e, ◌>>=◌, f) at h))
  ]
]

shallow_member :
    (n : ℕ) (b : Json) (branches : List Json)
    → All (λ v. depth v ≤ n) branches
    → Memᴰ b branches
    → depth b ≤ n
shallow_member n b [] shallow there = elim there [ ]
shallow_member n b (c ∷ branches) (first, rest) (Memᴰ.head e) = omega (arith, first, ap depth e)
shallow_member n b (c ∷ branches) (first, rest) (Memᴰ.tail there) =
    shallow_member n b branches rest there

module _ (root : Fields) (name : String) (value : Json) (plain : get "$defs" root ≡ none) where
  check_value-Raises :
      (n : ℕ) (def : Json)
      → depth def ≤ n
      → check_value n root name value def ≡ none
      → Raises root name value def
  unfolding check_value depth
  check_value-Raises zero null shallow h = Raises.unresolved (unfold resolve_ref in refl)
  check_value-Raises zero (bool b) shallow h = Raises.unresolved (unfold resolve_ref in refl)
  check_value-Raises zero (int i) shallow h = Raises.unresolved (unfold resolve_ref in refl)
  check_value-Raises zero (float m k r) shallow h = Raises.unresolved (unfold resolve_ref in refl)
  check_value-Raises zero (str s) shallow h = Raises.unresolved (unfold resolve_ref in refl)
  check_value-Raises zero (arr vs) shallow h = Raises.unresolved (unfold resolve_ref in refl)
  check_value-Raises zero (obj fs) shallow h = absurd (omega (arith, shallow))
  check_value-Raises (suc n) def shallow h = elim (Option-cases (resolve_ref root def)) [
    | inl e ↦ Raises.unresolved e
    | inr (d, e) ↦ elim (Bool-cases (has_key "anyOf" d || has_key "oneOf" d)) [
      | inr simple ↦ Raises.untestable e (rw (e, ◌>>=◌, simple) at h)
      | inl alternatives ↦ elim (Option-cases (branches_of d)) [
        | inl bad ↦ Raises.no_list e bad
        | inr (branches, list) ↦
            elim (Option-cases (any_branch (branch_check root name value n) branches)) [
              | inr (true, fits) ↦ absurd (cc (rw (e, ◌>>=◌, alternatives, list, fits) at h))
              | inr (false, fits) ↦ elim (Option-cases (type_texts root branches)) [
                | inl f ↦
                    let (b, there, bad) = type_texts-none root branches f in
                    Raises.stray e list there bad
                | inr (texts, f) ↦ absurd (cc (rw (e, ◌>>=◌, alternatives, list, fits, f) at h))
              ]
              | inl raised ↦
                  let (b, there, bad) =
                    any_branch-none (branch_check root name value n) branches raised in
                  let inside = resolve_ref-depth root def d plain e in
                  let low =
                    shallow_member n b branches
                      (branches-depth d branches n (omega (arith, inside, shallow)) list) there in
                  elim (Option-cases (resolve_ref root b)) [
                    | inl stray_ ↦ Raises.stray e list there stray_
                    | inr (r, f) ↦ Raises.within e list there f (
                        check_value-Raises n (obj r)
                          (omega (arith, resolve_ref-depth root b r plain f, low))
                          (rw (f, ◌>>=◌) at bad))
                  ]
            ]
      ]
    ]
  ]

-- What an exception of the whole validation comes from: `required` is nothing to iterate over or
-- holds what no dict can have as a key, `properties` is no dict, or the check of an argument meets
-- an exception.
pub data Fails (schema arguments : Fields) : Type 0 where
  required_shape :
      iterate (or_value (get "required" schema) (arr nil)) ≡ none → Fails schema arguments
  required_name :
      {required : List Json}
      → iterate (or_value (get "required" schema) (arr nil)) ≡ some required
      → missing_required required arguments ≡ none
      → Fails schema arguments
  properties_shape :
      ((properties : Fields) → or_value (get "properties" schema) (obj end) ≢ obj properties)
      → Fails schema arguments
  argument :
      {properties : Fields} {k : String} {v def : Json}
      → or_value (get "properties" schema) (obj end) ≡ obj properties
      → Memᴰ (k, v) (entries arguments)
      → get k properties ≡ some def
      → Raises schema k v def
      → Fails schema arguments

check_arguments-none :
    (stack : ℕ) (schema properties arguments : Fields)
    → get "$defs" schema ≡ none
    → depth_fields properties ≤ stack
    → check_arguments stack schema properties arguments ≡ none
    → (e : String × Json) × Memᴰ e (entries arguments)
      × (def : Json) × (get e.0 properties ≡ some def)
      × Raises schema e.0 e.1 def
unfolding check_arguments entries
check_arguments-none stack schema properties end plain shallow h = absurd (cc (h))
check_arguments-none stack schema properties (field k v arguments) plain shallow h =
    elim (Option-cases (check_argument stack schema k v (get k properties))) [
      | inr (ps, e) ↦ elim (Option-cases (check_arguments stack schema properties arguments)) [
        | inr (qs, f) ↦ absurd (cc (rw (e, ◌>>=◌, f) at h))
        | inl f ↦
            let (x, there, def, found, raises) =
              check_arguments-none stack schema properties arguments plain shallow f in
            (x, Memᴰ.tail there, def, found, raises)
      ]
      | inl e ↦ elim (Option-cases (get k properties)) [
        | inl missing ↦ absurd (cc (rw missing at e))
        | inr (def, found) ↦ elim (Bool-cases (is_null def || is_null v)) [
          | inl skipped ↦ absurd (cc (rw (found, check_argument, skipped) at e))
          | inr checked ↦ (
            (k, v),
            Memᴰ.head refl,
            def,
            found,
            check_value-Raises schema k v plain stack def
                (omega (arith, get-depth k properties def found, shallow))
                (rw (found, check_argument, checked) at e),
          )
        ]
      ]
    ]

against-Fails :
    (stack : ℕ) (schema arguments : Fields) (properties : Json)
    → or_value (get "properties" schema) (obj end) ≡ properties
    → get "$defs" schema ≡ none
    → depth properties ≤ stack
    → check_against stack schema arguments properties ≡ none
    → Fails schema arguments
unfolding depth
against-Fails stack schema arguments (obj fs) p plain shallow h =
    elim (Option-cases (check_arguments stack schema fs arguments)) [
      | inr (ps, e) ↦ absurd (cc (rw (check_against, e) at h))
      | inl e ↦
          let (x, there, def, found, raises) =
            check_arguments-none stack schema fs arguments plain (omega (arith, shallow)) e in
          Fails.argument p there found raises
    ]
against-Fails stack schema arguments null p plain shallow h =
    Fails.properties_shape (λ fs e. absurd (cc (p, e)))
against-Fails stack schema arguments (bool b) p plain shallow h =
    Fails.properties_shape (λ fs e. absurd (cc (p, e)))
against-Fails stack schema arguments (int i) p plain shallow h =
    Fails.properties_shape (λ fs e. absurd (cc (p, e)))
against-Fails stack schema arguments (float m k r) p plain shallow h =
    Fails.properties_shape (λ fs e. absurd (cc (p, e)))
against-Fails stack schema arguments (str s) p plain shallow h =
    Fails.properties_shape (λ fs e. absurd (cc (p, e)))
against-Fails stack schema arguments (arr vs) p plain shallow h =
    Fails.properties_shape (λ fs e. absurd (cc (p, e)))

validate-Fails :
    (schema : Fields) (stack : ℕ) (arguments : Fields)
    → get "$defs" schema ≡ none
    → depth (obj schema) ≤ stack
    → validate_arguments stack schema arguments ≡ none
    → Fails schema arguments
unfolding validate_arguments depth
validate-Fails schema stack arguments plain shallow h =
    let inside : depth (or_value (get "properties" schema) (obj end)) ≤ stack =
      or_value-depth (get "properties" schema) (obj end) stack
        (λ w there. omega (arith, get-depth "properties" schema w there, shallow))
        (omega (arith, shallow)) in
    elim (Option-cases (iterate (or_value (get "required" schema) (arr nil)))) [
      | inl e ↦ Fails.required_shape e
      | inr (required, e) ↦ elim (Option-cases (missing_required required arguments)) [
        | inl f ↦ Fails.required_name e f
        | inr (missing, f) ↦
            elim (Option-cases (
              check_against stack schema arguments
                (or_value (get "properties" schema) (obj end)))) [
                  | inl g ↦ against-Fails stack schema arguments _ refl plain inside g
                  | inr (problems, g) ↦ absurd (cc (rw (e, ◌>>=◌, f, g) at h))
                ]
      ]
    ]

-- For a schema without `$defs`, a stack as deep as the schema is enough: any deeper stack gives the
-- same answer, and an exception comes from the shape of `required`, of `properties` or, after
-- finitely many steps into the alternatives, of a definition, never from the end of the stack.
pub validate_arguments-enough :
    (schema : Fields) (extra stack : ℕ) (arguments : Fields)
    → get "$defs" schema ≡ none
    → depth (obj schema) ≤ stack
    → (validate_arguments (extra + stack) schema arguments
        ≡ validate_arguments stack schema arguments)
      × (validate_arguments stack schema arguments ≡ none → Fails schema arguments)
validate_arguments-enough schema extra stack arguments plain shallow = (
  validate_arguments-same schema extra stack arguments plain shallow,
  validate-Fails schema stack arguments plain shallow,
)
