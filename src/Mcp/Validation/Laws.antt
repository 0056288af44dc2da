-- ===== src/Mcp/Validation/Laws.antt =====
-- When `validate_arguments` finds no problem.
use mcp_business_assistant.Prelude.{
  ℕ, String, ◌≡◌, ◌↔◌, ◌⊎◌, inl, inr, refl, ap, Bool, true, false, Option, none, some, List, [],
  ◌∷◌, ◌++◌, All, if◌then◌else◌,
}
use mcp_business_assistant.Json.{
  Json, Fields, arr, obj, nil, end, field, get, has_key, keys, entries,
}
use mcp_business_assistant.Mcp.Validation.Values.{◌>>=◌, iterate, or_value}
use mcp_business_assistant.Mcp.Validation.{
  absent, missing_required, unknown_arguments, check_argument, check_arguments, check_against,
  validate_arguments,
}

-- Every required name is given with a value, every argument is known, and no value has a problem.
pub record Fits (stack : ℕ) (schema : Fields) (required : List Json) (properties : Fields)
    (arguments : Fields) : Type 0 where
  pub given : All (λ name. absent name arguments ≡ some false) required
  pub known : (properties ≡ end) ⊎ All (λ k. has_key k properties ≡ true) (keys arguments)
  pub checked :
      All
        (λ (e : String × Json). check_argument stack schema e.0 e.1 (get e.0 properties) ≡ some [])
        (entries arguments)

append_nil : {A : Type 0} (xs ys : List A) → xs ++ ys ≡ [] → (xs ≡ []) × (ys ≡ [])
append_nil [] ys h = (refl, h)
append_nil (x ∷ xs) ys h = absurd (cc)

-- Two lists of problems are joined: there is none exactly when each has none.
both_clean :
    (p q : Option (List String))
    → ((p >>= λ xs. q >>= λ ys. some (xs ++ ys)) ≡ some []) ↔ ((p ≡ some []) × (q ≡ some []))
both_clean none q = (λ h. absurd (cc), λ h. absurd (cc))
both_clean (some xs) none = (λ h. absurd (cc), λ h. absurd (cc))
both_clean (some []) (some ys) = (λ h. (refl, h), λ h. h.1)
both_clean (some (x ∷ xs)) (some ys) = (λ h. absurd (cc), λ h. absurd (cc))

-- One more required name.
missing_step :
    (gone : Option Bool) (rest : Option (List String)) (problem : String)
    → ((gone >>= λ g. rest >>= λ xs. some (if g then problem ∷ xs else xs)) ≡ some [])
      ↔ ((gone ≡ some false) × (rest ≡ some []))
missing_step none rest problem = (λ h. absurd (cc), λ h. absurd (cc))
missing_step (some g) none problem = (λ h. absurd (cc), λ h. absurd (cc))
missing_step (some true) (some xs) problem = (λ h. absurd (cc), λ h. absurd (cc))
missing_step (some false) (some xs) problem = (λ h. (refl, h), λ h. h.1)

missing_iff :
    (names : List Json) (arguments : Fields)
    → (missing_required names arguments ≡ some [])
      ↔ All (λ name. absent name arguments ≡ some false) names
unfolding missing_required
missing_iff [] arguments = (λ h. tt, λ h. refl)
missing_iff (name ∷ names) arguments =
    let step = missing_step (absent name arguments) (missing_required names arguments) _ in
    let rest = missing_iff names arguments in
    (
      λ h. let (given, others) = step.0 h in (given, rest.0 others),
      λ (given, others). step.1 (given, rest.1 others),
    )

-- Whether an argument is reported as unknown.
unknown_step :
    (test : Bool) (problem : String) (rest : List String)
    → ((if test then rest else problem ∷ rest) ≡ []) ↔ ((test ≡ true) × (rest ≡ []))
unknown_step true problem rest = (λ h. (refl, h), λ h. h.1)
unknown_step false problem rest = (λ h. absurd (cc), λ h. absurd (cc))

unknown_fields_iff :
    (j : String) (w : Json) (ps arguments : Fields)
    → (unknown_arguments (field j w ps) arguments ≡ [])
      ↔ All (λ k. has_key k (field j w ps) ≡ true) (keys arguments)
unfolding unknown_arguments keys
unknown_fields_iff j w ps end = (λ h. tt, λ h. refl)
unknown_fields_iff j w ps (field k v arguments) =
    let step =
      unknown_step (has_key k (field j w ps)) _ (unknown_arguments (field j w ps) arguments) in
    let rest = unknown_fields_iff j w ps arguments in
    (
      λ h. let (known, others) = step.0 h in (known, rest.0 others),
      λ (known, others). step.1 (known, rest.1 others),
    )

is_end : Fields → Bool
is_end end = true
is_end _ = false

unknown_iff :
    (properties arguments : Fields)
    → (unknown_arguments properties arguments ≡ [])
      ↔ ((properties ≡ end) ⊎ All (λ k. has_key k properties ≡ true) (keys arguments))
unfolding unknown_arguments is_end
unknown_iff end arguments = (λ h. inl refl, λ h. refl)
unknown_iff (field j w ps) arguments = (
  λ h. inr ((unknown_fields_iff j w ps arguments).0 h),
  λ h. elim h [
    | inl e ↦ absurd (cc (ap is_end e))
    | inr known ↦ (unknown_fields_iff j w ps arguments).1 known
  ],
)

checked_iff :
    (stack : ℕ) (schema properties arguments : Fields)
    → (check_arguments stack schema properties arguments ≡ some [])
      ↔ All
          (λ (e : String × Json).
            check_argument stack schema e.0 e.1 (get e.0 properties) ≡ some [])
          (entries arguments)
unfolding check_arguments entries
checked_iff stack schema properties end = (λ h. tt, λ h. refl)
checked_iff stack schema properties (field k v arguments) =
    let step =
      both_clean (check_argument stack schema k v (get k properties))
        (check_arguments stack schema properties arguments) in
    let rest = checked_iff stack schema properties arguments in
    (
      λ h. let (fine, others) = step.0 h in (fine, rest.0 others),
      λ (fine, others). step.1 (fine, rest.1 others),
    )

against_iff :
    (xs : List String) (q : Option (List String))
    → ((q >>= λ ys. some (xs ++ ys)) ≡ some []) ↔ ((xs ≡ []) × (q ≡ some []))
against_iff [] none = (λ h. absurd (cc), λ h. absurd (cc))
against_iff [] (some ys) = (λ h. (refl, h), λ h. h.1)
against_iff (x ∷ xs) none = (λ h. absurd (cc), λ h. absurd (cc))
against_iff (x ∷ xs) (some ys) = (λ h. absurd (cc), λ h. absurd (cc))

-- Where `required` is a list and `properties` a dict, or they are left out, the validation is the
-- conjunction of its three loops.
pub validate_arguments-clean_iff :
    (stack : ℕ) (schema arguments : Fields) (required : List Json) (properties : Fields)
    → iterate (or_value (get "required" schema) (arr nil)) ≡ some required
    → or_value (get "properties" schema) (obj end) ≡ obj properties
    → (validate_arguments stack schema arguments ≡ some [])
      ↔ Fits stack schema required properties arguments
unfolding validate_arguments
validate_arguments-clean_iff stack schema arguments required properties r p =
    let joined =
      both_clean (missing_required required arguments)
        (check_against stack schema arguments (obj properties)) in
    let against =
      against_iff (unknown_arguments properties arguments)
        (check_arguments stack schema properties arguments) in
    (
      λ h.
          let (missing, others) = joined.0 (rw (r, p) at h) in
          let (unknown, checks) = against.0 others in
          record {
            given = (missing_iff required arguments).0 missing;
            known = (unknown_iff properties arguments).0 unknown;
            checked = (checked_iff stack schema properties arguments).0 checks;
          },
      λ v.
          rw (r, p)
            (joined.1 (
              (missing_iff required arguments).1 v.given,
              against.1 (
                (unknown_iff properties arguments).1 v.known,
                (checked_iff stack schema properties arguments).1 v.checked,
              ),
            )),
    )
