-- ===== src/Mcp/Validation/Typed.antt =====
-- What a validation that finds no problem has made sure of, by the shapes of the values.
use mathlib.Core.Path.{subst}
use mcp_business_assistant.Prelude.{
  ℕ, zero, suc, String, ◌≡◌, ◌≢◌, ◌⊎◌, ap, inl, inr, refl, Bool, true, false, Option, none, some,
  List, [], ◌∷◌, All, lookup, Option-cases, Bool-cases,
}
use mcp_business_assistant.Prelude.Int.{ℤ}
use mcp_business_assistant.Json.{
  Json, Items, Fields, null, bool, int, float, str, arr, obj, nil, end, get, has_key, keys, entries,
  is_null, type_name,
}
use mcp_business_assistant.Mcp.Validation.Values.{◌>>=◌, iterate, or_value}
use mcp_business_assistant.Mcp.Validation.{
  absent, is_absent, check_type, check_enum, check_plain, check_bounds, check_value, check_argument,
  resolve_ref, type_map, validate_arguments,
}
use mcp_business_assistant.Mcp.Validation.Laws.{validate_arguments-clean_iff}

abbrev pub IsText : Json → Type 0
IsText v = (s : String) × (v ≡ str s)

abbrev pub IsInteger : Json → Type 0
IsInteger v = (n : ℤ) × (v ≡ int n)

abbrev pub IsNumber : Json → Type 0
IsNumber v = IsInteger v ⊎ ((m : ℤ) × (k : ℕ) × (r : String) × (v ≡ float m k r))

abbrev pub IsBoolean : Json → Type 0
IsBoolean v = (b : Bool) × (v ≡ bool b)

abbrev pub IsArray : Json → Type 0
IsArray v = (vs : Items) × (v ≡ arr vs)

abbrev pub IsObject : Json → Type 0
IsObject v = (fs : Fields) × (v ≡ obj fs)

abbrev pub IsNull : Json → Type 0
IsNull v = v ≡ null

-- A value is of the type that a schema names; other names ask nothing.
pub record HasType (t : String) (v : Json) : Type 0 where
  pub string_ : t ≡ "string" → IsText v
  pub integer_ : t ≡ "integer" → IsInteger v
  pub number_ : t ≡ "number" → IsNumber v
  pub boolean_ : t ≡ "boolean" → IsBoolean v
  pub array_ : t ≡ "array" → IsArray v
  pub object_ : t ≡ "object" → IsObject v
  pub null_ : t ≡ "null" → IsNull v

checked-IsText :
    (name : String) (v : Json) → check_type name v (some (str "string")) ≡ none → IsText v
unfolding type_map lookup type_name
checked-IsText name null h = absurd (cc (h))
checked-IsText name (bool b) h = absurd (cc (h))
checked-IsText name (int n) h = absurd (cc (h))
checked-IsText name (float m k r) h = absurd (cc (h))
checked-IsText name (str s) h = (s, refl)
checked-IsText name (arr vs) h = absurd (cc (h))
checked-IsText name (obj fs) h = absurd (cc (h))

checked-IsInteger :
    (name : String) (v : Json) → check_type name v (some (str "integer")) ≡ none → IsInteger v
unfolding type_map lookup type_name
checked-IsInteger name null h = absurd (cc (h))
checked-IsInteger name (bool b) h = absurd (cc (h))
checked-IsInteger name (int n) h = (n, refl)
checked-IsInteger name (float m k r) h = absurd (cc (h))
checked-IsInteger name (str s) h = absurd (cc (h))
checked-IsInteger name (arr vs) h = absurd (cc (h))
checked-IsInteger name (obj fs) h = absurd (cc (h))

checked-IsNumber :
    (name : String) (v : Json) → check_type name v (some (str "number")) ≡ none → IsNumber v
unfolding type_map lookup type_name
checked-IsNumber name null h = absurd (cc (h))
checked-IsNumber name (bool b) h = absurd (cc (h))
checked-IsNumber name (int n) h = inl (n, refl)
checked-IsNumber name (float m k r) h = inr (m, k, r, refl)
checked-IsNumber name (str s) h = absurd (cc (h))
checked-IsNumber name (arr vs) h = absurd (cc (h))
checked-IsNumber name (obj fs) h = absurd (cc (h))

checked-IsBoolean :
    (name : String) (v : Json) → check_type name v (some (str "boolean")) ≡ none → IsBoolean v
unfolding type_map lookup type_name
checked-IsBoolean name null h = absurd (cc (h))
checked-IsBoolean name (bool b) h = (b, refl)
checked-IsBoolean name (int n) h = absurd (cc (h))
checked-IsBoolean name (float m k r) h = absurd (cc (h))
checked-IsBoolean name (str s) h = absurd (cc (h))
checked-IsBoolean name (arr vs) h = absurd (cc (h))
checked-IsBoolean name (obj fs) h = absurd (cc (h))

checked-IsArray :
    (name : String) (v : Json) → check_type name v (some (str "array")) ≡ none → IsArray v
unfolding type_map lookup type_name
checked-IsArray name null h = absurd (cc (h))
checked-IsArray name (bool b) h = absurd (cc (h))
checked-IsArray name (int n) h = absurd (cc (h))
checked-IsArray name (float m k r) h = absurd (cc (h))
checked-IsArray name (str s) h = absurd (cc (h))
checked-IsArray name (arr vs) h = (vs, refl)
checked-IsArray name (obj fs) h = absurd (cc (h))

checked-IsObject :
    (name : String) (v : Json) → check_type name v (some (str "object")) ≡ none → IsObject v
unfolding type_map lookup type_name
checked-IsObject name null h = absurd (cc (h))
checked-IsObject name (bool b) h = absurd (cc (h))
checked-IsObject name (int n) h = absurd (cc (h))
checked-IsObject name (float m k r) h = absurd (cc (h))
checked-IsObject name (str s) h = absurd (cc (h))
checked-IsObject name (arr vs) h = absurd (cc (h))
checked-IsObject name (obj fs) h = (fs, refl)

checked-IsNull :
    (name : String) (v : Json) → check_type name v (some (str "null")) ≡ none → IsNull v
unfolding type_map lookup type_name
checked-IsNull name null h = refl
checked-IsNull name (bool b) h = absurd (cc (h))
checked-IsNull name (int n) h = absurd (cc (h))
checked-IsNull name (float m k r) h = absurd (cc (h))
checked-IsNull name (str s) h = absurd (cc (h))
checked-IsNull name (arr vs) h = absurd (cc (h))
checked-IsNull name (obj fs) h = absurd (cc (h))

check_type-HasType :
    (name t : String) (v : Json) → check_type name v (some (str t)) ≡ none → HasType t v
check_type-HasType name t v h = record {
  string_ = λ e. checked-IsText name v (subst (λ x. check_type name v (some (str x)) ≡ none) e h);
  integer_ =
      λ e. checked-IsInteger name v (subst (λ x. check_type name v (some (str x)) ≡ none) e h);
  number_ = λ e. checked-IsNumber name v (subst (λ x. check_type name v (some (str x)) ≡ none) e h);
  boolean_ =
      λ e. checked-IsBoolean name v (subst (λ x. check_type name v (some (str x)) ≡ none) e h);
  array_ = λ e. checked-IsArray name v (subst (λ x. check_type name v (some (str x)) ≡ none) e h);
  object_ = λ e. checked-IsObject name v (subst (λ x. check_type name v (some (str x)) ≡ none) e h);
  null_ = λ e. checked-IsNull name v (subst (λ x. check_type name v (some (str x)) ≡ none) e h);
}

-- A definition that says itself what it asks: no reference and no alternatives.
pub record IsSimple (d : Fields) : Type 0 where
  pub local : get "$ref" d ≡ none
  pub no_any : has_key "anyOf" d ≡ false
  pub no_one : has_key "oneOf" d ≡ false

no_problem :
    (o : Option String) (rest : Option (List String))
    → (elim o [ some problem ↦ some (problem ∷ []) | none ↦ rest ]) ≡ some []
    → o ≡ none
no_problem none rest h = refl
no_problem (some problem) rest h = absurd (cc (h))

plain_type :
    (name : String) (v : Json) (d : Fields)
    → check_plain name v d ≡ some []
    → check_type name v (get "type" d) ≡ none
unfolding check_plain
plain_type name v d h = elim (Option-cases (check_enum name v (get "enum" d))) [
  | inl raised ↦ absurd (cc (rw raised at h))
  | inr (some problem, e) ↦ absurd (cc (rw e at h))
  | inr (none, e) ↦
      no_problem (check_type name v (get "type" d)) (check_bounds name v d) (rw (e, ◌>>=◌) at h)
]

simple_type :
    (stack : ℕ) (root : Fields) (name t : String) (v : Json) (d : Fields)
    → IsSimple d
    → get "type" d ≡ some (str t)
    → check_value stack root name v (obj d) ≡ some []
    → HasType t v
unfolding check_value resolve_ref
simple_type zero root name t v d simple typed h = absurd (cc (h))
simple_type (suc n) root name t v d simple typed h =
    let plain : check_plain name v d ≡ some [] =
      rw (simple.local, ◌>>=◌, simple.no_any, simple.no_one) at h in
    check_type-HasType name t v
      (subst (λ o. check_type name v o ≡ none) typed (plain_type name v d plain))

-- A required name is given: a text, with a value that is not null.
abbrev pub IsGiven : Fields → Json → Type 0
IsGiven arguments name =
    (k : String) × (name ≡ str k) × (v : Json) × (get k arguments ≡ some v) × (v ≢ null)

given_value :
    (k : String) (arguments : Fields)
    → is_absent (get k arguments) ≡ false
    → (v : Json) × (get k arguments ≡ some v) × (v ≢ null)
given_value k arguments h = elim (Option-cases (get k arguments)) [
  | inl missing ↦ absurd (cc (rw missing at h))
  | inr (v, there) ↦ (v, there, λ e. absurd (cc (rw there at h, ap is_null e)))
]

IsGiven-name :
    (name : Json) (arguments : Fields) → absent name arguments ≡ some false → IsGiven arguments name
IsGiven-name (str k) arguments h =
    let there : is_absent (get k arguments) ≡ false = cc (h) in
    let (v, found, full) = given_value k arguments there in (k, refl, v, found, full)
IsGiven-name null arguments h = absurd (cc (h))
IsGiven-name (bool b) arguments h = absurd (cc (h))
IsGiven-name (int n) arguments h = absurd (cc (h))
IsGiven-name (float m k r) arguments h = absurd (cc (h))
IsGiven-name (arr vs) arguments h = absurd (cc (h))
IsGiven-name (obj fs) arguments h = absurd (cc (h))

-- An argument with a value and a simple definition that names a type is of that type.
abbrev pub IsTyped : Fields → String × Json → Type 0
IsTyped properties e =
    (d : Fields) (t : String)
    → get e.0 properties ≡ some (obj d)
    → e.1 ≢ null
    → IsSimple d
    → get "type" d ≡ some (str t)
    → HasType t e.1

is_null_iff : (v : Json) → is_null v ≡ true → v ≡ null
is_null_iff null h = refl
is_null_iff (bool b) h = absurd (cc (h))
is_null_iff (int n) h = absurd (cc (h))
is_null_iff (float m k r) h = absurd (cc (h))
is_null_iff (str s) h = absurd (cc (h))
is_null_iff (arr vs) h = absurd (cc (h))
is_null_iff (obj fs) h = absurd (cc (h))

argument-IsTyped :
    (stack : ℕ) (schema properties : Fields) (e : String × Json)
    → check_argument stack schema e.0 e.1 (get e.0 properties) ≡ some []
    → IsTyped properties e
argument-IsTyped stack schema properties (k, v) h d t there full simple typed =
    elim (Bool-cases (is_null v)) [
      | inl blank ↦ absurd (full (is_null_iff v blank))
      | inr filled ↦ simple_type stack schema k t v d simple typed (rw (there, filled) at h)
    ]

All-map :
    {A : Type 0} (P Q : A → Type 0) (xs : List A) → ((x : A) → P x → Q x) → All P xs → All Q xs
All-map P Q [] f ps = tt
All-map P Q (x ∷ xs) f (p, ps) = (f x p, All-map P Q xs f ps)

-- Where `required` is a list and `properties` a dict, or they are left out, arguments in which the
-- validation finds no problem give every required name a value that is not null, name properties
-- only unless there are none, and each argument with a value, whose definition names a type and
-- has neither a reference nor alternatives, is of that type, a Boolean being no number.
pub validate_arguments-IsTyped :
    (stack : ℕ) (schema arguments : Fields) (required : List Json) (properties : Fields)
    → iterate (or_value (get "required" schema) (arr nil)) ≡ some required
    → or_value (get "properties" schema) (obj end) ≡ obj properties
    → validate_arguments stack schema arguments ≡ some []
    → All (IsGiven arguments) required
      × ((properties ≡ end) ⊎ All (λ k. has_key k properties ≡ true) (keys arguments))
      × All (IsTyped properties) (entries arguments)
validate_arguments-IsTyped stack schema arguments required properties r p clean =
    let fits =
      (validate_arguments-clean_iff stack schema arguments required properties r p).0 clean in
    (
      All-map _ (IsGiven arguments) required (λ name. IsGiven-name name arguments) fits.given,
      fits.known,
      All-map _ (IsTyped properties) (entries arguments) (argument-IsTyped stack schema properties)
          fits.checked,
    )
