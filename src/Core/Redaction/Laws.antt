-- ===== src/Core/Redaction/Laws.antt =====
-- What redaction guarantees: no value under a sensitive key is left, and the nesting is bounded.
use Prim.Native.Nat.{max}
use mcp_business_assistant.Prelude.{
  ℕ, suc, ◌+◌, ◌-◌, ◌≤◌, String, ◌≡◌, refl, ap, ◌∙◌, Bool, true, false, some, List, ◌∷◌, arith, ltb,
  if◌then◌else◌,
}
use mcp_business_assistant.Json.{
  Json, Items, Fields, null, bool, int, float, str, arr, obj, nil, cons, end, field, keys,
}
use mcp_business_assistant.Core.Secrets.{redacted, redact_text}
use mcp_business_assistant.Core.Redaction.{
  is_sensitive_key, max_redact_depth, redact, redact_items, redact_fields, sanitise,
  truncate_fields, cut, max_payload_chars, truncate, truncate_text,
}

-- Every value under a sensitive key is the marker, at every depth.
abbrev mutual
  pub IsClean : Json → Type 0
  IsClean null = Unit
  IsClean (bool b) = Unit
  IsClean (int n) = Unit
  IsClean (float m k r) = Unit
  IsClean (str s) = Unit
  IsClean (arr vs) = AreClean vs
  IsClean (obj fs) = HasClean fs

  pub AreClean : Items → Type 0
  AreClean nil = Unit
  AreClean (cons v vs) = IsClean v × AreClean vs

  pub HasClean : Fields → Type 0
  HasClean end = Unit
  HasClean (field k v fs) = (is_sensitive_key k ≡ true → v ≡ str redacted) × IsClean v × HasClean fs

-- The nesting of arrays and objects.
unfoldable mutual
  pub depth : Json → ℕ
  depth null = 0
  depth (bool b) = 0
  depth (int n) = 0
  depth (float m k r) = 0
  depth (str s) = 0
  depth (arr vs) = suc (depth_items vs)
  depth (obj fs) = suc (depth_fields fs)

  pub depth_items : Items → ℕ
  depth_items nil = 0
  depth_items (cons v vs) = max (depth v) (depth_items vs)

  pub depth_fields : Fields → ℕ
  depth_fields end = 0
  depth_fields (field k v fs) = max (depth v) (depth_fields fs)

IsClean-if : (b : Bool) (s : String) (v : Json) → IsClean v → IsClean (if b then str s else v)
IsClean-if true s v h = tt
IsClean-if false s v h = h

cut-IsClean : (d : ℕ) (v : Json) → IsClean v → IsClean (cut d v)
unfolding cut
cut-IsClean d v h = IsClean-if (ltb max_redact_depth d) "[TRUNCATED]" v h

mutual
  unfolding redact

  redact-IsClean : (v : Json) (d : ℕ) → IsClean (redact d v)
  redact-IsClean null d = cut-IsClean d null tt
  redact-IsClean (bool b) d = cut-IsClean d (bool b) tt
  redact-IsClean (int n) d = cut-IsClean d (int n) tt
  redact-IsClean (float m k r) d = cut-IsClean d (float m k r) tt
  redact-IsClean (str s) d = cut-IsClean d (str (redact_text s)) tt
  redact-IsClean (arr vs) d =
      cut-IsClean d (arr (redact_items (d + 1) vs)) (redact_items-AreClean vs (d + 1))
  redact-IsClean (obj fs) d =
      cut-IsClean d (obj (redact_fields (d + 1) fs)) (redact_fields-HasClean fs (d + 1))

  redact_items-AreClean : (vs : Items) (d : ℕ) → AreClean (redact_items d vs)
  redact_items-AreClean nil d = tt
  redact_items-AreClean (cons v vs) d = (redact-IsClean v d, redact_items-AreClean vs d)

  redact_fields-HasClean : (fs : Fields) (d : ℕ) → HasClean (redact_fields d fs)
  redact_fields-HasClean end d = tt
  redact_fields-HasClean (field k v fs) d = (
    λ e. rw e refl,
    IsClean-if (is_sensitive_key k) redacted (redact d v) (redact-IsClean v d),
    redact_fields-HasClean fs d,
  )

-- The depth left below a value at a depth.
depth-if :
    (b : Bool) (s : String) (v : Json) (n : ℕ)
    → (b ≡ false → depth v ≤ n)
    → depth (if b then str s else v) ≤ n
unfolding depth
depth-if true s v n h = omega arith
depth-if false s v n h = h refl

cut-depth : (d : ℕ) (v : Json) → (d ≤ 12 → depth v ≤ 13 - d) → depth (cut d v) ≤ 13 - d
unfolding cut
cut-depth d v h = depth-if (ltb max_redact_depth d) _ v _ (λ e. h (ground arith))

mutual
  unfolding redact depth

  redact-depth : (v : Json) (d : ℕ) → depth (redact d v) ≤ 13 - d
  redact-depth null d = cut-depth d null (λ _. omega arith)
  redact-depth (bool b) d = cut-depth d (bool b) (λ _. omega arith)
  redact-depth (int n) d = cut-depth d (int n) (λ _. omega arith)
  redact-depth (float m k r) d = cut-depth d (float m k r) (λ _. omega arith)
  redact-depth (str s) d = cut-depth d (str (redact_text s)) (λ _. omega arith)
  redact-depth (arr vs) d =
      let ih = redact_items-depth vs (d + 1) in
      cut-depth d (arr (redact_items (d + 1) vs)) (λ few. omega arith)
  redact-depth (obj fs) d =
      let ih = redact_fields-depth fs (d + 1) in
      cut-depth d (obj (redact_fields (d + 1) fs)) (λ few. omega arith)

  redact_items-depth : (vs : Items) (d : ℕ) → depth_items (redact_items d vs) ≤ 13 - d
  redact_items-depth nil d = omega arith
  redact_items-depth (cons v vs) d = omega (arith, redact-depth v d, redact_items-depth vs d)

  redact_fields-depth : (fs : Fields) (d : ℕ) → depth_fields (redact_fields d fs) ≤ 13 - d
  redact_fields-depth end d = omega arith
  redact_fields-depth (field k v fs) d = omega (
    arith,
    depth-if (is_sensitive_key k) redacted (redact d v) (13 - d) (λ _. redact-depth v d),
    redact_fields-depth fs d,
  )

redact_fields-keys : (fs : Fields) (d : ℕ) → keys (redact_fields d fs) ≡ keys fs
unfolding redact_fields keys
redact_fields-keys end d = refl
redact_fields-keys (field k v fs) d = ap (λ (l : List String). k ∷ l) (redact_fields-keys fs d)

-- Whatever the value, its redacted form has no value under a sensitive key but the marker, at any
-- depth, and is nested at most thirteen levels deep.
pub redact_safe : (v : Json) → IsClean (redact 0 v) × (depth (redact 0 v) ≤ 13)
redact_safe v = (redact-IsClean v 0, redact-depth v 0)

-- Bounding the texts of a payload keeps it clean: the marker is too short to be cut.
truncate-redacted : (v : Json) → v ≡ str redacted → truncate max_payload_chars v ≡ str redacted
unfolding truncate truncate_text
truncate-redacted v e = rw e

truncate-IsClean : (n : ℕ) (v : Json) → IsClean v → IsClean (truncate n v)
unfolding truncate
truncate-IsClean n (str s) h = tt
truncate-IsClean n v h = h

truncate_fields-HasClean : (fs : Fields) → HasClean fs → HasClean (truncate_fields fs)
unfolding truncate_fields
truncate_fields-HasClean end h = tt
truncate_fields-HasClean (field k v fs) h = (
  λ e. truncate-redacted v (h.0 e),
  truncate-IsClean max_payload_chars v h.1,
  truncate_fields-HasClean fs h.2,
)

truncate_fields-keys : (fs : Fields) → keys (truncate_fields fs) ≡ keys fs
unfolding truncate_fields keys
truncate_fields-keys end = refl
truncate_fields-keys (field k v fs) = ap (λ (l : List String). k ∷ l) (truncate_fields-keys fs)

-- The payload of an audit entry has the keys of the payload that was recorded, in their order, and
-- under a sensitive key, at any depth, nothing but the marker.
pub sanitise_safe :
    (payload : Fields)
    → (stored : Fields) × (sanitise (some payload) ≡ some stored)
      × HasClean stored
      × (keys stored ≡ keys payload)
unfolding sanitise
sanitise_safe payload =
    let inner = redact_fields 1 payload in
    (
      truncate_fields inner,
      refl,
      truncate_fields-HasClean inner (redact_fields-HasClean payload 1),
      truncate_fields-keys inner ∙ redact_fields-keys payload 1,
    )
