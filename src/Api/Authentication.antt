-- ===== src/Api/Authentication.antt =====
-- Whom `get_current_user` lets in.
use Prim.Native.String.{String, [], ◌∷◌}
use text.Mathlib.TextEquality.{eq_iff}
use mathlib.Core.List.{Memᴰ}
use mcp_business_assistant.Prelude.{
  ℕ, ◌≡◌, ◌≢◌, ◌∙◌, ◌⊎◌, inl, inr, refl, ap, Bool, true, false, Option, none, some, List, keep, All,
  Bool-cases, str_eq_refl,
}
use mcp_business_assistant.Errors.{ok, err}
use mcp_business_assistant.Api.Accounts.{
  Account, AuthSettings, has_hash, may_enter, get_by_api_key, key_required, key_invalid,
  get_current_user,
}

-- The unique index on the digests of the keys.
abbrev pub HashesDiffer : List Account → Type 0
HashesDiffer List.[] = Unit
HashesDiffer (List.◌∷◌ a accounts) =
    All (λ (b : Account). (hash : String) → a.api_key_hash ≡ some hash → b.api_key_hash ≢ some hash)
      accounts
    × HashesDiffer accounts

-- An active user whose digest is that of the key.
abbrev pub Enters : (String → String) → String → Account → Type 0
Enters sha256 key a = (a.api_key_hash ≡ some (sha256 key)) × (a.user.is_active ≡ true)

has_hash-holds : (hash : String) (o : Option String) → has_hash hash o ≡ true → o ≡ some hash
has_hash-holds hash none h = absurd (cc (h))
has_hash-holds hash (some own) h = ap some ((eq_iff own hash).0 h)

may_enter-Enters :
    (sha256 : String → String) (key : String) (a : Account)
    → may_enter (sha256 key) a ≡ true
    → Enters sha256 key a
may_enter-Enters sha256 key a h = elim (Bool-cases (has_hash (sha256 key) a.api_key_hash)) [
  | inr other ↦ absurd (cc (rw other at h))
  | inl own ↦ (has_hash-holds (sha256 key) a.api_key_hash own, rw own at h)
]

Enters-may_enter :
    (sha256 : String → String) (key : String) (a : Account)
    → Enters sha256 key a
    → may_enter (sha256 key) a ≡ true
Enters-may_enter sha256 key a (own, is_active) = rw (own, is_active, str_eq_refl (sha256 key)) refl

barred :
    (sha256 : String → String) (key : String) (a : Account)
    → may_enter (sha256 key) a ≡ false
    → ¬ Enters sha256 key a
barred sha256 key a h enters = cc (Enters-may_enter sha256 key a enters, h)

module _ {A : Type 0} (p : A → Bool) (x : A) (xs : List A) where
  keep_first : p x ≡ true → keep p (List.◌∷◌ x xs) ≡ List.◌∷◌ x (keep p xs)
  keep_first h = rw (keep, h) refl

  keep_later : p x ≡ false → keep p (List.◌∷◌ x xs) ≡ keep p xs
  keep_later h = rw (keep, h) refl

-- Behind a row with the digest of the key, no other has it.
none_behind :
    (sha256 : String → String) (key : String) (a : Account) (accounts : List Account)
    → a.api_key_hash ≡ some (sha256 key)
    → All
        (λ (b : Account). (hash : String) → a.api_key_hash ≡ some hash → b.api_key_hash ≢ some hash)
        accounts
    → keep (may_enter (sha256 key)) accounts ≡ List.[]
none_behind sha256 key a List.[] own differ = refl
none_behind sha256 key a (List.◌∷◌ b accounts) own differ =
    elim (Bool-cases (may_enter (sha256 key) b)) [
      | inl may ↦ absurd (differ.0 (sha256 key) own (may_enter-Enters sha256 key b may).0)
      | inr may_not ↦
          keep_later (may_enter (sha256 key)) b accounts may_not
          ∙ none_behind sha256 key a accounts own differ.1
    ]

abbrev Looked : (String → String) → String → List Account → Type 0
Looked sha256 key accounts =
    ((a : Account) × Memᴰ a accounts
      × Enters sha256 key a
      × (keep (may_enter (sha256 key)) accounts ≡ List.◌∷◌ a List.[]))
    ⊎ (All (λ a. ¬ Enters sha256 key a) accounts
        × (keep (may_enter (sha256 key)) accounts ≡ List.[]))

looked :
    (sha256 : String → String) (key : String) (accounts : List Account)
    → HashesDiffer accounts
    → Looked sha256 key accounts
looked sha256 key List.[] differ = inr (tt, refl)
looked sha256 key (List.◌∷◌ a accounts) differ = elim (Bool-cases (may_enter (sha256 key) a)) [
  | inl may ↦
      let enters = may_enter-Enters sha256 key a may in
      inl (
        a,
        Memᴰ.head refl,
        enters,
        keep_first (may_enter (sha256 key)) a accounts may
            ∙ ap (List.◌∷◌ a) (none_behind sha256 key a accounts enters.0 differ.0),
      )
  | inr may_not ↦ elim (looked sha256 key accounts differ.1) [
    | inl (b, there, enters, e) ↦
        inl (b, Memᴰ.tail there, enters, keep_later (may_enter (sha256 key)) a accounts may_not ∙ e)
    | inr (nobody, e) ↦ inr (
      (barred sha256 key a may_not, nobody),
      keep_later (may_enter (sha256 key)) a accounts may_not ∙ e,
    )
  ]
]

-- Where the authentication is enabled and no two users share a digest, a request without a key is
-- refused with the AuthenticationError that asks for one. A request with a key is that of the active
-- user with the digest of the key, where there is one; where there is none, be it that nobody has
-- the digest or that its user is not active, it is refused with one and the same AuthenticationError.
-- The table of users is left as it is.
pub get_current_user-cases :
    (sha256 : String → String) (settings : AuthSettings) (x_api_key : Option String) (next_id : ℕ)
    (accounts : List Account)
    → settings.auth_enabled ≡ true
    → HashesDiffer accounts
    → ((x_api_key ≡ none ⊎ x_api_key ≡ some "")
        × (get_current_user sha256 settings x_api_key next_id accounts
            ≡ (err key_required, accounts)))
      ⊎ ((key : String) × (x_api_key ≡ some key)
          × (key ≢ "")
          × (((a : Account) × Memᴰ a accounts
                × Enters sha256 key a
                × (get_current_user sha256 settings x_api_key next_id accounts
                    ≡ (ok a.user, accounts)))
              ⊎ (All (λ a. ¬ Enters sha256 key a) accounts
                  × (get_current_user sha256 settings x_api_key next_id accounts
                      ≡ (err key_invalid, accounts)))))
unfolding get_current_user get_by_api_key
get_current_user-cases sha256 settings none next_id accounts enabled differ =
    inl (inl refl, rw enabled refl)
get_current_user-cases sha256 settings (some []) next_id accounts enabled differ =
    inl (inr refl, rw enabled refl)
get_current_user-cases sha256 settings (some (c ∷ s)) next_id accounts enabled differ = inr (
  c ∷ s,
  refl,
  λ h. absurd (cc (h)),
  elim (looked sha256 (c ∷ s) accounts differ) [
    | inl (a, there, enters, e) ↦ inl (a, there, enters, rw (enabled, e) refl)
    | inr (nobody, e) ↦ inr (nobody, rw (enabled, e) refl)
  ],
)
