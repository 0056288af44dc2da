-- ===== src/Conversation/Ownership.antt =====
-- The conversations of app/models/database/conversation.py, with the operations of
-- app/services/conversation_service.py and its repository on them. The times of creation and of the
-- last change are left out.
use Prim.Native.String.{String, [], ◌∷◌}
use mathlib.Core.Path.{subst}
use mcp_business_assistant.Prelude.{
  ℕ, ◌≡◌, ◌≢◌, ◌↔◌, ◌⊎◌, inl, inr, refl, Bool, true, false, not, ◌&&◌, Option, none, some, List,
  ◌++◌, ltb, ◌==◌, ==_iff, arith, Bool-cases, ap, ◌∙◌, if◌then◌else◌,
}
use mcp_business_assistant.Prelude.Text.{
  ◌⊕◌, is_empty_text, is_space, prefix, str_uuid, text_length,
}
use mcp_business_assistant.Enums.{UserRole, admin, is_admin, ConversationStatus, active}
use mcp_business_assistant.Errors.{AppError, Result, ok, err, app_error, not_found, authorization}
use mcp_business_assistant.Database.{User}

pub record Conversation : Type 0 where
  pub id : ℕ
  pub user_id : ℕ
  pub title : Option String
  pub status : ConversationStatus

-- The words of a text joined by single spaces, `" ".join(text.split())`; `gap` says that a space is
-- due before the next word, and `first` that there was none yet.
squeeze : Bool → Bool → String → String
squeeze first gap [] = ""
squeeze first gap (c ∷ s) =
    let skipped = squeeze first true s in
    let rest = c ∷ squeeze false false s in
    if is_space c then skipped else if gap && not first then " " ⊕ rest else rest

-- `_derive_title`
unfoldable pub derive_title : Option String → Option String
unfolding squeeze
derive_title none = none
derive_title (some text) =
    if is_empty_text text
    then none
    else (let cleaned = squeeze true false text in
        some (prefix 120 cleaned ⊕ (if ltb 120 (text_length cleaned) then "..." else "")))

-- `session.get(Conversation, id)`
unfoldable pub find_conversation : ℕ → List Conversation → Option Conversation
find_conversation k List.[] = none
find_conversation k (List.◌∷◌ c cs) = if c.id == k then some c else find_conversation k cs

unfoldable pub conversation_missing : ℕ → AppError
conversation_missing k = app_error not_found ("Conversation " ⊕ str_uuid k ⊕ " was not found.")

abbrev pub no_access : AppError
no_access = app_error authorization "You do not have access to this conversation."

-- `_assert_visible`
unfoldable pub assert_visible : Conversation → User → Result Conversation
assert_visible conversation user =
    if not (is_admin user.role) && not (conversation.user_id == user.id)
    then err no_access
    else ok conversation

-- The row that was found, for a user.
abbrev pub found_for_user : ℕ → Option Conversation → User → Result Conversation
found_for_user k none user = err (conversation_missing k)
found_for_user k (some conversation) user = assert_visible conversation user

-- `get_for_user`
unfoldable pub get_for_user : List Conversation → ℕ → User → Result Conversation
unfolding assert_visible
get_for_user conversations k user = found_for_user k (find_conversation k conversations) user

-- `create_conversation`, with the next unused id
unfoldable pub create_conversation : ℕ → User → Option String → Conversation
create_conversation k user title = record {
  id = k;
  user_id = user.id;
  title = title;
  status = active;
}

-- `get_or_create`: the conversation and the table after.
unfoldable pub get_or_create :
    List Conversation
    → ℕ
    → User
    → Option ℕ
    → Option String
    → Result Conversation × List Conversation
unfolding create_conversation get_for_user derive_title
get_or_create conversations next_id user none title =
    let new = create_conversation next_id user (derive_title title) in
    (ok new, conversations ++ List.◌∷◌ new List.[])
get_or_create conversations next_id user (some k) title =
    (get_for_user conversations k user, conversations)

-- Who may see a conversation: its owner, and an administrator.
abbrev pub IsVisible : User → Conversation → Type 0
IsVisible user c = (user.role ≡ admin) ⊎ (c.user_id ≡ user.id)

not_admin : (r : UserRole) → is_admin r ≡ false → r ≢ admin
not_admin r h e = cc (h, ap is_admin e)

IsVisible-cases :
    (c : Conversation) (user : User)
    → ((assert_visible c user ≡ ok c) × IsVisible user c)
      ⊎ ((assert_visible c user ≡ err no_access) × ¬ IsVisible user c)
unfolding assert_visible
IsVisible-cases c user = elim (Bool-cases (is_admin user.role)) [
  | inl rules ↦ inl (rw rules refl, inl (ground (arith, rules)))
  | inr plain ↦ elim (Bool-cases (c.user_id == user.id)) [
    | inl owns ↦ inl (rw (plain, owns) refl, inr ((==_iff c.user_id user.id).0 owns))
    | inr other ↦ inr (
      rw (plain, other) refl,
      λ v. elim v [
        | inl rules ↦ not_admin user.role plain rules
        | inr owns ↦ cc (other, (==_iff c.user_id user.id).1 owns)
      ],
    )
  ]
]

abbrev ForUser : ℕ → Option Conversation → User → Type 0
ForUser k o user =
    ((c : Conversation) → (found_for_user k o user ≡ ok c) ↔ ((o ≡ some c) × IsVisible user c))
    × ((c : Conversation)
        → o ≡ some c
        → ¬ IsVisible user c
        → found_for_user k o user ≡ err no_access)
    × (o ≡ none → found_for_user k o user ≡ err (conversation_missing k))

found_cases : (k : ℕ) (o : Option Conversation) (user : User) → ForUser k o user
found_cases k none user = (
  (λ c. (λ h. absurd (cc (h)), λ (h, _). absurd (cc (h)))),
  (λ c h. absurd (cc (h))),
  (λ _. refl),
)
found_cases k (some d) user = elim (IsVisible-cases d user) [
  | inl (given, sees) ↦ (
    (λ c. (
      λ h.
          let same : d ≡ c = cc (h, given) in
          (ap (λ x. some x) same, subst (IsVisible user) same sees),
      λ (h, _). let same : d ≡ c = cc (h) in given ∙ ap (λ x. ok x) same,
    )),
    (λ c h hidden. let same : d ≡ c = cc (h) in absurd (hidden (subst (IsVisible user) same sees))),
    (λ h. absurd (cc (h))),
  )
  | inr (refused, hidden) ↦ (
    (λ c. (
      λ h. absurd (cc (h, refused)),
      λ (h, sees). let same : c ≡ d = cc (h) in absurd (hidden (subst (IsVisible user) same sees)),
    )),
    (λ c h _. refused),
    (λ h. absurd (cc (h))),
  )
]

-- A request for a conversation by its id gives it exactly if it exists and the user may see it; the
-- conversation of somebody else is refused with the AuthorizationError, and an id without a row with
-- the NotFoundError.
pub get_for_user-cases :
    (conversations : List Conversation) (k : ℕ) (user : User)
    → ((c : Conversation)
        → (get_for_user conversations k user ≡ ok c)
          ↔ ((find_conversation k conversations ≡ some c) × IsVisible user c))
      × ((c : Conversation)
          → find_conversation k conversations ≡ some c
          → ¬ IsVisible user c
          → get_for_user conversations k user ≡ err no_access)
      × (find_conversation k conversations ≡ none
          → get_for_user conversations k user ≡ err (conversation_missing k))
unfolding get_for_user assert_visible
get_for_user-cases conversations k user = found_cases k (find_conversation k conversations) user
