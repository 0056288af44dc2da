-- ===== src/Api/Accounts.antt =====
-- `get_current_user` of app/api/dependencies.py, with app/repositories/user_repository.py and the
-- columns of app/models/database/user.py that it reads. What the log is told is left out.
use Prim.Native.String.{String, [], ◌∷◌}
use mcp_business_assistant.Prelude.{
  ℕ, Bool, true, false, ◌&&◌, str_eq, Option, none, some, List, ◌++◌, keep, if◌then◌else◌,
}
use mcp_business_assistant.Prelude.Text.{strip}
use mcp_business_assistant.Prelude.Letters.{lower_text}
use mcp_business_assistant.Enums.{operator}
use mcp_business_assistant.Errors.{AppError, app_error, authentication, Result, ok, err, crash}
use mcp_business_assistant.Database.{User}

-- A row of the table of users.
pub record Account : Type 0 where
  pub user : User
  pub full_name : Option String
  pub api_key_hash : Option String

-- What is read of the settings.
pub record AuthSettings : Type 0 where
  pub auth_enabled : Bool
  pub demo_user_email : String

-- `one_or_none`, which raises MultipleResultsFound.
abbrev pub one_or_none : {A : Type 0} → List A → Result (Option A)
one_or_none List.[] = ok none
one_or_none (List.◌∷◌ a List.[]) = ok (some a)
one_or_none (List.◌∷◌ _ (List.◌∷◌ _ _)) = crash

abbrev pub has_hash : String → Option String → Bool
has_hash hash none = false
has_hash hash (some own) = str_eq own hash

-- The condition of `get_by_api_key` on a row.
abbrev pub may_enter : String → Account → Bool
may_enter hash account = has_hash hash account.api_key_hash && account.user.is_active

-- `get_by_api_key`; `sha256` is `hash_api_key`.
unfoldable pub get_by_api_key : (String → String) → String → List Account → Result (Option Account)
get_by_api_key sha256 api_key accounts = one_or_none (keep (may_enter (sha256 api_key)) accounts)

-- `get_by_email`; an email is kept in lower case without spaces around it.
unfoldable pub get_by_email : String → List Account → Result (Option Account)
unfolding lower_text
get_by_email email accounts =
    one_or_none (keep (λ (a : Account). str_eq a.user.email (lower_text (strip email))) accounts)

-- `create_user` of `get_or_create`, with the next unused id; it has no key.
unfoldable pub create_user : ℕ → String → Option String → Account
unfolding lower_text
create_user next_id email full_name = record {
  user = record {
    id = next_id;
    email = lower_text (strip email);
    role = operator;
    is_active = true;
  };
  full_name = full_name;
  api_key_hash = none;
}

-- What `get_or_create` makes of the row that it looked for.
abbrev existing_or : Account → List Account → Result (Option Account) → Result User × List Account
existing_or new accounts (ok none) = (ok new.user, accounts ++ List.◌∷◌ new List.[])
existing_or new accounts (ok (some account)) = (ok account.user, accounts)
existing_or new accounts (err e) = (err e, accounts)
existing_or new accounts crash = (crash, accounts)

-- `get_or_create`
unfoldable pub get_or_create_user :
    ℕ → String → Option String → List Account → Result User × List Account
unfolding get_by_email create_user
get_or_create_user next_id email full_name accounts =
    existing_or (create_user next_id email full_name) accounts (get_by_email email accounts)

abbrev pub key_required : AppError
key_required = app_error authentication "An X-API-Key header is required."

abbrev pub key_invalid : AppError
key_invalid = app_error authentication "The supplied API key is not valid."

-- The user of the row with the key.
abbrev pub admitted : Result (Option Account) → Result User
admitted (ok none) = err key_invalid
admitted (ok (some account)) = ok account.user
admitted (err e) = err e
admitted crash = crash

-- `get_current_user` where the authentication is enabled
abbrev pub authenticate : (String → String) → Option String → List Account → Result User
authenticate sha256 none accounts = err key_required
authenticate sha256 (some []) accounts = err key_required
authenticate sha256 (some (c ∷ s)) accounts = admitted (get_by_api_key sha256 (c ∷ s) accounts)

-- `get_current_user`, with the table of users after it
unfoldable pub get_current_user :
    (String → String) → AuthSettings → Option String → ℕ → List Account → Result User × List Account
unfolding get_by_api_key get_or_create_user
get_current_user sha256 settings x_api_key next_id accounts =
    if settings.auth_enabled
    then (authenticate sha256 x_api_key accounts, accounts)
    else get_or_create_user next_id settings.demo_user_email (some "Demo User") accounts
