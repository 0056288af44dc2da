-- ===== src/Core/Secrets.antt =====
-- Credential-shaped substrings, app/core/security.py: `_SECRET_VALUE_PATTERNS` and `redact_text`.
-- Letters and digits are those of ASCII, and every character above 127 counts as a word character.
use Prim.Native.Char.{code}
use Prim.Native.String.{[], ◌∷◌}
use mcp_business_assistant.Prelude.{
  ℕ, zero, suc, ◌+◌, ◌-◌, String, ◌==◌, ◌≡◌, refl, Bool, true, false, not, ◌&&◌, ◌||◌, Option, none,
  some, leb, if◌then◌else◌,
}
use mcp_business_assistant.Prelude.Text.{◌⊕◌, is_space}

-- `REDACTED`
abbrev pub redacted : String
redacted = "[REDACTED]"

abbrev is_alnum : ℕ → Bool
is_alnum n = leb b'a' n && leb n b'z' || leb b'A' n && leb n b'Z' || leb b'0' n && leb n b'9'

-- `\w`
abbrev is_word : ℕ → Bool
is_word n = is_alnum n || n == b'_' || leb 128 n

-- `[A-Za-z0-9_\-]`, `[A-Za-z0-9\-]`, `[A-Za-z0-9._\-]`, `[A-Za-z0-9]`
abbrev is_key_char : ℕ → Bool
is_key_char n = is_alnum n || n == b'_' || n == b'-'

abbrev is_token_char : ℕ → Bool
is_token_char n = is_alnum n || n == b'-'

abbrev is_bearer_char : ℕ → Bool
is_bearer_char n = is_alnum n || n == b'.' || n == b'_' || n == b'-'

-- Whether the text starts with a word character.
abbrev starts_word : String → Bool
starts_word [] = false
starts_word (c ∷ _) = is_word (code c)

-- `\b` between a place where the character before is a word character or not, and the text after.
abbrev boundary : Bool → String → Bool
boundary before s = if before then not (starts_word s) else starts_word s

abbrev longer : Option ℕ → Option ℕ
longer none = none
longer (some n) = some (suc n)

abbrev first : Option ℕ → Option ℕ → Option ℕ
first none o = o
first (some n) _ = some n

-- `[…]{least,}`, and `\b` after it if `closed`: the length of the longest match. The character
-- before is a word character or not.
run_length : (ℕ → Bool) → Bool → ℕ → Bool → String → Option ℕ
run_length in_class closed least before [] =
    if least == 0 && (not closed || boundary before []) then some 0 else none
run_length in_class closed least before (c ∷ s) =
    let more = longer (run_length in_class closed (least - 1) (is_word (code c)) s) in
    let here = if least == 0 && (not closed || boundary before (c ∷ s)) then some 0 else none in
    if in_class (code c) then first more here else here

-- A literal prefix, compared by `same`, and what stands after it.
after_prefix : (ℕ → ℕ → Bool) → String → String → Option String
after_prefix same [] s = some s
after_prefix same (p ∷ ps) [] = none
after_prefix same (p ∷ ps) (c ∷ s) =
    let rest = after_prefix same ps s in if same (code p) (code c) then rest else none

abbrev lower : ℕ → ℕ
lower n = if leb b'A' n && leb n b'Z' then n + 32 else n

abbrev same_code : ℕ → ℕ → Bool
same_code a b = a == b

abbrev same_letter : ℕ → ℕ → Bool
same_letter a b = lower a == lower b

-- `\s*` after the white space that `\s+` must have, and the run after it.
bearer_run : String → Option ℕ
unfolding run_length
bearer_run [] = none
bearer_run (c ∷ s) =
    let more = longer (bearer_run s) in
    if is_space c then more else run_length is_bearer_char false 16 false (c ∷ s)

abbrev plus : ℕ → Option ℕ → Option ℕ
plus n none = none
plus n (some m) = some (n + m)

abbrev starts_space : String → Bool
starts_space [] = false
starts_space (c ∷ _) = is_space c

pub data Pattern : Type 0 where
  openai openrouter hubspot bearer github : Pattern

-- The part of a pattern behind its leading `\b`: the length of its match at the start of a text.
match_body : Pattern → String → Option ℕ
unfolding run_length after_prefix bearer_run
match_body openai s = elim (after_prefix same_code "sk-" s) [
  | none ↦ none
  | some r ↦ plus 3 (run_length is_key_char true 16 false r)
]
match_body openrouter s = elim (after_prefix same_code "sk-or-v1-" s) [
  | none ↦ none
  | some r ↦ plus 9 (run_length is_key_char true 16 false r)
]
match_body hubspot s = elim (after_prefix same_code "pat-" s) [
  | none ↦ none
  | some r ↦ plus 4 (run_length is_token_char true 10 false r)
]
match_body bearer s = elim (after_prefix same_letter "Bearer" s) [
  | none ↦ none
  | some r ↦ if starts_space r then plus 6 (bearer_run r) else none
]
match_body github s = elim (after_prefix same_code "ghp_" s) [
  | none ↦ none
  | some r ↦ plus 4 (run_length is_alnum true 20 true r)
]

unfoldable pub match_at : Pattern → Bool → String → Option ℕ
unfolding match_body
match_at p before s = if boundary before s then match_body p s else none

-- `pattern.sub(REDACTED, value)`: `skip` characters of a match are still to be passed over. No
-- pattern has an empty match.
substitute : Pattern → ℕ → Bool → String → String
unfolding match_at
substitute p skip before [] = ""
substitute p (suc skip) before (c ∷ s) = substitute p skip (is_word (code c)) s
substitute p zero before (c ∷ s) = elim (match_at p before (c ∷ s)) [
  | none ↦ c ∷ substitute p zero (is_word (code c)) s
  | some n ↦ redacted ⊕ substitute p (n - 1) (is_word (code c)) s
]

unfoldable pub redact_text : String → String
unfolding substitute
redact_text value =
    let passes = λ (p : Pattern) (s : String). substitute p 0 false s in
    passes github (passes bearer (passes hubspot (passes openrouter (passes openai value))))

redact_text_test :
    redact_text "key sk-abcdefghijklmnop1, bearer  abcdefghijklmnop.q! ask-abcdefghijklmnop1"
    ≡ "key [REDACTED], [REDACTED]! ask-abcdefghijklmnop1"
unfolding redact_text
redact_text_test = refl
