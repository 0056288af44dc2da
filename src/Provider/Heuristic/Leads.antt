-- ===== src/Provider/Heuristic/Leads.antt =====
-- The argument builders of app/providers/llm/heuristic_provider.py for leads and for the email that
-- follows up on them.
use Prim.Native.Char.{code}
use Prim.Native.String.{String, [], ◌∷◌}
use mcp_business_assistant.Prelude.{
  Bool, true, false, not, ◌&&◌, ◌||◌, Option, none, some, List, take, ◌==◌, if◌then◌else◌, or_else,
  ◌++◌,
}
use mcp_business_assistant.Prelude.Text.{◌⊕◌, is_empty_text, strip, or_text}
use mcp_business_assistant.Prelude.Regex.{
  Regex, boundary, one, repeated, group, captured, plain, ◌▸◌, one_of, optional, is_word, is_letter,
  is_capital,
}
use mcp_business_assistant.Prelude.Letters.{upper, lower}
use mcp_business_assistant.Json.{
  Json, Fields, null, str, arr, obj, field, end, get, is_truthy, items, of_list,
}
use mcp_business_assistant.Provider.Heuristic.Arguments.{Builder, spaces, is_name_char, strip_marks}

-- `_EMAIL_PATTERN`
unfoldable pub email_pattern : Regex
unfolding plain
email_pattern = group (
    repeated (λ c. is_word c || code c == b'.' || code c == b'+' || code c == b'-') 1 none
    ▸ plain "@"
    ▸ repeated (λ c. is_word c || code c == b'-') 1 none
    ▸ plain "."
    ▸ repeated (λ c. is_word c || code c == b'.' || code c == b'-') 1 none)

unfoldable pub lead_name_pattern : Regex
unfolding plain one_of
lead_name_pattern =
    one_of (List.◌∷◌ (plain "add") (List.◌∷◌ (plain "create") List.[]))
    ▸ spaces
    ▸ optional (plain "a" ▸ spaces)
    ▸ optional (plain "new" ▸ spaces)
    ▸ plain "lead"
    ▸ spaces
    ▸ optional (plain "for" ▸ spaces)
    ▸ group (one is_letter ▸ repeated is_name_char 1 (some 60))

-- A text in which letter case counts.
unfoldable pub exact : String → Regex
exact [] = Regex.empty
exact (c ∷ s) = one (λ d. code d == code c) ▸ exact s

unfoldable pub company_pattern : Regex
unfolding exact one_of
company_pattern =
    boundary
    ▸ one_of (List.◌∷◌ (exact "at") (List.◌∷◌ (exact "from") List.[]))
    ▸ spaces
    ▸ group (
        one is_capital
        ▸ repeated
            (λ c. is_word c || code c == 32 || code c == b'&' || code c == b'.' || code c == b'-') 1
            (some 60))

starts_with : String → String → Bool
starts_with [] s = true
starts_with (c ∷ p) [] = false
starts_with (c ∷ p) (d ∷ s) = code c == code d && starts_with p s

-- `text.split(separator)[0]`
unfoldable pub before : String → String → String
unfolding starts_with
before separator [] = ""
before separator (c ∷ s) =
    let rest = c ∷ before separator s in if starts_with separator (c ∷ s) then "" else rest

-- `text.title()`; `inside` says that the character before was a letter.
title_from : Bool → String → String
title_from inside [] = ""
title_from inside (c ∷ s) = (if inside then lower c else upper c) ∷ title_from (is_letter c) s

-- `text.replace(".", " ")`
dots_to_spaces : String → String
dots_to_spaces [] = ""
dots_to_spaces (c ∷ s) = (if code c == b'.' then " " else c ∷ "") ⊕ dots_to_spaces s

abbrev text_or_blank : Option String → String
text_or_blank none = ""
text_or_blank (some s) = s

-- The name in the request, or that of the address.
unfoldable pub lead_name : String → String → String
unfolding lead_name_pattern strip_marks before title_from dots_to_spaces
lead_name text email =
    let name =
      strip (before " from " (strip_marks (text_or_blank (captured lead_name_pattern text)))) in
    if is_empty_text name && not (is_empty_text email)
    then title_from false (dots_to_spaces (before "@" email))
    else name

abbrev company_of : Option String → Json
company_of none = null
company_of (some held) = str (strip_marks held)

-- `_new_lead`
unfoldable pub new_lead : Builder
unfolding email_pattern company_pattern lead_name
new_lead now text results =
    let email = text_or_blank (captured email_pattern text) in
    some (
      field "full_name" (str (or_text (some (lead_name text email)) "Unknown Contact")) (
        field "email" (str (or_text (some email) "unknown@example.com")) (
          field "company" (company_of (captured company_pattern text))
            (field "source" (str "assistant") end))))

abbrev truthy_value : Option Json → Option Json
truthy_value none = none
truthy_value (some v) = if is_truthy v then some v else none

-- The value of a key if it counts as true, of the first of two names.
abbrev first_result : Fields → Json
first_result results =
    or_else (truthy_value (get "crm__get_leads" results))
      (or_else (truthy_value (get "crm__search_leads" results)) (obj end))

abbrev email_of : Json → List Json
email_of (obj lead) = elim (truthy_value (get "email" lead)) [
  | some email ↦ List.◌∷◌ email List.[]
  | none ↦ List.[]
]
email_of _ = List.[]

unfoldable pub emails_of : List Json → List Json
emails_of List.[] = List.[]
emails_of (List.◌∷◌ lead leads) = email_of lead ++ emails_of leads

-- The emails in `leads`: text and a dict have no dicts among their elements, and other values cannot
-- be iterated over.
abbrev emails_in : Json → Option (List Json)
emails_in (arr leads) = some (take 20 (emails_of (items leads)))
emails_in (str _) = some List.[]
emails_in (obj _) = some List.[]
emails_in _ = none

-- `_qualified_lead_emails`
unfoldable pub qualified_lead_emails : Fields → Option (List Json)
unfolding emails_of
qualified_lead_emails results = elim (first_result results) [
  | obj payload ↦ emails_in (or_else (get "leads" payload) (arr (of_list List.[])))
  | _ ↦ some List.[]
]

abbrev or_unknown : List Json → List Json
or_unknown List.[] = List.◌∷◌ (str "unknown@example.com") List.[]
or_unknown (List.◌∷◌ email emails) = List.◌∷◌ email emails

abbrev draft_to : List Json → Fields
draft_to recipients = field "to" (arr (of_list recipients)) (
    field "subject" (str "Following up on your interest") (
      field "body"
        (str (
          "Hi,\n\nThanks for your interest. I wanted to follow up and see whether you have "
          ⊕ "any questions we can help with.\n\nBest regards,\nThe Sales Team"))
        end))

-- `_draft_followup`
unfoldable pub draft_followup : Builder
unfolding qualified_lead_emails
draft_followup now text results = elim (qualified_lead_emails results) [
  | none ↦ none
  | some emails ↦ some (draft_to (or_unknown emails))
]

-- The draft again, if it has recipients
abbrev drafted : Fields → Option Fields
drafted draft = elim (truthy_value (get "to" draft)) [
  | none ↦ none
  | some recipients ↦ some (
      field "to" recipients (
        field "subject" (or_else (get "subject" draft) (str ""))
          (field "body" (or_else (get "body" draft) (str "")) end)))
]

abbrev drafted_in : Option Json → Option Fields
drafted_in (some (obj draft)) = drafted draft
drafted_in _ = none

-- `_send_followup`
unfoldable pub send_followup : Builder
unfolding draft_followup
send_followup now text results = elim (drafted_in (get "email__draft_email" results)) [
  | some arguments ↦ some arguments
  | none ↦ draft_followup now text results
]
