-- ===== src/Security/Policy/Summary.antt =====
-- The human-readable summaries of app/security/policy.py, and the recipients of an email.
use Prim.Native.Nat.{Ordering}
use Prim.Native.String
use mcp_business_assistant.Prelude.{
  ℕ, ◌-◌, String, Bool, true, false, Option, none, some, List, [], ◌∷◌, ◌++◌, map, length, take,
  ltb, str_eq, if◌then◌else◌,
}
use mcp_business_assistant.Prelude.Text.{◌⊕◌, str_ℕ, join, is_empty_text}
use mcp_business_assistant.Json.{
  Json, Fields, Items, str, arr, obj, get, keys, items, entries, is_truthy, repr, py_str, shown,
}
use mcp_business_assistant.Mcp.Types.{ToolSpec}

-- `arguments.get(key) or []`
abbrev or_empty : Option Json → Json
or_empty none = arr Items.nil
or_empty (some v) = if is_truthy v then v else arr Items.nil

-- The elements that `[*value]` unpacks. A text counts as one element, by the test before; `none`
-- is the `TypeError` of a value that cannot be iterated. A dict yields its keys.
unfoldable pub unpack : Json → Option (List Json)
unfolding items keys
unpack (str s) = some (str s ∷ [])
unpack (arr vs) = some (items vs)
unpack (obj fs) = some (map str (keys fs))
unpack _ = none

abbrev both : Option (List Json) → Option (List Json) → Option (List String)
both none _ = none
both (some to) none = none
both (some to) (some cc_list) = some (map py_str (to ++ cc_list))

-- `_recipient_list`
unfoldable pub recipient_list : Fields → Option (List String)
recipient_list arguments =
    both (unpack (or_empty (get "to" arguments))) (unpack (or_empty (get "cc" arguments)))

-- `arguments.get(key) or default`, rendered
abbrev shown_or : Option Json → String → String
shown_or none default = default
shown_or (some v) default = if is_truthy v then py_str v else default

-- `arguments.get(key, default)`, rendered
abbrev shown_get : Option Json → String → String
shown_get none default = default
shown_get (some v) default = py_str v

-- `len(value)`; `none` is a `TypeError`
unfoldable pub len : Json → Option ℕ
unfolding items keys
len (str s) = some (String.count s)
len (arr vs) = some (length (items vs))
len (obj fs) = some (length (keys fs))
len _ = none

-- `sorted(arguments.items())`: the keys are distinct, so the values are never compared.
abbrev before : String → String → Bool
before a b = elim (String.compare a b) [ Ordering.lt ↦ true | _ ↦ false ]

insert_entry : String × Json → List (String × Json) → List (String × Json)
insert_entry e [] = e ∷ []
insert_entry e (f ∷ es) = if before f.0 e.0 then f ∷ insert_entry e es else e ∷ f ∷ es

unfoldable pub sort_entries : List (String × Json) → List (String × Json)
unfolding insert_entry
sort_entries [] = []
sort_entries (e ∷ es) = insert_entry e (sort_entries es)

abbrev show_entry : String × Json → String
show_entry (k, v) = k ⊕ "=" ⊕ repr v

abbrev more_recipients : ℕ → String
more_recipients n = if ltb 5 n then " and " ⊕ str_ℕ (n - 5) ⊕ " more" else ""

-- Each of the summaries, for a tool.
unfoldable pub email_summary : Fields → Option String
email_summary arguments = elim (recipient_list arguments) [
  | none ↦ none
  | some recipients ↦ some (
      "Send an email with the subject '"
      ⊕ shown_get (get "subject" arguments) "(no subject)"
      ⊕ "' to "
      ⊕ str_ℕ (length recipients)
      ⊕ " recipient(s): "
      ⊕ join ", " (take 5 recipients)
      ⊕ more_recipients (length recipients)
      ⊕ ".")
]

unfoldable pub event_summary : Fields → Option String
event_summary arguments = elim (len (or_empty (get "attendees" arguments))) [
  | none ↦ none
  | some n ↦ some (
      "Book '"
      ⊕ shown_get (get "title" arguments) "an event"
      ⊕ "' from "
      ⊕ shown (get "starts_at" arguments)
      ⊕ " to "
      ⊕ shown (get "ends_at" arguments)
      ⊕ " with "
      ⊕ str_ℕ n
      ⊕ " attendee(s).")
]

unfoldable pub lead_summary : Fields → String
lead_summary arguments =
    "Create a CRM lead for "
    ⊕ shown (get "full_name" arguments)
    ⊕ " ("
    ⊕ shown (get "email" arguments)
    ⊕ ") at "
    ⊕ shown_or (get "company" arguments) "no company"
    ⊕ "."

unfoldable pub status_summary : Fields → String
status_summary arguments =
    "Change lead "
    ⊕ shown (get "lead_id" arguments)
    ⊕ " to status '"
    ⊕ shown (get "status" arguments)
    ⊕ "'."

unfoldable pub task_summary : Fields → String
task_summary arguments =
    "Create the task '"
    ⊕ shown (get "title" arguments)
    ⊕ "' due "
    ⊕ shown_or (get "due_at" arguments) "with no deadline"
    ⊕ "."

unfoldable pub sale_summary : Fields → String
sale_summary arguments =
    "Record a sale of "
    ⊕ shown (get "quantity" arguments)
    ⊕ " x "
    ⊕ shown (get "product" arguments)
    ⊕ " to "
    ⊕ shown (get "customer_name" arguments)
    ⊕ " at "
    ⊕ shown (get "unit_amount" arguments)
    ⊕ " each."

abbrev or_text : String → String → String
or_text s default = if is_empty_text s then default else s

unfoldable pub other_summary : String → Fields → String
other_summary name arguments =
    "Run "
    ⊕ name
    ⊕ " with "
    ⊕ or_text (join ", " (map show_entry (take 5 (sort_entries (entries arguments)))))
        "no arguments"
    ⊕ "."

-- `none` is a `TypeError`.
unfoldable pub summarise_action : ToolSpec → Fields → Option String
summarise_action spec arguments =
    let name = spec.qualified_name in
    if str_eq name "email__send_email"
    then email_summary arguments
    else if str_eq name "calendar__create_event"
    then event_summary arguments
    else if str_eq name "crm__create_lead"
    then some (lead_summary arguments)
    else if str_eq name "crm__update_lead_status"
    then some (status_summary arguments)
    else if str_eq name "tasks__create_task"
    then some (task_summary arguments)
    else if str_eq name "spreadsheets__add_sales_record"
    then some (sale_summary arguments)
    else some (other_summary name arguments)
