-- ===== src/Provider/Heuristic/Summary.antt =====
-- The answers of app/providers/llm/heuristic_provider.py, made of the results of the turn. `none` is
-- the exception that Python raises on a value of another type.
use mcp_business_assistant.Prelude.{
  ℕ, ◌-◌, String, ◌||◌, Option, none, some, List, [], ◌∷◌, map, take, keep, length, ltb, str_eq,
  if◌then◌else◌,
}
use mcp_business_assistant.Prelude.Text.{◌⊕◌, is_empty_text, join, str_ℕ, sort_texts, text_length}
use mcp_business_assistant.Enums.{is_read}
use mcp_business_assistant.Json.{
  Json, Fields, str, arr, obj, field, end, get, keys, items, is_truthy, py_str, shown,
}
use mcp_business_assistant.Mcp.Types.{ToolSpec}

-- `f"{value or text}"`
abbrev shown_or : Option Json → String → String
shown_or none text = text
shown_or (some v) text = if is_truthy v then py_str v else text

-- `f"{payload.get(key, default)}"`
abbrev shown_default : Option Json → String → String
shown_default none text = text
shown_default (some v) text = py_str v

abbrev dict_of : Json → Option Fields
dict_of (obj fs) = some fs
dict_of _ = none

-- One text for each dict of a list; another value has no `get`.
unfoldable pub each_dict : (Fields → String) → List Json → Option (List String)
each_dict describe [] = some []
each_dict describe (v ∷ vs) =
    let rest = each_dict describe vs in
    elim (dict_of v) [
      | none ↦ none
      | some fs ↦ elim rest [ none ↦ none | some texts ↦ some (describe fs ∷ texts) ]
    ]

-- The elements under a key: `absent` where the value counts as false.
pub data Listed : Type 0 where
  absent broken : Listed
  listed : List Json → Listed

abbrev elements : Json → Listed
elements (arr vs) = listed (items vs)
elements _ = broken

abbrev listing : Option Json → Listed
listing none = absent
listing (some v) = if is_truthy v then elements v else absent

abbrev with_preview : Option (List String) → (String → String) → Option String
with_preview none describe = none
with_preview (some texts) describe = some (describe (join "; " texts))

-- A sentence on the elements under a key, with a preview of the first five.
unfoldable pub describe_list :
    Listed → String → (Fields → String) → (List Json → String → String) → Option String
unfolding each_dict
describe_list absent nothing describe sentence = some nothing
describe_list broken nothing describe sentence = none
describe_list (listed vs) nothing describe sentence =
    with_preview (each_dict describe (take 5 vs)) (sentence vs)

abbrev lead_line : Fields → String
lead_line lead =
    shown (get "full_name" lead)
    ⊕ " ("
    ⊕ shown_or (get "company" lead) "no company"
    ⊕ ") - "
    ⊕ shown (get "status" lead)

abbrev leads_sentence : Fields → List Json → String → String
leads_sentence payload leads preview =
    "Found "
    ⊕ shown_default (get "count" payload) (str_ℕ (length leads))
    ⊕ " lead(s): "
    ⊕ preview
    ⊕ (if ltb 5 (length leads) then " and " ⊕ str_ℕ (length leads - 5) ⊕ " more" else "")
    ⊕ "."

abbrev task_line : Fields → String
task_line task = shown (get "title" task) ⊕ " (due " ⊕ shown_or (get "due_at" task) "no date" ⊕ ")"

abbrev tasks_sentence : Fields → List Json → String → String
tasks_sentence payload tasks preview =
    "Found "
    ⊕ shown_default (get "count" payload) (str_ℕ (length tasks))
    ⊕ " task(s), "
    ⊕ shown_default (get "overdue_count" payload) "0"
    ⊕ " overdue: "
    ⊕ preview
    ⊕ "."

abbrev event_line : Fields → String
event_line event = shown (get "title" event) ⊕ " at " ⊕ shown (get "starts_at" event)

abbrev events_sentence : Fields → List Json → String → String
events_sentence payload events preview =
    "You have "
    ⊕ shown_default (get "count" payload) (str_ℕ (length events))
    ⊕ " meeting(s) today: "
    ⊕ preview
    ⊕ "."

-- `len(value)` of a value under a key
abbrev size_of : Option Json → Option ℕ
size_of none = some 0
size_of (some (arr vs)) = some (length (items vs))
size_of (some (obj fs)) = some (length (keys fs))
size_of (some (str s)) = some (text_length s)
size_of (some _) = none

abbrev sent_sentence : Fields → Option ℕ → Option String
sent_sentence payload none = none
sent_sentence payload (some n) = some (
    "Email sent to "
    ⊕ str_ℕ n
    ⊕ " recipient(s) via the "
    ⊕ shown (get "provider" payload)
    ⊕ " provider.")

abbrev sales_sentence : Fields → String
sales_sentence payload =
    "Between "
    ⊕ shown (get "period_start" payload)
    ⊕ " and "
    ⊕ shown (get "period_end" payload)
    ⊕ " there were "
    ⊕ shown (get "record_count" payload)
    ⊕ " sales totalling "
    ⊕ shown (get "total_revenue" payload)
    ⊕ " "
    ⊕ shown (get "currency" payload)
    ⊕ ", averaging "
    ⊕ shown (get "average_order_value" payload)
    ⊕ " per order."

-- The part of `_describe_result` for a dict.
unfoldable pub describe_payload : String → Fields → Option String
unfolding describe_list
describe_payload tool payload =
    if str_eq tool "crm__get_leads" || str_eq tool "crm__search_leads"
    then describe_list (listing (get "leads" payload)) "I did not find any leads matching that."
        lead_line (leads_sentence payload)
    else if str_eq tool "crm__create_lead"
    then some (
        "Added "
        ⊕ shown (get "full_name" payload)
        ⊕ " ("
        ⊕ shown (get "email" payload)
        ⊕ ") to the CRM as a '"
        ⊕ shown (get "status" payload)
        ⊕ "' lead.")
    else if str_eq tool "tasks__get_tasks" || str_eq tool "tasks__get_overdue_tasks"
    then describe_list (listing (get "tasks" payload))
        "There are no matching tasks -- nothing is outstanding." task_line (tasks_sentence payload)
    else if str_eq tool "tasks__create_task"
    then some (
        "Created the task '"
        ⊕ shown (get "title" payload)
        ⊕ "', due "
        ⊕ shown_or (get "due_at" payload) "with no deadline"
        ⊕ ".")
    else if str_eq tool "spreadsheets__get_sales_summary"
    then some (sales_sentence payload)
    else if str_eq tool "spreadsheets__generate_weekly_report"
    then some (
        "Weekly report for "
        ⊕ shown (get "week_start" payload)
        ⊕ " to "
        ⊕ shown (get "week_end" payload)
        ⊕ ": "
        ⊕ shown (get "headline" payload))
    else if str_eq tool "calendar__get_todays_meetings"
    then describe_list (listing (get "events" payload)) "You have no meetings scheduled today."
        event_line (events_sentence payload)
    else if str_eq tool "email__draft_email"
    then some (
        "Drafted an email to "
        ⊕ shown (get "recipient_count" payload)
        ⊕ " recipient(s) with the subject '"
        ⊕ shown (get "subject" payload)
        ⊕ "'.")
    else if str_eq tool "email__send_email"
    then sent_sentence payload (size_of (get "to" payload))
    else some (tool ⊕ " completed.")

-- `_describe_result`
unfoldable pub describe_result : String → Json → Option String
unfolding describe_payload
describe_result tool (obj payload) = describe_payload tool payload
describe_result tool payload = some (tool ⊕ ": " ⊕ py_str payload)

abbrev with_line : Option String → Option (List String) → Option (List String)
with_line none rest = none
with_line (some line) none = none
with_line (some line) (some lines) = if is_empty_text line then some lines else some (line ∷ lines)

-- The lines on the results, without the blank ones.
unfoldable pub result_lines : Fields → Option (List String)
unfolding describe_result
result_lines end = some []
result_lines (field tool payload results) =
    let rest = result_lines results in with_line (describe_result tool payload) rest

abbrev read_only_names : List ToolSpec → List String
read_only_names tools =
    sort_texts (
      map (λ (s : ToolSpec). s.qualified_name)
        (keep (λ (s : ToolSpec). is_read s.permission) tools))

abbrev or_none_discovered : String → String
or_none_discovered names = if is_empty_text names then "none discovered" else names

abbrev joined_lines : Option (List String) → Option String
joined_lines none = none
joined_lines (some lines) = some (join "\n" lines)

-- `_summarise`
unfoldable pub summarise : String → Fields → List ToolSpec → Option String
unfolding result_lines
summarise request end tools =
    if is_empty_text request
    then some "How can I help with your leads, tasks, calendar or sales data?"
    else some (
        "I could not match that request to one of my tools. I can look up leads, "
        ⊕ "search the CRM, list or complete tasks, show overdue work, report on sales, "
        ⊕ "check your calendar, and draft or send email.\n\nAvailable read-only tools: "
        ⊕ or_none_discovered (join ", " (read_only_names tools))
        ⊕ ".")
summarise request (field tool payload results) tools =
    joined_lines (result_lines (field tool payload results))
