-- ===== src/Provider/Heuristic/Arguments.antt =====
-- The argument builders of app/providers/llm/heuristic_provider.py. A builder takes the reading of
-- the clock, the text of the request and the results of the turn; `none` is a TypeError.
use Prim.Native.Char.{Char, code}
use Prim.Native.String.{String, [], ◌∷◌}
use mcp_business_assistant.Prelude.{
  ℕ, ◌-◌, ◌+◌, ◌*◌, Bool, ◌&&◌, ◌||◌, Option, none, some, List, ◌==◌, if◌then◌else◌,
}
use mcp_business_assistant.Prelude.Text.{is_empty_text, is_space, prefix, strip}
use mcp_business_assistant.Prelude.Time.{iso_date, iso_format, date_of_day, day_of, weekday}
use mcp_business_assistant.Prelude.Regex.{
  Regex, boundary, one, repeated, group, found, captured, plain, ◌▸◌, one_of, optional, any_text,
  is_word,
}
use mcp_business_assistant.Prelude.Int.{pos}
use mcp_business_assistant.Json.{Fields, str, int, field, end}

abbrev pub Builder : Type 0
Builder = ℕ → String → Fields → Option Fields

-- `_no_args`
abbrev pub no_args : Builder
no_args now text results = some end

abbrev pub whole_word : String → Regex
whole_word word = boundary ▸ plain word ▸ boundary

-- A list of words, and the first of them that the text has as a word.
unfoldable pub first_word : List String → String → Option String
unfolding plain
first_word List.[] text = none
first_word (List.◌∷◌ word words) text =
    let rest = first_word words text in if found (whole_word word) text then some word else rest

abbrev limit_25 : Fields
limit_25 = field "limit" (int (pos 25)) end

abbrev lead_statuses : List String
lead_statuses = List.◌∷◌ "qualified" (
    List.◌∷◌ "contacted"
      (List.◌∷◌ "unqualified" (List.◌∷◌ "won" (List.◌∷◌ "lost" (List.◌∷◌ "new" List.[])))))

-- `_lead_status_filter`
unfoldable pub lead_status_filter : Builder
lead_status_filter now text results = elim (first_word lead_statuses text) [
  | some status ↦ some (field "status" (str status) limit_25)
  | none ↦ some limit_25
]

abbrev is_mark : Char → Bool
is_mark c = code c == 32 || code c == b'.'

strip_marks_left : String → String
strip_marks_left [] = ""
strip_marks_left (c ∷ s) = let rest = strip_marks_left s in if is_mark c then rest else c ∷ s

strip_marks_right : String → String
strip_marks_right [] = ""
strip_marks_right (c ∷ s) =
    let rest = strip_marks_right s in if is_mark c && is_empty_text rest then "" else c ∷ rest

-- `s.strip(" .")`
unfoldable pub strip_marks : String → String
unfolding strip_marks_left strip_marks_right
strip_marks s = strip_marks_right (strip_marks_left s)

-- `\s+` and `\s*`
abbrev pub spaces : Regex
spaces = repeated is_space 1 none

abbrev maybe_spaces : Regex
maybe_spaces = repeated is_space 0 none

-- `[\w .'-]`
abbrev pub is_name_char : Char → Bool
is_name_char c = is_word c || code c == 32 || code c == b'.' || code c == b'\'' || code c == b'-'

unfoldable pub query_pattern : Regex
unfolding plain one_of
query_pattern =
    one_of (
      List.◌∷◌ (plain "about")
        (List.◌∷◌ (plain "for") (List.◌∷◌ (plain "named") (List.◌∷◌ (plain "called") List.[]))))
    ▸ spaces
    ▸ group (repeated is_name_char 2 (some 60))

-- `_search_query`
unfoldable pub search_query : Builder
unfolding query_pattern strip_marks
search_query now text results = elim (captured query_pattern text) [
  | some held ↦ some (field "query" (str (strip_marks held)) limit_25)
  | none ↦ some (field "query" (str (prefix 60 (strip text))) limit_25)
]

-- The first day of the period that the text asks for.
unfoldable pub period_start : ℕ → String → String
unfolding plain
period_start now text =
    let today = day_of now in
    if found (whole_word "this week") text || found (whole_word "weekly") text
    then iso_date (date_of_day (today - weekday today))
    else if found (whole_word "this month") text || found (whole_word "monthly") text
    then iso_date (record (date_of_day today) { day = 1 })
    else iso_date (date_of_day (today - 29))

-- `_sales_period`
unfoldable pub sales_period : Builder
sales_period now text results = some (
    field "start_date" (str (period_start now text))
      (field "end_date" (str (iso_date (date_of_day (day_of now)))) end))

abbrev pub dash_or_space : Regex
dash_or_space = one (λ c. code c == b'-' || code c == 32)

-- `follow[- ]?up`
unfoldable pub follow_up : Regex
unfolding plain
follow_up = plain "follow" ▸ optional dash_or_space ▸ plain "up"

unfoldable pub task_pattern : Regex
unfolding plain one_of follow_up
task_pattern =
    one_of (List.◌∷◌ (plain "task") (List.◌∷◌ (plain "reminder") (List.◌∷◌ follow_up List.[])))
    ▸ maybe_spaces
    ▸ optional (
        one_of (
          List.◌∷◌ (plain "to")
            (List.◌∷◌ (plain "for") (List.◌∷◌ (plain "about") (List.◌∷◌ (plain ":") List.[])))))
    ▸ maybe_spaces
    ▸ group (any_text 3 200)

abbrev day_length : ℕ
day_length = 86400000000

-- `_new_task`
unfoldable pub new_task : Builder
unfolding task_pattern strip_marks plain
new_task now text results =
    let title = elim (captured task_pattern text) as (λ _. String) [
      | some held ↦ strip_marks held
      | none ↦ "Follow-up task"
    ] in
    some (
      field "title" (str (prefix 200 title)) (
        field "due_at" (str (iso_format (now + 3 * day_length))) (
          field "priority"
            (str (
              if found (whole_word "urgent") text || found (whole_word "asap") text
              then "high"
              else "medium"))
            end)))
