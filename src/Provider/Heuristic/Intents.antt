-- ===== src/Provider/Heuristic/Intents.antt =====
-- The intents of app/providers/llm/heuristic_provider.py: the patterns that a request is matched
-- with, and the tools that satisfy it, in their order.
use mcp_business_assistant.Prelude.{
  String, Bool, Option, none, some, List, [], ◌∷◌, any, if◌then◌else◌, ◌≡◌, refl, false,
}
use mcp_business_assistant.Prelude.Regex.{
  Regex, boundary, one, plain, found, ◌▸◌, one_of, optional, anything,
}
use mcp_business_assistant.Provider.Heuristic.Arguments.{
  Builder, no_args, lead_status_filter, search_query, sales_period, new_task, follow_up,
  dash_or_space, whole_word,
}
use mcp_business_assistant.Provider.Heuristic.Leads.{new_lead, draft_followup, send_followup}

pub record Intent : Type 0 where
  pub name : String
  pub patterns : List Regex
  pub steps : List (String × Builder)

-- `Intent.matches`
unfoldable pub matches : Intent → String → Bool
matches intent text = any (λ p. found p text) intent.patterns

-- `(a|b|…)` of texts
unfoldable words : List String → Regex
words [] = one (λ _. false)
words (w ∷ []) = plain w
words (w ∷ (v ∷ ws)) = Regex.either (plain w) (words (v ∷ ws))

-- `\b(…)\b` and `\b(…)`
abbrev whole : List String → Regex
whole ws = boundary ▸ words ws ▸ boundary

abbrev opens : List String → Regex
opens ws = boundary ▸ words ws

unfoldable pub intents : List Intent
unfolding words plain follow_up
intents =
    record {
      name = "email_followup";
      patterns =
          whole ("send" ∷ "email" ∷ []) ▸ anything ▸ opens ("lead" ∷ [])
          ∷ follow_up ▸ plain " email"
          ∷ whole_word "email" ▸ anything ▸ whole_word "qualified"
          ∷ [];
      steps =
          ("crm__get_leads", lead_status_filter)
          ∷ ("email__draft_email", draft_followup)
          ∷ ("email__send_email", send_followup)
          ∷ [];
    }
    ∷ record {
      name = "overdue_tasks";
      patterns =
          whole_word "overdue"
          ∷ whole_word "past due"
          ∷ whole_word "behind" ▸ anything ▸ opens ("task" ∷ [])
          ∷ [];
      steps = ("tasks__get_overdue_tasks", no_args) ∷ [];
    }
    ∷ record {
      name = "todays_meetings";
      patterns =
          boundary
            ▸ plain "today"
            ▸ optional (plain "'")
            ▸ optional (plain "s")
            ▸ boundary
            ▸ anything
            ▸ opens ("meeting" ∷ "schedule" ∷ "calendar" ∷ [])
          ∷ boundary
            ▸ plain "meeting"
            ▸ optional (plain "s")
            ▸ plain " "
            ▸ words ("today" ∷ "do i have" ∷ [])
          ∷ boundary ▸ plain "what" ▸ optional (plain "'") ▸ plain "s on my calendar" ▸ boundary
          ∷ [];
      steps = ("calendar__get_todays_meetings", no_args) ∷ [];
    }
    ∷ record {
      name = "weekly_report";
      patterns =
          whole_word "weekly report"
          ∷ whole_word "report" ▸ anything ▸ whole_word "week"
          ∷ boundary ▸ plain "this week" ▸ optional (plain "'") ▸ plain "s sales" ▸ boundary
          ∷ [];
      steps = ("spreadsheets__generate_weekly_report", no_args) ∷ [];
    }
    ∷ record {
      name = "sales_summary";
      patterns =
          whole_word "sales"
          ∷ whole_word "revenue"
          ∷ boundary ▸ plain "how much did we " ▸ words ("sell" ∷ "make" ∷ []) ▸ boundary
          ∷ [];
      steps = ("spreadsheets__get_sales_summary", sales_period) ∷ [];
    }
    ∷ record {
      name = "create_lead";
      patterns =
          whole ("add" ∷ "create" ∷ []) ▸ anything ▸ whole_word "lead" ∷ whole_word "new lead" ∷ [];
      steps = ("crm__create_lead", new_lead) ∷ [];
    }
    ∷ record {
      name = "create_task";
      patterns =
          whole ("create" ∷ "add" ∷ "make" ∷ [])
            ▸ anything
            ▸ boundary
            ▸ one_of (plain "task" ∷ plain "reminder" ∷ follow_up ∷ [])
            ▸ boundary
          ∷ [];
      steps = ("tasks__create_task", new_task) ∷ [];
    }
    ∷ record {
      name = "search_leads";
      patterns =
          whole ("find" ∷ "search" ∷ "look up" ∷ [])
            ▸ anything
            ▸ whole ("lead" ∷ "contact" ∷ "customer" ∷ [])
          ∷ [];
      steps = ("crm__search_leads", search_query) ∷ [];
    }
    ∷ record {
      name = "list_leads";
      patterns =
          opens ("lead" ∷ [])
          ∷ whole_word "pipeline"
          ∷ boundary ▸ plain "prospect" ▸ optional (plain "s") ▸ boundary
          ∷ [];
      steps = ("crm__get_leads", lead_status_filter) ∷ [];
    }
    ∷ record {
      name = "list_tasks";
      patterns =
          boundary ▸ plain "task" ▸ optional (plain "s") ▸ boundary
          ∷ boundary ▸ plain "to" ▸ optional dash_or_space ▸ plain "do" ▸ boundary
          ∷ [];
      steps = ("tasks__get_tasks", no_args) ∷ [];
    }
    ∷ []

-- `next(candidate for candidate in INTENTS if …)`
unfoldable pub first_match : String → List Intent → Option Intent
unfolding matches
first_match text [] = none
first_match text (intent ∷ rest) =
    let later = first_match text rest in if matches intent text then some intent else later

abbrev name_of : Option Intent → String
name_of none = ""
name_of (some intent) = intent.name

followup_test :
    name_of (first_match "Send a follow-up email to qualified leads" intents) ≡ "email_followup"
unfolding first_match intents found plain one_of
followup_test = refl

report_test : name_of (first_match "How did this week's sales go?" intents) ≡ "weekly_report"
unfolding first_match intents found plain one_of
report_test = refl

search_test : name_of (first_match "find the contact of Acme" intents) ≡ "search_leads"
unfolding first_match intents found plain one_of
search_test = refl

other_test : name_of (first_match "good morning" intents) ≡ ""
unfolding first_match intents found plain one_of
other_test = refl
