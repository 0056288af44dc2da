-- ===== src/Provider/Heuristic.antt =====
-- app/providers/llm/heuristic_provider.py: the rule-based stand-in for a language model. `parse` is
-- `json.loads`, with `none` for text that is not JSON; `now` is the reading of the clock.
pub mod Arguments
pub mod Leads
pub mod Intents
pub mod Summary
pub mod Turn
pub mod Planning
use Prim.Native.Char.{code}
use Prim.Native.String
use Prim.Native.String.{String, [], ◌∷◌}
use mcp_business_assistant.Prelude.{
  ℕ, ◌-◌, ◌/◌, ◌%◌, ◌+◌, Bool, true, false, not, ◌&&◌, ◌||◌, Option, none, some, List, map, take,
  length, any, keep, is_empty, ltb, ◌==◌, str_eq, if◌then◌else◌,
}
use mcp_business_assistant.Prelude.Text.{
  ◌⊕◌, is_empty_text, or_text, prefix, strip, str_ℕ, join, sort_texts,
}
use mcp_business_assistant.Prelude.Int.{pos}
use mcp_business_assistant.Enums.{is_read}
use mcp_business_assistant.Errors.{Result, ok, crash}
use mcp_business_assistant.Json.{
  Json, Fields, Items, null, str, int, arr, obj, nil, cons, field, end, get, has_key, keys, is_null,
  is_truthy, py_str, shown,
}
use mcp_business_assistant.Mcp.Types.{ToolSpec}
use mcp_business_assistant.Conversation.Messages.{LlmRole, LlmMessage, LlmToolCall, LlmResponse}
use mcp_business_assistant.Provider.Heuristic.Arguments.{Builder}
use mcp_business_assistant.Provider.Heuristic.Intents.{Intent, intents, first_match}
use mcp_business_assistant.Provider.Heuristic.Summary.{summarise}

abbrev pub is_user : LlmRole → Bool
is_user LlmRole.user = true
is_user _ = false

abbrev is_tool : LlmRole → Bool
is_tool LlmRole.tool = true
is_tool _ = false

abbrev has_content : Option String → Bool
has_content none = false
has_content (some s) = not (is_empty_text s)

-- The user messages with a text, and the text of the last of them before `latest`.
unfoldable pub latest_user_text_from : String → List LlmMessage → String
latest_user_text_from latest List.[] = latest
latest_user_text_from latest (List.◌∷◌ m ms) =
    latest_user_text_from
      (if is_user m.role && has_content m.content then or_text m.content "" else latest) ms

-- `_latest_user_text`
unfoldable pub latest_user_text : List LlmMessage → String
unfolding latest_user_text_from
latest_user_text messages = latest_user_text_from "" messages

-- `_current_turn`: what stands from the last user message on; `turn` is what stands from the last
-- one so far on.
unfoldable pub current_turn : List LlmMessage → List LlmMessage
current_turn List.[] = List.[]
current_turn (List.◌∷◌ m ms) =
    let rest = current_turn ms in
    if any (λ (n : LlmMessage). is_user n.role) ms then rest else List.◌∷◌ m ms

-- `results[name] = value`
unfoldable pub put : String → Json → Fields → Fields
put k v end = field k v end
put k v (field j w fs) =
    let rest = field j w (put k v fs) in if str_eq j k then field j v fs else rest

abbrev parsed : (String → Option Json) → String → Json
parsed parse content = elim (parse content) [ some value ↦ value | none ↦ str content ]

-- `json.loads(content or "null")`, and the text itself where it is not JSON
abbrev pub result_of : (String → Option Json) → Option String → Json
result_of parse none = null
result_of parse (some content) = if is_empty_text content then null else parsed parse content

abbrev pub named_result : (String → Option Json) → LlmMessage → Option String → Fields → Fields
named_result parse m none results = results
named_result parse m (some name) results =
    if is_tool m.role && not (is_empty_text name)
    then put name (result_of parse m.content) results
    else results

unfoldable pub collect_from : (String → Option Json) → Fields → List LlmMessage → Fields
unfolding put
collect_from parse results List.[] = results
collect_from parse results (List.◌∷◌ m ms) =
    collect_from parse (named_result parse m m.name results) ms

-- `_collect_tool_results`
unfoldable pub collect_tool_results : (String → Option Json) → List LlmMessage → Fields
unfolding collect_from current_turn
collect_tool_results parse messages = collect_from parse end (current_turn messages)

-- `_drop_nulls`
unfoldable pub drop_nulls : Fields → Fields
drop_nulls end = end
drop_nulls (field k v fs) = let rest = drop_nulls fs in if is_null v then rest else field k v rest

-- The first step that has no result yet and whose tool is offered.
unfoldable pub next_step :
    List String → Fields → List (String × Builder) → Option (String × Builder)
next_step available gathered List.[] = none
next_step available gathered (List.◌∷◌ (tool, build) steps) =
    let rest = next_step available gathered steps in
    if has_key tool gathered || not (any (str_eq tool) available) then rest else some (tool, build)

abbrev pub chosen_step : List String → Fields → Option Intent → Option (String × Builder)
chosen_step available gathered none = none
chosen_step available gathered (some intent) = next_step available gathered intent.steps

-- A response with one call.
abbrev pub propose : Fields → String → Option Fields → Result LlmResponse
propose gathered tool none = crash
propose gathered tool (some arguments) = ok (record {
  content = none;
  tool_calls =
      List.◌∷◌
        (record {
          id = "heuristic_" ⊕ str_ℕ (length (keys gathered)) ⊕ "_" ⊕ tool;
          name = tool;
          arguments = drop_nulls arguments;
        })
        List.[];
})

abbrev pub answer : Option String → Result LlmResponse
answer none = crash
answer (some text) = ok (record { content = some text; tool_calls = List.[] })

abbrev pub tools_of : Option (List ToolSpec) → List ToolSpec
tools_of none = List.[]
tools_of (some tools) = tools

abbrev pub offered : Option (List ToolSpec) → List String
offered tools = map (λ (s : ToolSpec). s.qualified_name) (tools_of tools)

-- The step of a request in a turn.
unfoldable pub step_of :
    (String → Option Json) → List LlmMessage → Option (List ToolSpec) → Option (String × Builder)
unfolding next_step first_match
step_of parse messages tools =
    chosen_step (offered tools) (collect_tool_results parse messages)
      (first_match (latest_user_text messages) intents)

abbrev pub respond_to :
    ℕ → String → Fields → List ToolSpec → Option (String × Builder) → Result LlmResponse
respond_to now request gathered tools (some (tool, build)) =
    propose gathered tool (build now request gathered)
respond_to now request gathered tools none = answer (summarise request gathered tools)

-- `HeuristicLLMProvider.complete`
unfoldable pub complete :
    (String → Option Json) → ℕ → List LlmMessage → Option (List ToolSpec) → Result LlmResponse
unfolding step_of latest_user_text collect_tool_results drop_nulls summarise
complete parse now messages tools =
    respond_to now (latest_user_text messages) (collect_tool_results parse messages)
      (tools_of tools) (step_of parse messages tools)
