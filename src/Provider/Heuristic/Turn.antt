-- ===== src/Provider/Heuristic/Turn.antt =====
-- The results of a turn when one more of them arrives.
use mcp_business_assistant.Prelude.{
  ℕ, ◌+◌, ◌≤◌, ◌<◌, String, ◌≡◌, refl, ap, inl, inr, true, false, not, ◌||◌, Option, none, some,
  List, [], ◌∷◌, ◌++◌, any, arith, str_eq, Bool-cases, if◌then◌else◌, eq_iff,
}
use mcp_business_assistant.Prelude.Text.{is_empty_text}
use mcp_business_assistant.Json.{Json, Fields, field, end, has_key}
use mcp_business_assistant.Conversation.Messages.{
  LlmMessage, LlmToolCall, assistant_message, tool_message,
}
use mcp_business_assistant.Provider.Heuristic.Arguments.{Builder}
use mcp_business_assistant.Provider.Heuristic.{
  latest_user_text, latest_user_text_from, current_turn, put, collect_from, collect_tool_results,
  next_step, named_result, result_of, is_user,
}

-- The messages that a call and its result add.
abbrev pub answered : LlmToolCall → String → List LlmMessage
answered call content =
    assistant_message none (call ∷ []) ∷ tool_message call.id call.name content ∷ []

latest_from-answered :
    (latest : String) (ms : List LlmMessage) (call : LlmToolCall) (content : String)
    → latest_user_text_from latest (ms ++ answered call content) ≡ latest_user_text_from latest ms
unfolding latest_user_text_from
latest_from-answered latest [] call content = refl
latest_from-answered latest (m ∷ ms) call content = latest_from-answered _ ms call content

pub latest_user_text-answered :
    (ms : List LlmMessage) (call : LlmToolCall) (content : String)
    → latest_user_text (ms ++ answered call content) ≡ latest_user_text ms
unfolding latest_user_text
latest_user_text-answered ms call content = latest_from-answered "" ms call content

any_user-answered :
    (ms : List LlmMessage) (call : LlmToolCall) (content : String)
    → any (λ (n : LlmMessage). is_user n.role) (ms ++ answered call content)
      ≡ any (λ (n : LlmMessage). is_user n.role) ms
any_user-answered [] call content = refl
any_user-answered (m ∷ ms) call content =
    ap (λ b. is_user m.role || b) (any_user-answered ms call content)

current_turn-answered :
    (ms : List LlmMessage) (call : LlmToolCall) (content : String)
    → current_turn (ms ++ answered call content) ≡ current_turn ms ++ answered call content
unfolding current_turn
current_turn-answered [] call content = refl
current_turn-answered (m ∷ ms) call content =
    elim (Bool-cases (any (λ (n : LlmMessage). is_user n.role) ms)) [
      | inl more ↦
          rw (current_turn, any_user-answered ms call content, more)
            (current_turn-answered ms call content)
      | inr last ↦ rw (current_turn, any_user-answered ms call content, last) refl
    ]

collect_from-append :
    (parse : String → Option Json) (ms ns : List LlmMessage) (results : Fields)
    → collect_from parse results (ms ++ ns) ≡ collect_from parse (collect_from parse results ms) ns
unfolding collect_from
collect_from-append parse [] ns results = refl
collect_from-append parse (m ∷ ms) ns results =
    collect_from-append parse ms ns (named_result parse m m.name results)

-- The result of a call is put under the name of its tool.
pub collect_tool_results-answered :
    (parse : String → Option Json) (ms : List LlmMessage) (call : LlmToolCall) (content : String)
    → is_empty_text call.name ≡ false
    → collect_tool_results parse (ms ++ answered call content)
      ≡ put call.name (result_of parse (some content)) (collect_tool_results parse ms)
unfolding collect_tool_results collect_from
collect_tool_results-answered parse ms call content named =
    rw
      (
        collect_tool_results,
        current_turn-answered ms call content,
        collect_from-append parse (current_turn ms) (answered call content) end,
        named,
      )
      refl

pub has_key-put :
    (k j : String) (v : Json) (fs : Fields)
    → has_key j (put k v fs) ≡ (if str_eq k j then true else has_key j fs)
unfolding has_key put
has_key-put k j v end = refl
has_key-put k j v (field i w fs) =
    ground (arith, eq_iff k j, eq_iff i k, eq_iff i j, has_key-put k j v fs)

-- The steps that have no result yet and whose tools are offered.
unfoldable pub steps_left : List String → Fields → List (String × Builder) → ℕ
steps_left available gathered [] = 0
steps_left available gathered ((tool, _) ∷ steps) =
    (if has_key tool gathered || not (any (str_eq tool) available) then 0 else 1)
    + steps_left available gathered steps

-- One more result leaves no more steps.
steps_left-put :
    (available : List String) (gathered : Fields) (k : String) (v : Json)
    (steps : List (String × Builder))
    → steps_left available (put k v gathered) steps ≤ steps_left available gathered steps
unfolding steps_left
steps_left-put available gathered k v [] = omega arith
steps_left-put available gathered k v ((tool, build) ∷ steps) =
    let rest = steps_left-put available gathered k v steps in
    ground (arith, has_key-put k tool v gathered, rest)

pub same_tool :
    (k j : String) (a b : Builder)
    → ◌≡◌ {A = Option (String × Builder)} (some (k, a)) (some (j, b))
    → k ≡ j
same_tool k j a b h = cc (h)

-- The result of the step that was chosen leaves fewer.
pub next_step-fewer :
    (available : List String) (gathered : Fields) (k : String) (build : Builder) (v : Json)
    (steps : List (String × Builder))
    → next_step available gathered steps ≡ some (k, build)
    → steps_left available (put k v gathered) steps < steps_left available gathered steps
unfolding steps_left next_step
next_step-fewer available gathered k build v [] h = absurd (cc (h))
next_step-fewer available gathered k build v ((tool, b) ∷ steps) h =
    let rest = steps_left-put available gathered k v steps in
    let here = has_key-put k tool v gathered in
    elim (Bool-cases (has_key tool gathered || not (any (str_eq tool) available))) [
      | inl skipped ↦
          let later = next_step-fewer available gathered k build v steps (cc (rw skipped at h)) in
          ground (arith, later, here, skipped)
      | inr taken ↦
          let same = same_tool tool k b build (rw taken at h) in
          ground (arith, eq_iff k tool, here, rest, taken, same)
    ]
