-- ===== src/Provider/Heuristic/Planning.antt =====
-- What the rule-based provider promises as a language model: it calls offered tools only, each at
-- most once in a turn.
use mathlib.Core.Path.{subst}
use mcp_business_assistant.Prelude.{
  ℕ, ◌≤◌, ◌<◌, String, ◌≡◌, refl, ◌∙◌, sym, ap, inl, inr, ◌⊎◌, true, false, not, ◌||◌, Option, none,
  some, List, [], ◌∷◌, ◌++◌, length, All, any, arith, str_eq, Bool-cases, Option-cases,
}
use mcp_business_assistant.Prelude.Text.{is_empty_text}
use mcp_business_assistant.Errors.{ok}
use mcp_business_assistant.Json.{Json, Fields, has_key}
use mcp_business_assistant.Mcp.Types.{ToolSpec}
use mcp_business_assistant.Conversation.Messages.{LlmMessage, LlmToolCall, LlmResponse}
use mcp_business_assistant.Provider.Heuristic.Arguments.{Builder}
use mcp_business_assistant.Provider.Heuristic.Intents.{Intent, matches, intents, first_match}
use mcp_business_assistant.Provider.Heuristic.{
  latest_user_text, collect_tool_results, next_step, step_of, offered, propose, answer, result_of,
  complete,
}
use mcp_business_assistant.Provider.Heuristic.Turn.{
  answered, latest_user_text-answered, collect_tool_results-answered, steps_left, same_tool,
  next_step-fewer,
}

abbrev steps_of : Option Intent → List (String × Builder)
steps_of none = []
steps_of (some intent) = intent.steps

-- The steps of the request that are left in the turn.
unfoldable pub turn_left : (String → Option Json) → List LlmMessage → Option (List ToolSpec) → ℕ
turn_left parse messages tools =
    steps_left (offered tools) (collect_tool_results parse messages)
      (steps_of (first_match (latest_user_text messages) intents))

-- The steps of an intent have names, and there are three at most.
abbrev IsShort : Intent → Type 0
IsShort intent =
    All (λ (s : String × Builder). is_empty_text s.0 ≡ false) intent.steps
    × (length intent.steps ≤ 3)

intents-IsShort : All IsShort intents
unfolding intents
intents-IsShort =
    let one : (is_empty_text "a" ≡ false) × Unit {0} = (refl, tt) in
    let few : 1 ≤ 3 = omega arith in
    let single : (is_empty_text "a" ≡ false × Unit {0}) × (1 ≤ 3) = (one, few) in
    (
      ((refl, (refl, (refl, tt))), omega arith),
      (single, (single, (single, (single, (single, (single, (single, (single, (single, tt))))))))),
    )

steps_left_bound :
    (available : List String) (gathered : Fields) (steps : List (String × Builder))
    → steps_left available gathered steps ≤ length steps
unfolding steps_left
steps_left_bound available gathered [] = omega arith
steps_left_bound available gathered ((tool, b) ∷ steps) =
    let rest = steps_left_bound available gathered steps in ground (arith, rest)

first_match-All :
    (P : Intent → Type 0) (text : String) (is : List Intent) (i : Intent)
    → All P is
    → first_match text is ≡ some i
    → P i
unfolding first_match
first_match-All P text [] i ps h = absurd (cc (h))
first_match-All P text (j ∷ is) i (p, ps) h = elim (Bool-cases (matches j text)) [
  | inl hit ↦
      let first : some j ≡ some i = rw hit at h in let same : j ≡ i = cc (first) in subst P same p
  | inr miss ↦ first_match-All P text is i ps (rw miss at h)
]

-- What is known of the step that is chosen.
next_step_sound :
    (P : String → Type 0) (available : List String) (gathered : Fields) (k : String)
    (build : Builder) (steps : List (String × Builder))
    → All (λ (s : String × Builder). P s.0) steps
    → next_step available gathered steps ≡ some (k, build)
    → (any (str_eq k) available ≡ true) × (has_key k gathered ≡ false) × P k
unfolding next_step
next_step_sound P available gathered k build [] ps h = absurd (cc (h))
next_step_sound P available gathered k build ((tool, b) ∷ steps) (p, ps) h =
    elim (Bool-cases (has_key tool gathered || not (any (str_eq tool) available))) [
      | inl skipped ↦ next_step_sound P available gathered k build steps ps (cc (rw skipped at h))
      | inr taken ↦
          let same = same_tool tool k b build (rw taken at h) in
          let both : (any (str_eq tool) available ≡ true) × (has_key tool gathered ≡ false) =
            ground (arith, taken) in
          subst (λ t. (any (str_eq t) available ≡ true) × (has_key t gathered ≡ false) × P t) same
            (both.0, both.1, p)
    ]

-- What is known of the step of a request.
record IsChosen (parse : String → Option Json) (messages : List LlmMessage)
    (tools : Option (List ToolSpec)) (k : String) (build : Builder) : Type 0 where
  offers : any (str_eq k) (offered tools) ≡ true
  unanswered : has_key k (collect_tool_results parse messages) ≡ false
  named : is_empty_text k ≡ false
  intent : Intent
  matched : first_match (latest_user_text messages) intents ≡ some intent
  step :
      next_step (offered tools) (collect_tool_results parse messages) intent.steps ≡ some (k, build)
  short : length intent.steps ≤ 3

chosen :
    (parse : String → Option Json) (messages : List LlmMessage) (tools : Option (List ToolSpec))
    (k : String) (build : Builder)
    → step_of parse messages tools ≡ some (k, build)
    → IsChosen parse messages tools k build
unfolding step_of
chosen parse messages tools k build h =
    elim (Option-cases (first_match (latest_user_text messages) intents)) [
      | inl nothing ↦ absurd (cc (rw nothing at h))
      | inr (i, hit) ↦
          let (names, short) = first_match-All IsShort _ intents i intents-IsShort hit in
          let step : next_step (offered tools) (collect_tool_results parse messages) i.steps
              ≡ some (k, build) =
            rw hit at h in
          let (offers, new, named) =
            next_step_sound (λ t. is_empty_text t ≡ false) (offered tools)
              (collect_tool_results parse messages) k build i.steps names step in
          record {
            offers = offers;
            unanswered = new;
            named = named;
            intent = i;
            matched = hit;
            step = step;
            short = short;
          }
    ]

-- A response is an answer or proposes one step.
Planned : (String → Option Json) → List LlmMessage → Option (List ToolSpec) → LlmResponse → Type 0
Planned parse messages tools r =
    ((text : String) × (r.content ≡ some text) × (r.tool_calls ≡ []))
    ⊎ ((call : LlmToolCall) × (build : Builder) × (r.content ≡ none)
        × (r.tool_calls ≡ call ∷ [])
        × (step_of parse messages tools ≡ some (call.name, build)))

ok_injective : {A : Type 0} {a b : A} → ok a ≡ ok b → a ≡ b
ok_injective h = cc (h)

answer-text :
    (o : Option String) (r : LlmResponse)
    → answer o ≡ ok r
    → (text : String) × (r.content ≡ some text) × (r.tool_calls ≡ [])
answer-text none r h = absurd (cc (h))
answer-text (some text) r h =
    let same = ok_injective h in
    (
      text,
      sym (ap (λ (x : LlmResponse). x.content) same),
      sym (ap (λ (x : LlmResponse). x.tool_calls) same),
    )

propose-call :
    (gathered : Fields) (k : String) (o : Option Fields) (r : LlmResponse)
    → propose gathered k o ≡ ok r
    → (call : LlmToolCall) × (call.name ≡ k) × (r.content ≡ none) × (r.tool_calls ≡ call ∷ [])
propose-call gathered k none r h = absurd (cc (h))
propose-call gathered k (some arguments) r h =
    let same = ok_injective h in
    (
      _,
      refl,
      sym (ap (λ (x : LlmResponse). x.content) same),
      sym (ap (λ (x : LlmResponse). x.tool_calls) same),
    )

planned :
    (parse : String → Option Json) (now : ℕ) (messages : List LlmMessage)
    (tools : Option (List ToolSpec)) (r : LlmResponse)
    → complete parse now messages tools ≡ ok r
    → Planned parse messages tools r
unfolding complete Planned
planned parse now messages tools r h = elim (Option-cases (step_of parse messages tools)) [
  | inl nothing ↦ inl (answer-text _ r (rw nothing at h))
  | inr ((k, build), step) ↦
      let (call, same, silent, calls) =
        propose-call (collect_tool_results parse messages) k
          (build now (latest_user_text messages) (collect_tool_results parse messages)) r
          (rw step at h) in
      inr (call, build, silent, calls, step ∙ ap (λ t. some (t, build)) (sym same))
]

-- A response of the rule-based provider is an answer without calls, or one call, without a text, of
-- a tool that was offered and that has no result in the turn yet.
pub complete-calls :
    (parse : String → Option Json) (now : ℕ) (messages : List LlmMessage)
    (tools : Option (List ToolSpec)) (r : LlmResponse)
    → complete parse now messages tools ≡ ok r
    → ((text : String) × (r.content ≡ some text) × (r.tool_calls ≡ []))
      ⊎ ((call : LlmToolCall) × (r.content ≡ none)
          × (r.tool_calls ≡ call ∷ [])
          × (any (str_eq call.name) (offered tools) ≡ true)
          × (has_key call.name (collect_tool_results parse messages) ≡ false))
unfolding Planned
complete-calls parse now messages tools r h = elim (planned parse now messages tools r h) [
  | inl answers ↦ inl answers
  | inr (call, build, silent, calls, step) ↦
      let c = chosen parse messages tools call.name build step in
      inr (call, silent, calls, c.offers, c.unanswered)
]

-- A request takes at most three calls of the rule-based provider in a turn: each call, once its
-- result is in the history, leaves fewer steps, and there are never more than three.
pub complete-shrinks :
    (parse : String → Option Json) (now : ℕ) (messages : List LlmMessage)
    (tools : Option (List ToolSpec)) (r : LlmResponse) (call : LlmToolCall) (content : String)
    → complete parse now messages tools ≡ ok r
    → r.tool_calls ≡ call ∷ []
    → (turn_left parse (messages ++ answered call content) tools < turn_left parse messages tools)
      × (turn_left parse messages tools ≤ 3)
unfolding Planned turn_left
complete-shrinks parse now messages tools r call content h calls =
    elim (planned parse now messages tools r h) [
      | inl (text, _, none_called) ↦ absurd (cc (none_called, calls))
      | inr (call', build, _, calls', step) ↦
          let same : call' ≡ call = cc (calls, calls') in
          let c =
            chosen parse messages tools call.name build
              (step ∙ ap (λ (x : LlmToolCall). some (x.name, build)) same) in
          let gathered = collect_tool_results parse messages in
          let fewer =
            next_step-fewer (offered tools) gathered call.name build
              (result_of parse (some content)) c.intent.steps c.step in
          let bound = steps_left_bound (offered tools) gathered c.intent.steps in
          (
            rw
                (
                  latest_user_text-answered messages call content,
                  collect_tool_results-answered parse messages call content c.named,
                  c.matched,
                )
                fewer,
            rw c.matched (omega (arith, bound, c.short)),
          )
    ]
