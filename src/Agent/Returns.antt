-- ===== src/Agent/Returns.antt =====
-- A run returns a result where the model and the tools do what they promise.
use mcp_business_assistant.Prelude.{
  ℕ, zero, suc, String, ◌≡◌, ◌≢◌, refl, inl, inr, ◌⊎◌, true, Option, none, some, List, [], ◌∷◌,
  Bool-cases, Option-cases, is_some, leb, if◌then◌else◌,
}
use mcp_business_assistant.Enums.{UserRole, MessageRole}
use mcp_business_assistant.Errors.{AppError, Result, ok, err, crash}
use mcp_business_assistant.Json.{Fields}
use mcp_business_assistant.Database.{Database}
use mcp_business_assistant.Mcp.Types.{ToolCall, ToolResult}
use mcp_business_assistant.Conversation.Messages.{LlmToolCall, LlmResponse}
use mcp_business_assistant.Conversation.Transcript.{
  add_message, add_assistant_message, add_tool_result,
}
use mcp_business_assistant.Conversation.Numbering.{IsOrdered, add_message-IsOrdered}
use mcp_business_assistant.Execution.Gateway.{ExecutionOutcome}
use mcp_business_assistant.Execution.Execute.{execute}
use mcp_business_assistant.Agent.State.{PendingApproval, AgentState}
use mcp_business_assistant.Agent.World.{
  AgentDependencies, Prompt, World, Run, follow, caught, pure, persist, complete,
}
use mcp_business_assistant.Agent.Nodes.{
  load_context, discover_tools, plan, planned, is_llm_error, note_decision, planning_prompt,
}
use mcp_business_assistant.Agent.Nodes.Execute.{
  Progress, noted, no_progress, note_result, settle_call, call_of, try_call, asked_approval,
  execute_calls, execute_tools, executed_state, keeps_failing, validate_results,
}
use mcp_business_assistant.Agent.Nodes.Respond.{
  persist_notice, close_run, with_notice, answer_text, respond,
}
use mcp_business_assistant.Agent.Graph.{Node, next_node, Outcome, run_node, advance, run_graph}
use mcp_business_assistant.Agent.Trail.{Ends, IsAlone}

-- A step that returns a value and leaves the transcript in order.
abbrev pub Fine : {A : Type 0} → Result A × World → Type 0
Fine x = Ends (λ _ w. IsOrdered w.messages) (λ _. ¬ (Unit {0})) x

Fine-follow :
    {A B : Type 0} (f : A → Run B) (x : Result A × World)
    → Fine x
    → ((a : A) (w : World) → IsOrdered w.messages → Fine (f a w))
    → Fine (follow f x)
Fine-follow f (ok a, w) h k = k a w h
Fine-follow f (err e, w) h k = h
Fine-follow f (crash, w) h k = h

persist-Fine :
    (deps : AgentDependencies) (alone : IsAlone deps) (w : World) (c : ℕ) (author : MessageRole)
    (content : Option String) (calls : Option (List LlmToolCall)) (id name : Option String)
    (metadata : Option Fields)
    → IsOrdered w.messages
    → Fine (persist deps (λ read ms. add_message read c author content calls id name metadata ms) w)
persist-Fine deps alone w c author content calls id name metadata ordered =
    let (added, after) =
      add_message-IsOrdered w.messages c author content calls id name metadata ordered in
    rw (alone (deps.arriving w.messages), alone w.messages, added) after

-- What is asked of the model, as the documentation of `complete` promises it, and of the tools: an
-- exception that is no `AppError` does not occur, and the model fails with an `LLMError` only.
pub record IsReliable (deps : AgentDependencies) : Type 0 where
  pub answers :
      (asked : List Prompt) (prompt : Prompt)
      → ((response : LlmResponse) × (deps.complete asked prompt ≡ ok response))
        ⊎ ((e : AppError) × (deps.complete asked prompt ≡ err e) × (is_llm_error e.kind ≡ true))
  pub tools :
      (call : ToolCall) (role : UserRole) (u : ℕ) (db : Database)
      → (execute deps.gateway call
          (record { user_role = role })
          none
          (some deps.conversation_id)
          (some u)
          db).0
        ≢ crash

-- An answer of the model, or a failure that `plan` catches.
abbrev IsKnown : AppError ⊎ LlmResponse → Type 0
IsKnown (inl e) = is_llm_error e.kind ≡ true
IsKnown (inr response) = Unit

caught-Fine :
    {A : Type 0} (r : Result A) (w : World)
    → r ≢ crash
    → IsOrdered w.messages
    → Fine (caught (r, w))
caught-Fine (ok a) w sound ordered = ordered
caught-Fine (err e) w sound ordered = ordered
caught-Fine crash w sound ordered = absurd (sound refl)

-- A run of the graph that ends at the recursion limit or with a state.
abbrev pub Unbroken : Outcome → Type 0
Unbroken (some (ok s), w) = Unit
Unbroken (none, w) = Unit
Unbroken _ = ¬ (Unit {0})

module _ (deps : AgentDependencies) (reliable : IsReliable deps) (alone : IsAlone deps) where
  planned-Fine :
      (s : AgentState) (x : AppError ⊎ LlmResponse) (w : World)
      → IsKnown x
      → IsOrdered w.messages
      → Fine (planned deps s x w)
  unfolding planned add_assistant_message
  planned-Fine s (inl e) w known ordered = rw known ordered
  planned-Fine s (inr response) w known ordered =
      Fine-follow (λ _. note_decision deps s response)
        (persist deps
          (λ read ms.
            add_assistant_message read deps.conversation_id response.content response.tool_calls
              none ms)
          w)
        (persist-Fine deps alone w deps.conversation_id MessageRole.assistant _ _ _ _ _ ordered)
        (λ a v o. o)

  plan-Fine : (s : AgentState) (w : World) → IsOrdered w.messages → Fine (plan deps s w)
  unfolding plan complete
  plan-Fine s w ordered = elim (Bool-cases (leb s.max_iterations s.iteration)) [
    | inl exhausted ↦ rw exhausted ordered
    | inr room ↦ elim (reliable.answers w.asked (planning_prompt w.database.now s)) [
      | inl (response, e) ↦ rw (room, e) (planned-Fine s (inr response) _ tt ordered)
      | inr (x, e, known) ↦ rw (room, e) (planned-Fine s (inl x) _ known ordered)
    ]
  ]

  note_result-Fine :
      (call : ToolCall) (result : ToolResult) (content : String) (pending : Option PendingApproval)
      (errors : List String) (progress : Progress) (w : World)
      → IsOrdered w.messages
      → Fine (note_result deps call result content pending errors progress w)
  unfolding note_result add_tool_result
  note_result-Fine call result content pending errors progress w ordered =
      Fine-follow (λ _. pure (noted call result content pending errors progress))
        (persist deps (λ read ms. add_tool_result read deps.conversation_id result ms) w)
        (persist-Fine deps alone w deps.conversation_id MessageRole.tool _ _ _ _ _ ordered)
        (λ a v o. o)

  settle_call-Fine :
      (call : ToolCall) (progress : Progress) (x : AppError ⊎ ExecutionOutcome) (w : World)
      → IsOrdered w.messages
      → Fine (settle_call deps call progress x w)
  unfolding settle_call
  settle_call-Fine call progress (inl e) w ordered =
      note_result-Fine call _ _ _ _ progress w ordered
  settle_call-Fine call progress (inr outcome) w ordered =
      elim (Option-cases (asked_approval outcome)) [
        | inl e ↦ rw (settle_call, e) (note_result-Fine call _ _ _ _ progress w ordered)
        | inr (r, e) ↦ rw (settle_call, e) (note_result-Fine call _ _ _ _ progress w ordered)
      ]

  go_on-Fine :
      (s : AgentState) (calls : List LlmToolCall) (next : Progress) (v : World)
      → Fine (execute_calls deps s calls next v)
      → IsOrdered v.messages
      → Fine ((if is_some next.pending then pure next else execute_calls deps s calls next) v)
  go_on-Fine s calls next v rest ordered = elim (Bool-cases (is_some next.pending)) [
    | inl paused ↦ rw paused ordered
    | inr free ↦ rw free rest
  ]

  execute_calls-Fine :
      (s : AgentState) (calls : List LlmToolCall) (progress : Progress) (w : World)
      → IsOrdered w.messages
      → Fine (execute_calls deps s calls progress w)
  unfolding execute_calls
  execute_calls-Fine s [] progress w ordered = ordered
  execute_calls-Fine s (proposed ∷ calls) progress w ordered =
      let go_on : Progress → Run Progress =
        λ next. if is_some next.pending then pure next else execute_calls deps s calls next in
      Fine-follow
        (λ outcome v. follow go_on (settle_call deps (call_of proposed) progress outcome v))
        (try_call deps s (call_of proposed) w)
        (caught-Fine _ _ (reliable.tools (call_of proposed) s.user_role s.user_id w.database)
          ordered)
        (λ x v o.
          Fine-follow go_on (settle_call deps (call_of proposed) progress x v)
            (settle_call-Fine (call_of proposed) progress x v o)
            (λ next u o'. go_on-Fine s calls next u (execute_calls-Fine s calls next u o') o'))

  validate_results-Fine :
      (s : AgentState) (w : World) → IsOrdered w.messages → Fine (validate_results deps s w)
  unfolding validate_results
  validate_results-Fine s w ordered = elim (Bool-cases (is_some s.pending_approval)) [
    | inl paused ↦ rw paused ordered
    | inr free ↦ elim (Bool-cases (keeps_failing s)) [
      | inl failing ↦ rw (free, failing) ordered
      | inr well ↦ rw (free, well) ordered
    ]
  ]

  persist_notice-Fine :
      (pending : Option PendingApproval) (text : String) (w : World)
      → IsOrdered w.messages
      → Fine (persist_notice deps pending text w)
  unfolding add_assistant_message
  persist_notice-Fine none text w ordered = ordered
  persist_notice-Fine (some pending) text w ordered =
      persist-Fine deps alone w deps.conversation_id MessageRole.assistant _ _ _ _ _ ordered

  run_node-Fine :
      (node : Node) (s : AgentState) (w : World)
      → IsOrdered w.messages
      → Fine (run_node deps node s w)
  unfolding run_node load_context discover_tools execute_tools respond
  run_node-Fine Node.load_context s w ordered = ordered
  run_node-Fine Node.discover_tools s w ordered = ordered
  run_node-Fine Node.plan s w ordered = plan-Fine s w ordered
  run_node-Fine Node.execute_tools s w ordered =
      Fine-follow (λ progress. pure (executed_state s progress))
        (execute_calls deps s s.tool_calls (no_progress s) w)
        (execute_calls-Fine s s.tool_calls (no_progress s) w ordered) (λ a v o. o)
  run_node-Fine Node.validate_results s w ordered = validate_results-Fine s w ordered
  run_node-Fine Node.respond s w ordered =
      let text = with_notice s.pending_approval (answer_text s) in
      Fine-follow (λ _. close_run deps s text) (persist_notice deps s.pending_approval text w)
        (persist_notice-Fine s.pending_approval text w ordered) (λ a v o. o)

  onward-Unbroken :
      (limit : ℕ) (node : Node) (x : Result AgentState × World)
      → Fine x
      → ((n : Node) (s : AgentState) (w : World)
          → IsOrdered w.messages
          → Unbroken (run_graph deps limit n s w))
      → Unbroken (advance (run_graph deps limit) node x)
  onward-Unbroken limit node (ok s, w) h go = elim (Option-cases (next_node node s)) [
    | inl end ↦ rw end tt
    | inr (n, edge) ↦ rw edge (go n s w h)
  ]
  onward-Unbroken limit node (err e, w) h go = h
  onward-Unbroken limit node (crash, w) h go = h

  pub run_graph-Unbroken :
      (limit : ℕ) (node : Node) (s : AgentState) (w : World)
      → IsOrdered w.messages
      → Unbroken (run_graph deps limit node s w)
  unfolding run_graph
  run_graph-Unbroken zero node s w ordered = tt
  run_graph-Unbroken (suc limit) node s w ordered =
      onward-Unbroken limit node (run_node deps node s w) (run_node-Fine node s w ordered)
        (λ n s' w' o. run_graph-Unbroken limit n s' w' o)
