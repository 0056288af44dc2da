-- ===== src/Agent/Moves/Acting.antt =====
-- The nodes `execute_tools` and `validate_results`.
use mcp_business_assistant.Prelude.{
  ◌-◌, ◌≤◌, String, ◌≡◌, refl, inl, inr, ◌⊎◌, Option, none, some, List, [], ◌∷◌, arith, Bool-cases,
  Option-cases, is_some, if◌then◌else◌,
}
use mcp_business_assistant.Errors.{AppError}
use mcp_business_assistant.Conversation.Messages.{LlmToolCall}
use mcp_business_assistant.Conversation.Transcript.{add_tool_result}
use mcp_business_assistant.Mcp.Types.{ToolCall, ToolResult}
use mcp_business_assistant.Execution.Gateway.{ExecutionOutcome}
use mcp_business_assistant.Execution.Execute.{execute}
use mcp_business_assistant.Agent.State.{PendingApproval, AgentState}
use mcp_business_assistant.Agent.World.{AgentDependencies, World, Run, follow, on_database, pure}
use mcp_business_assistant.Agent.Nodes.Execute.{
  Progress, note_result, settle_call, call_of, try_call, asked_approval, execute_calls,
  execute_tools, keeps_failing, validate_results, executed_state,
}
use mcp_business_assistant.Agent.Graph.{Node, next_node, route_after_validation}
use mcp_business_assistant.Agent.Trail.{
  Trail, Trail-refl, Trail-trans, Trail-follow, Trail-caught, persist-Trail, Ends-follow,
  Ends-always,
}
use mcp_business_assistant.Agent.Steps.{IsOrderly, execute-Trail}
use mcp_business_assistant.Agent.Moves.{Moves, NodeEnds}

module _ (deps : AgentDependencies) (s : AgentState) (orderly : IsOrderly deps) where
  abbrev Calm : World → World → Type 0
  Calm = Trail deps s.user_role 0

  note_result-Calm :
      (call : ToolCall) (result : ToolResult) (content : String) (pending : Option PendingApproval)
      (errors : List String) (progress : Progress) (w : World)
      → Calm w (note_result deps call result content pending errors progress w).1
  unfolding note_result add_tool_result
  note_result-Calm call result content pending errors progress w =
      Trail-follow _ _ (persist-Trail w _ _ _ _ _ _ _) (λ a v. Trail-refl v)

  settle_call-Calm :
      (call : ToolCall) (progress : Progress) (x : AppError ⊎ ExecutionOutcome) (w : World)
      → Calm w (settle_call deps call progress x w).1
  unfolding settle_call
  settle_call-Calm call progress (inl e) w = note_result-Calm call _ _ _ _ progress w
  settle_call-Calm call progress (inr outcome) w = elim (Option-cases (asked_approval outcome)) [
    | inl e ↦ rw (settle_call, e) (note_result-Calm call _ _ _ _ progress w)
    | inr (r, e) ↦ rw (settle_call, e) (note_result-Calm call _ _ _ _ progress w)
  ]

  try_call-Calm : (call : ToolCall) (w : World) → Calm w (try_call deps s call w).1
  try_call-Calm call w =
      Trail-caught
        (on_database
          (execute deps.gateway call (record { user_role = s.user_role }) none
            (some deps.conversation_id) (some s.user_id))
          w)
        (execute-Trail deps call (record { user_role = s.user_role }) (some deps.conversation_id)
          (some s.user_id) w orderly.leaves orderly.names)

  go_on-Calm :
      (calls : List LlmToolCall) (next : Progress) (v : World)
      → Calm v (execute_calls deps s calls next v).1
      → Calm v ((if is_some next.pending then pure next else execute_calls deps s calls next) v).1
  go_on-Calm calls next v t = elim (Bool-cases (is_some next.pending)) [
    | inl paused ↦ rw paused (Trail-refl v)
    | inr free ↦ rw free t
  ]

  execute_calls-Calm :
      (calls : List LlmToolCall) (progress : Progress) (w : World)
      → Calm w (execute_calls deps s calls progress w).1
  unfolding execute_calls
  execute_calls-Calm [] progress w = Trail-refl w
  execute_calls-Calm (proposed ∷ calls) progress w =
      let go_on : Progress → Run Progress =
        λ next. if is_some next.pending then pure next else execute_calls deps s calls next in
      Trail-follow
        (λ outcome v. follow go_on (settle_call deps (call_of proposed) progress outcome v))
        (try_call deps s (call_of proposed) w) (try_call-Calm (call_of proposed) w)
        (λ x v.
          Trail-follow go_on (settle_call deps (call_of proposed) progress x v)
            (settle_call-Calm (call_of proposed) progress x v)
            (λ next u. go_on-Calm calls next u (execute_calls-Calm calls next u)))

  module _ (w : World) (within : s.iteration ≤ s.max_iterations) where
    pub execute_tools-NodeEnds : NodeEnds deps Node.execute_tools s w (execute_tools deps s w)
    unfolding execute_tools next_node
    execute_tools-NodeEnds =
        Ends-follow (λ _ v. Calm w v) (Moves deps Node.execute_tools s w) (λ v. Calm w v)
          (λ v. Trail deps s.user_role (s.max_iterations - s.iteration) w v)
          (λ progress. pure (executed_state s progress)) _
          (Ends-always (λ v. Calm w v) _ (execute_calls-Calm s.tool_calls _ w))
          (λ v t. Trail-trans t (Trail-refl v) (omega arith))
          (λ progress v t. record {
            questions = 0;
            trail = t;
            spent = omega arith;
            paid = λ n h. ground (arith, h);
            role = refl;
            limit = refl;
            iterations = within;
            fewer = λ n h. ground (arith, h);
            answered = λ h. absurd (cc (h));
          })

    -- What follows the validation of results, given that the bounds stand as they were.
    onward :
        (s' : AgentState)
        → s'.user_role ≡ s.user_role
        → s'.max_iterations ≡ s.max_iterations
        → s'.iteration ≡ s.iteration
        → Moves deps Node.validate_results s w s' w
    unfolding next_node route_after_validation
    onward s' role limit count = record {
      questions = 0;
      trail = Trail-refl w;
      spent = omega arith;
      paid = λ n h. ground (arith, h, limit, count);
      role = role;
      limit = limit;
      iterations = omega (arith, limit, count, within);
      fewer = λ n h. ground (arith, h, limit, count);
      answered = λ h. absurd (cc (h));
    }

    pub validate_results-NodeEnds :
        NodeEnds deps Node.validate_results s w (validate_results deps s w)
    unfolding validate_results next_node
    validate_results-NodeEnds = elim (Bool-cases (is_some s.pending_approval)) [
      | inl paused ↦ rw paused (onward _ refl refl refl)
      | inr free ↦ elim (Bool-cases (keeps_failing s)) [
        | inl failing ↦ rw (free, failing) (onward _ refl refl refl)
        | inr well ↦ rw (free, well) (onward _ refl refl refl)
      ]
    ]
