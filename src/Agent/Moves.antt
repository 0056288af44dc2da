-- ===== src/Agent/Moves.antt =====
-- What a node of the graph does to the state and to the world.
pub mod Planning
pub mod Acting
pub mod Answering
use mcp_business_assistant.Prelude.{
  ℕ, ◌+◌, ◌-◌, ◌*◌, ◌≤◌, ◌<◌, String, ◌≡◌, ◌≢◌, refl, ◌⊎◌, inl, inr, Bool, true, false, Option,
  none, some, List, [], ◌∷◌, is_some, arith, Bool-cases, if◌then◌else◌, leb, leb→le,
}
use mcp_business_assistant.Prelude.Text.{is_empty_text}
use mcp_business_assistant.Errors.{AppError, Result, ok, err, crash}
use mcp_business_assistant.Conversation.Messages.{LlmToolCall, LlmResponse}
use mcp_business_assistant.Agent.State.{
  AgentStatus, running, completed, awaiting_approval, failed, is_failed, PendingApproval,
  AgentState,
}
use mcp_business_assistant.Agent.World.{AgentDependencies, World}
use mcp_business_assistant.Agent.Graph.{
  Node, load_context, discover_tools, plan, execute_tools, validate_results, respond, next_node,
}
use mcp_business_assistant.Agent.Trail.{Trail, Trail-refl, Trail-trans, Ends}

-- The requests to the language model that are left.
abbrev pub budget : Node → AgentState → ℕ
budget respond s = 0
budget _ s = s.max_iterations - s.iteration

-- A bound for the nodes that are left, the next one included.
abbrev pub nodes_left : Node → AgentState → ℕ
nodes_left load_context s = 3 * (s.max_iterations - s.iteration) + 4
nodes_left discover_tools s = 3 * (s.max_iterations - s.iteration) + 3
nodes_left plan s = 3 * (s.max_iterations - s.iteration) + 2
nodes_left execute_tools s = 3 * (s.max_iterations - s.iteration) + 4
nodes_left validate_results s = 3 * (s.max_iterations - s.iteration) + 3
nodes_left respond s = 1

-- A finished run: there is an answer, and the status says how it ended.
pub record IsAnswered (s : AgentState) : Type 0 where
  pub text : String
  pub response : s.final_response ≡ some text
  pub spoken : is_empty_text text ≡ false
  pub over : s.status ≢ running
  pub waiting : s.status ≡ awaiting_approval → is_some s.pending_approval ≡ true
  pub complete : s.status ≡ completed → s.pending_approval ≡ none

-- One node, from a state and a world to others.
pub record Moves (deps : AgentDependencies) (node : Node) (s : AgentState) (w : World)
    (s' : AgentState) (w' : World) : Type 0 where
  pub questions : ℕ
  pub trail : Trail deps s.user_role questions w w'
  pub spent : questions ≤ budget node s
  pub paid : (n : Node) → next_node node s' ≡ some n → questions + budget n s' ≤ budget node s
  pub role : s'.user_role ≡ s.user_role
  pub limit : s'.max_iterations ≡ s.max_iterations
  pub iterations : s'.iteration ≤ s'.max_iterations
  pub fewer : (n : Node) → next_node node s' ≡ some n → nodes_left n s' < nodes_left node s
  pub answered : next_node node s' ≡ none → IsAnswered s'

-- A node keeps to its bounds, however it ends.
abbrev pub NodeEnds :
    AgentDependencies → Node → AgentState → World → Result AgentState × World → Type 0
NodeEnds deps node s w =
    Ends (Moves deps node s w) (λ w'. Trail deps s.user_role (budget node s) w w')
