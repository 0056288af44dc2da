-- ===== src/Agent/Graph.antt =====
-- app/agents/graph.py: the graph of the nodes and a run along its edges.
use mcp_business_assistant.Prelude.{ℕ, zero, suc, Option, none, some, is_some, if◌then◌else◌}
use mcp_business_assistant.Errors.{Result, ok, err, crash}
use mcp_business_assistant.Agent.State.{
  AgentState, is_failed, has_pending_calls, iteration_budget_exhausted,
}
use mcp_business_assistant.Agent.World.{AgentDependencies, Run, World}
use mcp_business_assistant.Agent.Nodes as nodes
use mcp_business_assistant.Agent.Nodes.{has_text}
use mcp_business_assistant.Agent.Nodes.Execute as execution
use mcp_business_assistant.Agent.Nodes.Respond as answers

pub data Node : Type 0 where
  load_context discover_tools plan execute_tools validate_results respond : Node

unfoldable pub route_after_plan : AgentState → Node
route_after_plan state =
    if is_failed state.status
    then respond
    else if has_pending_calls state
    then execute_tools
    else respond

unfoldable pub route_after_validation : AgentState → Node
route_after_validation state =
    if is_some state.pending_approval
    then respond
    else if has_text state.final_response
    then respond
    else if iteration_budget_exhausted state
    then respond
    else plan

-- The edges of `build_agent_graph`; `none` is END.
unfoldable pub next_node : Node → AgentState → Option Node
unfolding route_after_plan route_after_validation
next_node load_context state = some discover_tools
next_node discover_tools state = some plan
next_node plan state = some (route_after_plan state)
next_node execute_tools state = some validate_results
next_node validate_results state = some (route_after_validation state)
next_node respond state = none

-- The nodes of `build_agent_graph`
unfoldable pub run_node : AgentDependencies → Node → AgentState → Run AgentState
run_node deps load_context = nodes.load_context deps
run_node deps discover_tools = nodes.discover_tools deps
run_node deps plan = nodes.plan deps
run_node deps execute_tools = execution.execute_tools deps
run_node deps validate_results = execution.validate_results deps
run_node deps respond = answers.respond deps

-- What comes of a run; `none` is LangGraph's GraphRecursionError.
abbrev pub Outcome : Type 0
Outcome = Option (Result AgentState) × World

abbrev along : (Node → AgentState → World → Outcome) → Option Node → AgentState → World → Outcome
along go none state w = (some (ok state), w)
along go (some node) state w = go node state w

abbrev pub advance :
    (Node → AgentState → World → Outcome) → Node → Result AgentState × World → Outcome
advance go node (ok state, w) = along go (next_node node state) state w
advance go node (err e, w) = (some (err e), w)
advance go node (crash, w) = (some crash, w)

-- `ainvoke` from a node on, with so many nodes left to the recursion limit.
unfoldable pub run_graph : AgentDependencies → ℕ → Node → AgentState → World → Outcome
unfolding run_node
run_graph deps zero node state w = (none, w)
run_graph deps (suc limit) node state w =
    advance (run_graph deps limit) node (run_node deps node state w)
