-- ===== src/Agent/Tests.antt =====
-- Runs of the agent, and the theorems applied to them. The catalog is empty, so that the service
-- refuses what the model proposes.
use mcp_business_assistant.Prelude.{
  map, insert, ◌↔◌, ℕ, ◌+◌, ◌≤◌, String, ◌≡◌, ◌≢◌, refl, inl, true, false, none, some, List, [],
  ◌∷◌, ◌++◌, length, lookup, All, arith, ◌⊎◌,
}
use mcp_business_assistant.Enums.{viewer, operator, active, MessageRole}
use mcp_business_assistant.Errors.{AppError, Result, ok, err, crash}
use mcp_business_assistant.Json.{end}
use mcp_business_assistant.Database.{Database}
use mcp_business_assistant.Mcp.Types.{ToolSpec, qualify, ToolCall, failure_result}
use mcp_business_assistant.Approval.Service.{ApprovalGrant}
use mcp_business_assistant.Mcp.Manager.{timed_out}
use mcp_business_assistant.Execution.Gateway.{
  Gateway, ExecutionOutcome, denied, deny_unknown_tool, agent_visible_result,
}
use mcp_business_assistant.Execution.Execute.{execute, execute_approved, approved_call}
use mcp_business_assistant.Conversation.Messages.{LlmToolCall, LlmResponse}
use mcp_business_assistant.Conversation.Transcript.{
  Message, new_message, add_user_message, next_sequence, max_sequence, add_message, insert_message,
  add_tool_result,
}
use mcp_business_assistant.Prelude.Text.{join, repr_str, sort_texts}
use mcp_business_assistant.Mcp.Catalog.{
  Tool, catalog_names, catalog_of, build_tool_spec, specs_of, add_specs, readable_only,
  by_permission,
}
use mcp_business_assistant.Mcp.Catalog.Laws.{IsLocal, build_tool_spec-IsLocal, catalog_of-specs}
use mcp_business_assistant.Security.Permissions.{classify, tool_permissions}
use mcp_business_assistant.Agent.Offered.{IsReadable, discover_tools-IsReadable}
use mcp_business_assistant.Conversation.Numbering.{IsOrdered, IsNext, IsTaken}
use mcp_business_assistant.Agent.State.{AgentState, initial_state}
use mcp_business_assistant.Agent.World
use mcp_business_assistant.Agent.World.{AgentDependencies, Prompt, World}
use mcp_business_assistant.Agent.Nodes.{
  is_llm_error, load_context, discover_tools, plan, visible_catalog,
}
use mcp_business_assistant.Agent.Nodes.Execute.{
  Progress, noted, no_progress, call_of, execute_calls, settle_call, note_result, render_for_model,
}
use mcp_business_assistant.Agent.Graph.{Node, next_node, run_graph}
use mcp_business_assistant.Agent.Trail.{MayRun}
use mcp_business_assistant.Agent.Steps.{IsOrderly}
use mcp_business_assistant.Agent.Returns.{IsReliable}
use mcp_business_assistant.Agent.Runner.{AgentRunResult, failed_run_error, guard_graph, run_agent}
use mcp_business_assistant.Agent.Runs.{IsReported}
use mcp_business_assistant.Agent.Promises.{
  run_graph-stops, run_agent-dispatched, run_agent-asked, run_agent-transcript,
  run_agent-IsReported, run_agent_returns, run_agent-crash_iff,
}
use mcp_business_assistant.Agent.Reference.{converse, run_graph-converse}
use mcp_business_assistant.Agent.Proposals.{IsHandled, execute_calls-IsHandled}

abbrev gateway : Gateway
gateway = record {
  sha256 = λ s. s;
  settings = record { require_approval_for_writes = false };
  approval_ttl_minutes = 30;
  stack = 10;
  seconds = "30";
  manager = record { connections = []; catalog = []; failures = [] };
  respond = λ trace server tool arguments. timed_out;
  meanwhile = λ db. db;
  elapsed = 1;
}

abbrev proposal : LlmToolCall
proposal = record { id = "call_1"; name = "crm__search_leads"; arguments = end }

-- The model proposes a call, and answers when it is asked again.
abbrev complete : List Prompt → Prompt → Result LlmResponse
complete [] prompt = ok (record { content = none; tool_calls = proposal ∷ [] })
complete (_ ∷ _) prompt = ok (record { content = some "There are no leads."; tool_calls = [] })

abbrev deps : AgentDependencies
deps = record {
  gateway = gateway;
  complete = complete;
  thinking = λ db. db;
  arriving = λ ms. ms;
  conversation_id = 3;
  history_limit = 20;
  agent_max_iterations = 6;
  recursion_limit = 25;
  exception_name = "RuntimeError";
}

abbrev database : Database
database = record {
  approvals = [];
  audit = [];
  now = 1709209800000000;
  next_id = 1;
  dispatched = [];
}

abbrev world : World
world = record {
  database = database;
  messages = [];
  conversation_status = active;
  asked = [];
  needs_rollback = false;
}

orderly : IsOrderly deps
unfolding lookup
orderly = record {
  names = record { entry = λ k spec there. absurd (cc (there)) };
  leaves = λ db. refl;
  thinks = λ db. refl;
}

reliable : IsReliable deps
unfolding lookup execute deny_unknown_tool
reliable = record {
  answers = λ asked prompt.
      elim asked
        as (λ l.
          ((response : LlmResponse) × (complete l prompt ≡ ok response))
          ⊎ ((e : AppError) × (complete l prompt ≡ err e) × (is_llm_error e.kind ≡ true))) [
            | [] ↦ inl (_, refl)
            | _ ∷ _ ↦ inl (_, refl)
          ];
  tools = λ call role u db h. absurd (cc (h));
}

abbrev state : AgentState
state = initial_state 3 7 operator "Which leads are there?" 6

run_graph-stops_example : (run_graph deps 22 Node.load_context state world).0 ≢ none
unfolding initial_state
run_graph-stops_example = run_graph-stops deps 22 state world orderly (omega arith) (omega arith)

run_agent-dispatched_example :
    (calls : List ToolCall) × ((run_agent deps 7 operator "Which leads are there?"
        world).1.database.dispatched
      ≡ [] ++ calls)
    × All (MayRun gateway operator) calls
run_agent-dispatched_example =
    run_agent-dispatched deps 7 operator "Which leads are there?" world orderly

run_agent-asked_example :
    length (run_agent deps 7 operator "Which leads are there?" world).1.asked ≤ 0 + 6
run_agent-asked_example = run_agent-asked deps 7 operator "Which leads are there?" world orderly

run_agent-transcript_example :
    (turns : List Message) × ((run_agent deps 7 operator "Which leads are there?" world).1.messages
      ≡ []
        ++ new_message [] 3 MessageRole.user (some "Which leads are there?") none none none none
          ∷ turns)
    × IsOrdered (run_agent deps 7 operator "Which leads are there?" world).1.messages
run_agent-transcript_example =
    run_agent-transcript deps 7 operator "Which leads are there?" world orderly (λ ms. refl) tt

run_agent_returns_example :
    (r : AgentRunResult) × ((run_agent deps 7 operator "Which leads are there?" world).0 ≡ ok r)
run_agent_returns_example =
    run_agent_returns deps 7 operator "Which leads are there?" world orderly reliable (λ ms. refl)
      tt (omega arith)

returned :
    (r : AgentRunResult) × ((run_agent deps 7 operator "Which leads are there?" world).0 ≡ ok r)
returned =
    run_agent_returns deps 7 operator "Which leads are there?" world orderly reliable (λ ms. refl)
      tt (omega arith)

run_agent-IsReported_example :
    IsReported 6 returned.0 (run_agent deps 7 operator "Which leads are there?" world).1
run_agent-IsReported_example =
    run_agent-IsReported deps 7 operator "Which leads are there?" world returned.0 orderly
      returned.1

-- Another session writes to the conversation all the time.
abbrev crowded : AgentDependencies
crowded = record deps {
  arriving =
      λ ms. ms ++ new_message ms 3 MessageRole.user (some "And my tasks?") none none none none ∷ [];
}

run_agent-crash_test : (run_agent crowded 7 operator "Which leads are there?" world).0 ≡ crash
unfolding run_agent add_user_message add_message insert_message new_message next_sequence
    max_sequence
run_agent-crash_test = refl

run_agent-crash_iff_example :
    (n : ℕ) × IsNext 3 (crowded.arriving []) n
    × (((run_agent crowded 7 operator "Which leads are there?" world).0 ≡ crash)
        ↔ IsTaken 3 n (crowded.arriving (crowded.arriving [])))
run_agent-crash_iff_example = run_agent-crash_iff crowded 7 operator "Which leads are there?" world

-- A model that breaks down.
abbrev broken : AgentDependencies
broken = record deps { complete = λ asked prompt. crash }

hidden_failure_test :
    (run_agent broken 7 operator "Which leads are there?" world).0 ≡ err failed_run_error
unfolding run_agent add_user_message add_message insert_message initial_state guard_graph run_graph
    load_context next_node discover_tools plan World.complete
hidden_failure_test = refl

abbrev refusal : String
refusal = "Unknown tool 'crm__search_leads'. Available tools are: none."

abbrev call : ToolCall
call = call_of proposal

abbrev tried : Progress
tried = noted call (failure_result call refusal 0) refusal none (refusal ∷ []) (no_progress state)

execute_calls_test :
    (execute_calls deps state (proposal ∷ []) (no_progress state) world).0 ≡ ok tried
unfolding execute_calls execute deny_unknown_tool lookup settle_call note_result add_tool_result
    add_message insert_message failure_result agent_visible_result initial_state catalog_names
    sort_texts join repr_str render_for_model
execute_calls_test = refl

execute_calls-IsHandled_example :
    IsHandled
      (proposal ∷ [])
      (no_progress state)
      tried
      world
      (execute_calls deps state (proposal ∷ []) (no_progress state) world).1
execute_calls-IsHandled_example =
    execute_calls-IsHandled deps state (proposal ∷ []) (no_progress state) tried world
      orderly.leaves execute_calls_test

abbrev grant : ApprovalGrant
grant = record {
  approval_id = 1;
  tool_name = "crm__search_leads";
  server_name = "crm";
  arguments = end;
  arguments_hash = "{}";
  approved_by = 7;
  approved_at = 1;
}

-- The tool of the grant is gone.
abbrev refused : ExecutionOutcome
refused = record {
  status = denied;
  call = approved_call grant;
  result = some (failure_result (approved_call grant) refusal 0);
  approval = none;
  decision = none;
  message = refusal;
}

unfoldable database_after : Database
database_after = (execute_approved gateway grant (record { user_role = operator }) 3 7 database).1

run_graph-converse_example :
    run_graph deps 20 Node.plan state world
    ≡ (some (converse deps 7 state world).0, (converse deps 7 state world).1)
unfolding initial_state
run_graph-converse_example =
    run_graph-converse deps 20 state world orderly (omega arith) (omega arith)

abbrev search_leads : Tool
search_leads = record {
  name = "search_leads";
  description = none;
  title = none;
  input_schema = none;
  output_schema = none;
  annotations = none;
}

-- A catalog with a tool to read and one that is HIGH_RISK.
abbrev stocked : AgentDependencies
stocked = record deps {
  gateway = record gateway {
    manager = record {
      connections = [];
      catalog = catalog_of (
          build_tool_spec "crm" search_leads
          ∷ build_tool_spec "email" (record search_leads { name = "send_email" })
          ∷ []);
      failures = [];
    };
  };
}

stocked-IsLocal : All IsLocal (specs_of stocked.gateway.manager.catalog)
stocked-IsLocal = catalog_of-specs IsLocal _ (
  build_tool_spec-IsLocal "crm" search_leads,
  (build_tool_spec-IsLocal "email" (record search_leads { name = "send_email" }), tt),
)

abbrev looking : AgentState
looking = record state { user_role = viewer }

discover_tools_test :
    map {B = String}
      (λ (s : ToolSpec). s.qualified_name)
      (specs_of (visible_catalog stocked looking))
    ≡ "crm__search_leads" ∷ []
unfolding visible_catalog initial_state readable_only by_permission catalog_of add_specs specs_of
    insert build_tool_spec qualify classify lookup tool_permissions
discover_tools_test = refl

discover_tools-IsReadable_example :
    (s' : AgentState) × ((discover_tools stocked looking world).0 ≡ ok s')
    × (looking.user_role ≡ viewer
        → All (IsReadable stocked.gateway.manager.catalog) s'.available_tools)
    × (looking.user_role ≢ viewer → s'.available_tools ≡ specs_of stocked.gateway.manager.catalog)
discover_tools-IsReadable_example = discover_tools-IsReadable stocked looking world stocked-IsLocal
