-- ===== src/Agent/Promises.antt =====
-- The promises of `AgentRunner.run` of app/agents/runner.py to the route that calls it.
use mathlib.Core.List.{append_assoc}
use mcp_business_assistant.Prelude.{
  Option, ◌↔◌, ℕ, ◌+◌, ◌-◌, ◌*◌, ◌≤◌, String, ◌≡◌, ◌≢◌, refl, ◌∙◌, inl, inr, none, some, arith,
  length, List, ◌∷◌, ◌++◌, All, Bool-cases,
}
use mcp_business_assistant.Errors.{ok, err, crash}
use mcp_business_assistant.Enums.{UserRole, MessageRole}
use mcp_business_assistant.Mcp.Types.{ToolCall}
use mcp_business_assistant.Conversation.Transcript.{Message, new_message, add_user_message}
use mcp_business_assistant.Conversation.Numbering.{
  IsOrdered, IsNext, IsTaken, add_message-IsOrdered, add_message-none_iff,
}
use mcp_business_assistant.Agent.State.{AgentState, initial_state}
use mcp_business_assistant.Agent.World.{AgentDependencies, World, Run, follow, flushed}
use mcp_business_assistant.Agent.Graph.{Node, Outcome, run_graph}
use mcp_business_assistant.Agent.Trail.{MayRun, IsAlone}
use mcp_business_assistant.Agent.Steps.{IsOrderly}
use mcp_business_assistant.Agent.Moves.{nodes_left, budget}
use mcp_business_assistant.Agent.Loop.{Concluded, run_graph-Concluded}
use mcp_business_assistant.Agent.Returns.{IsReliable, Unbroken, run_graph-Unbroken}
use mcp_business_assistant.Agent.Runs.{
  IsReported, traced, reported, after_message, started, run_agent-Finished, after_message-Finished,
}
use mcp_business_assistant.Agent.Runner.{
  AgentRunResult, guard_graph, same_status, mirrored_status, sync_conversation_status, run_result,
  report, run_agent, run_from,
}

short :
    (deps : AgentDependencies) (role : UserRole) (most limit left questions : ℕ) (w : World)
    (x : Outcome)
    → Concluded deps role most limit left questions w x
    → left ≤ limit
    → x.0 ≢ none
short deps role most limit left questions w (none, v) (less, _) enough h =
    absurd (omega (arith, less, enough))
short deps role most limit left questions w (some r, v) c enough h = absurd (cc (h))

-- With a recursion limit of three nodes for each planning pass and four more, a run of the graph
-- comes to an end before the limit, whatever the model and the servers answer.
pub run_graph-stops :
    (deps : AgentDependencies) (limit : ℕ) (s : AgentState) (w : World)
    → IsOrderly deps
    → s.iteration ≤ s.max_iterations
    → 3 * (s.max_iterations - s.iteration) + 4 ≤ limit
    → (run_graph deps limit Node.load_context s w).0 ≢ none
run_graph-stops deps limit s w orderly within enough =
    short deps s.user_role s.max_iterations limit (nodes_left Node.load_context s)
      (budget Node.load_context s) w (run_graph deps limit Node.load_context s w)
      (run_graph-Concluded deps limit Node.load_context s w orderly within) enough

-- During a run for a user, whatever the model proposes and however the run ends, the calls that are
-- handed to the MCP manager are calls of tools of the catalog that the registry classifies READ, or
-- WRITE where the user is not a viewer and the settings ask no approval for writes.
pub run_agent-dispatched :
    (deps : AgentDependencies) (u : ℕ) (role : UserRole) (message : String) (w : World)
    → IsOrderly deps
    → (calls : List ToolCall) × ((run_agent deps u role message w).1.database.dispatched
        ≡ w.database.dispatched ++ calls)
      × All (MayRun deps.gateway role) calls
run_agent-dispatched deps u role message w orderly =
    let (_, t) = traced deps role _ _ _ _ (run_agent-Finished deps u role message w orderly) in
    (t.calls, t.sent, t.permitted)

-- A run asks the language model at most as often as the settings allow planning passes.
pub run_agent-asked :
    (deps : AgentDependencies) (u : ℕ) (role : UserRole) (message : String) (w : World)
    → IsOrderly deps
    → length (run_agent deps u role message w).1.asked ≤ length w.asked + deps.agent_max_iterations
run_agent-asked deps u role message w orderly =
    let (_, t) = traced deps role _ _ _ _ (run_agent-Finished deps u role message w orderly) in
    t.asked

-- Where no other session adds turns to the transcripts meanwhile, however a run ends, the
-- transcript keeps what was in it, goes on with the message of the user, and stays in the order of
-- its numbers.
pub run_agent-transcript :
    (deps : AgentDependencies) (u : ℕ) (role : UserRole) (message : String) (w : World)
    → IsOrderly deps
    → IsAlone deps
    → IsOrdered w.messages
    → (turns : List Message) × ((run_agent deps u role message w).1.messages
        ≡ w.messages
          ++ new_message w.messages deps.conversation_id MessageRole.user
              (some message)
              none
              none
              none
              none
            ∷ turns)
      × IsOrdered (run_agent deps u role message w).1.messages
unfolding after_message
run_agent-transcript deps u role message w orderly alone ordered =
    let (_, t) =
      traced deps role _ _ _ _
        (after_message-Finished deps u role message w alone orderly ordered) in
    (
      t.turns,
      t.transcript alone ∙ append_assoc w.messages _ t.turns,
      t.ordered alone
          (add_message-IsOrdered w.messages deps.conversation_id MessageRole.user (some message)
            none none none none ordered).1,
    )

-- A run that returns has an answer that is not empty and a status that is not RUNNING; it awaits an
-- approval only with a pending one and is completed only without one, the planning passes are within
-- the settings, and the status of the conversation is the one that mirrors it.
pub run_agent-IsReported :
    (deps : AgentDependencies) (u : ℕ) (role : UserRole) (message : String) (w : World)
    (r : AgentRunResult)
    → IsOrderly deps
    → (run_agent deps u role message w).0 ≡ ok r
    → IsReported deps.agent_max_iterations r (run_agent deps u role message w).1
run_agent-IsReported deps u role message w r orderly returns =
    reported deps role _ deps.agent_max_iterations _ _ r
      (run_agent-Finished deps u role message w orderly) returns

-- A state that the graph ended with is reported.
report-ok :
    (deps : AgentDependencies) (s : AgentState) (v : World)
    → (r : AgentRunResult) × ((report deps s v).0 ≡ ok r)
unfolding sync_conversation_status
report-ok deps s v =
    elim (Bool-cases (same_status v.conversation_status (mirrored_status s.status))) [
      | inl same ↦ (run_result deps s, rw same refl)
      | inr changed ↦ (run_result deps s, rw changed refl)
    ]

guarded-ok :
    (deps : AgentDependencies) (u : ℕ) (x : Outcome)
    → Unbroken x
    → x.0 ≢ none
    → (r : AgentRunResult) × ((follow (report deps) (guard_graph deps u x)).0 ≡ ok r)
unfolding guard_graph
guarded-ok deps u (none, v) sound stops = absurd (stops refl)
guarded-ok deps u (some (err e), v) sound stops = absurd (sound tt)
guarded-ok deps u (some crash, v) sound stops = absurd (sound tt)
guarded-ok deps u (some (ok s), v) sound stops = report-ok deps s v

-- Where the model answers or fails with an LLMError, no call of a tool ends with an exception that
-- is no AppError, no other session adds turns to the transcripts meanwhile, and the recursion limit
-- is at least three times the limit of planning passes and four, a run returns a result.
pub run_agent_returns :
    (deps : AgentDependencies) (u : ℕ) (role : UserRole) (message : String) (w : World)
    → IsOrderly deps
    → IsReliable deps
    → IsAlone deps
    → IsOrdered w.messages
    → 3 * deps.agent_max_iterations + 4 ≤ deps.recursion_limit
    → (r : AgentRunResult) × ((run_agent deps u role message w).0 ≡ ok r)
unfolding initial_state after_message
run_agent_returns deps u role message w orderly reliable alone ordered enough =
    let s = initial_state deps.conversation_id u role message deps.agent_max_iterations in
    let v = after_message deps message w in
    let after =
      (add_message-IsOrdered w.messages deps.conversation_id MessageRole.user (some message) none
        none none none ordered).1 in
    rw (started deps u role message w alone ordered) (
      guarded-ok deps u (run_graph deps deps.recursion_limit Node.load_context s v)
        (run_graph-Unbroken deps reliable alone deps.recursion_limit Node.load_context s v after)
        (run_graph-stops deps deps.recursion_limit s v orderly (omega arith)
          (omega (arith, enough))))

guarded_never :
    (deps : AgentDependencies) (u : ℕ) (x : Outcome)
    → (follow (report deps) (guard_graph deps u x)).0 ≢ crash
unfolding guard_graph
guarded_never deps u (none, v) h = cc (h)
guarded_never deps u (some (err e), v) h = cc (h)
guarded_never deps u (some crash, v) h = cc (h)
guarded_never deps u (some (ok s), v) h = let (r, returns) = report-ok deps s v in cc (h, returns)

-- A row that could not be written is the only exception that a step lets through.
flushed-crash_iff :
    (f : Unit {0} → Run AgentRunResult) (standing : List Message) (o : Option (List Message))
    (w : World)
    → ((v : World) → (f tt v).0 ≢ crash)
    → ((follow f (flushed standing o w)).0 ≡ crash) ↔ (o ≡ none)
flushed-crash_iff f standing none w never = (λ _. refl, λ _. refl)
flushed-crash_iff f standing (some ms) w never =
    (λ h. absurd (never (record w { messages = ms }) h), λ h. absurd (cc (h)))

-- An exception that is no AppError reaches the caller exactly where the message of the user cannot
-- be written: where a row of the conversation that stands by then has the number that the message
-- gets from the rows that were read. Whatever the model, the servers and the tools do afterwards,
-- and also at the recursion limit, a run ends with a result or an AppError.
pub run_agent-crash_iff :
    (deps : AgentDependencies) (u : ℕ) (role : UserRole) (message : String) (w : World)
    → (n : ℕ) × IsNext deps.conversation_id (deps.arriving w.messages) n
      × (((run_agent deps u role message w).0 ≡ crash)
          ↔ IsTaken deps.conversation_id n (deps.arriving (deps.arriving w.messages)))
unfolding run_agent add_user_message initial_state
run_agent-crash_iff deps u role message w =
    let read = deps.arriving w.messages in
    let (n, next, taken) =
      add_message-none_iff read (deps.arriving read) deps.conversation_id MessageRole.user
        (some message) none none none none in
    let s = initial_state deps.conversation_id u role message deps.agent_max_iterations in
    let (only, always) =
      flushed-crash_iff (λ _. run_from deps s) (deps.arriving read) _ w
        (λ v. guarded_never deps u (run_graph deps deps.recursion_limit Node.load_context s v)) in
    (n, next, (λ h. taken.0 (only h), λ h. always (taken.1 h)))
