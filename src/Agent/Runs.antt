-- ===== src/Agent/Runs.antt =====
-- A run of the agent from the message to the result, and what it leaves behind.
use mathlib.Core.Path.{subst}
use mcp_business_assistant.Prelude.{
  ℕ, ◌-◌, ◌≤◌, String, ◌≡◌, ◌≢◌, refl, inl, inr, true, false, none, some, arith, [], ◌∷◌, ◌++◌,
  Bool-cases, is_some,
}
use mcp_business_assistant.Prelude.Text.{is_empty_text}
use mcp_business_assistant.Errors.{Result, ok, err, crash}
use mcp_business_assistant.Enums.{UserRole, ConversationStatus, MessageRole}
use mcp_business_assistant.Conversation.Transcript.{new_message, add_user_message}
use mcp_business_assistant.Conversation.Numbering.{IsOrdered, add_message-IsOrdered}
use mcp_business_assistant.Agent.State.{AgentStatus, running, completed, AgentState, initial_state}
use mcp_business_assistant.Agent.World.{AgentDependencies, World, follow}
use mcp_business_assistant.Agent.Graph.{Node, Outcome, run_graph}
use mcp_business_assistant.Agent.Trail.{
  Trail, Trail-audit, Trail-more, Trail-trans, persist-Trail, IsAlone,
}
use mcp_business_assistant.Agent.Steps.{IsOrderly}
use mcp_business_assistant.Agent.Moves.{IsAnswered, nodes_left}
use mcp_business_assistant.Agent.Loop.{Concluded, run_graph-Concluded}
use mcp_business_assistant.Agent.Runner.{
  AgentRunResult, guard_graph, same_status, mirrored_status, sync_conversation_status, run_result,
  report, run_from, run_agent,
}

-- The trail of a run, whatever became of the status of the conversation.
abbrev pub Traced : AgentDependencies → UserRole → ℕ → World → World → Type 0
Traced deps role questions w w' =
    (c : ConversationStatus) × Trail deps role questions w (record w' { conversation_status = c })

-- The result of a run and the world it leaves.
pub record IsReported (limit : ℕ) (r : AgentRunResult) (w' : World) : Type 0 where
  pub spoken : is_empty_text r.response ≡ false
  pub over : r.status ≢ running
  pub waiting : r.status ≡ AgentStatus.awaiting_approval → is_some r.pending_approval ≡ true
  pub complete : r.status ≡ completed → r.pending_approval ≡ none
  pub within : r.iterations ≤ limit
  pub mirrored : w'.conversation_status ≡ mirrored_status r.status

abbrev pub Finished :
    AgentDependencies
    → UserRole
    → (limit questions : ℕ) → World
    → Result AgentRunResult × World
    → Type 0
Finished deps role limit questions w (ok r, w') =
    IsReported limit r w' × Traced deps role questions w w'
Finished deps role limit questions w (err e, w') = Traced deps role questions w w'
Finished deps role limit questions w (crash, w') = Traced deps role questions w w'

same_status_sound : (a b : ConversationStatus) → same_status a b ≡ true → a ≡ b
same_status_sound a b h = ground arith

answer-IsReported :
    (deps : AgentDependencies) (s : AgentState) (w : World) (limit : ℕ)
    → IsAnswered s
    → w.conversation_status ≡ mirrored_status s.status
    → s.iteration ≤ limit
    → IsReported limit (run_result deps s) w
answer-IsReported deps s w limit a m within = record {
  spoken = rw (a.response, a.spoken) a.spoken;
  over = a.over;
  waiting = a.waiting;
  complete = a.complete;
  within = within;
  mirrored = m;
}

synced :
    (deps : AgentDependencies) (role : UserRole) (most questions : ℕ) (s : AgentState) (w v : World)
    → IsAnswered s
    → s.iteration ≤ most
    → Trail deps role questions w v
    → Finished deps role most questions w (report deps s v)
unfolding sync_conversation_status
synced deps role most questions s w v a within t =
    elim (Bool-cases (same_status v.conversation_status (mirrored_status s.status))) [
      | inl same ↦ rw same (
        answer-IsReported deps s v most a
            (same_status_sound v.conversation_status (mirrored_status s.status) same) within,
        (v.conversation_status, t),
      )
      | inr changed ↦ rw changed (
        answer-IsReported deps s (record v { conversation_status = mirrored_status s.status }) most
            a refl within,
        (v.conversation_status, t),
      )
    ]

guarded :
    (deps : AgentDependencies) (role : UserRole) (u most limit left questions : ℕ) (w : World)
    (x : Outcome)
    → Concluded deps role most limit left questions w x
    → Finished deps role most questions w (follow (report deps) (guard_graph deps u x))
unfolding guard_graph
guarded deps role u most limit left questions w (some (ok s), v) (a, i, t) =
    synced deps role most questions s w v a i t
guarded deps role u most limit left questions w (some (err e), v) t = (v.conversation_status, t)
guarded deps role u most limit left questions w (some crash, v) t =
    (v.conversation_status, Trail-audit _ t)
guarded deps role u most limit left questions w (none, v) (_, t) =
    (v.conversation_status, Trail-audit _ t)

-- The rest of a run, from the state on.
run_from-Finished :
    (deps : AgentDependencies) (u : ℕ) (role : UserRole) (message : String) (v : World)
    → IsOrderly deps
    → Finished deps role deps.agent_max_iterations deps.agent_max_iterations v (
        run_from deps
          (initial_state deps.conversation_id u role message deps.agent_max_iterations)
          v)
unfolding initial_state
run_from-Finished deps u role message v orderly =
    let s = initial_state deps.conversation_id u role message deps.agent_max_iterations in
    let x = run_graph deps deps.recursion_limit Node.load_context s v in
    let all : deps.agent_max_iterations - 0 ≡ deps.agent_max_iterations = omega arith in
    let c =
      run_graph-Concluded deps deps.recursion_limit Node.load_context s v orderly (omega arith) in
    guarded deps role u deps.agent_max_iterations deps.recursion_limit
      (nodes_left Node.load_context s) deps.agent_max_iterations v x
      (subst
        (λ k.
          Concluded deps role deps.agent_max_iterations deps.recursion_limit
            (nodes_left Node.load_context s) k v x)
        all c)

Traced-after :
    (deps : AgentDependencies) (role : UserRole) (questions : ℕ) (w v v' : World)
    → Trail deps role 0 w v
    → Traced deps role questions v v'
    → Traced deps role questions w v'
Traced-after deps role questions w v v' before (c, t) = (c, Trail-trans before t (omega arith))

Finished-after :
    (deps : AgentDependencies) (role : UserRole) (limit questions : ℕ) (w v : World)
    (x : Result AgentRunResult × World)
    → Trail deps role 0 w v
    → Finished deps role limit questions v x
    → Finished deps role limit questions w x
Finished-after deps role limit questions w v (ok r, v') before (reports, t) =
    (reports, Traced-after deps role questions w v v' before t)
Finished-after deps role limit questions w v (err e, v') before t =
    Traced-after deps role questions w v v' before t
Finished-after deps role limit questions w v (crash, v') before t =
    Traced-after deps role questions w v v' before t

started_Finished :
    (deps : AgentDependencies) (u : ℕ) (role : UserRole) (message : String) (w : World)
    (x : Result (Unit {0}) × World)
    → IsOrderly deps
    → Trail deps role 0 w x.1
    → Finished deps role deps.agent_max_iterations deps.agent_max_iterations w (
        follow
          (λ _.
            run_from deps
              (initial_state deps.conversation_id u role message deps.agent_max_iterations))
          x)
started_Finished deps u role message w (ok _, v) orderly t =
    Finished-after deps role _ _ w v _ t (run_from-Finished deps u role message v orderly)
started_Finished deps u role message w (err e, v) orderly t = (v.conversation_status, Trail-more t)
started_Finished deps u role message w (crash, v) orderly t = (v.conversation_status, Trail-more t)

pub run_agent-Finished :
    (deps : AgentDependencies) (u : ℕ) (role : UserRole) (message : String) (w : World)
    → IsOrderly deps
    → Finished deps role deps.agent_max_iterations deps.agent_max_iterations w
        (run_agent deps u role message w)
unfolding run_agent add_user_message
run_agent-Finished deps u role message w orderly =
    started_Finished deps u role message w _ orderly (persist-Trail w _ _ _ _ _ _ _)

-- The world after the message of the user was added, where the run is alone.
unfoldable pub after_message : AgentDependencies → String → World → World
after_message deps message w = record w {
  messages =
      w.messages
      ++ new_message w.messages deps.conversation_id MessageRole.user (some message) none none none
          none
        ∷ [];
}

pub started :
    (deps : AgentDependencies) (u : ℕ) (role : UserRole) (message : String) (w : World)
    → IsAlone deps
    → IsOrdered w.messages
    → run_agent deps u role message w
      ≡ run_from deps
          (initial_state deps.conversation_id u role message deps.agent_max_iterations)
          (after_message deps message w)
unfolding run_agent add_user_message after_message
started deps u role message w alone ordered =
    rw
      (
        alone (deps.arriving w.messages),
        alone w.messages,
        (add_message-IsOrdered w.messages deps.conversation_id MessageRole.user (some message) none
            none none none ordered).0,
      )
      refl

-- Where the run is alone, what follows the message of the user.
pub after_message-Finished :
    (deps : AgentDependencies) (u : ℕ) (role : UserRole) (message : String) (w : World)
    → IsAlone deps
    → IsOrderly deps
    → IsOrdered w.messages
    → Finished deps role deps.agent_max_iterations deps.agent_max_iterations
        (after_message deps message w)
        (run_agent deps u role message w)
after_message-Finished deps u role message w alone orderly ordered =
    rw (started deps u role message w alone ordered)
      (run_from-Finished deps u role message (after_message deps message w) orderly)

pub traced :
    (deps : AgentDependencies) (role : UserRole) (most questions : ℕ) (w : World)
    (x : Result AgentRunResult × World)
    → Finished deps role most questions w x
    → Traced deps role questions w x.1
traced deps role most questions w (ok r, v) (_, t) = t
traced deps role most questions w (err e, v) t = t
traced deps role most questions w (crash, v) t = t

pub reported :
    (deps : AgentDependencies) (role : UserRole) (most questions : ℕ) (w : World)
    (x : Result AgentRunResult × World) (r : AgentRunResult)
    → Finished deps role most questions w x
    → x.0 ≡ ok r
    → IsReported most r x.1
reported deps role most questions w (ok r', v) r (reports, _) e =
    let same : r' ≡ r = cc (e) in subst (λ q. IsReported most q v) same reports
reported deps role most questions w (err e, v) r _ h = absurd (cc (h))
reported deps role most questions w (crash, v) r _ h = absurd (cc (h))
