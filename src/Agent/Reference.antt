-- ===== src/Agent/Reference.antt =====
-- The graph of app/agents/graph.py against the loop that its documentation draws: plan, and while
-- the model proposes calls execute and validate them and plan again, then respond.
use mcp_business_assistant.Prelude.{
  ℕ, zero, suc, ◌+◌, ◌-◌, ◌*◌, ◌≤◌, ◌<◌, ◌≡◌, refl, inl, inr, Bool, true, false, not, ◌&&◌, some,
  arith, ap, Bool-cases, is_some, if◌then◌else◌,
}
use mcp_business_assistant.Errors.{Result, ok, err, crash}
use mcp_business_assistant.Agent.State.{
  AgentState, is_failed, has_pending_calls, iteration_budget_exhausted,
}
use mcp_business_assistant.Agent.World.{AgentDependencies, World, Run, ◌>>=◌, follow}
use mcp_business_assistant.Agent.Nodes.{plan, has_text}
use mcp_business_assistant.Agent.Nodes.Execute.{execute_tools, validate_results}
use mcp_business_assistant.Agent.Nodes.Respond.{respond}
use mcp_business_assistant.Agent.Graph.{
  Node, next_node, route_after_plan, route_after_validation, run_node, Outcome, advance, run_graph,
}
use mcp_business_assistant.Agent.Steps.{IsOrderly}
use mcp_business_assistant.Agent.Moves.{NodeEnds, nodes_left}
use mcp_business_assistant.Agent.Loop.{run_node-NodeEnds}

abbrev wants_tools : AgentState → Bool
wants_tools s = not (is_failed s.status) && has_pending_calls s

abbrev goes_on : AgentState → Bool
goes_on s =
    not (is_some s.pending_approval)
    && not (has_text s.final_response)
    && not (iteration_budget_exhausted s)

-- The loop, with so many passes.
unfoldable pub converse : AgentDependencies → ℕ → AgentState → Run AgentState
converse deps zero s = respond deps s
converse deps (suc passes) s = plan deps s >>= λ chosen.
    if wants_tools chosen
    then execute_tools deps chosen >>= (λ acted. validate_results deps acted >>= λ checked.
        if goes_on checked then converse deps passes checked else respond deps checked)
    else respond deps chosen

abbrev reported : Result AgentState × World → Outcome
reported (r, w) = (some r, w)

route_on : (s : AgentState) → goes_on s ≡ true → route_after_validation s ≡ Node.plan
unfolding route_after_validation
route_on s h = ground (arith, h)

route_off : (s : AgentState) → goes_on s ≡ false → route_after_validation s ≡ Node.respond
unfolding route_after_validation
route_off s h = ground (arith, h)

route_tools : (s : AgentState) → wants_tools s ≡ true → route_after_plan s ≡ Node.execute_tools
unfolding route_after_plan
route_tools s h = ground (arith, h)

route_answer : (s : AgentState) → wants_tools s ≡ false → route_after_plan s ≡ Node.respond
unfolding route_after_plan
route_answer s h = ground (arith, h)

module _ (deps : AgentDependencies) where
  ended :
      (limit : ℕ) (x : Result AgentState × World)
      → advance (run_graph deps limit) Node.respond x ≡ reported x
  unfolding next_node
  ended limit (ok s, w) = refl
  ended limit (err e, w) = refl
  ended limit (crash, w) = refl

  responds :
      (limit : ℕ) (s : AgentState) (w : World)
      → 1 ≤ limit
      → run_graph deps limit Node.respond s w ≡ reported (respond deps s w)
  unfolding run_graph run_node
  responds zero s w h = absurd (omega (arith, h))
  responds (suc limit) s w h = ended limit (respond deps s w)

  -- Passes of the graph from the node `plan` on are passes of the loop.
  Agrees : ℕ → AgentState → World → Type 0
  Agrees passes s w =
      (limit : ℕ)
      → nodes_left Node.plan s ≤ limit
      → run_graph deps limit Node.plan s w ≡ reported (converse deps passes s w)

  -- What follows the validation, in the loop.
  go_on : ℕ → AgentState → Run AgentState
  go_on passes s = if goes_on s then converse deps passes s else respond deps s

  after_validation :
      (passes limit : ℕ) (s : AgentState) (w : World) (x : Result AgentState × World)
      → NodeEnds deps Node.validate_results s w x
      → nodes_left Node.validate_results s ≤ suc limit
      → ((s' : AgentState) (v : World)
          → s'.iteration ≤ s'.max_iterations
          → nodes_left Node.plan s' < nodes_left Node.validate_results s
          → Agrees passes s' v)
      → advance (run_graph deps limit) Node.validate_results x ≡ reported (follow (go_on passes) x)
  unfolding next_node go_on Agrees
  after_validation passes limit s w (err e, v) h enough go = refl
  after_validation passes limit s w (crash, v) h enough go = refl
  after_validation passes limit s w (ok s', v) h enough go = elim (Bool-cases (goes_on s')) [
    | inl on ↦
        let edge = route_on s' on in
        let fewer = h.fewer Node.plan (ap (λ n. some n) edge) in
        rw (edge, on) (go s' v h.iterations fewer limit (omega (arith, fewer, enough)))
    | inr off ↦
        let edge = route_off s' off in rw (edge, off) (responds limit s' v (omega (arith, enough)))
  ]

  -- What follows the execution of the calls, in the loop.
  check : ℕ → AgentState → Run AgentState
  check passes s w = follow (go_on passes) (validate_results deps s w)

  act : ℕ → AgentState → Run AgentState
  act passes s w = follow (check passes) (execute_tools deps s w)

  after_execution :
      (passes limit : ℕ) (s : AgentState) (w : World) (x : Result AgentState × World)
      → IsOrderly deps
      → NodeEnds deps Node.execute_tools s w x
      → nodes_left Node.execute_tools s ≤ suc limit
      → ((s' : AgentState) (v : World)
          → s'.iteration ≤ s'.max_iterations
          → nodes_left Node.plan s' + 1 < nodes_left Node.execute_tools s
          → Agrees passes s' v)
      → advance (run_graph deps limit) Node.execute_tools x ≡ reported (follow (check passes) x)
  unfolding next_node check run_graph run_node
  after_execution passes limit s w (err e, v) orderly h enough go = refl
  after_execution passes limit s w (crash, v) orderly h enough go = refl
  after_execution passes zero s w (ok s', v) orderly h enough go = absurd (omega (arith, enough))
  after_execution passes (suc limit) s w (ok s', v) orderly h enough go =
      let fewer = h.fewer Node.validate_results refl in
      after_validation passes limit s' v (validate_results deps s' v)
        (run_node-NodeEnds deps Node.validate_results s' v orderly h.iterations)
        (omega (arith, fewer, enough))
        (λ s'' u within less. go s'' u within (omega (arith, fewer, less)))

  -- What follows the planning, in the loop.
  choose : ℕ → AgentState → Run AgentState
  choose passes s = if wants_tools s then act passes s else respond deps s

  after_planning :
      (passes limit : ℕ) (s : AgentState) (w : World) (x : Result AgentState × World)
      → IsOrderly deps
      → NodeEnds deps Node.plan s w x
      → nodes_left Node.plan s ≤ suc limit
      → ((s' : AgentState) (v : World)
          → s'.iteration ≤ s'.max_iterations
          → nodes_left Node.plan s' + 2 < nodes_left Node.plan s
          → Agrees passes s' v)
      → advance (run_graph deps limit) Node.plan x ≡ reported (follow (choose passes) x)
  unfolding next_node choose act run_graph run_node
  after_planning passes limit s w (err e, v) orderly h enough go = refl
  after_planning passes limit s w (crash, v) orderly h enough go = refl
  after_planning passes zero s w (ok s', v) orderly h enough go = absurd (omega (arith, enough))
  after_planning passes (suc limit) s w (ok s', v) orderly h enough go =
      elim (Bool-cases (wants_tools s')) [
        | inl tools ↦
            let edge = route_tools s' tools in
            let fewer = h.fewer Node.execute_tools (ap (λ n. some n) edge) in
            rw (edge, tools)
              (after_execution passes limit s' v (execute_tools deps s' v) orderly
                (run_node-NodeEnds deps Node.execute_tools s' v orderly h.iterations)
                (omega (arith, fewer, enough))
                (λ s'' u within less. go s'' u within (omega (arith, fewer, less))))
        | inr answer ↦
            let edge = route_answer s' answer in
            rw (edge, answer) (responds (suc limit) s' v (omega arith))
      ]

  agrees :
      (passes : ℕ) (s : AgentState) (w : World)
      → IsOrderly deps
      → s.iteration ≤ s.max_iterations
      → s.max_iterations - s.iteration < passes
      → Agrees passes s w
  unfolding Agrees converse choose act check go_on run_graph run_node
  agrees zero s w orderly within left limit enough = absurd (omega (arith, left))
  agrees (suc passes) s w orderly within left zero enough = absurd (omega (arith, enough))
  agrees (suc passes) s w orderly within left (suc limit) enough =
      after_planning passes limit s w (plan deps s w) orderly
        (run_node-NodeEnds deps Node.plan s w orderly within) enough
        (λ s' v within' fewer. agrees passes s' v orderly within' (omega (arith, fewer, left)))

-- From the node `plan` on, with a recursion limit of three nodes for each planning pass that is left
-- and two more, the graph does what the loop does that plans, executes and validates while there are
-- calls and passes left, and then responds: the same result and the same world, errors included.
pub run_graph-converse :
    (deps : AgentDependencies) (limit : ℕ) (s : AgentState) (w : World)
    → IsOrderly deps
    → s.iteration ≤ s.max_iterations
    → 3 * (s.max_iterations - s.iteration) + 2 ≤ limit
    → run_graph deps limit Node.plan s w ≡ (
      some (converse deps (suc (s.max_iterations - s.iteration)) s w).0,
      (converse deps (suc (s.max_iterations - s.iteration)) s w).1,
    )
unfolding Agrees
run_graph-converse deps limit s w orderly within enough =
    agrees deps (suc (s.max_iterations - s.iteration)) s w orderly within (omega arith) limit enough
