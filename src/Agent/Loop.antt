-- ===== src/Agent/Loop.antt =====
-- A run along the edges of the graph: where it ends, and what it leaves behind.
use mathlib.Core.Path.{subst}
use mcp_business_assistant.Prelude.{
  ℕ, zero, suc, ◌+◌, ◌≤◌, ◌<◌, none, some, arith, Option-cases, inl, inr,
}
use mcp_business_assistant.Errors.{Result, ok, err, crash}
use mcp_business_assistant.Enums.{UserRole}
use mcp_business_assistant.Agent.State.{AgentState}
use mcp_business_assistant.Agent.World.{AgentDependencies, World}
use mcp_business_assistant.Agent.Graph.{
  Node, load_context, discover_tools, plan, execute_tools, validate_results, respond, next_node,
  run_node, Outcome, advance, run_graph,
}
use mcp_business_assistant.Agent.Trail.{Trail, Trail-refl, Trail-trans}
use mcp_business_assistant.Agent.Steps.{IsOrderly}
use mcp_business_assistant.Agent.Moves.{NodeEnds, IsAnswered, budget, nodes_left}
use mcp_business_assistant.Agent.Moves.Planning.{
  load_context-NodeEnds, discover_tools-NodeEnds, plan-NodeEnds,
}
use mcp_business_assistant.Agent.Moves.Acting.{execute_tools-NodeEnds, validate_results-NodeEnds}
use mcp_business_assistant.Agent.Moves.Answering.{respond-NodeEnds}

pub run_node-NodeEnds :
    (deps : AgentDependencies) (node : Node) (s : AgentState) (w : World)
    → IsOrderly deps
    → s.iteration ≤ s.max_iterations
    → NodeEnds deps node s w (run_node deps node s w)
unfolding run_node
run_node-NodeEnds deps load_context s w orderly within =
    load_context-NodeEnds deps s w orderly within
run_node-NodeEnds deps discover_tools s w orderly within =
    discover_tools-NodeEnds deps s w orderly within
run_node-NodeEnds deps plan s w orderly within = plan-NodeEnds deps s w orderly within
run_node-NodeEnds deps execute_tools s w orderly within =
    execute_tools-NodeEnds deps s orderly w within
run_node-NodeEnds deps validate_results s w orderly within =
    validate_results-NodeEnds deps s orderly w within
run_node-NodeEnds deps respond s w orderly within = respond-NodeEnds deps s w within

-- The end of a run that had so many nodes and so many requests to the model left, and had `left`
-- nodes to go at most.
abbrev pub Concluded :
    AgentDependencies → UserRole → (most limit left questions : ℕ) → World → Outcome → Type 0
Concluded deps role most limit left questions w (some (ok s'), w') =
    IsAnswered s' × (s'.iteration ≤ most) × Trail deps role questions w w'
Concluded deps role most limit left questions w (some (err e), w') = Trail deps role questions w w'
Concluded deps role most limit left questions w (some crash, w') = Trail deps role questions w w'
Concluded deps role most limit left questions w (none, w') =
    (limit < left) × Trail deps role questions w w'

positive : (node : Node) (s : AgentState) → 0 < nodes_left node s
positive load_context s = omega arith
positive discover_tools s = omega arith
positive plan s = omega arith
positive execute_tools s = omega arith
positive validate_results s = omega arith
positive respond s = omega arith

later :
    (deps : AgentDependencies) (role : UserRole) (most limit left left' n m k : ℕ) (w v : World)
    (x : Outcome)
    → left' < left
    → n + m ≤ k
    → Trail deps role n w v
    → Concluded deps role most limit left' m v x
    → Concluded deps role most (suc limit) left k w x
later deps role most limit left left' n m k w v (some (ok s'), w') fewer paid t (a, i, t') =
    (a, i, Trail-trans t t' paid)
later deps role most limit left left' n m k w v (some (err e), w') fewer paid t t' =
    Trail-trans t t' paid
later deps role most limit left left' n m k w v (some crash, w') fewer paid t t' =
    Trail-trans t t' paid
later deps role most limit left left' n m k w v (none, w') fewer paid t (short, t') =
    (omega (arith, short, fewer), Trail-trans t t' paid)

-- From what a node does to what the run does from there on.
onward :
    (deps : AgentDependencies) (limit : ℕ) (node : Node) (s : AgentState) (w : World)
    (x : Result AgentState × World)
    → NodeEnds deps node s w x
    → ((n : Node) (s' : AgentState) (w' : World)
        → s'.iteration ≤ s'.max_iterations
        → Concluded deps s'.user_role s'.max_iterations limit
            (nodes_left n s')
            (budget n s')
            w'
            (run_graph deps limit n s' w'))
    → Concluded deps s.user_role s.max_iterations
        (suc limit)
        (nodes_left node s)
        (budget node s)
        w
        (advance (run_graph deps limit) node x)
onward deps limit node s w (err e, w') t go = t
onward deps limit node s w (crash, w') t go = t
onward deps limit node s w (ok s', w') moved go = elim (Option-cases (next_node node s')) [
  | inl end ↦ rw end (
    moved.answered end,
    omega (arith, moved.iterations, moved.limit),
    Trail-trans moved.trail (Trail-refl w') (omega (arith, moved.spent)),
  )
  | inr (n, edge) ↦ rw edge (
      later deps s.user_role s.max_iterations limit (nodes_left node s) (nodes_left n s')
        moved.questions (budget n s') (budget node s) w w' (run_graph deps limit n s' w')
        (moved.fewer n edge) (moved.paid n edge) moved.trail
        (subst
          (λ k.
            Concluded deps s.user_role k limit (nodes_left n s') (budget n s') w'
              (run_graph deps limit n s' w'))
          moved.limit
          (subst
            (λ r.
              Concluded deps r s'.max_iterations limit (nodes_left n s') (budget n s') w'
                (run_graph deps limit n s' w'))
            moved.role (go n s' w' moved.iterations))))
]

pub run_graph-Concluded :
    (deps : AgentDependencies) (limit : ℕ) (node : Node) (s : AgentState) (w : World)
    → IsOrderly deps
    → s.iteration ≤ s.max_iterations
    → Concluded deps s.user_role s.max_iterations limit
        (nodes_left node s)
        (budget node s)
        w
        (run_graph deps limit node s w)
unfolding run_graph
run_graph-Concluded deps zero node s w orderly within =
    (positive node s, Trail-trans (Trail-refl w) (Trail-refl w) (omega arith))
run_graph-Concluded deps (suc limit) node s w orderly within =
    onward deps limit node s w (run_node deps node s w)
      (run_node-NodeEnds deps node s w orderly within)
      (λ n s' w' i. run_graph-Concluded deps limit n s' w' orderly i)
