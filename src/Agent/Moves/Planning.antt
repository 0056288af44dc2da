-- ===== src/Agent/Moves/Planning.antt =====
-- The nodes `load_context`, `discover_tools` and `plan`.
use mcp_business_assistant.Prelude.{◌-◌, ◌≤◌, ◌<◌, refl, inl, inr, arith, Bool-cases, leb}
use mcp_business_assistant.Errors.{Result, ok, err, crash}
use mcp_business_assistant.Conversation.Messages.{LlmResponse}
use mcp_business_assistant.Conversation.Transcript.{add_assistant_message}
use mcp_business_assistant.Agent.State.{AgentState}
use mcp_business_assistant.Agent.World.{AgentDependencies, World, follow, caught, complete}
use mcp_business_assistant.Agent.Nodes.{
  load_context, discover_tools, plan, planned, is_llm_error, note_decision, planning_prompt,
}
use mcp_business_assistant.Agent.Graph.{Node, next_node, route_after_plan}
use mcp_business_assistant.Agent.Trail.{
  Trail, Trail-refl, Trail-trans, Trail-audit, persist-Trail, Ends-follow, Ends-always,
}
use mcp_business_assistant.Agent.Steps.{IsOrderly, complete-Trail}
use mcp_business_assistant.Agent.Moves.{Moves, NodeEnds}

module _ (deps : AgentDependencies) (s : AgentState) (w : World) (orderly : IsOrderly deps)
    (within : s.iteration ≤ s.max_iterations) where
  pub load_context-NodeEnds : NodeEnds deps Node.load_context s w (load_context deps s w)
  unfolding load_context next_node
  load_context-NodeEnds = record {
    questions = 0;
    trail = Trail-audit _ (Trail-refl w);
    spent = omega arith;
    paid = λ n h. ground (arith, h);
    role = refl;
    limit = refl;
    iterations = within;
    fewer = λ n h. ground (arith, h);
    answered = λ h. absurd (cc (h));
  }

  pub discover_tools-NodeEnds : NodeEnds deps Node.discover_tools s w (discover_tools deps s w)
  unfolding discover_tools next_node
  discover_tools-NodeEnds = record {
    questions = 0;
    trail = Trail-audit _ (Trail-refl w);
    spent = omega arith;
    paid = λ n h. ground (arith, h);
    role = refl;
    limit = refl;
    iterations = within;
    fewer = λ n h. ground (arith, h);
    answered = λ h. absurd (cc (h));
  }

  planned_Ends :
      (x : Result LlmResponse × World)
      → s.iteration < s.max_iterations
      → Trail deps s.user_role 1 w x.1
      → NodeEnds deps Node.plan s w (follow (planned deps s) (caught x))
  unfolding planned next_node route_after_plan add_assistant_message
  planned_Ends (crash, v) room t = Trail-trans t (Trail-refl v) (omega (arith, room))
  planned_Ends (err e, v) room t = elim (Bool-cases (is_llm_error e.kind)) [
    | inl known ↦ rw known (record {
      questions = 1;
      trail = Trail-audit _ t;
      spent = omega (arith, room);
      paid = λ n h. ground (arith, h, room);
      role = refl;
      limit = refl;
      iterations = within;
      fewer = λ n h. ground (arith, h);
      answered = λ h. absurd (cc (h));
    })
    | inr other ↦ rw other (Trail-trans t (Trail-refl v) (omega (arith, room)))
  ]
  planned_Ends (ok response, v) room t =
      Ends-follow (λ _ v'. Trail deps s.user_role 1 w v') (Moves deps Node.plan s w)
        (λ v'. Trail deps s.user_role 1 w v')
        (λ v'. Trail deps s.user_role (s.max_iterations - s.iteration) w v')
        (λ _. note_decision deps s response) _
        (Ends-always (λ v'. Trail deps s.user_role 1 w v') _
          (Trail-trans t (persist-Trail v _ _ _ _ _ _ _) (omega arith)))
        (λ v' t'. Trail-trans t' (Trail-refl v') (omega (arith, room)))
        (λ a v' t'. record {
          questions = 1;
          trail = Trail-audit _ t';
          spent = omega (arith, room);
          paid = λ n h. ground (arith, h, room);
          role = refl;
          limit = refl;
          iterations = omega (arith, room);
          fewer = λ n h. ground (arith, h, room);
          answered = λ h. absurd (cc (h));
        })

  pub plan-NodeEnds : NodeEnds deps Node.plan s w (plan deps s w)
  unfolding plan next_node route_after_plan
  plan-NodeEnds = elim (Bool-cases (leb s.max_iterations s.iteration)) [
    | inl exhausted ↦ rw exhausted (record {
      questions = 0;
      trail = Trail-refl w;
      spent = omega arith;
      paid = λ n h. ground (arith, h);
      role = refl;
      limit = refl;
      iterations = within;
      fewer = λ n h. ground (arith, h);
      answered = λ h. absurd (cc (h));
    })
    | inr room ↦ rw room (
        planned_Ends (complete deps (planning_prompt w.database.now s) w) (ground (arith, room))
          (complete-Trail deps s.user_role (planning_prompt w.database.now s) w orderly))
  ]
