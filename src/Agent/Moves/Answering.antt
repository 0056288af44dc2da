-- ===== src/Agent/Moves/Answering.antt =====
-- The node `respond`.
use Prim.Native.String.{String, [], ◌∷◌}
use text.Mathlib.TextLemmas.{nil-append, cons-append}
use mcp_business_assistant.Prelude.{
  ◌≤◌, ◌≡◌, refl, inl, inr, false, Option, none, some, arith, Bool-cases, is_some, is_empty,
}
use mcp_business_assistant.Prelude.Text.{◌⊕◌, is_empty_text, rstrip}
use mcp_business_assistant.Conversation.Transcript.{add_assistant_message}
use mcp_business_assistant.Agent.State.{PendingApproval, AgentState, successful_results}
use mcp_business_assistant.Agent.World.{AgentDependencies, World}
use mcp_business_assistant.Agent.Nodes.Respond.{
  summarise_without_model, answer_text, with_notice, persist_notice, closing_status, close_run,
  respond,
}
use mcp_business_assistant.Agent.Graph.{Node, next_node}
use mcp_business_assistant.Agent.Trail.{
  Trail, Trail-refl, Trail-audit, persist-Trail, Ends-follow, Ends-always,
}
use mcp_business_assistant.Agent.Moves.{Moves, NodeEnds, IsAnswered}

-- A joined text is empty only if both parts are.
pub spoken_start : (s t : String) → is_empty_text s ≡ false → is_empty_text (s ⊕ t) ≡ false
spoken_start [] t h = absurd (cc (h))
spoken_start (c ∷ s) t h = rw (cons-append c s t) refl

spoken_end : (s t : String) → is_empty_text t ≡ false → is_empty_text (s ⊕ t) ≡ false
spoken_end [] t h = rw (nil-append t) h
spoken_end (c ∷ s) t h = rw (cons-append c s t) refl

summarise_spoken : (s : AgentState) → is_empty_text (summarise_without_model s) ≡ false
unfolding summarise_without_model
summarise_spoken s = elim (Bool-cases (is_some s.pending_approval)) [
  | inl paused ↦ rw (summarise_without_model, paused) refl
  | inr free ↦ elim (Bool-cases (is_empty (successful_results s))) [
    | inr found ↦
        rw (summarise_without_model, free, found) (spoken_start "Here is what I found:\n" _ refl)
    | inl nothing ↦ elim (Bool-cases (is_empty s.errors)) [
      | inl silent ↦ rw (summarise_without_model, free, nothing, silent) refl
      | inr troubled ↦
          rw (summarise_without_model, free, nothing, troubled)
            (spoken_start "I could not complete that request. " _ refl)
    ]
  ]
]

answer_spoken :
    (s : AgentState) (o : Option String)
    → s.final_response ≡ o
    → is_empty_text (answer_text s) ≡ false
unfolding answer_text
answer_spoken s none h = rw (answer_text, h) (summarise_spoken s)
answer_spoken s (some text) h = elim (Bool-cases (is_empty_text text)) [
  | inl blank ↦ rw (answer_text, h, blank) (summarise_spoken s)
  | inr there ↦ rw (answer_text, h, there) there
]

notice_spoken :
    (pending : Option PendingApproval) (text : String)
    → is_empty_text text ≡ false
    → is_empty_text (with_notice pending text) ≡ false
notice_spoken none text h = h
notice_spoken (some pending) text h = spoken_end (rstrip text) _ (spoken_start "\n\n" _ refl)

answered :
    (s : AgentState) (text : String)
    → is_empty_text text ≡ false
    → IsAnswered (record s { final_response = some text; status = closing_status s })
answered s text spoken = record {
  text = text;
  response = refl;
  spoken = spoken;
  over = λ h. ground (arith, h);
  waiting = λ h. ground (arith, h);
  complete = λ h. ground (arith, h);
}

module _ (deps : AgentDependencies) (s : AgentState) (w : World)
    (within : s.iteration ≤ s.max_iterations) where
  persist_notice-Trail :
      (pending : Option PendingApproval) (text : String)
      → Trail deps s.user_role 0 w (persist_notice deps pending text w).1
  unfolding add_assistant_message
  persist_notice-Trail none text = Trail-refl w
  persist_notice-Trail (some pending) text = persist-Trail w _ _ _ _ _ _ _

  pub respond-NodeEnds : NodeEnds deps Node.respond s w (respond deps s w)
  unfolding respond next_node
  respond-NodeEnds =
      let text = with_notice s.pending_approval (answer_text s) in
      Ends-follow (λ _ v. Trail deps s.user_role 0 w v) (Moves deps Node.respond s w)
        (λ v. Trail deps s.user_role 0 w v) (λ v. Trail deps s.user_role 0 w v)
        (λ _. close_run deps s text) _
        (Ends-always (λ v. Trail deps s.user_role 0 w v) _
          (persist_notice-Trail s.pending_approval text))
        (λ v t. t)
        (λ _ v t. record {
          questions = 0;
          trail = Trail-audit _ t;
          spent = omega arith;
          paid = λ n h. absurd (cc (h));
          role = refl;
          limit = refl;
          iterations = within;
          fewer = λ n h. absurd (cc (h));
          answered = λ _. answered s text (
              notice_spoken s.pending_approval (answer_text s)
                (answer_spoken s s.final_response refl));
        })
