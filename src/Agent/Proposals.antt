-- ===== src/Agent/Proposals.antt =====
-- What `execute_tools` of app/agents/nodes.py does with the calls that the model proposed.
use mathlib.Core.List.{append_assoc, append-nil}
use mcp_business_assistant.Prelude.{
  String, ◌≡◌, refl, sym, ◌∙◌, ap, inl, inr, ◌⊎◌, true, Option, none, some, List, [], ◌∷◌, ◌++◌,
  Bool-cases, Option-cases, is_some, if◌then◌else◌,
}
use mcp_business_assistant.Errors.{AppError, ok}
use mcp_business_assistant.Mcp.Types.{ToolCall, ToolResult}
use mcp_business_assistant.Conversation.Messages.{LlmToolCall, LlmMessage, tool_message}
use mcp_business_assistant.Conversation.Transcript.{Message}
use mcp_business_assistant.Execution.Gateway.{ExecutionOutcome}
use mcp_business_assistant.Execution.Execute.{execute}
use mcp_business_assistant.Execution.Authorised.{LeavesTrace, execute-dispatched}
use mcp_business_assistant.Agent.State.{PendingApproval, AgentState}
use mcp_business_assistant.Agent.World.{
  AgentDependencies, World, Run, follow, flushed, pure, on_database,
}
use mcp_business_assistant.Agent.Nodes.Execute.{
  Progress, note_result, settle_call, call_of, try_call, asked_approval, execute_calls, noted,
}
use mcp_business_assistant.Agent.Trail.{
  Ends, Ends-follow, Ends-caught, Ends-weaken, Ends-map, Ends-ok,
}

-- Calls with the message that the model reads for each, and those of them that were handed over.
pub data Handled : List LlmToolCall → List LlmMessage → List ToolCall → Type 0 where
  done : Handled [] [] []
  kept :
      (p : LlmToolCall) (text : String) {ps : List LlmToolCall} {ms : List LlmMessage}
      {cs : List ToolCall}
      → Handled ps ms cs
      → Handled (p ∷ ps) (tool_message p.id p.name text ∷ ms) cs
  sent :
      (p : LlmToolCall) (text : String) {ps : List LlmToolCall} {ms : List LlmMessage}
      {cs : List ToolCall}
      → Handled ps ms cs
      → Handled (p ∷ ps) (tool_message p.id p.name text ∷ ms) (call_of p ∷ cs)

-- The loop over some calls, from a progress and a world to others.
pub record IsHandled (calls : List LlmToolCall) (before after : Progress) (w w' : World)
    : Type 0 where
  pub reached : List LlmToolCall
  pub rest : List LlmToolCall
  pub messages : List LlmMessage
  pub dispatched : List ToolCall
  pub split : calls ≡ reached ++ rest
  pub handled : Handled reached messages dispatched
  pub history : after.history ≡ before.history ++ messages
  pub trace : w'.database.dispatched ≡ w.database.dispatched ++ dispatched
  pub complete : after.pending ≡ none → rest ≡ []

-- The result of one call was noted.
record IsNoted (call : ToolCall) (before after : Progress) (w w' : World) : Type 0 where
  text : String
  history : after.history ≡ before.history ++ tool_message call.id call.tool_name text ∷ []
  quiet : w'.database.dispatched ≡ w.database.dispatched

module _ (deps : AgentDependencies) where
  noted-IsNoted :
      (call : ToolCall) (result : ToolResult) (content : String) (pending : Option PendingApproval)
      (errors : List String) (before : Progress) (w : World) (standing : List Message)
      (o : Option (List Message))
      → Ends
          (λ after v. IsNoted call before after w v)
          (λ _. Unit)
          (follow
            (λ _. pure (noted call result content pending errors before))
            (flushed standing o w))
  noted-IsNoted call result content pending errors before w standing none = tt
  noted-IsNoted call result content pending errors before w standing (some ms) = record {
    text = content;
    history = refl;
    quiet = refl;
  }

  note_result-IsNoted :
      (call : ToolCall) (result : ToolResult) (content : String) (pending : Option PendingApproval)
      (errors : List String) (before : Progress) (w : World)
      → Ends
          (λ after v. IsNoted call before after w v)
          (λ _. Unit)
          (note_result deps call result content pending errors before w)
  unfolding note_result
  note_result-IsNoted call result content pending errors before w =
      noted-IsNoted call result content pending errors before w _ _

  settle_call-IsNoted :
      (call : ToolCall) (before : Progress) (x : AppError ⊎ ExecutionOutcome) (w : World)
      → Ends
          (λ after v. IsNoted call before after w v)
          (λ _. Unit)
          (settle_call deps call before x w)
  unfolding settle_call
  settle_call-IsNoted call before (inl e) w = note_result-IsNoted call _ _ _ _ before w
  settle_call-IsNoted call before (inr outcome) w = elim (Option-cases (asked_approval outcome)) [
    | inl e ↦ rw (settle_call, e) (note_result-IsNoted call _ _ _ _ before w)
    | inr (r, e) ↦ rw (settle_call, e) (note_result-IsNoted call _ _ _ _ before w)
  ]

  -- One call, handed over or not, and what the loop does with the calls behind it.
  first_IsHandled :
      (p : LlmToolCall) (calls : List LlmToolCall) (before next after : Progress) (w u v v' : World)
      → ((u.database.dispatched ≡ w.database.dispatched ++ call_of p ∷ [])
          ⊎ (u.database.dispatched ≡ w.database.dispatched))
      → IsNoted (call_of p) before next u v
      → IsHandled calls next after v v'
      → IsHandled (p ∷ calls) before after w v'
  first_IsHandled p calls before next after w u v v' (inl once) noted_ h = record {
    reached = p ∷ h.reached;
    rest = h.rest;
    messages = _;
    dispatched = _;
    split = ap (λ l. p ∷ l) h.split;
    handled = sent p noted_.text h.handled;
    history =
        h.history ∙ ap (λ l. l ++ h.messages) noted_.history ∙ append_assoc before.history _ _;
    trace =
        h.trace
        ∙ ap (λ l. l ++ h.dispatched) (noted_.quiet ∙ once)
        ∙ append_assoc w.database.dispatched _ _;
    complete = h.complete;
  }
  first_IsHandled p calls before next after w u v v' (inr never) noted_ h = record {
    reached = p ∷ h.reached;
    rest = h.rest;
    messages = _;
    dispatched = _;
    split = ap (λ l. p ∷ l) h.split;
    handled = kept p noted_.text h.handled;
    history =
        h.history ∙ ap (λ l. l ++ h.messages) noted_.history ∙ append_assoc before.history _ _;
    trace = h.trace ∙ ap (λ l. l ++ h.dispatched) (noted_.quiet ∙ never);
    complete = h.complete;
  }

  -- The loop stops at once.
  stopped :
      (calls : List LlmToolCall) (p : Progress) (w : World)
      → is_some p.pending ≡ true
      → IsHandled calls p p w w
  stopped calls p w paused = record {
    reached = [];
    rest = calls;
    messages = [];
    dispatched = [];
    split = refl;
    handled = done;
    history = sym (append-nil _);
    trace = sym (append-nil _);
    complete = λ e. absurd (cc (e, paused));
  }

  module _ (s : AgentState) (leaves : LeavesTrace deps.gateway) where
    Tried : LlmToolCall → World → World → Type 0
    Tried p w u =
        (u.database.dispatched ≡ w.database.dispatched ++ call_of p ∷ [])
        ⊎ (u.database.dispatched ≡ w.database.dispatched)

    tried :
        (p : LlmToolCall) (w : World)
        → Ends (λ _ u. Tried p w u) (λ _. Unit) (try_call deps s (call_of p) w)
    unfolding Tried
    tried p w =
        Ends-weaken (λ u. Tried p w u) _
          (Ends-caught (λ u. Tried p w u)
            (on_database
              (execute deps.gateway (call_of p) (record { user_role = s.user_role }) none
                (some deps.conversation_id) (some s.user_id))
              w)
            (elim (execute-dispatched deps.gateway (call_of p) (some deps.conversation_id)
              (some s.user_id) w.database leaves (record { user_role = s.user_role }) none) [
                | inl (_, once) ↦ inl once
                | inr (_, never) ↦ inr never
              ]))

    go_on : List LlmToolCall → Progress → Run Progress
    go_on calls next = if is_some next.pending then pure next else execute_calls deps s calls next

    continued :
        (p : LlmToolCall) (calls : List LlmToolCall) (before next : Progress) (w u v : World)
        → Tried p w u
        → IsNoted (call_of p) before next u v
        → Ends
            (λ after v'. IsHandled calls next after v v')
            (λ _. Unit)
            (execute_calls deps s calls next v)
        → Ends
            (λ after v'. IsHandled (p ∷ calls) before after w v')
            (λ _. Unit)
            (go_on calls next v)
    unfolding go_on Tried
    continued p calls before next w u v try_ noted_ h = elim (Bool-cases (is_some next.pending)) [
      | inl paused ↦ rw paused (
          first_IsHandled p calls before next next w u v v try_ noted_
            (stopped calls next v paused))
      | inr free ↦ rw free (
          Ends-map (λ after v'. first_IsHandled p calls before next after w u v v' try_ noted_) _ h)
    ]

    handles :
        (calls : List LlmToolCall) (before : Progress) (w : World)
        → Ends
            (λ after v. IsHandled calls before after w v)
            (λ _. Unit)
            (execute_calls deps s calls before w)
    unfolding execute_calls go_on
    handles [] before w = record {
      reached = [];
      rest = [];
      messages = [];
      dispatched = [];
      split = refl;
      handled = done;
      history = sym (append-nil _);
      trace = sym (append-nil _);
      complete = λ e. refl;
    }
    handles (p ∷ calls) before w =
        let Q : Progress → World → Type 0 = λ after v. IsHandled (p ∷ calls) before after w v in
        Ends-follow (λ _ u. Tried p w u) Q (λ _. Unit) (λ _. Unit)
          (λ outcome u. follow (go_on calls) (settle_call deps (call_of p) before outcome u))
          (try_call deps s (call_of p) w) (tried p w) (λ _ _. tt)
          (λ outcome u t.
            Ends-follow (λ next v. IsNoted (call_of p) before next u v) Q (λ _. Unit) (λ _. Unit)
              (go_on calls) (settle_call deps (call_of p) before outcome u)
              (settle_call-IsNoted (call_of p) before outcome u) (λ _ _. tt)
              (λ next v n. continued p calls before next w u v t n (handles calls next v)))

-- What the node reaches of the proposed calls, in their order, gets a message under the id of the
-- call, each of them is handed over at most once, in their order, and no other call is; where no
-- approval is pending at the end, all calls were reached.
pub execute_calls-IsHandled :
    (deps : AgentDependencies) (s : AgentState) (calls : List LlmToolCall) (before after : Progress)
    (w : World)
    → LeavesTrace deps.gateway
    → (execute_calls deps s calls before w).0 ≡ ok after
    → IsHandled calls before after w (execute_calls deps s calls before w).1
execute_calls-IsHandled deps s calls before after w leaves ends =
    Ends-ok (λ after v. IsHandled calls before after w v) _ (handles deps s leaves calls before w)
      ends
