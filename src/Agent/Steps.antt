-- ===== src/Agent/Steps.antt =====
-- What the call of a tool and a question to the language model leave behind.
use mathlib.Core.List.{append-nil}
use mcp_business_assistant.Prelude.{
  ℕ, ◌≡◌, refl, sym, ◌∙◌, ap, inl, inr, Option, none, [], ◌∷◌, length-append, arith,
}
use mcp_business_assistant.Enums.{UserRole}
use mcp_business_assistant.Database.{Database}
use mcp_business_assistant.Mcp.Types.{ToolCall}
use mcp_business_assistant.Security.Permissions.{classify}
use mcp_business_assistant.Security.Policy.{PolicyContext}
use mcp_business_assistant.Security.Policy.Gating.{evaluate_allows_iff}
use mcp_business_assistant.Execution.Gateway.{Gateway}
use mcp_business_assistant.Execution.Execute.{execute}
use mcp_business_assistant.Execution.Authorised.{LeavesTrace, IsAuthorised, execute-dispatched}
use mcp_business_assistant.Execution.HighRisk.{NamesItsTools}
use mcp_business_assistant.Agent.World.{AgentDependencies, Prompt, World, on_database, complete}
use mcp_business_assistant.Agent.Trail.{LevelMayRun, MayRun, Trail, Trail-quiet}

-- What the theorems on runs ask of the rest: the catalog was discovered, and other sessions leave
-- the trace of the calls alone.
pub record IsOrderly (deps : AgentDependencies) : Type 0 where
  pub names : NamesItsTools deps.gateway
  pub leaves : LeavesTrace deps.gateway
  pub thinks : (db : Database) → (deps.thinking db).dispatched ≡ db.dispatched

authorised-MayRun :
    (gateway : Gateway) (call : ToolCall) (context : PolicyContext) (db : Database)
    → NamesItsTools gateway
    → IsAuthorised gateway call context none db
    → MayRun gateway context.user_role call
authorised-MayRun gateway call context db names v =
    let (same, _) = names.entry call.tool_name v.spec v.in_catalog in
    elim v.permitted [
      | inr (_, (_, _, no_grant, _)) ↦ absurd (cc (no_grant))
      | inl allowed ↦
          let (_, _, level) =
            (evaluate_allows_iff gateway.settings v.spec call.arguments context v.decided).0
              allowed in
          let called = ap classify (sym same) in
          let by_name = elim level as (λ _. LevelMayRun gateway context.user_role call) [
            | inl reads ↦ inl (called ∙ reads)
            | inr (writes, acts, free) ↦ inr (called ∙ writes, acts, free)
          ] in
          (v.spec, v.in_catalog, by_name)
    ]

pub execute-Trail :
    (deps : AgentDependencies) (call : ToolCall) (context : PolicyContext) (c u : Option ℕ)
    (w : World)
    → LeavesTrace deps.gateway
    → NamesItsTools deps.gateway
    → Trail deps context.user_role 0 w
        (on_database (execute deps.gateway call context none c u) w).1
execute-Trail deps call context c u w leaves names =
    elim (execute-dispatched deps.gateway call c u w.database leaves context none) [
      | inr (_, never) ↦ Trail-quiet never
      | inl (v, once) ↦ record {
        calls = call ∷ [];
        sent = once;
        permitted = (authorised-MayRun deps.gateway call context w.database names v, tt);
        turns = [];
        transcript = λ _. sym (append-nil _);
        ordered = λ _ o. o;
        asked = omega arith;
        status = refl;
      }
    ]

pub complete-Trail :
    (deps : AgentDependencies) (role : UserRole) (prompt : Prompt) (w : World)
    → IsOrderly deps
    → Trail deps role 1 w (complete deps prompt w).1
unfolding complete
complete-Trail deps role prompt w orderly = record {
  calls = [];
  sent = orderly.thinks w.database ∙ sym (append-nil _);
  permitted = tt;
  turns = [];
  transcript = λ _. sym (append-nil _);
  ordered = λ _ o. o;
  asked = omega (arith, length-append w.asked (prompt ∷ []));
  status = refl;
}
