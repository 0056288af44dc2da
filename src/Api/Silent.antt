-- ===== src/Api/Silent.antt =====
-- Which steps of the endpoints hand no call to the servers.
use mcp_business_assistant.Prelude.{◌≡◌, ◌∙◌, refl, Option, none, some, List}
use mcp_business_assistant.Errors.{Result, ok, err, crash}
use mcp_business_assistant.Action.{Action}
use mcp_business_assistant.Database.{Database}
use mcp_business_assistant.Mcp.Types.{ToolResult}
use mcp_business_assistant.Approval.Service.{ApprovalGrant}
use mcp_business_assistant.Approval.Evolution.{Keeps}
use mcp_business_assistant.Approval.Methods.{get_request-Keeps, confirm_read-Keeps}
use mcp_business_assistant.Conversation.Transcript.{Message}
use mcp_business_assistant.Execution.Authorised.{LeavesTrace}
use mcp_business_assistant.Agent.World.{
  AgentDependencies, Prompt, World, Run, pure, ◌>>=◌, follow, attempt, caught, reads, on_database,
  persist, flushed, complete,
}
use mcp_business_assistant.Agent.Runner.{compose_completion, finish_resumption}
use mcp_business_assistant.Api.Approvals.{given}

-- A step that hands no call over.
pub record Silent {A : Type 0} (m : Run A) : Type 0 where
  pub at : (w : World) → (m w).1.database.dispatched ≡ w.database.dispatched

module _ {A : Type 0} where
  pub Silent-pure : (a : A) → Silent (pure a)
  Silent-pure a = record { at = λ w. refl }

  pub Silent-given : (r : Result A) → Silent (given r)
  Silent-given r = record { at = λ w. refl }

  pub Silent-reads : (f : World → A) → Silent (reads f)
  Silent-reads f = record { at = λ w. refl }

  pub Silent-on_database : (m : Action A) → Keeps m → Silent (on_database m)
  Silent-on_database m k = record { at = λ w. (k.at w.database).quiet }

  caught_quiet : (x : Result A × World) → (caught x).1.database.dispatched ≡ x.1.database.dispatched
  caught_quiet (ok a, w) = refl
  caught_quiet (err e, w) = refl
  caught_quiet (crash, w) = refl

  pub Silent-attempt : (m : Run A) → Silent m → Silent (attempt m)
  Silent-attempt m s = record { at = λ w. caught_quiet (m w) ∙ s.at w }

pub follow_quiet :
    {A B : Type 0} (f : A → Run B) (x : Result A × World)
    → ((a : A) → Silent (f a))
    → (follow f x).1.database.dispatched ≡ x.1.database.dispatched
follow_quiet f (ok a, w) s = (s a).at w
follow_quiet f (err e, w) s = refl
follow_quiet f (crash, w) s = refl

pub Silent-bind :
    {A B : Type 0} (m : Run A) (f : A → Run B)
    → Silent m
    → ((a : A) → Silent (f a))
    → Silent (m >>= f)
Silent-bind m f sm sf = record { at = λ w. follow_quiet f (m w) sf ∙ sm.at w }

flushed_quiet :
    (standing : List Message) (o : Option (List Message)) (w : World)
    → (flushed standing o w).1.database.dispatched ≡ w.database.dispatched
flushed_quiet standing none w = refl
flushed_quiet standing (some ms) w = refl

pub Silent-persist :
    (deps : AgentDependencies) (add : List Message → List Message → Option (List Message))
    → Silent (persist deps add)
Silent-persist deps add = record { at = λ w. flushed_quiet _ _ w }

pub ruleset silent_rules = (
  Silent-pure, Silent-given, Silent-reads, Silent-on_database, Silent-attempt, Silent-bind,
  Silent-persist, get_request-Keeps,
)

-- Other sessions leave the trace of the calls alone.
pub record IsQuiet (deps : AgentDependencies) : Type 0 where
  pub leaves : LeavesTrace deps.gateway
  pub thinks : (db : Database) → (deps.thinking db).dispatched ≡ db.dispatched

module _ (deps : AgentDependencies) (quiet : IsQuiet deps) where
  Silent-complete : (prompt : Prompt) → Silent (complete deps prompt)
  unfolding complete
  Silent-complete prompt = record { at = λ w. quiet.thinks w.database }

  pub finish_resumption-Silent :
      (grant : ApprovalGrant) (result : ToolResult) → Silent (finish_resumption deps grant result)
  unfolding finish_resumption compose_completion
  finish_resumption-Silent grant result = search (silent_rules, Silent-complete) depth 14
