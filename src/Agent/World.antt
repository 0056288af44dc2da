-- ===== src/Agent/World.antt =====
-- What a run of the agent reads and changes: the tables, the transcripts, the status of its
-- conversation, the requests that the language model has been sent, the last one at the end, and
-- whether a failed write has left the session in need of a rollback, after which it writes nothing.
-- The language model is behind `complete`, given the requests before.
use mcp_business_assistant.Prelude.{
  ℕ, String, Bool, true, if◌then◌else◌, Option, none, some, List, [], ◌∷◌, ◌++◌, ◌⊎◌, inl, inr,
}
use mcp_business_assistant.Enums.{ConversationStatus}
use mcp_business_assistant.Errors.{AppError, Result, ok, err, crash}
use mcp_business_assistant.Database.{Database, AuditEntry, record_audit}
use mcp_business_assistant.Action.{Action}
use mcp_business_assistant.Mcp.Types.{ToolSpec}
use mcp_business_assistant.Conversation.Messages.{LlmMessage, LlmResponse}
use mcp_business_assistant.Conversation.Transcript.{Message}
use mcp_business_assistant.Execution.Gateway.{Gateway}

-- The arguments of `LLMProvider.complete`
pub record Prompt : Type 0 where
  pub messages : List LlmMessage
  pub tools : Option (List ToolSpec)

pub record World : Type 0 where
  pub database : Database
  pub messages : List Message
  pub conversation_status : ConversationStatus
  pub asked : List Prompt
  pub needs_rollback : Bool

-- `AgentDependencies`. `thinking` is what other sessions write while the model answers, `arriving`
-- the turns that they add to the transcripts before a row of this one is numbered and again before
-- it is written,
-- `recursion_limit` the number of nodes after which LangGraph gives a run up, and `exception_name`
-- the class of an exception that is no `AppError`.
pub record AgentDependencies : Type 0 where
  pub gateway : Gateway
  pub complete : List Prompt → Prompt → Result LlmResponse
  pub thinking : Database → Database
  pub arriving : List Message → List Message
  pub conversation_id : ℕ
  pub history_limit : ℕ
  pub agent_max_iterations : ℕ
  pub recursion_limit : ℕ
  pub exception_name : String

-- A step of the agent: what was written stays written after an error.
abbrev pub Run : Type 0 → Type 0
Run A = World → Result A × World

abbrev pub pure : {A : Type 0} → A → Run A
pure a w = (ok a, w)

abbrev pub raise : {A : Type 0} → AppError → Run A
raise e w = (err e, w)

-- What follows a step, by how the step ended.
abbrev pub follow : {A B : Type 0} → (A → Run B) → Result A × World → Result B × World
follow f (ok a, w) = f a w
follow f (err e, w) = (err e, w)
follow f (crash, w) = (crash, w)

infixl 5 ◌>>=◌ ◌>>◌
abbrev pub ◌>>=◌ : {A B : Type 0} → Run A → (A → Run B) → Run B
◌>>=◌ m f w = follow f (m w)

abbrev pub ◌>>◌ : {A B : Type 0} → Run A → Run B → Run B
m >> k = m >>= λ _. k

abbrev pub caught : {A : Type 0} → Result A × World → Result (AppError ⊎ A) × World
caught (ok a, w) = (ok (inr a), w)
caught (err e, w) = (ok (inl e), w)
caught (crash, w) = (crash, w)

-- `try: … except AppError`
abbrev pub attempt : {A : Type 0} → Run A → Run (AppError ⊎ A)
attempt m w = caught (m w)

abbrev pub reads : {A : Type 0} → (World → A) → Run A
reads f w = (ok (f w), w)

-- A method of a service on the tables.
abbrev pub on_database : {A : Type 0} → Action A → Run A
on_database m w = ((m w.database).0, record w { database = (m w.database).1 })

-- An entry of the audit log. In need of a rollback the write fails, which the service swallows.
abbrev pub audit : AuditEntry → Run (Unit {0})
audit entry w = (
  ok tt,
  record w { database = if w.needs_rollback then w.database else record_audit entry w.database },
)

-- The flush of a new row, from the rows as they stand; the violation of the unique index is an
-- error of the database.
abbrev pub flushed : List Message → Option (List Message) → Run (Unit {0})
flushed standing none w = (crash, record w { messages = standing; needs_rollback = true })
flushed standing (some messages) w = (ok tt, record w { messages = messages })

-- A new row of the transcript, which is numbered from the rows that are read, and written to those
-- that stand then.
abbrev pub persist :
    AgentDependencies → (List Message → List Message → Option (List Message)) → Run (Unit {0})
persist deps add w =
    let read = deps.arriving w.messages in
    let standing = deps.arriving read in flushed standing (add read standing) w

unfoldable pub complete : AgentDependencies → Prompt → Run LlmResponse
complete deps prompt w = (
  deps.complete w.asked prompt,
  record w { asked = w.asked ++ prompt ∷ []; database = deps.thinking w.database },
)
