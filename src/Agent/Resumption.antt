-- ===== src/Agent/Resumption.antt =====
-- `AgentRunner.resume_after_approval` of app/agents/runner.py.
use mcp_business_assistant.Prelude.{
  ◌≡◌, false, Option, none, some, List, [], ◌∷◌, ◌++◌, if◌then◌else◌,
}
use mcp_business_assistant.Prelude.Text.{is_empty_text}
use mcp_business_assistant.Enums.{MessageRole, active}
use mcp_business_assistant.Json.{Fields, bool, int, field, end}
use mcp_business_assistant.Prelude.Int.{pos}
use mcp_business_assistant.Database.{Database}
use mcp_business_assistant.Mcp.Types.{ToolResult}
use mcp_business_assistant.Conversation.Transcript.{Message, new_message, render_tool_content}
use mcp_business_assistant.Agent.State.{completed, failed}
use mcp_business_assistant.Agent.World.{AgentDependencies, Prompt, World}
use mcp_business_assistant.Agent.Runner.{AgentRunResult}

-- How an approved action is reported.
pub record IsResumed (deps : AgentDependencies) (result : ToolResult) (prompts : List Prompt)
    (turns : List Message) (db : Database) (r : AgentRunResult) (w' : World) : Type 0 where
  pub status : r.status ≡ (if result.success then completed else failed)
  pub spoken : is_empty_text r.response ≡ false
  pub free : w'.conversation_status ≡ active
  pub prompt : Prompt
  pub asked : w'.asked ≡ prompts ++ prompt ∷ []
  pub toolless : prompt.tools ≡ none
  pub turn : Message
  pub reply : Message
  pub transcript : w'.messages ≡ turns ++ turn ∷ reply ∷ []
  pub tool_turn : turn.role ≡ MessageRole.tool
  pub tool_call : turn.tool_call_id ≡ some result.tool_call_id
  pub reply_turn : reply.role ≡ MessageRole.assistant
  pub reply_text : reply.content ≡ some r.response
  pub database : w'.database ≡ deps.thinking db

abbrev result_metadata : ToolResult → Option Fields
result_metadata result =
    some (
      field "success" (bool result.success)
        (field "duration_ms" (int (pos result.duration_ms)) end))

-- The turn of the tool's result, and that of the reply.
abbrev tool_turn_of : AgentDependencies → ToolResult → World → Message
tool_turn_of deps result w =
    new_message w.messages deps.conversation_id MessageRole.tool (some (render_tool_content result))
      none (some result.tool_call_id) (some result.tool_name) (result_metadata result)
