-- ===== src/Mcp/Manager.antt =====
-- app/mcp/manager.py and the calls of app/mcp/client.py. The session that a connection holds open,
-- the server process and the transport are behind the SDK's client; what a server answers is the
-- argument `respond`. Messages for the log are left out.
pub mod Discovery
use mcp_business_assistant.Prelude.{
  ℕ, String, Bool, true, false, not, ◌&&◌, ◌||◌, Option, none, some, List, [], ◌∷◌, map, ◌++◌, Dict,
  lookup, insert, if◌then◌else◌, str_eq, or_else, is_empty,
}
use mcp_business_assistant.Prelude.Text.{◌⊕◌, is_empty_text, join, strip}
use mcp_business_assistant.Errors.{
  Result, ok, err, crash, AppError, tool_not_found_error, server_unavailable_error,
  tool_execution_error, tool_timeout_error,
}
use mcp_business_assistant.Json.{Json, Fields, obj, field, end}
use mcp_business_assistant.Mcp.Types.{
  ToolSpec, ToolCall, ToolResult, partition, ok_result, failure_result,
}
use mcp_business_assistant.Mcp.Catalog.{Tool, ToolCatalog, build_tool_spec, catalog_of}

pub data ConnectionState : Type 0 where
  disconnected connecting connected failed closed : ConnectionState

abbrev pub is_connected_state : ConnectionState → Bool
is_connected_state connected = true
is_connected_state _ = false

-- `has_client` says that the session's client is there.
pub record Connection : Type 0 where
  pub name : String
  pub state : ConnectionState
  pub error : Option String
  pub has_client : Bool

-- `MCPServerConnection.is_connected`
unfoldable pub is_connected : Connection → Bool
is_connected connection = is_connected_state connection.state && connection.has_client

-- `CallToolResult` of the SDK; a block that is not text is `none`.
pub record CallToolResult : Type 0 where
  pub content : List (Option String)
  pub is_error : Bool
  pub structured_content : Option Fields

-- What comes of a request to a server, and how long it took.
pub data Reply : Type 0 where
  timed_out : Reply
  transport_error : Reply
  replied : CallToolResult → ℕ → Reply

unfoldable pub texts : List (Option String) → List String
texts [] = []
texts (none ∷ blocks) = texts blocks
texts (some t ∷ blocks) = let rest = texts blocks in if is_empty_text t then rest else t ∷ rest

-- The SDK wraps a value that is not an object in `{"result": …}`.
unfoldable pub unwrap : Option Fields → Option Fields
unwrap (some (field k (obj inner) end)) =
    if str_eq k "result" then some inner else some (field k (obj inner) end)
unwrap structured = structured

-- `_to_tool_result`
unfoldable pub to_tool_result : ToolCall → CallToolResult → ℕ → ToolResult
unfolding join texts unwrap
to_tool_result call result duration =
    let text = strip (join "\n" (texts result.content)) in
    if result.is_error
    then failure_result call (if is_empty_text text then "The tool reported an error." else text)
        duration
    else ok_result call (if is_empty_text text then "(no textual content)" else text)
        (unwrap result.structured_content) duration

-- What a server is asked: its name, the tool's name there, the arguments.
abbrev pub Servers : Type 0
Servers = String → String → Fields → Reply

abbrev settle : ToolCall → String → Reply → Result ToolResult
settle call seconds timed_out = err (tool_timeout_error call.tool_name seconds)
settle call seconds transport_error = err (tool_execution_error call.tool_name)
settle call seconds (replied result duration) = ok (to_tool_result call result duration)

-- `MCPServerConnection.call_tool`; `seconds` is the text of the time limit, and a name without a
-- separator is the `ValueError` of its unpacking.
unfoldable pub connection_call_tool : Servers → String → Connection → ToolCall → Result ToolResult
connection_call_tool respond seconds connection call =
    if not (is_connected connection)
    then err (server_unavailable_error connection.name)
    else elim (partition call.tool_name) [
      | none ↦ crash
      | some (_, tool_name) ↦ settle call seconds (respond connection.name tool_name call.arguments)
    ]

pub record Manager : Type 0 where
  pub connections : Dict Connection
  pub catalog : ToolCatalog
  pub failures : Dict String

-- `MCPManager.call_tool`
unfoldable pub manager_call_tool : Servers → String → Manager → ToolCall → Result ToolResult
manager_call_tool respond seconds manager call = elim (lookup call.tool_name manager.catalog) [
  | none ↦ err (tool_not_found_error call.tool_name)
  | some spec ↦ elim (lookup spec.server manager.connections) [
    | none ↦ err (server_unavailable_error spec.server)
    | some connection ↦
        if not (is_connected connection)
        then err (server_unavailable_error spec.server)
        else connection_call_tool respond seconds connection call
  ]
]

-- `is_degraded`
abbrev pub is_degraded : Manager → Bool
is_degraded manager = not (is_empty manager.failures)

-- What comes of `list_tools`: the tools, or the name of the exception's class.
pub data Listing : Type 0 where
  listed : List Tool → Listing
  refused : String → Listing

-- The servers' specifications in the order of the connections, and the failures.
unfoldable pub discover :
    (String → Listing) → Dict Connection → Dict String → List ToolSpec × Dict String
discover list_tools [] failures = ([], failures)
discover list_tools ((name, connection) ∷ connections) failures = elim (is_connected connection) [
  | false ↦ discover list_tools connections failures
  | true ↦ elim (list_tools name) [
    | refused class ↦
        discover list_tools connections (insert name ("tool discovery failed: " ⊕ class) failures)
    | listed tools ↦
        let (specs, failures') = discover list_tools connections failures in
        (map (build_tool_spec name) tools ++ specs, failures')
  ]
]

-- `refresh_catalog`
unfoldable pub refresh_catalog : (String → Listing) → Manager → Manager
refresh_catalog list_tools manager =
    let (specs, failures) = discover list_tools manager.connections manager.failures in
    record manager { catalog = catalog_of specs; failures = failures }

-- `shutdown`: the supervisors are stopped by the connections.
unfoldable pub shutdown : Manager → Manager
shutdown manager = record manager { connections = []; catalog = [] }
