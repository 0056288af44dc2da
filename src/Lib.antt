-- ===== src/Lib.antt =====
-- Verification library of the MCP business assistant: a service that lets a
-- language model call the tools of several MCP servers, where calls that write
-- or that are risky wait for the approval of a person.
--
-- The parts and the files that model them (paths from the repository's root):
--
--   Prelude     Booleans, lists, dictionaries, integers and text as the other
--               files use them; Python's truth values, str, repr and strip.
--   Enums       app/models/database/enums.py.
--   Errors      app/core/exceptions.py: the kinds of errors with code and HTTP
--               status, and the result of a fallible method, which is a value, an
--               application error or the exception Python itself raises.
--   Json        the JSON values that arguments, schemas and payloads are.
--   Core        app/core/security.py: Payload is canonical_json, hash_payload and
--               verify_payload; Secrets the patterns of redact_text; Redaction
--               is redact, truncate and the audit service's _sanitise.
--   Database    the rows of app/models/database/{user,approval,audit}.py, the
--               tables with the clock, BaseRepository, AuditService.record.
--   Action      the monad of a service's method: the tables are passed on, a
--               raised error keeps what was written before it.
--   Mcp         app/mcp: Types is types.py (qualified names, specifications,
--               results), Catalog is discovery.py, Validation is validation.py,
--               Manager is manager.py and the calls of client.py, Config is
--               config.py.
--   Security    app/security: Permissions is the registry, Policy the engine with
--               first_applicable_rule and evaluate, Summary summarise_action.
--   Approval    app/repositories/approval_repository.py (Repository) and
--               app/services/approval_service.py (Service).
--   Execution   app/services/tool_execution_service.py: Gateway has the paths of
--               a call, Execute is execute and execute_approved.
--   Conversation  app/services/conversation_service.py with its repository
--               (Transcript, History, Ownership) and the messages of
--               app/providers/llm/base.py (Messages). Json/Dumps is json.dumps.
--   Agent       app/agents: State is state.py, Prompts is prompts.py, Nodes with
--               Nodes/Execute and Nodes/Respond is nodes.py, Graph is graph.py,
--               Runner is runner.py; World is the monad of a run.
--   Provider    app/providers/llm/heuristic_provider.py: Heuristic is complete and
--               what it reads of the messages; its children Intents, Arguments
--               and Leads, and Summary are the patterns, the argument builders
--               and the answers. Prelude/Regex is re, Prelude/Time datetime.
--
--   Api         app/api: Answers is errors.py and the bodies of the approval
--               endpoints in app/models/schemas/api.py, Approvals is
--               routes/approvals.py, Chat is routes/chat.py, Tools is
--               routes/tools.py, Accounts is get_current_user of
--               dependencies.py with app/repositories/user_repository.py.
--
-- How they interact. The runner of the agent stores the message of the user and
-- runs the graph: the model plans, the proposed calls go one by one to the tool
-- execution service, and the graph goes back to planning until the model
-- answers, a call waits for an approval or the planning passes are used up. The
-- tool execution service looks a call up in the
-- catalog, validates its arguments, asks the policy and hands the call to the
-- MCP manager, or refuses it, or asks for an approval. The policy classifies a
-- call by its qualified name and answers allow, deny or require approval. An
-- approval request stores the arguments with a digest of their canonical text;
-- a confirmation claims the row with a conditional update and mints a grant; a
-- grant is checked against the row again before the tool runs, and the row is
-- then marked. The endpoint that confirms calls the confirmation, looks the
-- conversation up for the user, and resumes the agent with the grant; the one
-- that rejects calls the rejection only. Every step leaves an audit entry whose payload is redacted.
--
-- State and time. A database is the list of approval rows, the list of audit
-- entries, the next identifier, the clock, a number of microseconds, and the
-- trace of the calls that were handed to the MCP manager. A UUID is a number.
-- A method of a service is a function from a database to a result and a
-- database. Where a method reads a row and writes later, other sessions may
-- write in between: `confirm_read` and `reject_read` take the row as it was
-- read and the tables as the write finds them, and `confirm` and `reject` take
-- a function `between` for what the others do.
--
-- A step of the agent maps a world to a result and a world: the tables, the
-- turns of the transcripts, the status of the conversation, the requests that
-- the model has been sent, and whether a failed write left the session in need
-- of a rollback, after which no audit entry is written. Other sessions may add
-- turns before a row is numbered and again before it is written (`arriving`);
-- a row whose number is taken by then violates the unique index, which is an
-- exception that is no AppError.
--
-- Parameters. What the model answers is a function of the requests before and
-- the request, and other sessions may change the tables meanwhile. LangGraph runs
-- the nodes along the edges and gives a run up after a number of nodes, which is
-- the fuel of `run_graph`; a node's result is the state with the fields it
-- returns. What a server answers is a function of the calls before, the
-- server, the tool and the arguments; what other sessions write while a tool
-- runs is a function on databases. SHA-256 is a function `sha256` from text to
-- text; a theorem that needs the absence of collisions says so among its
-- hypotheses. The redaction of text compares characters as ASCII: lower-casing
-- and the word characters of the regular expressions outside ASCII are not
-- followed. A float is m / 2 ^ k with the text that Python prints for it.
--
-- Bounds. A run of the graph needs three nodes for each planning pass and four
-- more, which is 22 for the settings' default of 6; Agent/Reference is the loop
-- that a run is compared with. Text and lists are consumed structurally, and redaction stops at the
-- depth the source bounds it to. The validation of arguments recurses through
-- alternatives and references as deep as a number `stack` allows, which stands
-- for the interpreter's limit; running out of it is Python's RecursionError.
--
-- Not modelled: the business repositories and integrations behind the MCP
-- servers, the endpoints that show conversations or tell the health, the
-- validation of requests by the framework, the clients of remote language
-- models, the life of a connection to an MCP server. Also left out, as input
-- and output or as text for a log: the session's identity map, a failing write
-- to the audit table (which the source logs and swallows), request ids,
-- durations of audit entries, the structured details of errors, logging, the
-- engine, transports and processes, and the network clients of the
-- integrations.

pub mod Prelude
pub mod Enums
pub mod Errors
pub mod Json
pub mod Core
pub mod Database
pub mod Action
pub mod Mcp
pub mod Security
pub mod Approval
pub mod Execution
pub mod Conversation
pub mod Provider
pub mod Agent
pub mod Api
