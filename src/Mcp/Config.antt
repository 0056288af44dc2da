-- ===== src/Mcp/Config.antt =====
-- app/mcp/config.py: how each MCP server is reached, and the environment that a server process gets.
-- `environ` is the parent's environment, `root` the project's directory, `separator` the platform's
-- separator of paths, `executable` the interpreter.
pub mod Environment
use Prim.Native.String
use Prim.Native.String.{[], ◌∷◌}
use mathlib.Core.List.{List}
use mcp_business_assistant.Prelude.{
  ℕ, String, Bool, true, false, not, ◌&&◌, Option, none, some, ◌++◌, Dict, lookup, insert, contains,
  keep, or_else, if◌then◌else◌, str_eq,
}
use mcp_business_assistant.Prelude.Text.{◌⊕◌, is_empty_text, or_text}

-- `SERVER_MODULES`
abbrev pub server_modules : Dict String
server_modules =
    List.◌∷◌ ("crm", "mcp_servers.crm_server")
      (List.◌∷◌ ("tasks", "mcp_servers.task_server")
        (List.◌∷◌ ("spreadsheets", "mcp_servers.spreadsheet_server")
          (List.◌∷◌ ("email", "mcp_servers.email_server")
            (List.◌∷◌ ("calendar", "mcp_servers.calendar_server") List.[]))))

abbrev two : String → String → List String → List String
two a b rest = List.◌∷◌ a (List.◌∷◌ b rest)

-- `SHARED_ENV_VARS`
abbrev pub shared_env_vars : List String
shared_env_vars =
    two "DATABASE_URL" "DATABASE_ECHO"
      (two "LOG_LEVEL" "LOG_FORMAT" (List.◌∷◌ "ENVIRONMENT" List.[]))

-- `SERVER_ENV_VARS`
unfoldable pub server_env_vars : Dict (List String)
server_env_vars =
    List.◌∷◌ ("crm", two "CRM_PROVIDER" "HUBSPOT_ACCESS_TOKEN" List.[])
      (List.◌∷◌ ("tasks", List.[])
        (List.◌∷◌ ("calendar", List.[])
          (List.◌∷◌
            (
              "spreadsheets",
              two "SPREADSHEET_PROVIDER" "GOOGLE_SHEETS_SPREADSHEET_ID"
                  (List.◌∷◌ "GOOGLE_SERVICE_ACCOUNT_FILE" List.[]),
            )
            (List.◌∷◌
              (
                "email",
                two "EMAIL_PROVIDER" "EMAIL_FROM_ADDRESS" (
                    two "EMAIL_OUTBOX_DIR" "SMTP_HOST" (
                      two "SMTP_PORT" "SMTP_USERNAME"
                        (two "SMTP_PASSWORD" "SMTP_USE_TLS" List.[]))),
              )
              List.[]))))

-- The names that a server may be given.
unfoldable pub wanted : String → List String
wanted server = shared_env_vars ++ or_else (lookup server server_env_vars) List.[]

abbrev filled : Option String → Option String
filled none = none
filled (some v) = if is_empty_text v then none else some v

-- `environ.get(name)` where it is not empty
unfoldable pub value_of : Dict String → String → Option String
value_of environ name = filled (lookup name environ)

abbrev pub set_if : String → Option String → Dict String → Dict String
set_if name none env = env
set_if name (some v) env = insert name v env

-- `{name: environ[name] for name in wanted if environ.get(name)}`
unfoldable pub selected : Dict String → List String → Dict String → Dict String
selected environ List.[] env = env
selected environ (List.◌∷◌ name names) env =
    selected environ names (set_if name (value_of environ name) env)

abbrev python_path : String → String → String → String
python_path root separator existing =
    if is_empty_text existing then root else root ⊕ separator ⊕ existing

-- `build_child_env`
unfoldable pub build_child_env : String → String → Dict String → String → Dict String
unfolding selected wanted
build_child_env root separator environ server =
    insert "PYTHONPATH" (python_path root separator (or_else (lookup "PYTHONPATH" environ) ""))
      (selected environ (wanted server) List.[])

pub data Transport : Type 0 where
  stdio http in_process : Transport

-- Of `instance` it counts whether it is there.
pub record McpServerSpec : Type 0 where
  pub name : String
  pub transport : Transport
  pub module_path : Option String
  pub url : Option String
  pub env : Dict String
  pub has_instance : Bool

-- What `Client` is given.
pub data Target : Type 0 where
  server_instance : Target
  server_url : String → Target
  process : String → Dict String → Target

abbrev env_or : Dict String → Dict String → Dict String
env_or List.[] d = d
env_or (List.◌∷◌ e es) d = List.◌∷◌ e es

-- `target`, with `stdio_parameters`; `none` is the `ValueError`.
unfoldable pub target : String → String → Dict String → McpServerSpec → Option Target
target root separator environ spec = elim spec.transport [
  | in_process ↦ if spec.has_instance then some server_instance else none
  | http ↦
      if is_empty_text (or_else spec.url "") then none else some (server_url (or_else spec.url ""))
  | stdio ↦ elim spec.module_path [
    | none ↦ none
    | some path ↦
        some (process path (env_or spec.env (build_child_env root separator environ spec.name)))
  ]
]

-- `text.rstrip("/")`
unfoldable pub without_slashes : String → String
without_slashes [] = ""
without_slashes (c ∷ s) =
    let rest = without_slashes s in
    if str_eq (c ∷ []) "/" && is_empty_text rest then "" else c ∷ rest

abbrev spec_of : Bool → String → String → String → McpServerSpec
spec_of over_http base name path = record {
  name = name;
  transport = if over_http then http else stdio;
  module_path = some path;
  url = if over_http then some (without_slashes base ⊕ "/" ⊕ name ⊕ "/mcp") else none;
  env = List.[];
  has_instance = false;
}

-- `build_server_specs`, by `mcp_transport`, `mcp_http_base_url` and `mcp_enabled_servers`
unfoldable pub build_server_specs : Bool → String → List String → List McpServerSpec
unfolding without_slashes
build_server_specs over_http base List.[] = List.[]
build_server_specs over_http base (List.◌∷◌ name names) =
    let rest = build_server_specs over_http base names in
    elim (lookup name server_modules) [
      | none ↦ rest
      | some path ↦ List.◌∷◌ (spec_of over_http base name path) rest
    ]

-- `unknown_servers`
unfoldable pub unknown_servers : List String → List String
unknown_servers names = keep (λ name. not (contains name server_modules)) names
