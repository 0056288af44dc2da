-- ===== src/Mcp/Config/Environment.antt =====
-- Which variables a server process sees.
use mathlib.Core.List.{Memᴰ}
use mcp_business_assistant.Prelude.{◌⊎◌, String, ◌≡◌, Option, none, some, List, lookup}
use mcp_business_assistant.Mcp.Config.{shared_env_vars, server_env_vars}

-- A first value, or else a second.
abbrev over : Option String → Option String → Option String
over none second = second
over (some v) second = some v

-- The variable is one of those for all servers, or of those for this one.
abbrev pub IsListed : String → String → Type 0
IsListed server k =
    Memᴰ k shared_env_vars
    ⊎ ((names : List String) × (lookup server server_env_vars ≡ some names) × Memᴰ k names)
