-- ===== src/Prelude/Letters.antt =====
-- Upper and lower case of ASCII letters.
use Prim.Native.Char.{Char, code}
use Prim.Native.String.{String, [], ◌∷◌}
use Prim.Native.Nat.{ℕ, zero, suc, ◌-◌}
use mcp_business_assistant.Prelude.Tests.{if◌then◌else◌}
use mcp_business_assistant.Prelude.Regex.{is_lower, is_upper}

abbrev letter_at : ℕ → String → Char → Char
letter_at n [] default = default
letter_at zero (c ∷ s) default = c
letter_at (suc n) (c ∷ s) default = letter_at n s default

abbrev pub upper : Char → Char
upper c = if is_lower (code c) then letter_at (code c - b'a') "ABCDEFGHIJKLMNOPQRSTUVWXYZ" c else c

abbrev pub lower : Char → Char
lower c = if is_upper (code c) then letter_at (code c - b'A') "abcdefghijklmnopqrstuvwxyz" c else c

-- `text.lower()`
unfoldable pub lower_text : String → String
lower_text [] = ""
lower_text (c ∷ s) = lower c ∷ lower_text s
