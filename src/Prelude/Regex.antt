-- ===== src/Prelude/Regex.antt =====
-- Python's `re`, as far as the program uses it: patterns over characters with classes, repetition,
-- alternatives, word boundaries and one group, matched by backtracking from the left, the longest
-- repetition first. Word characters and letter case are those of ASCII.
use Prim.Native.Nat.{ℕ, zero, ◌-◌, ◌+◌}
use Prim.Native.Char.{Char, code}
use Prim.Native.String.{String, [], ◌∷◌}
use mathlib.Core.Path.{◌≡◌, refl}
use mathlib.Core.Bool.{Bool, true, false, not, ◌&&◌, ◌||◌}
use mathlib.Core.List.{List}
use mathlib.Core.Option.{Option, none, some}
use mcp_business_assistant.Prelude.Tests.{leb, ◌==◌, if◌then◌else◌, is_some}
use mcp_business_assistant.Prelude.Text.{prefix, text_length}

pub data Regex : Type 0 where
  empty boundary : Regex
  one : (Char → Bool) → Regex
  repeated : (Char → Bool) → ℕ → Option ℕ → Regex
  follows either : Regex → Regex → Regex
  group : Regex → Regex

abbrev pub is_lower : ℕ → Bool
is_lower n = leb b'a' n && leb n b'z'

abbrev pub is_upper : ℕ → Bool
is_upper n = leb b'A' n && leb n b'Z'

abbrev lower_code : ℕ → ℕ
lower_code n = if is_upper n then n + 32 else n

abbrev pub is_letter : Char → Bool
is_letter c = is_lower (code c) || is_upper (code c)

abbrev pub is_capital : Char → Bool
is_capital c = is_upper (code c)

-- `\w`
abbrev pub is_word : Char → Bool
is_word c = is_letter c || leb b'0' (code c) && leb (code c) b'9' || code c == b'_'

abbrev is_word_at : Option Char → Bool
is_word_at none = false
is_word_at (some c) = is_word c

abbrev head : String → Option Char
head [] = none
head (c ∷ s) = some c

abbrev differ : Bool → Bool → Bool
differ true b = not b
differ false b = b

-- What follows a match: the character before, the text that is left and the group so far. It gives
-- the group of the whole match.
abbrev Goal : Type 0
Goal = Option Char → String → Option String → Option (Option String)

abbrev first_some : {A : Type 0} → Option A → Option A → Option A
first_some none o = o
first_some (some a) o = some a

abbrev some_left : Option ℕ → Bool
some_left none = true
some_left (some zero) = false
some_left (some _) = true

abbrev one_less : Option ℕ → Option ℕ
one_less none = none
one_less (some n) = some (n - 1)

repeat : (Char → Bool) → ℕ → Option ℕ → Goal → Goal
repeat test least most goal previous [] held = if least == 0 then goal previous [] held else none
repeat test least most goal previous (c ∷ s) held =
    let more = repeat test (least - 1) (one_less most) goal (some c) s held in
    let stop = if least == 0 then goal previous (c ∷ s) held else none in
    if test c && some_left most then first_some more stop else stop

step : (Char → Bool) → Goal → Goal
step test goal previous [] held = none
step test goal previous (c ∷ s) held = if test c then goal (some c) s held else none

match : Regex → Goal → Goal
unfolding repeat step
match empty goal = goal
match boundary goal = λ previous s held.
    if differ (is_word_at previous) (is_word_at (head s)) then goal previous s held else none
match (one test) goal = step test goal
match (repeated test least most) goal = repeat test least most goal
match (follows a b) goal = match a (match b goal)
match (either a b) goal =
    λ previous s held. first_some (match a goal previous s held) (match b goal previous s held)
match (group a) goal = λ previous s held.
    match a (λ previous' s' _. goal previous' s' (some (prefix (text_length s - text_length s') s)))
      previous s held

search_from : Regex → Option Char → String → Option (Option String)
unfolding match
search_from r previous [] = match r (λ _ _ held. some held) previous [] none
search_from r previous (c ∷ s) =
    let later = search_from r (some c) s in
    first_some (match r (λ _ _ held. some held) previous (c ∷ s) none) later

-- `bool(re.search(pattern, text))`
unfoldable pub found : Regex → String → Bool
unfolding search_from
found r s = is_some (search_from r none s)

abbrev joined : Option (Option String) → Option String
joined none = none
joined (some held) = held

-- `re.search(pattern, text).group(1)`, or `none` where there is no match
unfoldable pub captured : Regex → String → Option String
unfolding search_from
captured r s = joined (search_from r none s)

-- A text with IGNORECASE.
unfoldable pub plain : String → Regex
plain [] = empty
plain (c ∷ s) = follows (one (λ d. lower_code (code d) == lower_code (code c))) (plain s)

infixr 90 ◌▸◌
abbrev pub ◌▸◌ : Regex → Regex → Regex
a ▸ b = follows a b

unfoldable pub one_of : List Regex → Regex
one_of List.[] = one (λ _. false)
one_of (List.◌∷◌ r List.[]) = r
one_of (List.◌∷◌ r (List.◌∷◌ q rs)) = either r (one_of (List.◌∷◌ q rs))

-- `r?`
abbrev pub optional : Regex → Regex
optional r = either r empty

abbrev not_newline : Char → Bool
not_newline c = not (code c == 10)

-- `.*`
abbrev pub anything : Regex
anything = repeated not_newline 0 none

-- `.{least,most}`
abbrev pub any_text : ℕ → ℕ → Regex
any_text least most = repeated not_newline least (some most)

unfoldable pub sales_leads : Regex
unfolding plain one_of
sales_leads =
    boundary
    ▸ one_of (List.◌∷◌ (plain "send") (List.◌∷◌ (plain "email") List.[]))
    ▸ boundary
    ▸ anything
    ▸ boundary
    ▸ plain "lead"

found_test : found sales_leads "please Send mail to the leads" ≡ true
unfolding found sales_leads
found_test = refl

not_found_test : found sales_leads "resend this to the leads" ≡ false
unfolding found sales_leads
not_found_test = refl

captured_test :
    captured
      (plain "for" ▸ repeated (λ c. code c == 32) 1 none ▸ group (repeated is_word 2 (some 5)))
      "for a, for Adaline"
    ≡ some "Adali"
unfolding captured plain prefix text_length
captured_test = refl
