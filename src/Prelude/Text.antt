-- ===== src/Prelude/Text.antt =====
-- What the program uses of Python's `str` and of the text of numbers.
use Prim.Native.Nat.{ℕ, zero, suc, ◌/◌, ◌%◌, ◌^◌, Ordering}
use Prim.Native.Char.{Char, code}
use Prim.Native.String
use Prim.Native.String.{String, [], ◌∷◌}
use mathlib.Core.Path.{◌≡◌, refl}
use mathlib.Core.Bool.{Bool, true, false, ◌&&◌, ◌||◌, not}
use mathlib.Core.List.{List}
use mathlib.Core.Option.{Option, none, some}
use mcp_business_assistant.Prelude.Tests.{ltb, leb, ◌==◌, if◌then◌else◌}
use mcp_business_assistant.Prelude.Int.{ℤ, pos, negsuc}

-- `s + t`, and the parts of an f-string
infixr 60 ◌⊕◌
abbrev pub ◌⊕◌ : String → String → String
s ⊕ t = String.◌++◌ s t

-- `bool(s)`
abbrev pub is_empty_text : String → Bool
is_empty_text [] = true
is_empty_text (_ ∷ _) = false

-- `text or d` of an optional text: the empty text does not count.
abbrev pub or_text : Option String → String → String
or_text none d = d
or_text (some s) d = if is_empty_text s then d else s

-- `separator.join(parts)`
unfoldable pub join : String → List String → String
join sep List.[] = ""
join sep (List.◌∷◌ s List.[]) = s
join sep (List.◌∷◌ s (List.◌∷◌ t r)) = s ⊕ sep ⊕ join sep (List.◌∷◌ t r)

-- `s[:n]`
unfoldable pub prefix : ℕ → String → String
prefix zero s = ""
prefix (suc n) [] = ""
prefix (suc n) (c ∷ s) = c ∷ prefix n s

-- `len(s)`
unfoldable pub text_length : String → ℕ
text_length [] = 0
text_length (c ∷ s) = suc (text_length s)

-- The text of a digit below 16.
unfoldable pub digit : ℕ → String
digit zero = "0"
digit (suc zero) = "1"
digit (suc (suc zero)) = "2"
digit (suc (suc (suc zero))) = "3"
digit (suc (suc (suc (suc zero)))) = "4"
digit (suc (suc (suc (suc (suc zero))))) = "5"
digit (suc (suc (suc (suc (suc (suc zero)))))) = "6"
digit (suc (suc (suc (suc (suc (suc (suc zero))))))) = "7"
digit (suc (suc (suc (suc (suc (suc (suc (suc n)))))))) =
    if n == 0
    then "8"
    else if n == 1
    then "9"
    else if n == 2
    then "a"
    else if n == 3
    then "b"
    else if n == 4
    then "c"
    else if n == 5
    then "d"
    else if n == 6
    then "e"
    else "f"

-- The digits of `n` in base `b`, before the text `rest`. A number has no more digits than its
-- value plus one, so that fuel is enough.
digits_before : ℕ → ℕ → ℕ → String → String
unfolding digit
digits_before zero b n rest = rest
digits_before (suc fuel) b n rest =
    let more = digits_before fuel b (n / b) (digit (n % b) ⊕ rest) in
    if ltb n b then digit n ⊕ rest else more

-- `str(n)` of an integer
unfoldable pub str_ℕ : ℕ → String
unfolding digits_before
str_ℕ n = digits_before (suc n) 10 n ""

unfoldable pub str_ℤ : ℤ → String
unfolding str_ℕ
str_ℤ (pos n) = str_ℕ n
str_ℤ (negsuc n) = "-" ⊕ str_ℕ (suc n)

-- The last `k` hexadecimal digits of `n`.
unfoldable pub hex : ℕ → ℕ → String
unfolding digit
hex zero n = ""
hex (suc k) n = hex k (n / 16) ⊕ digit (n % 16)

-- `str(u)` of a UUID, which is a number of 128 bits.
unfoldable pub str_uuid : ℕ → String
unfolding hex
str_uuid u =
    hex 8 (u / 2 ^ 96)
    ⊕ "-"
    ⊕ hex 4 (u / 2 ^ 80)
    ⊕ "-"
    ⊕ hex 4 (u / 2 ^ 64)
    ⊕ "-"
    ⊕ hex 4 (u / 2 ^ 48)
    ⊕ "-"
    ⊕ hex 12 u

-- `c in s` for a character given by its code.
unfoldable pub has_code : ℕ → String → Bool
has_code n [] = false
has_code n (c ∷ s) = code c == n || has_code n s

-- The body of `repr(s)` in the quote `q`. Characters above 0x7e are taken as printable.
repr_body : ℕ → String → String
unfolding hex
repr_body q [] = ""
repr_body q (c ∷ s) =
    let n = code c in
    let rest = repr_body q s in
    if n == 0x5c
    then "\\\\" ⊕ rest
    else if n == q
    then "\\" ⊕ c ∷ rest
    else if n == 10
    then "\\n" ⊕ rest
    else if n == 13
    then "\\r" ⊕ rest
    else if n == 9
    then "\\t" ⊕ rest
    else if ltb n 32 || n == 127
    then "\\x" ⊕ hex 2 n ⊕ rest
    else c ∷ rest

-- `repr(s)`: in single quotes, or in double quotes where only single ones occur.
unfoldable pub repr_str : String → String
unfolding repr_body has_code
repr_str s =
    if has_code 39 s && not (has_code 34 s)
    then "\"" ⊕ repr_body 34 s ⊕ "\""
    else "'" ⊕ repr_body 39 s ⊕ "'"

-- Python's white space, as far as `strip` and `split` meet it in ASCII.
abbrev pub is_space : Char → Bool
is_space c = code c == 32 || leb 9 (code c) && leb (code c) 13 || leb 28 (code c) && leb (code c) 31

unfoldable pub lstrip : String → String
lstrip [] = ""
lstrip (c ∷ s) = let rest = lstrip s in if is_space c then rest else c ∷ s

unfoldable pub rstrip : String → String
rstrip [] = ""
rstrip (c ∷ s) = let rest = rstrip s in if is_space c && is_empty_text rest then "" else c ∷ rest

-- `s.strip()`
unfoldable pub strip : String → String
unfolding lstrip rstrip
strip s = rstrip (lstrip s)

-- `uuid.hex[:n]`
unfoldable pub hex_prefix : ℕ → ℕ → String
unfolding hex prefix
hex_prefix n uuid = prefix n (hex 32 uuid)

-- `sorted(texts)`, by code points
abbrev pub text_before : String → String → Bool
text_before a b = elim (String.compare a b) [ Ordering.lt ↦ true | _ ↦ false ]

unfoldable pub insert_text : String → List String → List String
insert_text s List.[] = List.◌∷◌ s List.[]
insert_text s (List.◌∷◌ t ts) =
    let later = List.◌∷◌ t (insert_text s ts) in
    if text_before t s then later else List.◌∷◌ s (List.◌∷◌ t ts)

unfoldable pub sort_texts : List String → List String
unfolding insert_text
sort_texts List.[] = List.[]
sort_texts (List.◌∷◌ s ts) = insert_text s (sort_texts ts)

repr_test : repr_str "it's a \"x\"\n" ≡ "'it\\'s a \"x\"\\n'"
unfolding repr_str
repr_test = refl

uuid_test : str_uuid 0x123456789abcdef0123456789abcdef0 ≡ "12345678-9abc-def0-1234-56789abcdef0"
unfolding str_uuid
uuid_test = refl

numbers_test : (str_ℕ 0 ⊕ str_ℤ (negsuc 1204)) ≡ "0-1205"
unfolding str_ℕ str_ℤ
numbers_test = refl
