-- ===== src/Mcp/Types/Names.antt =====
-- The naming scheme of tools: qualified names are taken apart as they were put together.
use Prim.Native.String.{[], ◌∷◌}
use Prim.Native.Char.{Char, code as char_code}
use text.Mathlib.TextEquality.{Char-path}
use text.Mathlib.TextLemmas.{nil-append, cons-append, cons-ne-nil}
use mcp_business_assistant.Prelude.{
  ◌∙◌, sym, String, ◌≡◌, ◌≢◌, refl, ◌==◌, Bool, true, false, ◌&&◌, ◌||◌, Option, none, some, arith,
  ap, Bool-cases, inl, inr,
}
use mcp_business_assistant.Prelude.Text.{◌⊕◌}
use mcp_business_assistant.Mcp.Types.{
  qualify, partition, prepend, is_underscore, nonempty_parts, split_qualified, name_separator,
}

-- Whether a text holds the separator.
unfoldable pub has_separator : String → Bool
has_separator [] = false
has_separator (c ∷ []) = false
has_separator (c ∷ (d ∷ s)) = char_code c == b'_' && char_code d == b'_' || has_separator (d ∷ s)

abbrev underscore : Char
underscore = "_"

separator-append : (t : String) → name_separator ⊕ t ≡ underscore ∷ (underscore ∷ t)
separator-append t =
    cons-append underscore "_" t
    ∙ ap (λ s. underscore ∷ s)
        (cons-append underscore [] t ∙ ap (λ s. underscore ∷ s) (nil-append t))

ruleset text_laws = (nil-append, cons-append, separator-append)

clear_tail :
    (c d : Char) (r : String)
    → has_separator (c ∷ (d ∷ r)) ≡ false
    → ((is_underscore c && is_underscore d) ≡ false) × (has_separator (d ∷ r) ≡ false)
unfolding has_separator
clear_tail c d r h = ground arith

partition-cons :
    (c d : Char) (r : String)
    → (is_underscore c && is_underscore d) ≡ false
    → partition (c ∷ (d ∷ r)) ≡ prepend c (partition (d ∷ r))
unfolding partition
partition-cons c d r h = rw h

partition-here :
    (c d : Char) (r : String)
    → (is_underscore c && is_underscore d) ≡ true
    → partition (c ∷ (d ∷ r)) ≡ some ("", r)
unfolding partition
partition-here c d r h = rw h

partition-append :
    (s t : String)
    → has_separator (s ⊕ "_") ≡ false
    → partition (s ⊕ underscore ∷ (underscore ∷ t)) ≡ some (s, t)
partition-append [] t h = simp text_laws (unfold partition in refl)
partition-append (c ∷ []) t h =
    let h' = clear_tail c underscore "" (simp text_laws at h) in
    simp text_laws
      (rw (partition-cons c underscore (underscore ∷ t) h'.0) (unfold partition in refl))
partition-append (c ∷ (d ∷ s)) t h =
    let clear = clear_tail c d (s ⊕ "_") (simp text_laws at h) in
    let ih = partition-append (d ∷ s) t (simp text_laws clear.1) in
    let ih' = simp text_laws at ih in
    simp text_laws (rw (partition-cons c d (s ⊕ underscore ∷ (underscore ∷ t)) clear.0) (rw ih'))

-- A name that `qualify` built from a nonempty server and tool is split into them, if the server's
-- name neither holds two underscores in a row nor ends in an underscore.
pub split_qualified-qualify :
    (server tool : String)
    → has_separator (server ⊕ "_") ≡ false
    → server ≢ ""
    → tool ≢ ""
    → split_qualified (qualify server tool) ≡ some (server, tool)
unfolding split_qualified qualify
split_qualified-qualify [] tool h ps pt = absurd (ps refl)
split_qualified-qualify (c ∷ s) [] h ps pt = absurd (pt refl)
split_qualified-qualify (c ∷ s) (d ∷ t) h ps pt =
    rw (separator-append (d ∷ t), partition-append (c ∷ s) (d ∷ t) h) refl

qualify-cons : (c : Char) (s t : String) → qualify (c ∷ s) t ≡ c ∷ qualify s t
unfolding qualify
qualify-cons c s t = cons-append c s (name_separator ⊕ t)

is_underscore-eq : (c : Char) → is_underscore c ≡ true → c ≡ underscore
is_underscore-eq c h = Char-path c underscore (ground arith)

both_underscores :
    (c d : Char) → (is_underscore c && is_underscore d) ≡ true → (c ≡ underscore) × (d ≡ underscore)
both_underscores c d h = (is_underscore-eq c (ground arith), is_underscore-eq d (ground arith))

some_pair :
    {a b c d : String}
    → ◌≡◌ {A = Option (String × String)} (some (a, b)) (some (c, d))
    → (a ≡ c) × (b ≡ d)
some_pair h = (cc, cc)

prepend_sound :
    (c : Char) (r : String) (o : Option (String × String)) {server tool : String}
    → ((s t : String) → o ≡ some (s, t) → qualify s t ≡ r)
    → prepend c o ≡ some (server, tool)
    → qualify server tool ≡ c ∷ r
prepend_sound c r none ih h = absurd (cc)
prepend_sound c r (some (s, t)) {server} {tool} ih h =
    let p = some_pair h in rw (← p.0, ← p.1, qualify-cons c s t, ih s t refl)

partition_sound :
    (name server tool : String) → partition name ≡ some (server, tool) → qualify server tool ≡ name
partition_sound [] s t h = unfold partition in cc
partition_sound (c ∷ []) s t h = unfold partition in cc
partition_sound (c ∷ (d ∷ r)) s t h = elim (Bool-cases (is_underscore c && is_underscore d)) [
  | inl e ↦
      let us = both_underscores c d e in
      let p = some_pair (sym (partition-here c d r e) ∙ h) in
      rw (us.0, us.1, ← p.0, ← p.1) (unfold qualify in simp text_laws)
  | inr e ↦
      prepend_sound c (d ∷ r) (partition (d ∷ r)) (partition_sound (d ∷ r))
        (sym (partition-cons c d r e) ∙ h)
]

nonempty_parts_sound :
    (o : Option (String × String)) {server tool : String}
    → nonempty_parts o ≡ some (server, tool)
    → (o ≡ some (server, tool)) × (server ≢ "") × (tool ≢ "")
nonempty_parts_sound none h = absurd (cc)
nonempty_parts_sound (some ([], t)) h = absurd (cc)
nonempty_parts_sound (some (c ∷ s, [])) h = absurd (cc)
nonempty_parts_sound (some (c ∷ s, d ∷ t)) h =
    let p = some_pair h in (h, λ e. cons-ne-nil c s (p.0 ∙ e), λ e. cons-ne-nil d t (p.1 ∙ e))

-- A name that splits is the qualified name of its two parts, and both are nonempty.
split_qualified_sound :
    (name server tool : String)
    → split_qualified name ≡ some (server, tool)
    → (qualify server tool ≡ name) × (server ≢ "") × (tool ≢ "")
unfolding split_qualified
split_qualified_sound name server tool h =
    let parts = nonempty_parts_sound (partition name) h in
    (partition_sound name server tool parts.0, parts.1, parts.2)
