-- ===== src/Conversation/Linked.antt =====
-- What the repair of a history gives: no tool result without its call, and nothing else is dropped.
use mathlib.Core.Path.{subst}
use mathlib.Core.List.{Memᴰ}
use mcp_business_assistant.Prelude.{
  String, ◌≡◌, ◌≢◌, ◌↔◌, ◌⊎◌, ◌++◌, ◌||◌, ◌∙◌, sym, map, eq_iff, refl, ap, Bool, true, false,
  Option, none, some, List, [], ◌∷◌, any, str_eq, keep, Bool-cases, inl, inr, arith,
}
use mcp_business_assistant.Prelude.Text.{is_empty_text}
use mcp_business_assistant.Conversation.Messages.{LlmRole, assistant, tool, LlmToolCall, LlmMessage}
use mcp_business_assistant.Conversation.History.{
  call_ids, is_known, admits, known_after, repair_from, repair_dangling_tool_messages,
}

-- One of the earlier messages is of the assistant and has a call with the id.
abbrev pub IsAnnounced : String → List LlmMessage → Type 0
IsAnnounced id earlier =
    (m : LlmMessage) × Memᴰ m earlier
    × (m.role ≡ assistant)
    × (call : LlmToolCall) × Memᴰ call m.tool_calls
    × (call.id ≡ id)

-- Each tool result answers a call that an earlier assistant message made; the messages before the
-- list are given, the last one first.
abbrev pub Linked : List LlmMessage → List LlmMessage → Type 0
Linked earlier [] = Unit
Linked earlier (message ∷ messages) =
    (message.role ≡ tool
      → (id : String) × (message.tool_call_id ≡ some id) × (id ≢ "") × IsAnnounced id earlier)
    × Linked (message ∷ earlier) messages

-- The same, by the ids that the loop knows.
abbrev Follows : List String → List LlmMessage → Type 0
Follows known [] = Unit
Follows known (message ∷ messages) =
    (message.role ≡ tool
      → (id : String) × (message.tool_call_id ≡ some id)
        × (is_empty_text id ≡ false)
        × (any (str_eq id) known ≡ true))
    × Follows (known_after known message) messages

-- The known ids are those of the calls so far.
abbrev Knows : List String → List LlmMessage → Type 0
Knows known earlier = (id : String) → (any (str_eq id) known ≡ true) ↔ IsAnnounced id earlier

any-append :
    (id : String) (xs ys : List String)
    → any (str_eq id) (xs ++ ys) ≡ (any (str_eq id) xs || any (str_eq id) ys)
any-append id [] ys = refl
any-append id (x ∷ xs) ys = elim (Bool-cases (str_eq id x)) [
  | inl e ↦ rw e refl
  | inr e ↦ rw e (any-append id xs ys)
]

called_found :
    (id : String) (calls : List LlmToolCall)
    → any (str_eq id) (map (λ (call : LlmToolCall). call.id) calls) ≡ true
    → (call : LlmToolCall) × Memᴰ call calls × (call.id ≡ id)
called_found id [] h = absurd (cc (h))
called_found id (call ∷ calls) h = elim (Bool-cases (str_eq id call.id)) [
  | inl e ↦ (call, Memᴰ.head refl, sym ((eq_iff id call.id).0 e))
  | inr e ↦
      let (found, there, same) = called_found id calls (rw e at h) in (found, Memᴰ.tail there, same)
]

found_called :
    (id : String) (call : LlmToolCall) (calls : List LlmToolCall)
    → Memᴰ call calls
    → call.id ≡ id
    → any (str_eq id) (map (λ (call : LlmToolCall). call.id) calls) ≡ true
found_called id call [] there same = elim there [ ]
found_called id call (c ∷ calls) (Memᴰ.head e) same =
    let here : id ≡ c.id = sym same ∙ ap (λ (x : LlmToolCall). x.id) e in
    rw ((eq_iff id c.id).1 here) refl
found_called id call (c ∷ calls) (Memᴰ.tail there) same = elim (Bool-cases (str_eq id c.id)) [
  | inl e ↦ rw e refl
  | inr e ↦ rw e (found_called id call calls there same)
]

-- What the loop knows after a message.
known_after-cases :
    (known : List String) (m : LlmMessage)
    → ((m.role ≡ assistant) × (known_after known m ≡ known ++ call_ids m))
      ⊎ ((m.role ≢ assistant) × (known_after known m ≡ known))
unfolding known_after
known_after-cases known m =
    elim m.role
      as (λ r.
        ((r ≡ assistant)
          × ((elim r [ assistant ↦ known ++ call_ids m | _ ↦ known ]) ≡ known ++ call_ids m))
        ⊎ ((r ≢ assistant) × ((elim r [ assistant ↦ known ++ call_ids m | _ ↦ known ]) ≡ known))) [
          | LlmRole.system ↦ inr (λ h. cc (h), refl)
          | LlmRole.user ↦ inr (λ h. cc (h), refl)
          | assistant ↦ inl (refl, refl)
          | tool ↦ inr (λ h. cc (h), refl)
        ]

later :
    (id : String) (m : LlmMessage) (earlier : List LlmMessage)
    → IsAnnounced id earlier
    → IsAnnounced id (m ∷ earlier)
later id m earlier (n, there, role, call, has, same) = (n, Memᴰ.tail there, role, call, has, same)

-- An id that the message announces or an earlier one.
IsAnnounced-first :
    (id : String) (m : LlmMessage) (earlier : List LlmMessage)
    → IsAnnounced id (m ∷ earlier)
    → ((m.role ≡ assistant) × (call : LlmToolCall) × Memᴰ call m.tool_calls × (call.id ≡ id))
      ⊎ IsAnnounced id earlier
IsAnnounced-first id m earlier (n, Memᴰ.head e, role, call, has, same) = inl (
    subst
      (λ (x : LlmMessage).
        (x.role ≡ assistant) × (call : LlmToolCall) × Memᴰ call x.tool_calls × (call.id ≡ id))
      e (role, call, has, same))
IsAnnounced-first id m earlier (n, Memᴰ.tail there, role, call, has, same) =
    inr (n, there, role, call, has, same)

Knows-after :
    (known : List String) (m : LlmMessage) (earlier : List LlmMessage)
    → Knows known earlier
    → Knows (known_after known m) (m ∷ earlier)
Knows-after known m earlier knows id = elim (known_after-cases known m) [
  | inr (other, e) ↦ (
    λ h. later id m earlier ((knows id).0 (rw e at h)),
    λ announced. elim (IsAnnounced-first id m earlier announced) [
      | inl (role, _, _, _) ↦ absurd (other role)
      | inr before ↦ rw e ((knows id).1 before)
    ],
  )
  | inl (role, e) ↦ (
    λ h. elim (Bool-cases (any (str_eq id) known)) [
      | inl old ↦ later id m earlier ((knows id).0 old)
      | inr new ↦
          let (call, has, same) =
            called_found id m.tool_calls (rw (e, any-append id known (call_ids m), new) at h) in
          (m, Memᴰ.head refl, role, call, has, same)
    ],
    λ announced. elim (Bool-cases (any (str_eq id) known)) [
      | inl old ↦ rw (e, any-append id known (call_ids m), old) refl
      | inr new ↦ elim (IsAnnounced-first id m earlier announced) [
        | inr before ↦ absurd (cc ((knows id).1 before, new))
        | inl (_, call, there, same) ↦
            rw (e, any-append id known (call_ids m), new)
              (found_called id call m.tool_calls there same)
      ]
    ],
  )
]

filled_iff : (id : String) → (is_empty_text id ≡ false) ↔ (id ≢ "")
filled_iff String.[] = (λ h. absurd (cc (h)), λ h. absurd (h refl))
filled_iff (String.◌∷◌ c s) = (λ h e. absurd (cc (e)), λ h. refl)

Follows-iff :
    (known : List String) (earlier messages : List LlmMessage)
    → Knows known earlier
    → Follows known messages ↔ Linked earlier messages
Follows-iff known earlier [] knows = (λ _. tt, λ _. tt)
Follows-iff known earlier (m ∷ messages) knows =
    let rest =
      Follows-iff (known_after known m) (m ∷ earlier) messages
        (Knows-after known m earlier knows) in
    (
      λ (first, others). (
        λ role.
            let (id, has, filled, member) = first role in
            (id, has, (filled_iff id).0 filled, (knows id).0 member),
        rest.0 others,
      ),
      λ (first, others). (
        λ role.
            let (id, has, filled, announced) = first role in
            (id, has, (filled_iff id).1 filled, (knows id).1 announced),
        rest.1 others,
      ),
    )

Knows-nothing : Knows [] []
Knows-nothing id = (λ h. absurd (cc (h)), λ (m, there, _, _, _, _). elim there [ ])

-- The condition on a tool result.
abbrev Answers : List String → LlmMessage → Type 0
Answers known m =
    (id : String) × (m.tool_call_id ≡ some id)
    × (is_empty_text id ≡ false)
    × (any (str_eq id) known ≡ true)

known_id :
    (o : Option String) (known : List String)
    → is_known o known ≡ true
    → (id : String) × (o ≡ some id) × (is_empty_text id ≡ false) × (any (str_eq id) known ≡ true)
known_id none known h = absurd (cc)
known_id (some id) known h = (id, refl, ground arith, ground arith)

id_known :
    (o : Option String) (known : List String)
    → ((id : String) × (o ≡ some id) × (is_empty_text id ≡ false) × (any (str_eq id) known ≡ true))
    → is_known o known ≡ true
id_known o known (id, e, filled, member) = rw (e, filled, member) refl

admits_when :
    (known : List String) (m : LlmMessage) → admits known m ≡ true → m.role ≡ tool → Answers known m
unfolding admits
admits_when known m h e = known_id m.tool_call_id known (rw (admits, e) at h)

dropped-role : (known : List String) (m : LlmMessage) → admits known m ≡ false → m.role ≡ tool
unfolding admits
dropped-role known m h = ground arith

dropped-known :
    (known : List String) (m : LlmMessage) → admits known m ≡ false → known_after known m ≡ known
unfolding admits known_after
dropped-known known m h = ground arith

admitted :
    (known : List String) (m : LlmMessage)
    → (m.role ≡ tool → Answers known m)
    → admits known m ≡ true
unfolding admits
admitted known m h = elim (Bool-cases (admits known m)) [
  | inl e ↦ e
  | inr e ↦
      let role = dropped-role known m e in
      absurd (cc (id_known m.tool_call_id known (h role), rw (admits, role) at e))
]

repair_from-Follows :
    (known : List String) (messages : List LlmMessage) → Follows known (repair_from known messages)
unfolding repair_from
repair_from-Follows known [] = tt
repair_from-Follows known (m ∷ messages) = elim (Bool-cases (admits known m)) [
  | inl e ↦
      rw (repair_from, e)
        (admits_when known m e, repair_from-Follows (known_after known m) messages)
  | inr e ↦ rw (repair_from, e, dropped-known known m e) (repair_from-Follows known messages)
]

Follows-repair_from :
    (known : List String) (messages : List LlmMessage)
    → Follows known messages
    → repair_from known messages ≡ messages
unfolding repair_from
Follows-repair_from known [] h = refl
Follows-repair_from known (m ∷ messages) (first, rest) =
    rw (admitted known m first, Follows-repair_from (known_after known m) messages rest) refl

-- Whether a message is no tool result.
abbrev pub is_turn : LlmMessage → Bool
is_turn m = elim m.role [ tool ↦ false | _ ↦ true ]

tool-is_turn : (m : LlmMessage) → m.role ≡ tool → is_turn m ≡ false
tool-is_turn m h = ground (arith, h)

repair_from-turns :
    (known : List String) (messages : List LlmMessage)
    → keep is_turn (repair_from known messages) ≡ keep is_turn messages
unfolding repair_from
repair_from-turns known [] = refl
repair_from-turns known (m ∷ messages) = elim (Bool-cases (admits known m)) [
  | inl e ↦ rw e (
      ap (λ (rest : List LlmMessage). elim (is_turn m) [ true ↦ m ∷ rest | false ↦ rest ])
        (repair_from-turns (known_after known m) messages))
  | inr e ↦
      rw (e, keep, tool-is_turn m (dropped-role known m e))
        (repair_from-turns (known_after known m) messages)
]

-- In a repaired history each tool result carries the id of a call that an earlier assistant message
-- of it made; its other messages are those of the history in their order; and it is the history
-- itself exactly where each tool result of the history already carries such an id.
pub repair_dangling_tool_messages_lem :
    (messages : List LlmMessage)
    → Linked [] (repair_dangling_tool_messages messages)
      × (keep is_turn (repair_dangling_tool_messages messages) ≡ keep is_turn messages)
      × ((repair_dangling_tool_messages messages ≡ messages) ↔ Linked [] messages)
unfolding repair_dangling_tool_messages
repair_dangling_tool_messages_lem messages =
    let follows = repair_from-Follows [] messages in
    let repaired = Follows-iff [] [] (repair_from [] messages) Knows-nothing in
    let given = Follows-iff [] [] messages Knows-nothing in
    (
      repaired.0 follows,
      repair_from-turns [] messages,
      (
        λ e. given.0 (subst (Follows []) e follows),
        λ linked. Follows-repair_from [] messages (given.1 linked),
      ),
    )
