-- ===== src/Conversation/Numbering.antt =====
-- The numbers of the turns of a conversation.
use mathlib.Core.Path.{subst}
use mathlib.Core.List.{Memᴰ}
use mcp_business_assistant.Prelude.{
  ◌⊎◌, ◌↔◌, ◌≢◌, ◌==◌, ◌&&◌, ltb, ◌∙◌, ◌+◌, true, none, ℕ, ◌<◌, ◌≤◌, String, ◌≡◌, refl, sym, false,
  Option, some, List, [], ◌∷◌, ◌++◌, any, All, All-append, Bool-cases, inl, inr, arith,
}
use mcp_business_assistant.Enums.{MessageRole}
use mcp_business_assistant.Json.{Fields}
use mcp_business_assistant.Conversation.Messages.{LlmToolCall}
use mcp_business_assistant.Conversation.Transcript.{
  Message, max_sequence, next_sequence, same_slot, insert_message, new_message, add_message,
}

-- The turns of each conversation stand in the order of their numbers.
abbrev pub IsOrdered : List Message → Type 0
IsOrdered [] = Unit
IsOrdered (m ∷ ms) =
    All (λ (n : Message). n.conversation_id ≡ m.conversation_id → m.sequence < n.sequence) ms
    × IsOrdered ms

-- No two rows have the conversation and the number in common.
abbrev pub IsUnique : List Message → Type 0
IsUnique [] = Unit
IsUnique (m ∷ ms) = All (λ (n : Message). same_slot m n ≡ false) ms × IsUnique ms

-- No number of the conversation is above a bound.
abbrev Below : ℕ → ℕ → List Message → Type 0
Below c bound = All (λ (n : Message). n.conversation_id ≡ c → n.sequence ≤ bound)

Below-trans : (c low high : ℕ) (ms : List Message) → low ≤ high → Below c low ms → Below c high ms
Below-trans c low high [] h b = tt
Below-trans c low high (m ∷ ms) h (first, rest) =
    (λ e. omega (arith, first e, h), Below-trans c low high ms h rest)

max_sequence-Below : (c : ℕ) (ms : List Message) → Below c (max_sequence c ms) ms
unfolding max_sequence
max_sequence-Below c [] = tt
max_sequence-Below c (m ∷ ms) =
    let grows : max_sequence c ms ≤ max_sequence c (m ∷ ms) = ground arith in
    (
      λ e. ground (arith, e),
      Below-trans c (max_sequence c ms) (max_sequence c (m ∷ ms)) ms grows
          (max_sequence-Below c ms),
    )

slot_free :
    (new : Message) (ms : List Message) (bound : ℕ)
    → bound < new.sequence
    → Below new.conversation_id bound ms
    → any (same_slot new) ms ≡ false
slot_free new [] bound h b = refl
slot_free new (m ∷ ms) bound h (first, rest) = ground (arith, first, slot_free new ms bound h rest)

appended-IsOrdered :
    (new : Message) (ms : List Message) (bound : ℕ)
    → bound < new.sequence
    → Below new.conversation_id bound ms
    → IsOrdered ms
    → IsOrdered (ms ++ new ∷ [])
appended-IsOrdered new [] bound h b o = (tt, tt)
appended-IsOrdered new (m ∷ ms) bound h (first, rest) (above, o) = (
  All-append _ ms (new ∷ []) above ((λ e. omega (arith, first (sym e), h)), tt),
  appended-IsOrdered new ms bound h rest o,
)

-- Where no other session writes in between, a turn is always added, behind the others, and the turns
-- stay in the order of their numbers.
pub add_message-IsOrdered :
    (messages : List Message) (c : ℕ) (role : MessageRole) (content : Option String)
    (calls : Option (List LlmToolCall)) (id name : Option String) (metadata : Option Fields)
    → IsOrdered messages
    → (add_message messages c role content calls id name metadata messages
        ≡ some (messages ++ new_message messages c role content calls id name metadata ∷ []))
      × IsOrdered (messages ++ new_message messages c role content calls id name metadata ∷ [])
unfolding add_message insert_message new_message next_sequence
add_message-IsOrdered messages c role content calls id name metadata ordered =
    let new = new_message messages c role content calls id name metadata in
    let bound = max_sequence c messages in
    let above : bound < new.sequence = omega arith in
    let below = max_sequence-Below c messages in
    (
      rw (slot_free new messages bound above below) refl,
      appended-IsOrdered new messages bound above below ordered,
    )

free-All :
    (new : Message) (ms : List Message)
    → any (same_slot new) ms ≡ false
    → All (λ (m : Message). same_slot m new ≡ false) ms
free-All new [] h = tt
free-All new (m ∷ ms) h = (ground (arith, h), free-All new ms (ground (arith, h)))

appended-IsUnique :
    (new : Message) (ms : List Message)
    → All (λ (m : Message). same_slot m new ≡ false) ms
    → IsUnique ms
    → IsUnique (ms ++ new ∷ [])
appended-IsUnique new [] h u = (tt, tt)
appended-IsUnique new (m ∷ ms) (first, rest) (apart, u) =
    (All-append _ ms (new ∷ []) apart (first, tt), appended-IsUnique new ms rest u)

-- The number of the next turn of a conversation, from the rows that were read: above those that are
-- there, and without a gap.
pub record IsNext (c : ℕ) (read : List Message) (n : ℕ) : Type 0 where
  pub above : All (λ (m : Message). m.conversation_id ≡ c → m.sequence < n) read
  pub tight :
      (n ≡ 1) ⊎ ((m : Message) × Memᴰ m read × (m.conversation_id ≡ c) × (m.sequence + 1 ≡ n))

Below-above :
    (c bound : ℕ) (ms : List Message)
    → Below c bound ms
    → All (λ (m : Message). m.conversation_id ≡ c → m.sequence < bound + 1) ms
Below-above c bound [] b = tt
Below-above c bound (m ∷ ms) (first, rest) =
    (λ e. omega (arith, first e), Below-above c bound ms rest)

-- The highest number is zero or that of a row.
max_sequence-found :
    (c : ℕ) (ms : List Message)
    → (max_sequence c ms ≡ 0)
      ⊎ ((m : Message) × Memᴰ m ms × (m.conversation_id ≡ c) × (m.sequence ≡ max_sequence c ms))
unfolding max_sequence
max_sequence-found c [] = inl refl
max_sequence-found c (m ∷ ms) =
    elim (Bool-cases (m.conversation_id == c && ltb (max_sequence c ms) m.sequence)) [
      | inl e ↦
          let picked : m.sequence ≡ max_sequence c (m ∷ ms) = ground (arith, e) in
          let here : m.conversation_id ≡ c = ground (arith, e) in
          inr (m, Memᴰ.head refl, here, picked)
      | inr e ↦
          let same : max_sequence c ms ≡ max_sequence c (m ∷ ms) = ground (arith, e) in
          elim (max_sequence-found c ms) [
            | inl none_yet ↦ inl (sym same ∙ none_yet)
            | inr (n, there, of_it, highest) ↦ inr (n, Memᴰ.tail there, of_it, highest ∙ same)
          ]
    ]

next_sequence-IsNext : (c : ℕ) (read : List Message) → IsNext c read (next_sequence c read)
unfolding next_sequence
next_sequence-IsNext c read = record {
  above = Below-above c (max_sequence c read) read (max_sequence-Below c read);
  tight = elim (max_sequence-found c read) [
    | inl none_yet ↦ inl (omega (arith, none_yet))
    | inr (m, there, of_it, highest) ↦ inr (m, there, of_it, omega (arith, highest))
  ];
}

-- A row of the conversation with the number.
abbrev pub IsTaken : ℕ → ℕ → List Message → Type 0
IsTaken c n ms = (m : Message) × Memᴰ m ms × (m.conversation_id ≡ c) × (m.sequence ≡ n)

IsTaken-found :
    (new : Message) (ms : List Message)
    → any (same_slot new) ms ≡ true
    → IsTaken new.conversation_id new.sequence ms
IsTaken-found new [] h = absurd (cc (h))
IsTaken-found new (m ∷ ms) h = elim (Bool-cases (same_slot new m)) [
  | inl e ↦
      let here : m.conversation_id ≡ new.conversation_id = ground (arith, e) in
      let number : m.sequence ≡ new.sequence = ground (arith, e) in
      (m, Memᴰ.head refl, here, number)
  | inr e ↦
      let (n, there, of_it, number) = IsTaken-found new ms (ground (arith, h, e)) in
      (n, Memᴰ.tail there, of_it, number)
]

free-IsTaken :
    (new m : Message) (ms : List Message)
    → any (same_slot new) ms ≡ false
    → Memᴰ m ms
    → m.conversation_id ≡ new.conversation_id
    → m.sequence ≢ new.sequence
free-IsTaken new m [] free there here number = elim there [ ]
free-IsTaken new m (n ∷ ms) free (Memᴰ.head e) here number =
    let same : same_slot new n ≡ true =
      subst (λ k. same_slot new k ≡ true) e (ground (arith, here, number)) in
    absurd (ground (arith, same, free))
free-IsTaken new m (n ∷ ms) free (Memᴰ.tail there) here number =
    free-IsTaken new m ms (ground (arith, free)) there here number

-- A turn gets the number above those of its conversation in the rows that were read, without a gap.
-- It is written behind the rows that stand by then, after which no two rows have their conversation
-- and number in common, exactly if none of those rows has that number in the conversation.
pub add_message-IsUnique :
    (read standing : List Message) (c : ℕ) (role : MessageRole) (content : Option String)
    (calls : Option (List LlmToolCall)) (id name : Option String) (metadata : Option Fields)
    → IsUnique standing
    → (new : Message) × (new.conversation_id ≡ c)
      × (new.role ≡ role)
      × (new.content ≡ content)
      × IsNext c read new.sequence
      × ((IsTaken c new.sequence standing
            × (add_message read c role content calls id name metadata standing ≡ none))
          ⊎ ((¬ IsTaken c new.sequence standing)
              × (add_message read c role content calls id name metadata standing
                  ≡ some (standing ++ new ∷ []))
              × IsUnique (standing ++ new ∷ [])))
unfolding add_message insert_message new_message
add_message-IsUnique read standing c role content calls id name metadata unique =
    let new = new_message read c role content calls id name metadata in
    (
      new,
      refl,
      refl,
      refl,
      next_sequence-IsNext c read,
      elim (Bool-cases (any (same_slot new) standing)) [
        | inl taken ↦ inl (IsTaken-found new standing taken, rw taken refl)
        | inr free ↦ inr (
          λ (m, there, here, number). free-IsTaken new m standing free there here number,
          rw free refl,
          appended-IsUnique new standing (free-All new standing free) unique,
        )
      ],
    )

-- The write fails exactly where a row that stands by then has the number.
pub add_message-none_iff :
    (read standing : List Message) (c : ℕ) (role : MessageRole) (content : Option String)
    (calls : Option (List LlmToolCall)) (id name : Option String) (metadata : Option Fields)
    → (n : ℕ) × IsNext c read n
      × ((add_message read c role content calls id name metadata standing ≡ none)
          ↔ IsTaken c n standing)
unfolding add_message insert_message new_message
add_message-none_iff read standing c role content calls id name metadata =
    let new = new_message read c role content calls id name metadata in
    (
      new.sequence,
      next_sequence-IsNext c read,
      elim (Bool-cases (any (same_slot new) standing)) [
        | inl taken ↦ (λ _. IsTaken-found new standing taken, λ _. rw taken refl)
        | inr free ↦ (
          λ h. absurd (cc (rw free at h)),
          λ (m, there, here, number). absurd (free-IsTaken new m standing free there here number),
        )
      ],
    )
