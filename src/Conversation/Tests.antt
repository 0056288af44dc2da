-- ===== src/Conversation/Tests.antt =====
-- A short conversation, and the theorems applied to it.
use mcp_business_assistant.Prelude.{
  ◌⊎◌, true, ◌≡◌, ◌↔◌, refl, none, some, List, [], ◌∷◌, ◌++◌, keep,
}
use mcp_business_assistant.Prelude.Text.{prefix, text_length}
use mcp_business_assistant.Errors.{ok, err}
use mcp_business_assistant.Database.{User}
use mcp_business_assistant.Enums.{MessageRole, operator, active}
use mcp_business_assistant.Conversation.Ownership.{
  Conversation, find_conversation, get_for_user, get_or_create, create_conversation, derive_title,
  conversation_missing, no_access, IsVisible, get_for_user-cases,
}
use mcp_business_assistant.Json.{end}
use mcp_business_assistant.Approval.Repository.{clamp_limit}
use mcp_business_assistant.Conversation.Messages.{
  LlmMessage, LlmToolCall, user_message, assistant_message, tool_message,
}
use mcp_business_assistant.Conversation.History.{
  repair_dangling_tool_messages, repair_from, admits, known_after,
}
use mcp_business_assistant.Conversation.Linked.{Linked, is_turn, repair_dangling_tool_messages_lem}
use mcp_business_assistant.Conversation.Transcript.{
  Message, max_sequence, next_sequence, insert_message, new_message, add_message, add_user_message,
  list_messages, latest_first, insert_latest, reversed,
}
use mcp_business_assistant.Conversation.Numbering.{IsUnique, IsNext, IsTaken, add_message-IsUnique}

abbrev call : LlmToolCall
call = record { id = "c1"; name = "crm__get_leads"; arguments = end }

-- A window that begins with a result whose call it has cut off.
abbrev window : List LlmMessage
window =
    tool_message "c0" "crm__get_leads" "[]"
    ∷ user_message "Show my leads"
    ∷ assistant_message none (call ∷ [])
    ∷ tool_message "c1" "crm__get_leads" "[]"
    ∷ []

repaired :
    repair_dangling_tool_messages window
    ≡ user_message "Show my leads"
      ∷ assistant_message none (call ∷ [])
      ∷ tool_message "c1" "crm__get_leads" "[]"
      ∷ []
unfolding repair_dangling_tool_messages repair_from admits known_after
repaired = refl

repair_dangling_tool_messages_lem_example :
    Linked [] (repair_dangling_tool_messages window)
    × (keep is_turn (repair_dangling_tool_messages window) ≡ keep is_turn window)
    × ((repair_dangling_tool_messages window ≡ window) ↔ Linked [] window)
repair_dangling_tool_messages_lem_example = repair_dangling_tool_messages_lem window

abbrev first_turn : Message
first_turn = record {
  conversation_id = 3;
  sequence = 1;
  role = MessageRole.user;
  content = some "Show my leads";
  tool_calls = none;
  tool_call_id = none;
  tool_name = none;
  extra_metadata = none;
}

abbrev second_turn : Message
second_turn = record first_turn { sequence = 2; content = some "And my tasks" }

added :
    add_user_message (first_turn ∷ []) 3 "And my tasks" (first_turn ∷ [])
    ≡ some (first_turn ∷ second_turn ∷ [])
unfolding add_user_message add_message new_message insert_message next_sequence max_sequence
added = refl

-- Two sessions that took the same number: the later write fails.
raced :
    add_user_message (first_turn ∷ []) 3 "And my meetings" (first_turn ∷ second_turn ∷ []) ≡ none
unfolding add_user_message add_message new_message insert_message next_sequence max_sequence
raced = refl

window_of_one : list_messages 3 (some 1) (first_turn ∷ second_turn ∷ []) ≡ second_turn ∷ []
unfolding list_messages latest_first insert_latest reversed clamp_limit
window_of_one = refl

abbrev new_turn : List Message → Message
new_turn read = new_message read 3 MessageRole.user (some "And my tasks") none none none none

written :
    add_message [] 3 MessageRole.user (some "And my tasks") none none none none []
    ≡ some (new_turn [] ∷ [])
unfolding add_message new_message insert_message
written = refl

add_message-IsUnique_example :
    (new : Message) × (new.conversation_id ≡ 3)
    × (new.role ≡ MessageRole.user)
    × (new.content ≡ some "And my tasks")
    × IsNext 3 [] new.sequence
    × ((IsTaken 3 new.sequence (new_turn [] ∷ [])
          × (add_message [] 3 MessageRole.user
                (some "And my tasks")
                none
                none
                none
                none
                (new_turn [] ∷ [])
              ≡ none))
        ⊎ ((¬ IsTaken 3 new.sequence (new_turn [] ∷ []))
            × (add_message [] 3 MessageRole.user
                  (some "And my tasks")
                  none
                  none
                  none
                  none
                  (new_turn [] ∷ [])
                ≡ some ((new_turn [] ∷ []) ++ new ∷ []))
            × IsUnique ((new_turn [] ∷ []) ++ new ∷ [])))
add_message-IsUnique_example =
    add_message-IsUnique [] (new_turn [] ∷ []) 3 MessageRole.user (some "And my tasks") none none
      none none (tt, tt)

abbrev owner : User
owner = record { id = 7; email = "ada@example.com"; role = operator; is_active = true }

abbrev thread : Conversation
thread = record { id = 3; user_id = 8; title = some "Leads"; status = active }

get_for_user-cases_example :
    ((c : Conversation)
      → (get_for_user (thread ∷ []) 3 owner ≡ ok c)
        ↔ ((find_conversation 3 (thread ∷ []) ≡ some c) × IsVisible owner c))
    × ((c : Conversation)
        → find_conversation 3 (thread ∷ []) ≡ some c
        → ¬ IsVisible owner c
        → get_for_user (thread ∷ []) 3 owner ≡ err no_access)
    × (find_conversation 3 (thread ∷ []) ≡ none
        → get_for_user (thread ∷ []) 3 owner ≡ err (conversation_missing 3))
get_for_user-cases_example = get_for_user-cases (thread ∷ []) 3 owner

title_test : get_or_create [] 3 owner none (some "  Show \n my  leads ") ≡ (
  ok (record { id = 3; user_id = 7; title = some "Show my leads"; status = active }),
  record { id = 3; user_id = 7; title = some "Show my leads"; status = active } ∷ [],
)
unfolding get_or_create create_conversation derive_title prefix text_length
title_test = refl
