-- ===== src/Ui/Demo.antt =====
-- client/src/ui/demo_data.py: the conversations of the development mode, in which no server is
-- needed.
pub mod Acting
pub mod Sharing
use cs4455_epic.Base.{true, false, List, [], ◌∷◌}
use cs4455_epic.Base.Dict.{Dict}
use cs4455_epic.Base.Text.{lit}
use cs4455_epic.Json.{null, bool, str, arr, nil, cons, obj, obj_of}
use cs4455_epic.Ui.Conversations.Grouping.{Message}
use cs4455_epic.Ui.Populate.{Conversation}

abbrev pub alice_messages : List Message
alice_messages =
    ((lit "messageId", str (lit "msg-001"))
      ∷ (lit "sender_id", str (lit "user-alice-id"))
      ∷ (lit "sender_username", str (lit "alice"))
      ∷ (lit "recipient_id", str (lit "dev-user-id"))
      ∷ (lit "recipient_username", str (lit "test"))
      ∷ (lit "_mine", bool false)
      ∷ (lit "plaintext", str (lit "Hey, are you free to chat?"))
      ∷ (lit "created_at", str (lit "2025-05-20 09:15"))
      ∷ (lit "chain_status", str (lit "recorded"))
      ∷ [])
    ∷ ((lit "messageId", str (lit "msg-002"))
        ∷ (lit "sender_id", str (lit "dev-user-id"))
        ∷ (lit "sender_username", str (lit "test"))
        ∷ (lit "recipient_id", str (lit "user-alice-id"))
        ∷ (lit "recipient_username", str (lit "alice"))
        ∷ (lit "_mine", bool true)
        ∷ (lit "plaintext", str (lit "Yeah! What's up?"))
        ∷ (lit "created_at", str (lit "2025-05-20 09:17"))
        ∷ (lit "chain_status", str (lit "recorded"))
        ∷ [])
    ∷ ((lit "messageId", str (lit "msg-003"))
        ∷ (lit "sender_id", str (lit "user-alice-id"))
        ∷ (lit "sender_username", str (lit "alice"))
        ∷ (lit "recipient_id", str (lit "dev-user-id"))
        ∷ (lit "recipient_username", str (lit "test"))
        ∷ (lit "_mine", bool false)
        ∷ (
          lit "plaintext",
          str (lit "Wanted to share the project notes with you. Check your downloads."),
        )
        ∷ (lit "created_at", str (lit "2025-05-20 09:20"))
        ∷ (lit "chain_status", str (lit "pending"))
        ∷ (
          lit "_forwarded_to",
          arr (
              cons
                (obj (
                  obj_of (
                    (lit "username", str (lit "carol"))
                    ∷ (lit "user_id", str (lit "user-carol-id"))
                    ∷ (lit "forwarded_at", str (lit "2025-05-20 09:25"))
                    ∷ [])))
                nil),
        )
        ∷ [])
    ∷ []

abbrev pub bob_messages : List Message
bob_messages =
    ((lit "messageId", str (lit "msg-004"))
      ∷ (lit "sender_id", str (lit "dev-user-id"))
      ∷ (lit "sender_username", str (lit "test"))
      ∷ (lit "recipient_id", str (lit "user-bob-id"))
      ∷ (lit "recipient_username", str (lit "bob"))
      ∷ (lit "_mine", bool true)
      ∷ (lit "plaintext", str (lit "Meeting at 3pm tomorrow?"))
      ∷ (lit "created_at", str (lit "2025-05-19 14:00"))
      ∷ (lit "chain_status", str (lit "recorded"))
      ∷ [])
    ∷ ((lit "messageId", str (lit "msg-005"))
        ∷ (lit "sender_id", str (lit "user-bob-id"))
        ∷ (lit "sender_username", str (lit "bob"))
        ∷ (lit "recipient_id", str (lit "dev-user-id"))
        ∷ (lit "recipient_username", str (lit "test"))
        ∷ (lit "_mine", bool false)
        ∷ (lit "plaintext", str (lit "Works for me. I'll send the agenda."))
        ∷ (lit "created_at", str (lit "2025-05-19 14:05"))
        ∷ (lit "chain_status", str (lit "recorded"))
        ∷ [])
    ∷ []

abbrev pub carol_messages : List Message
carol_messages =
    ((lit "messageId", str (lit "msg-006"))
      ∷ (lit "sender_id", str (lit "user-carol-id"))
      ∷ (lit "sender_username", str (lit "carol"))
      ∷ (lit "recipient_id", str (lit "dev-user-id"))
      ∷ (lit "recipient_username", str (lit "test"))
      ∷ (lit "_mine", bool false)
      ∷ (lit "plaintext", null)
      ∷ (lit "created_at", str (lit "2025-05-21 11:00"))
      ∷ (lit "chain_status", str (lit "pending"))
      ∷ [])
    ∷ []

abbrev pub demo_conversations : Dict Conversation
demo_conversations =
    (
      lit "user-alice-id",
      record { name = str (lit "alice"); messages = alice_messages; key_warning = false },
    )
    ∷ (
      lit "user-bob-id",
      record { name = str (lit "bob"); messages = bob_messages; key_warning = true },
    )
    ∷ (
      lit "user-carol-id",
      record { name = str (lit "carol"); messages = carol_messages; key_warning = false },
    )
    ∷ []
