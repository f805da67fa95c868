-- ===== src/Ui/Messages/Deleting.antt =====
-- `_delete_msg` of client/src/ui/message_frame.py: what is gone, and what stays.
use cs4455_epic.Base.{◌≡◌, ◌≢◌, false, none, some, List, [], ◌∷◌}
use cs4455_epic.Base.Dict.{Dict, lookup, erase}
use cs4455_epic.Base.Text.{Str, lit, str_eq}
use cs4455_epic.Json.{Json, str}
use cs4455_epic.Env.{Env}
use cs4455_epic.Py.{State}
use cs4455_epic.Ui.Conversations.Grouping.{Message, field_of}
use cs4455_epic.Ui.Populate.Threads.{thread_of}
use cs4455_epic.Ui.Window.{Window}
use cs4455_epic.Ui.Messages.{drop_message}

-- The second list is the first without the messages of the id, the others in their order.
pub data Removed (id : Str) : (before after : List Message) → Type 0 where
  end : Removed id [] []
  gone :
      (x : Message) (xs ys : List Message)
      → field_of (lit "messageId") x ≡ str id
      → Removed id xs ys
      → Removed id (x ∷ xs) ys
  kept :
      (x : Message) (xs ys : List Message)
      → field_of (lit "messageId") x ≢ str id
      → Removed id xs ys
      → Removed id (x ∷ xs) (x ∷ ys)

-- What the deletion of a message of the open chat leaves of the window.
pub record IsDeleted (id u : Str) (w w' : Window) : Type 0 where
  pub still_open : w'.active_peer ≡ some u
  pub removed : Removed id (thread_of u w.conversations) (thread_of u w'.conversations)
  pub other_chats :
      (v : Str) → str_eq u v ≡ false → thread_of v w'.conversations ≡ thread_of v w.conversations
  pub not_cached : lookup id w'.cache ≡ none
  pub others_cached : (k : Str) → str_eq id k ≡ false → lookup k w'.cache ≡ lookup k w.cache

module _ (E : Env) (m : Message) (id u : Str) (w : Window) (s : State) where
  abbrev smaller : Window
  smaller = record w {
    conversations = drop_message (some u) id w.conversations;
    cache = erase id w.cache;
  }
