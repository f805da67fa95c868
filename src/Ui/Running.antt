-- ===== src/Ui/Running.antt =====
-- The main window at work: any sequence of its handlers, each at any state of the client and
-- whatever the server answers.
pub mod Opening
pub mod Sending
pub mod Reaching
use cs4455_epic.Base.{◌≡◌, Bool, true, Option, none, some, List, []}
use cs4455_epic.Base.Dict.{Dict, lookup, is_some}
use cs4455_epic.Base.Text.{Str}
use cs4455_epic.Errors.{Exc, Result, ok}
use cs4455_epic.Json.{Json}
use cs4455_epic.Env.{Env}
use cs4455_epic.Py.{State}
use cs4455_epic.Ui.Account.{App}
use cs4455_epic.Ui.Conversations.Grouping.{Message}
use cs4455_epic.Ui.Populate.{Conversation, open_peer, populate}
use cs4455_epic.Ui.Window.{Window, NewChatEnd, open_chat, new_chat}
use cs4455_epic.Ui.Sending.{SendEnd, send_input}
use cs4455_epic.Ui.Messages.{ForwardEnd, forward_msg, delete_msg}
use cs4455_epic.Ui.KeyWarning.{accept_key}

-- One handler that returns; one that raises is no step. A poll comes with the cache that its worker
-- left.
pub data Step (E : Env) : Window → Window → Type 0 where
  opens : (u : Str) (w w' : Window) → open_chat u w ≡ ok w' → Step E w w'
  chats :
      (name : Option Str) (s : State) (w w' : Window) (end' : NewChatEnd)
      → (new_chat E name w s).0 ≡ ok (w', end')
      → Step E w w'
  sends :
      (now : Str) (app : App) (unlocked : Bool) (input : Str) (s : State) (w w' : Window)
      (end' : SendEnd)
      → (send_input E now app unlocked input w s).0 ≡ ok (w', end')
      → Step E w w'
  forwards :
      (unlocked : Bool) (m : Message) (to : Option Str) (s : State) (w w' : Window)
      (end' : ForwardEnd)
      → (forward_msg E unlocked m to w s).0 ≡ ok (w', end')
      → Step E w w'
  deletes :
      (m : Message) (s : State) (w w' : Window) (answer : Result (Option Json))
      → (delete_msg E m w s).0 ≡ ok (w', answer)
      → Step E w w'
  accepts :
      (unlocked : Bool) (u : Str) (s : State) (w w' : Window) (failure : Option Exc)
      → (accept_key E unlocked u w s).0 ≡ ok (w', failure)
      → Step E w w'
  polls :
      (cache : Dict Str) (inbox sent : List Message) (w : Window) (out : Dict Conversation)
      (redrawn : Bool)
      → populate w.active_peer w.conversations cache inbox sent ≡ ok (out, redrawn)
      → Step E w (record w { conversations = out; cache = cache })

pub data Steps (E : Env) : Window → Window → Type 0 where
  done : (w : Window) → Steps E w w
  step : (w w' w'' : Window) → Step E w w' → Steps E w' w'' → Steps E w w''

-- The conversation that is open is there.
unfoldable pub is_open : Window → Bool
is_open w = elim (open_peer w.active_peer) [
  | none ↦ true
  | some u ↦ is_some (lookup u w.conversations)
]

-- `_active_peer` is `None` at the start.
abbrev pub start : Dict Str → Window
start cache = record { active_peer = none; conversations = []; cache = cache }
