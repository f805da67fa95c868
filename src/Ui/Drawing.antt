-- ===== src/Ui/Drawing.antt =====
-- What the main window draws: the rows of the list of chats, the open chat with its bubbles, and the
-- details of a message, of client/src/ui/inbox_frame.py and message_frame.py. Colours, sizes and the
-- bindings of the widgets are left out.
pub mod Sides
use cs4455_epic.Base.{Bool, not, true, false, Option, none, some, List, [], ◌∷◌, map, if◌then◌else◌}
use cs4455_epic.Base.Dict.{Dict, lookup, get_or}
use cs4455_epic.Base.Text.{Str, lit, str_eq}
use cs4455_epic.Errors.{Result, ok, err}
use cs4455_epic.Json.{Json, str, obj, obj_of, truthy}
use cs4455_epic.Env.{Env}
use cs4455_epic.Py.{Py, pure, lift, ◌>>=◌}
use cs4455_epic.Api.Client.{each, get_field, subscript}
use cs4455_epic.Ui.Account.{App}
use cs4455_epic.Ui.Conversations.Grouping.{Message, field_of}
use cs4455_epic.Ui.Populate.{Conversation}
use cs4455_epic.Ui.Window.{preview}
use cs4455_epic.Ui.Times.{Calendar, format_time, text_of}
use cs4455_epic.Ui.Messages.{Shares, live, recorded, field_or_mark, shares_of}

-- A row of the list of chats.
pub record ConvRow : Type 0 where
  pub name : Json
  pub is_active : Bool
  pub time : Option Str
  pub key_changed : Bool
  pub last : Option Str

-- `messages[-1]`, where there is one
unfoldable pub last_message : List Message → Option Message
last_message [] = none
last_message (m ∷ ms) =
    let later = last_message ms in elim later [ none ↦ some m | some l ↦ some l ]

-- `peer_id == self._active_peer`
unfoldable pub is_peer : Str → Option Str → Bool
is_peer peer_id none = false
is_peer peer_id (some active) = str_eq peer_id active

abbrev row_of : Option Str → Str → Conversation → (time last : Option Str) → ConvRow
row_of active_peer peer_id conversation time last = record {
  name = conversation.name;
  is_active = is_peer peer_id active_peer;
  time = time;
  key_changed = conversation.key_warning;
  last = last;
}

-- `m.get("created_at", "")`
abbrev pub created_field : Message → Json
created_field m = get_or (lookup (lit "created_at") m) (str [])

-- The buttons of a bubble.
pub data Button : Type 0 where
  details_button forward_button download_button delete_button : Button

-- `_build_action_buttons`
unfoldable pub action_buttons : (mine : Bool) → List Button
action_buttons mine =
    details_button ∷ forward_button ∷ download_button ∷ (if mine then delete_button ∷ [] else [])

-- A bubble, on the right side where it is one's own. Without a text it says that the message is
-- encrypted.
pub record Bubble : Type 0 where
  pub mine : Bool
  pub text : Option Json
  pub time : Str
  pub buttons : List Button

-- The open chat. Without bubbles it says that there are no messages.
pub record ChatView : Type 0 where
  pub name : Json
  pub banner : Bool
  pub bubbles : List Bubble

-- The details of a message; without a text they say that it is end-to-end encrypted. A share is
-- shown with the name and the time.
pub record Details : Type 0 where
  pub from_name : Json
  pub date : Json
  pub id : Json
  pub chain : Json
  pub body : Option Json
  pub forwarded_to : List (Json × Json)

-- `plaintext` where it is true
unfoldable pub shown_text : Message → Option Json
shown_text m =
    let plaintext = field_of (lit "plaintext") m in
    if truthy plaintext then some plaintext else none

module _ (K : Calendar) where
  -- `_make_conv_row`
  unfoldable pub conv_row : Option Str → Str → Conversation → Result ConvRow
  unfolding last_message is_peer
  conv_row active_peer peer_id conversation = elim (last_message conversation.messages) [
    | none ↦ ok (row_of active_peer peer_id conversation none none)
    | some m ↦ elim (preview m) [
      | err e ↦ err e
      | ok text ↦ ok (
          row_of active_peer peer_id conversation (some (format_time K (created_field m) true))
            (some text))
    ]
  ]

  -- The rows of `_rebuild_conv_list`
  unfoldable pub conv_rows : Option Str → Dict Conversation → Result (List ConvRow)
  unfolding conv_row
  conv_rows active_peer [] = ok []
  conv_rows active_peer ((peer_id, conversation) ∷ rest) =
      let later = conv_rows active_peer rest in
      elim (conv_row active_peer peer_id conversation) [
        | err e ↦ err e
        | ok row ↦ elim later [ err e ↦ err e | ok others ↦ ok (row ∷ others) ]
      ]

  -- `_make_msg_bubble`
  unfoldable pub msg_bubble : Message → Bubble
  unfolding action_buttons shown_text
  msg_bubble m =
      let mine = truthy (field_of (lit "_mine") m) in
      record {
        mine = mine;
        text = shown_text m;
        time = format_time K (created_field m) false;
        buttons = action_buttons mine;
      }

  -- What `_open_chat` draws of a conversation
  unfoldable pub chat_view : Conversation → ChatView
  unfolding msg_bubble
  chat_view conversation = record {
    name = conversation.name;
    banner = conversation.key_warning;
    bubbles = map msg_bubble conversation.messages;
  }

-- `sender` in `_show_msg_detail`
unfoldable pub sender_name : App → Message → Json
sender_name app m =
    let name = field_of (lit "sender_username") m in
    if truthy name
    then name
    else if truthy (field_of (lit "_mine") m)
    then app.username
    else field_or_mark (lit "sender_id") m

-- `fwd["username"]` and `fwd.get("forwarded_at", "")`
unfoldable pub share_line : Json → Result (Json × Json)
share_line fwd = elim (subscript (lit "username") fwd) [
  | err e ↦ err e
  | ok name ↦ elim (get_field (lit "forwarded_at") (str []) fwd) [
    | err e ↦ err e
    | ok at ↦ ok (name, at)
  ]
]

unfoldable pub share_lines : List Json → Result (List (Json × Json))
unfolding share_line
share_lines [] = ok []
share_lines (fwd ∷ rest) =
    let later = share_lines rest in
    elim (share_line fwd) [
      | err e ↦ err e
      | ok line ↦ elim later [ err e ↦ err e | ok lines ↦ ok (line ∷ lines) ]
    ]

-- `fwd_list`; nothing is shown where it is false.
unfoldable pub listed_shares : Shares → Result (List (Json × Json))
unfolding share_lines
listed_shares (live rows) = share_lines (map (λ row. obj (obj_of row)) rows)
listed_shares (recorded list) =
    if not (truthy list)
    then ok []
    else (elim (each list) [ err e ↦ err e | ok rows ↦ share_lines rows ])

-- `_show_msg_detail`, in either mode
unfoldable pub show_msg_detail : Env → Calendar → App → Message → Py Details
unfolding sender_name shown_text listed_shares
show_msg_detail E K app m = do
  shares ← shares_of E (text_of K) m
  lines ← lift (listed_shares shares)
  pure (record {
    from_name = sender_name app m;
    date = field_or_mark (lit "created_at") m;
    id = field_or_mark (lit "messageId") m;
    chain = get_or (lookup (lit "chain_status") m) (str (lit "unknown"));
    body = shown_text m;
    forwarded_to = lines;
  })
