-- ===== src/Ui/Populate.antt =====
-- `_populate` of client/src/ui/main_frame.py: the conversations of the window, from the messages
-- that the worker has decrypted. An id of a peer, or a time, that is no text is a `TypeError` here;
-- of what is left behind when it raises, nothing is modelled.
pub mod Threads
use cs4455_epic.Base.{
  ℕ, ltb, Bool, true, false, not, ◌&&◌, ◌||◌, ◌==◌, Option, none, some, List, [], ◌∷◌, ◌++◌, length,
  if◌then◌else◌,
}
use cs4455_epic.Base.Dict.{Dict, lookup, insert, erase, get_or, is_some}
use cs4455_epic.Base.Text.{Str, lit}
use cs4455_epic.Errors.{Result, ok, err, type_error}
use cs4455_epic.Json.{Json, bool, str, arr, obj, truthy}
use cs4455_epic.Ui.Sort.{sort_by}
use cs4455_epic.Ui.Conversations.{with_plaintext}
use cs4455_epic.Ui.Conversations.Grouping.{Message, field_of}

pub record Conversation : Type 0 where
  pub name : Json
  pub messages : List Message
  pub key_warning : Bool

-- The body of the loop of `_norm`.
unfoldable pub rename : Str → Str → Message → Message
rename camel snake m = elim (lookup camel m) [
  | none ↦ m
  | some v ↦ if is_some (lookup snake m) then m else insert snake v (erase camel m)
]

unfoldable pub norm : Message → Message
unfolding rename
norm m =
    let m1 = rename (lit "senderId") (lit "sender_id") m in
    let m2 = rename (lit "recipientId") (lit "recipient_id") m1 in
    let m3 = rename (lit "senderUsername") (lit "sender_username") m2 in
    let m4 = rename (lit "recipientUsername") (lit "recipient_username") m3 in
    let m5 = rename (lit "createdAt") (lit "created_at") m4 in
    rename (lit "chainStatus") (lit "chain_status") m5

-- `m.get(key, "")`, a text
unfoldable pub text_at : Str → Message → Result Str
text_at key m = elim (get_or (lookup key m) (str [])) [ str s ↦ ok s | _ ↦ err type_error ]

-- A peer, a name and a message.
abbrev pub Entry : Type 0
Entry = Str × (Json × Message)

abbrev pub entry_at : Str → Str → Message → Result Entry
entry_at id_key name_key m = elim (text_at id_key m) [
  | err e ↦ err e
  | ok peer_id ↦
      let name = field_of name_key m in ok (peer_id, (if truthy name then name else str peer_id, m))
]

unfoldable pub received_entry : Message → Result Entry
unfolding norm text_at
received_entry m =
    entry_at (lit "sender_id") (lit "sender_username") (norm (insert (lit "_mine") (bool false) m))

-- `self._plaintext_cache.get(msg_id) if msg_id else None`; a list or a dict cannot be looked up.
unfoldable pub cached_for : Dict Str → Json → Result (Option Str)
cached_for cache (str s) = ok (if truthy (str s) then lookup s cache else none)
cached_for cache (arr xs) = if truthy (arr xs) then err type_error else ok none
cached_for cache (obj fs) = if truthy (obj fs) then err type_error else ok none
cached_for cache _ = ok none

-- `cached if cached else "[sent]"`
unfoldable pub sent_text : Option Str → Str
sent_text none = lit "[sent]"
sent_text (some []) = lit "[sent]"
sent_text (some (c ∷ text)) = c ∷ text

unfoldable pub with_sent_text : Dict Str → Message → Result Message
unfolding cached_for sent_text
with_sent_text cache m =
    if truthy (field_of (lit "plaintext") m)
    then ok m
    else (elim (cached_for cache (field_of (lit "messageId") m)) [
      | err e ↦ err e
      | ok cached ↦ ok (with_plaintext (sent_text cached) m)
    ])

unfoldable pub sent_entry : Dict Str → Message → Result Entry
unfolding norm with_sent_text text_at
sent_entry cache m = elim (with_sent_text cache (norm (insert (lit "_mine") (bool true) m))) [
  | err e ↦ err e
  | ok m ↦ entry_at (lit "recipient_id") (lit "recipient_username") m
]

-- Appends a message to the conversation of its peer, which is opened if it is not there.
unfoldable pub add_entry : Entry → Dict Conversation → Dict Conversation
add_entry (peer_id, (name, m)) conversations =
    let conversation =
      get_or (lookup peer_id conversations)
        (record { name = name; messages = []; key_warning = false }) in
    insert peer_id (record conversation { messages = conversation.messages ++ (m ∷ []) })
      conversations

unfoldable pub add_entries :
    (Message → Result Entry) → List Message → Dict Conversation → Result (Dict Conversation)
unfolding add_entry
add_entries entry [] conversations = ok conversations
add_entries entry (m ∷ ms) conversations = elim (entry m) [
  | err e ↦ err e
  | ok x ↦ add_entries entry ms (add_entry x conversations)
]

-- `a <= b` on texts: by code points.
unfoldable pub str_leb : Str → Str → Bool
str_leb [] b = true
str_leb (x ∷ a) [] = false
str_leb (x ∷ a) (y ∷ b) = ltb x y || x == y && str_leb a b

abbrev pub created_at : Message → Result Str
created_at = text_at (lit "created_at")

unfoldable pub any_warning : List Message → Bool
any_warning [] = false
any_warning (m ∷ ms) = truthy (field_of (lit "_key_warning") m) || any_warning ms

-- The sort of a conversation's messages, and its warning.
unfoldable pub finish : Conversation → Result Conversation
unfolding str_leb text_at any_warning
finish conversation = elim (sort_by str_leb created_at conversation.messages) [
  | err e ↦ err e
  | ok ms ↦ ok (record conversation {
    messages = ms;
    key_warning = any_warning ms || conversation.key_warning;
  })
]

unfoldable pub finish_all : Dict Conversation → Result (Dict Conversation)
unfolding finish
finish_all [] = ok []
finish_all ((peer_id, conversation) ∷ rest) =
    let later = finish_all rest in
    elim (finish conversation) [
      | err e ↦ err e
      | ok done ↦ elim later [ err e ↦ err e | ok others ↦ ok ((peer_id, done) ∷ others) ]
    ]

-- `self._active_peer`, where it is true
unfoldable pub open_peer : Option Str → Option Str
open_peer none = none
open_peer (some []) = none
open_peer (some (c ∷ id)) = some (c ∷ id)

-- `prev_active`
unfoldable pub previous : Option Str → Dict Conversation → Option Conversation
previous none conversations = none
previous (some peer_id) conversations = lookup peer_id conversations

-- The shell of the open conversation, where the server returned nothing for it.
unfoldable pub restore_shell :
    Option Str → Option Conversation → Dict Conversation → Dict Conversation
restore_shell (some peer_id) (some prev) conversations =
    if is_some (lookup peer_id conversations)
    then conversations
    else insert peer_id (record prev { messages = [] }) conversations
restore_shell _ _ conversations = conversations

abbrev pub message_count : Option Conversation → ℕ
message_count none = 0
message_count (some conversation) = length conversation.messages

-- Whether the message area is drawn again.
unfoldable pub has_new : Option Str → ℕ → Dict Conversation → Bool
has_new none prev_count conversations = false
has_new (some peer_id) prev_count conversations = elim (lookup peer_id conversations) [
  | none ↦ false
  | some conversation ↦ not (length conversation.messages == prev_count)
]

-- The conversations, and whether the message area is drawn again.
unfoldable pub populate :
    Option Str
    → Dict Conversation
    → Dict Str
    → (inbox sent : List Message) → Result (Dict Conversation × Bool)
unfolding add_entries received_entry sent_entry finish_all open_peer previous restore_shell has_new
populate active_peer conversations cache inbox sent =
    let peer = open_peer active_peer in
    let prev = previous peer conversations in
    elim (add_entries received_entry inbox []) [
      | err e ↦ err e
      | ok received ↦ elim (add_entries (sent_entry cache) sent received) [
        | err e ↦ err e
        | ok both ↦ elim (finish_all both) [
          | err e ↦ err e
          | ok sorted ↦
              let shown = restore_shell peer prev sorted in
              ok (shown, has_new peer (message_count prev) shown)
        ]
      ]
    ]
