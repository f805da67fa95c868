-- ===== src/Ui/Demo/Acting.antt =====
-- The handlers of client/src/ui in the development mode, where `self._dev` is on: they change what
-- is shown, and ask no server.
use cs4455_epic.Base.{Bool, true, not, Option, none, some, [], ◌∷◌, ◌++◌, if◌then◌else◌}
use cs4455_epic.Base.Dict.{lookup, insert, get_or, is_some}
use cs4455_epic.Base.Text.{Str, lit, strip, str_eq}
use cs4455_epic.Codec.Hex.{hex}
use cs4455_epic.Errors.{Result, ok, err, key_error, type_error, attribute_error}
use cs4455_epic.Json.{Json, Items, bool, str, arr, nil, cons, obj, obj_of, fields}
use cs4455_epic.Env.{Env}
use cs4455_epic.Py.{Py, pure, lift, or_raise, ◌>>=◌}
use cs4455_epic.Crypto.Aead.{urandom}
use cs4455_epic.Ui.Conversations.Grouping.{Message}
use cs4455_epic.Ui.Populate.{Conversation, open_peer}
use cs4455_epic.Ui.Window.{Window, open_chat, ensure_conversation}
use cs4455_epic.Ui.Messages.{drop_message}
use cs4455_epic.Ui.Demo.{demo_conversations}

-- `_populate_dev`; the second part tells whether the message area is drawn again.
unfoldable pub populate_dev : Window → Window × Bool
unfolding open_peer
populate_dev window = (
  record window { conversations = demo_conversations },
  elim (open_peer window.active_peer) [
    | none ↦ Bool.false
    | some peer_id ↦ is_some (lookup peer_id demo_conversations)
  ],
)

-- `f"user-{name}-id"`
abbrev pub demo_id : Str → Str
demo_id name = lit "user-" ++ (name ++ lit "-id")

-- `_new_chat`, with what the dialog returned
unfoldable pub new_chat_dev : Option Str → Window → Result Window
unfolding ensure_conversation open_chat
new_chat_dev none window = ok window
new_chat_dev (some []) window = ok window
new_chat_dev (some (c ∷ input)) window =
    let username = strip (c ∷ input) in
    let peer_id = demo_id username in
    let conversations = ensure_conversation peer_id (str username) window.conversations in
    open_chat peer_id (record window { conversations = conversations })

-- `msg` in `_send`; `now` is the local time and `random` what `os.urandom(4)` returned.
unfoldable pub demo_message : (now random : Str) → Str → Json → Str → Message
demo_message now random peer_id peer_name text =
    (lit "messageId", str (lit "msg-dev-" ++ hex random))
    ∷ (lit "sender_id", str (lit "dev-user-id"))
    ∷ (lit "sender_username", str (lit "test"))
    ∷ (lit "recipient_id", str peer_id)
    ∷ (lit "recipient_username", peer_name)
    ∷ (lit "_mine", bool true)
    ∷ (lit "plaintext", str text)
    ∷ (lit "created_at", str now)
    ∷ (lit "chain_status", str (lit "pending"))
    ∷ []

-- What it does with the conversation of the open chat.
unfoldable pub append_dev : Str → Message → Conversation → Window → Result Window
unfolding open_chat
append_dev peer_id msg conversation window =
    let longer = record conversation { messages = conversation.messages ++ (msg ∷ []) } in
    open_chat peer_id (record window { conversations = insert peer_id longer window.conversations })

module _ (E : Env) (now : Str) where
  -- `_send`, with the text of the input field
  unfoldable pub send_dev : Str → Window → Py Window
  unfolding demo_message append_dev open_peer
  send_dev input window = elim (open_peer window.active_peer) [
    | none ↦ pure window
    | some peer_id ↦ if str_eq (strip input) [] then pure window else (do
      random ← urandom E 4
      conversation ← or_raise key_error (lookup peer_id window.conversations)
      let msg = demo_message now random peer_id conversation.name (strip input)
      lift (append_dev peer_id msg conversation window))
  ]

-- `xs.append(x)`
unfoldable pub append_item : Json → Items → Items
append_item x nil = cons x nil
append_item x (cons y ys) = cons y (append_item x ys)

-- What `_forward_msg` records of a recipient.
abbrev pub share_record : (now : Str) → Str → Json
share_record now recipient = obj (
    obj_of (
      (lit "username", str recipient)
      ∷ (lit "user_id", str (demo_id recipient))
      ∷ (lit "forwarded_at", str now)
      ∷ []))

-- `_forward_msg`, with what the dialog returned: the message, which is changed in place.
unfoldable pub forward_dev : (now : Str) → Message → Option Str → Result Message
unfolding append_item
forward_dev now m none = ok m
forward_dev now m (some input) =
    let recipient = strip input in
    let list = get_or (lookup (lit "_forwarded_to") m) (arr nil) in
    if str_eq recipient [] then ok m else (elim list [
      | arr xs ↦
          ok (insert (lit "_forwarded_to") (arr (append_item (share_record now recipient) xs)) m)
      | _ ↦ err attribute_error
    ])

-- `f["user_id"] != user_id`
unfoldable pub differs_from : Str → Json → Result Bool
differs_from user_id (obj fs) = elim (lookup (lit "user_id") (fields fs)) [
  | none ↦ err key_error
  | some (str u) ↦ ok (not (str_eq u user_id))
  | some _ ↦ ok true
]
differs_from user_id _ = err type_error

unfoldable pub without_user : Str → Items → Result Items
unfolding differs_from
without_user user_id nil = ok nil
without_user user_id (cons f fs) =
    let later = without_user user_id fs in
    elim (differs_from user_id f) [
      | err e ↦ err e
      | ok kept ↦ elim later [ err e ↦ err e | ok rest ↦ ok (if kept then cons f rest else rest) ]
    ]

-- `_revoke_access` after the confirmation: the message, which is changed in place. A record of a
-- list that is none is a `TypeError` here.
unfoldable pub revoke_dev : Message → (user_id : Str) → Result Message
unfolding without_user
revoke_dev m user_id = elim (get_or (lookup (lit "_forwarded_to") m) (arr nil)) [
  | arr xs ↦ elim (without_user user_id xs) [
    | err e ↦ err e
    | ok left ↦ ok (insert (lit "_forwarded_to") (arr left) m)
  ]
  | _ ↦ err type_error
]

-- `_delete_msg` after the confirmation
unfoldable pub delete_dev : Str → Window → Result Window
unfolding drop_message open_chat
delete_dev msg_id window =
    let conversations = drop_message window.active_peer msg_id window.conversations in
    elim window.active_peer [
      | none ↦ err key_error
      | some peer_id ↦ open_chat peer_id (record window { conversations = conversations })
    ]
