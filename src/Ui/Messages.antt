-- ===== src/Ui/Messages.antt =====
-- The actions on a message of client/src/ui/message_frame.py. They are modelled with `self._dev`
-- off; a worker thread runs at once. An id that is no text is a `TypeError` here.
pub mod Forwarding
pub mod Deleting
use cs4455_epic.Base.{
  Bool, true, false, not, ◌||◌, ◌==◌, Option, none, some, List, [], ◌∷◌, map, if◌then◌else◌,
}
use cs4455_epic.Base.Dict.{Dict, lookup, insert, erase, get_or}
use cs4455_epic.Base.Text.{Str, lit, str_eq, strip}
use cs4455_epic.Errors.{
  Exc, Result, ok, err, client, not_found_error, rate_limit_error, key_error, attribute_error,
}
use cs4455_epic.Json.{arr, nil, Json, str, truthy}
use cs4455_epic.Env.{Env}
use cs4455_epic.Py.{Py, pure, lift, or_raise, ◌>>=◌, ◌>>◌}
use cs4455_epic.Api.Client.{subscript, data_of, get_field}
use cs4455_epic.Api.Endpoints as Api
use cs4455_epic.Services.MessageService as MessageService
use cs4455_epic.Services.MessageService.{as_text}
use cs4455_epic.Ui.Conversations.{attempt}
use cs4455_epic.Ui.Conversations.Grouping.{Message, field_of}
use cs4455_epic.Ui.Loading.{rows_of, as_messages}
use cs4455_epic.Ui.Populate.{Conversation}
use cs4455_epic.Ui.Window.{Window, open_chat, mark_warning}

-- `m.get("originalMessageId") or m.get("messageId")`
unfoldable pub original_id : Message → Json
original_id m =
    let original = field_of (lit "originalMessageId") m in
    if truthy original then original else field_of (lit "messageId") m

pub data ForwardEnd : Type 0 where
  no_recipient keys_locked not_decrypted user_not_found rate_limited : ForwardEnd
  forwarded : ForwardEnd
  failed : Exc → ForwardEnd

unfoldable pub forward_failure : Exc → ForwardEnd
forward_failure (client not_found_error message) = user_not_found
forward_failure (client rate_limit_error message) = rate_limited
forward_failure e = failed e

-- The text, less `not plaintext or plaintext.startswith("[")`.
unfoldable pub text_to_forward : Json → Result (Option Str)
text_to_forward (str []) = ok none
text_to_forward (str (c ∷ text)) = ok (if c == 91 then none else some (c ∷ text))
text_to_forward plaintext = if truthy plaintext then err attribute_error else ok none

-- `x.get("messageId") != msg_id`
unfoldable pub other_than : Str → Message → Bool
other_than msg_id x = elim (field_of (lit "messageId") x) [
  | str t ↦ not (str_eq t msg_id)
  | _ ↦ true
]

unfoldable pub without : Str → List Message → List Message
unfolding other_than
without msg_id [] = []
without msg_id (x ∷ xs) =
    let rest = without msg_id xs in if other_than msg_id x then x ∷ rest else rest

unfoldable pub drop_message : Option Str → Str → Dict Conversation → Dict Conversation
unfolding without
drop_message none msg_id conversations = conversations
drop_message (some peer_id) msg_id conversations = elim (lookup peer_id conversations) [
  | none ↦ conversations
  | some conversation ↦
      let left = without msg_id conversation.messages in
      insert peer_id (record conversation { messages = left }) conversations
]

-- `bool(m.get("shared")) or bool(m.get("originalMessageId"))`
unfoldable pub is_share : Message → Bool
is_share m = truthy (field_of (lit "shared") m) || truthy (field_of (lit "originalMessageId") m)

-- `m.get(key, "?")`
abbrev pub field_or_mark : Str → Message → Json
field_or_mark key m = get_or (lookup key m) (str (lit "?"))

-- The list of shares in the details of a message: the server's, or what the message records.
pub data Shares : Type 0 where
  live : List Message → Shares
  recorded : Json → Shares

-- The loop's body; `shown` is Python's `str`.
unfoldable pub share_row : (shown : Json → Str) → Message → Message
share_row shown f =
    let f1 = insert (lit "username") (field_or_mark (lit "username") f) f in
    let f2 = insert (lit "user_id") (get_or (lookup (lit "userId") f1) (str [])) f1 in
    insert (lit "forwarded_at") (str (shown (get_or (lookup (lit "sharedAt") f2) (str [])))) f2

pub data ChainEnd : Type 0 where
  offline : (message_id chain_status : Json) → ChainEnd
  proven : (message_id chain_status digest_hash tx_hash recorded_at : Json) → ChainEnd
  chain_failed : Exc → ChainEnd

module _ (E : Env) where
  -- The `try` of `run` in `_forward_msg`.
  unfoldable pub forward_body : Message → Str → Str → Py (Str × Bool)
  unfolding original_id
  forward_body m recipient plaintext = do
    resp ← Api.get_user E recipient
    user ← lift (data_of resp)
    rid ← lift (subscript (lit "userId") user)
    rid ← as_text rid
    orig_id ← as_text (original_id m)
    sent ← MessageService.forward E orig_id rid plaintext
    pure (rid, sent.1)

  unfoldable pub forward_text : Message → Str → Option Str → Window → Py (Window × ForwardEnd)
  unfolding forward_body forward_failure
  forward_text m recipient none window = pure (window, not_decrypted)
  forward_text m recipient (some plaintext) window = do
    outcome ← attempt (forward_body m recipient plaintext)
    elim outcome [
      | err e ↦ pure (window, forward_failure e)
      | ok sent ↦
          let conversations = mark_warning sent.1 sent.0 window.conversations in
          pure (record window { conversations = conversations }, forwarded)
    ]

  -- `run` in `_forward_msg`; the flag tells whether there is a keystore.
  unfoldable pub forward_run : Bool → Message → Str → Window → Py (Window × ForwardEnd)
  unfolding text_to_forward forward_text
  forward_run unlocked m recipient window = if not unlocked then pure (window, keys_locked) else (do
    text ← lift (text_to_forward (field_of (lit "plaintext") m))
    forward_text m recipient text window)

  -- `_forward_msg`, with what the dialog returned
  unfoldable pub forward_msg : Bool → Message → Option Str → Window → Py (Window × ForwardEnd)
  unfolding forward_run
  forward_msg unlocked m none window = pure (window, no_recipient)
  forward_msg unlocked m (some input) window =
      if str_eq (strip input) []
      then pure (window, no_recipient)
      else forward_run unlocked m (strip input) window

  -- `run` in `_delete_msg`
  unfoldable pub delete_run : Bool → Str → Py (Option Json)
  delete_run share msg_id =
      if share then MessageService.delete_share E msg_id else MessageService.delete E msg_id

  -- `_delete_msg` after the confirmation: the window, and what the request came to.
  unfoldable pub delete_msg : Message → Window → Py (Window × Result (Option Json))
  unfolding drop_message is_share delete_run
  delete_msg m window = do
    msg_id ← as_text (field_of (lit "messageId") m)
    let smaller = record window {
      conversations = drop_message window.active_peer msg_id window.conversations;
      cache = erase msg_id window.cache;
    }
    peer_id ← or_raise key_error window.active_peer
    shown ← lift (open_chat peer_id smaller)
    outcome ← attempt (delete_run (is_share m) msg_id)
    pure (shown, outcome)

  -- `_revoke_access` after the confirmation; `fwd` is the row of the share.
  unfoldable pub revoke_access : Message → Dict Json → Py (Result (Option Json))
  revoke_access m fwd = do
    username ← lift (or_key_error (lookup (lit "username") fwd))
    user_id ← lift (or_key_error (lookup (lit "user_id") fwd))
    attempt (do
      msg_id ← as_text (field_of (lit "messageId") m)
      user ← as_text user_id
      MessageService.revoke E msg_id user)
    where
      or_key_error : Option Json → Result Json
      or_key_error none = err key_error
      or_key_error (some v) = ok v

  -- `fwd_list` of `_show_msg_detail`
  unfoldable pub shares_of : (shown : Json → Str) → Message → Py Shares
  unfolding share_row original_id
  shares_of shown m = do
    outcome ← attempt (do
      orig_id ← as_text (original_id m)
      resp ← Api.shares E orig_id
      rows ← lift (rows_of resp)
      lift (as_messages rows))
    elim outcome [
      | ok rows ↦ pure (live (map (share_row shown) rows))
      | err e ↦ pure (recorded (get_or (lookup (lit "_forwarded_to") m) (arr nil)))
    ]

  -- `run` in `_view_chain`
  unfoldable pub proof_of : Json → Py ChainEnd
  proof_of msg_id = do
    outcome ← attempt (do
      id ← as_text msg_id
      resp ← MessageService.proof E id
      data' ← lift (data_of resp)
      shown_id ← lift (get_field (lit "messageId") msg_id data')
      status ← lift (get_field (lit "chainStatus") (str (lit "?")) data')
      digest ← lift (get_field (lit "digestHash") (str (lit "?")) data')
      tx ← lift (get_field (lit "txHash") (str (lit "(none)")) data')
      at ← lift (get_field (lit "recordedAt") (str (lit "?")) data')
      pure (proven shown_id status digest tx at))
    elim outcome [ err e ↦ pure (chain_failed e) | ok proof ↦ pure proof ]

  -- `_view_chain`
  unfoldable pub view_chain : Message → Py ChainEnd
  unfolding proof_of
  view_chain m = do
    let original = field_of (lit "originalMessageId") m
    let msg_id = if truthy original then original else field_or_mark (lit "messageId") m
    let chain = get_or (lookup (lit "chain_status") m) (str (lit "unknown"))
    (if is_open chain then pure (offline msg_id chain) else proof_of msg_id)
    where
      is_open : Json → Bool
      is_open (str t) = str_eq t (lit "pending") || str_eq t (lit "unknown")
      is_open _ = false
