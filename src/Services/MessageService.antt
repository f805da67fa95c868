-- ===== src/Services/MessageService.antt =====
-- client/src/services/message_service.py and chain_service.py: sending, receiving, forwarding,
-- and reading back own messages.
pub mod Accepting
pub mod Replay
pub mod Preview
pub mod Delivery
use cs4455_epic.Base.{Bool, false, not, ◌&&◌, Option, none, some, [], if◌then◌else◌}
use cs4455_epic.Base.Dict.{Dict, lookup, get_or, is_some}
use cs4455_epic.Base.Text.{Str, lit}
use cs4455_epic.Errors.{runtime, type_error}
use cs4455_epic.Json.{Json, null, str, truthy}
use cs4455_epic.Env.{Env}
use cs4455_epic.Py.{Py, pure, raise, gets, lift, raise_if, ◌>>=◌, ◌>>◌}
use cs4455_epic.Crypto.Messaging.{Sealed, seal, open_message}
use cs4455_epic.Crypto.Wire.{item, decode_text}
use cs4455_epic.Keystore.{private_keys, public_keys, next_send_seq, last_recv_seq, set_recv_seq}
use cs4455_epic.Api.Endpoints as Api
use cs4455_epic.Services.KeyService.{fetch_and_pin, Found}

-- An f-string writes `None` for a missing id.
abbrev pub id_text : Option Str → Str
id_text none = lit "None"
id_text (some s) = s

-- `message.get(camel) or message.get(snake, "")`
unfoldable pub id_of : Str → Str → Dict Json → Json
id_of camel snake message =
    let first = get_or (lookup camel message) null in
    if truthy first then first else get_or (lookup snake message) (str [])

-- The id as a text; any other value is a `TypeError` here.
unfoldable pub as_text : Json → Py Str
as_text (str s) = pure s
as_text _ = raise type_error

abbrev pub no_recipient_key : Str
no_recipient_key = lit "Recipient has no X25519 key on server."

abbrev pub no_sender_keys : Str
no_sender_keys = lit "Sender has no keys on server."

module _ (E : Env) where
  -- What `send` and `forward` share: the keys of the peer, the next number, and the sealed fields.
  unfoldable pub seal_for : Str → Str → Py (Sealed × Bool)
  seal_for recipient_id plaintext = do
    found ← fetch_and_pin E recipient_id
    let pinned = found.0
    raise_if (not (is_some (lookup (lit "x25519") pinned))) (runtime no_recipient_key)
    priv ← private_keys
    seq_no ← next_send_seq E recipient_id
    user_id ← gets (λ s. s.session.user_id)
    peer ← lift (item (lit "x25519") pinned)
    peer_x_pub ← lift (decode_text peer)
    fields ←
        seal E plaintext (id_text user_id) recipient_id seq_no priv.x25519 priv.ed25519 peer_x_pub
    pure (fields, found.1)

  unfoldable pub send : Str → Str → Py (Option Json × Bool)
  unfolding seal_for
  send recipient_id plaintext = do
    sealed ← seal_for recipient_id plaintext
    resp ← Api.send_message E recipient_id sealed.0
    pure (resp, sealed.1)

  unfoldable pub forward : Str → Str → Str → Py (Option Json × Bool)
  unfolding seal_for
  forward message_id recipient_id plaintext = do
    sealed ← seal_for recipient_id plaintext
    resp ← Api.forward_message E message_id recipient_id sealed.0
    pure (resp, sealed.1)

  -- `pinned` and `changed`: the caller's, or fetched.
  unfoldable pub peer_keys : Str → Option Found → Py Found
  peer_keys user_id none = fetch_and_pin E user_id
  peer_keys user_id (some found) = pure found

  -- The rest of `receive`, from the keys on.
  unfoldable pub accept : Dict Json → Str → Found → Bool → Py (Str × Bool)
  accept message sender_id found enforce_replay = do
    let pinned = found.0
    raise_if
        (not (is_some (lookup (lit "x25519") pinned) && is_some (lookup (lit "ed25519") pinned)))
        (runtime no_sender_keys)
    priv ← private_keys
    last_seq ← last_recv_seq sender_id
    recipient_id ← gets (λ s. s.session.user_id)
    x ← lift (item (lit "x25519") pinned)
    peer_x_pub ← lift (decode_text x)
    ed ← lift (item (lit "ed25519") pinned)
    peer_ed_pub ← lift (decode_text ed)
    opened ←
        open_message E message sender_id (id_text recipient_id) priv.x25519 peer_x_pub peer_ed_pub
          last_seq enforce_replay
    (if enforce_replay then set_recv_seq E sender_id opened.1 else pure tt)
    pure (opened.0, found.1)

  unfoldable pub receive : Dict Json → Option Found → Bool → Py (Str × Bool)
  unfolding accept
  receive message found enforce_replay = do
    sender_id ← as_text (id_of (lit "senderId") (lit "sender_id") message)
    found ← peer_keys sender_id found
    accept message sender_id found enforce_replay

  unfoldable pub decrypt_own : Dict Json → Option Found → Py Str
  decrypt_own message found = do
    recipient_id ← as_text (id_of (lit "recipientId") (lit "recipient_id") message)
    found ← peer_keys recipient_id found
    let pinned = found.0
    raise_if (not (is_some (lookup (lit "x25519") pinned))) (runtime no_recipient_key)
    priv ← private_keys
    keys ← public_keys
    own ← lift (item (lit "ed25519") keys)
    my_ed_pub ← lift (decode_text own)
    user_id ← gets (λ s. s.session.user_id)
    x ← lift (item (lit "x25519") pinned)
    peer_x_pub ← lift (decode_text x)
    opened ←
        open_message E message (id_text user_id) recipient_id priv.x25519 peer_x_pub my_ed_pub none
          false
    pure opened.0

  unfoldable pub inbox : Py (Option Json)
  inbox = Api.inbox E

  unfoldable pub sent : Py (Option Json)
  sent = Api.sent E

  unfoldable pub revoke : Str → Str → Py (Option Json)
  revoke = Api.revoke E

  unfoldable pub delete : Str → Py (Option Json)
  delete = Api.delete_message E

  unfoldable pub delete_share : Str → Py (Option Json)
  delete_share = Api.delete_share E

  -- `ChainService.proof`
  unfoldable pub proof : Str → Py (Option Json)
  proof = Api.chain E
