-- ===== src/Api/Endpoints.antt =====
-- client/src/api/auth.py, keys.py and messages.py: one function for each endpoint.
use cs4455_epic.Base.{Bool, Option, [], ◌∷◌, ◌++◌}
use cs4455_epic.Base.Text.{Str, lit}
use cs4455_epic.Json.{Json, bool, int, str, obj, obj_of}
use cs4455_epic.Env.{Env}
use cs4455_epic.Py.{Py}
use cs4455_epic.Crypto.Messaging.{Sealed}
use cs4455_epic.Api.Client.{get_path, post_path, put_path, delete_path}

-- The body of a send and of a forward.
abbrev pub envelope : Str → Sealed → Json
envelope recipient_id f = obj (
    obj_of (
      (lit "recipientId", str recipient_id)
      ∷ (lit "ciphertext", str f.ciphertext)
      ∷ (lit "nonce", str f.nonce)
      ∷ (lit "signature", str f.signature)
      ∷ (lit "seqNo", int f.seq_no)
      ∷ (lit "digest", str f.digest)
      ∷ []))

module _ (E : Env) where
  unfoldable pub register : Str → Str → Py (Option Json)
  register username password =
      post_path E (lit "/api/auth/register")
        (obj (obj_of ((lit "username", str username) ∷ (lit "password", str password) ∷ [])))

  unfoldable pub login : Str → Str → Py (Option Json)
  login username password =
      post_path E (lit "/api/auth/login")
        (obj (obj_of ((lit "username", str username) ∷ (lit "password", str password) ∷ [])))

  unfoldable pub change_password : Str → Str → Py (Option Json)
  change_password current new =
      put_path E (lit "/api/auth/password")
        (obj (obj_of ((lit "currentPassword", str current) ∷ (lit "newPassword", str new) ∷ [])))

  unfoldable pub get_user : Str → Py (Option Json)
  get_user username = get_path E (lit "/api/auth/user") ((lit "username", username) ∷ [])

  unfoldable pub publish : Str → Str → Bool → Py (Option Json)
  publish public_key key_type acknowledge_rotation = post_path E (lit "/api/keys") (
      obj (
        obj_of (
          (lit "publicKey", str public_key)
          ∷ (lit "keyType", str key_type)
          ∷ (lit "acknowledgeRotation", bool acknowledge_rotation)
          ∷ [])))

  unfoldable pub get_keys : Str → Py (Option Json)
  get_keys user_id = get_path E (lit "/api/keys/" ++ user_id) []

  unfoldable pub history : Str → Str → Py (Option Json)
  history user_id key_type =
      get_path E (lit "/api/keys/" ++ (user_id ++ (lit "/history/" ++ key_type))) []

  unfoldable pub send_message : Str → Sealed → Py (Option Json)
  send_message recipient_id f = post_path E (lit "/api/messages") (envelope recipient_id f)

  unfoldable pub inbox : Py (Option Json)
  inbox = get_path E (lit "/api/messages/inbox") []

  unfoldable pub sent : Py (Option Json)
  sent = get_path E (lit "/api/messages/sent") []

  unfoldable pub chain : Str → Py (Option Json)
  chain message_id = get_path E (lit "/api/messages/" ++ (message_id ++ lit "/chain")) []

  unfoldable pub forward_message : Str → Str → Sealed → Py (Option Json)
  forward_message message_id recipient_id f =
      post_path E (lit "/api/messages/" ++ (message_id ++ lit "/forward")) (envelope recipient_id f)

  unfoldable pub shares : Str → Py (Option Json)
  shares message_id = get_path E (lit "/api/messages/" ++ (message_id ++ lit "/shares")) []

  unfoldable pub revoke : Str → Str → Py (Option Json)
  revoke message_id user_id =
      post_path E (lit "/api/messages/" ++ (message_id ++ lit "/revoke"))
        (obj (obj_of ((lit "userId", str user_id) ∷ [])))

  unfoldable pub delete_message : Str → Py (Option Json)
  delete_message message_id = delete_path E (lit "/api/messages/" ++ message_id)

  unfoldable pub delete_share : Str → Py (Option Json)
  delete_share share_id = delete_path E (lit "/api/messages/shares/" ++ share_id)
