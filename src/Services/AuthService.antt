-- ===== src/Services/AuthService.antt =====
-- client/src/services/auth_service.py: registering, logging in, and changing the password.
pub mod Sending
pub mod Refusing
use cs4455_epic.Base.{Bool, Option, if◌then◌else◌}
use cs4455_epic.Base.Dict.{erase}
use cs4455_epic.Base.Text.{Str, lit}
use cs4455_epic.Errors.{attribute_error}
use cs4455_epic.Json.{Json}
use cs4455_epic.Env.{Env}
use cs4455_epic.Py.{Py, pure, gets, lift, or_raise, modify, ◌>>=◌, ◌>>◌}
use cs4455_epic.Crypto.Kdf.{derive_auth_hash}
use cs4455_epic.Session.{set}
use cs4455_epic.Keystore as Keystore
use cs4455_epic.Keystore.Files.{exists}
use cs4455_epic.Api.Client.{subscript, data_of}
use cs4455_epic.Api.Endpoints as Api
use cs4455_epic.Services.KeyService.{publish_own_keys}
use cs4455_epic.Services.MessageService.{as_text}

-- `os.remove(self.keystore.path)`, after `exists`
abbrev pub remove_file : Py (Unit {0})
remove_file = modify λ s. record s { files = erase s.keystore.path s.files }

module _ (E : Env) where
  -- Opens the keystore that is there, or makes one.
  unfoldable pub open_keystore : Str → Bool → Py (Unit {0})
  open_keystore password present =
      if present
      then Keystore.unlock E password
      else (do Keystore.create E password; Keystore.unlock E password)

  -- `login`. A token or id of the server that is no text is a `TypeError` here.
  unfoldable pub login : Str → Str → Py Json
  unfolding open_keystore
  login username password = do
    resp ← Api.login E username (derive_auth_hash E password username)
    data' ← lift (data_of resp)
    token ← lift (subscript (lit "token") data')
    token ← as_text token
    user ← lift (subscript (lit "user") data')
    user_id ← lift (subscript (lit "userId") user)
    user_id ← as_text user_id
    name ← lift (subscript (lit "username") user)
    name ← as_text name
    set token user_id name
    present ← gets exists
    open_keystore password present
    publish_own_keys E
    pure data'

  unfoldable pub register : Str → Str → Py (Option Json)
  register username password = do
    resp ← Api.register E username (derive_auth_hash E password username)
    present ← gets exists
    (if present then remove_file else pure tt)
    Keystore.create E password
    pure resp

  -- `change_password`; the flag tells whether a keystore was passed. Without a user name the
  -- derivation of the credential is an `AttributeError`.
  unfoldable pub change_password : Str → Str → Bool → Py (Option Json)
  change_password current new with_keystore = do
    username ← gets (λ s. s.session.username)
    username ← or_raise attribute_error username
    result ←
        Api.change_password E (derive_auth_hash E current username)
          (derive_auth_hash E new username)
    (if with_keystore then Keystore.change_password E current new else pure tt)
    pure result
