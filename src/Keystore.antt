-- ===== src/Keystore.antt =====
-- client/src/crypto/keystore.py: the locked and unlocked keystore, its pins and its counters.
-- The file operations are in the child `Files`.
pub mod Files
pub mod Failing
pub mod Atomic
pub mod Loading
pub mod Unlocking
pub mod Pins
pub mod Counters
pub mod Refinement
pub mod Cache
pub mod Password
pub mod Quiet
use cs4455_epic.Base.{Option, none, some, [], ◌∷◌, ◌++◌, take, drop, if◌then◌else◌}
use cs4455_epic.Base.Int.{ℤ, pos, suc_ℤ}
use cs4455_epic.Base.Dict.{Dict, lookup, insert, get_or, is_some}
use cs4455_epic.Base.Text.{Str, Bytes, lit}
use cs4455_epic.Codec.Base64.{b64encode}
use cs4455_epic.Codec.Hex.{hex}
use cs4455_epic.Codec.Utf8.{encode, decode}
use cs4455_epic.Errors.{ok, file_exists, key_error, unicode_error, value_error}
use cs4455_epic.Env.{Env}
use cs4455_epic.Py.{
  FileData, PrivateKeys, State, Py, pure, gets, lift, or_raise, modify, ◌>>=◌, ◌>>◌, raise_if,
  catch,
}
use cs4455_epic.Crypto.Kdf.{derive_kek}
use cs4455_epic.Crypto.Aead
use cs4455_epic.Crypto.Signing
use cs4455_epic.Crypto.Wire.{decode_text}
use cs4455_epic.Keystore.Files
use cs4455_epic.Keystore.Files.{exists, load, save, write_json_secure, blank, locked}

abbrev pub keystore_aad : Bytes
keystore_aad = lit "zebra-keystore-v1"

abbrev pub cache_aad : Bytes
cache_aad = lit "zebra-msgcache-v1"

abbrev pub archive_info : Bytes
archive_info = lit "zebra-msgarchive-v1"

abbrev pub set_kek : Bytes → Py (Unit {0})
set_kek kek = modify λ s. record s { keystore = record s.keystore { kek = some kek } }

-- `self._keys = {"x25519": plaintext[:32], "ed25519": plaintext[32:64]}`
abbrev pub split_keys : Bytes → PrivateKeys
split_keys plaintext = record { x25519 = take 32 plaintext; ed25519 = take 32 (drop 32 plaintext) }

abbrev pub set_keys : Bytes → Py (Unit {0})
set_keys plaintext =
    modify λ s. record s { keystore = record s.keystore { keys = some (split_keys plaintext) } }

unfoldable pub private_keys : Py PrivateKeys
unfolding locked
private_keys = do keys ← gets (λ s. s.keystore.keys); or_raise locked keys

-- `base64.b64decode(data[key])`
abbrev pub stored : Option Str → Py Bytes
stored value = do text ← or_raise key_error value; lift (decode_text text)

unfoldable pub public_keys : Py (Dict Str)
public_keys = do
  data' ← load
  x25519 ← or_raise key_error data'.pub_x25519
  ed25519 ← or_raise key_error data'.pub_ed25519
  pure ((lit "x25519", x25519) ∷ (lit "ed25519", ed25519) ∷ [])

unfoldable pub archive_path : State → Str
archive_path s = s.keystore.path ++ lit ".archive"

unfoldable pub cache_path : State → Str
cache_path s = s.keystore.path ++ lit ".msgcache"

-- The pins of a file: `data.get("peers", {}).get(user_id, {}).get(key_type)`
abbrev pub pin_of : Str → Str → FileData → Option Str
pin_of user_id key_type data' = lookup key_type (get_or (lookup user_id (get_or data'.peers [])) [])

unfoldable pub pinned_peer_key : Str → Str → Py (Option Str)
pinned_peer_key user_id key_type = do data' ← load; pure (pin_of user_id key_type data')

unfoldable pub last_recv_seq : Str → Py (Option ℤ)
last_recv_seq sender_id = do data' ← load; pure (lookup sender_id (get_or data'.seq_recv []))

module _ (E : Env) where
  unfoldable pub create : Str → Py (Unit {0})
  create password = do
    present ← gets exists
    raise_if present file_exists
    salt ← Aead.urandom E 16
    let kek = derive_kek E password salt
    set_kek kek
    x_priv_bytes ← Signing.generate_private E
    let x_pub_bytes = E.x25519_public x_priv_bytes
    ed ← Signing.generate_keypair E
    sealed ← Aead.encrypt E kek (x_priv_bytes ++ ed.0) keystore_aad
    save E (record blank {
      version = some 1;
      salt = some (b64encode salt);
      nonce = some (b64encode sealed.0);
      ciphertext = some (b64encode sealed.1);
      pub_x25519 = some (b64encode x_pub_bytes);
      pub_ed25519 = some (b64encode ed.1);
      peers = some [];
    })

  unfoldable pub unlock : Str → Py (Unit {0})
  unlock password = do
    data' ← load
    salt ← stored data'.salt
    let kek = derive_kek E password salt
    set_kek kek
    nonce ← stored data'.nonce
    ciphertext ← stored data'.ciphertext
    plaintext ← Aead.decrypt E kek nonce ciphertext keystore_aad
    set_keys plaintext

  -- The body of the `try` in `_decrypt_cache`.
  unfoldable pub read_cache : Bytes → Py (Dict Str)
  read_cache kek = do
    blob ← Files.read_json cache_path
    nonce ← stored blob.nonce
    ciphertext ← stored blob.ciphertext
    plaintext ← Aead.decrypt E kek nonce ciphertext cache_aad
    text ← or_raise unicode_error (decode plaintext)
    or_raise value_error (E.loads text)

  unfoldable pub decrypt_cache : Option Bytes → Py (Dict Str)
  decrypt_cache none s = (ok [], s)
  decrypt_cache (some kek) s =
      if is_some (lookup (cache_path s) s.files)
      then catch (read_cache kek) (λ e. pure []) s
      else (ok [], s)

  unfoldable pub load_message_cache : Py (Dict Str)
  load_message_cache = do kek ← gets (λ s. s.keystore.kek); decrypt_cache kek

  -- `save_message_cache` with an unlocked keystore
  unfoldable pub write_cache : Bytes → Dict Str → Py (Unit {0})
  write_cache kek cache = do
    let payload = encode (E.dumps cache)
    sealed ← Aead.encrypt E kek payload cache_aad
    path ← gets cache_path
    write_json_secure E path (record blank {
      version = some 1;
      nonce = some (b64encode sealed.0);
      ciphertext = some (b64encode sealed.1);
    })

  unfoldable pub save_message_cache : Dict Str → Py (Unit {0})
  save_message_cache cache s = elim s.keystore.kek [
    | none ↦ (ok tt, s)
    | some kek ↦ write_cache kek cache s
  ]

  -- `if cache: self.save_message_cache(cache)`
  unfoldable pub resave_cache : Dict Str → Py (Unit {0})
  resave_cache [] = pure tt
  resave_cache (entry ∷ cache) = save_message_cache (entry ∷ cache)

  unfoldable pub change_password : Str → Str → Py (Unit {0})
  change_password old_password new_password = do
    data' ← load
    salt ← stored data'.salt
    let old_kek = derive_kek E old_password salt
    nonce ← stored data'.nonce
    ciphertext ← stored data'.ciphertext
    plaintext ← Aead.decrypt E old_kek nonce ciphertext keystore_aad
    let new_kek = derive_kek E new_password salt
    sealed ← Aead.encrypt E new_kek plaintext keystore_aad
    save E
        (record data' { nonce = some (b64encode sealed.0); ciphertext = some (b64encode sealed.1) })
    set_kek new_kek
    set_keys plaintext
    cache ← decrypt_cache (some old_kek)
    resave_cache cache

  unfoldable pub archive_key : Py Bytes
  unfolding locked
  archive_key = do
    kek ← gets (λ s. s.keystore.kek)
    kek ← or_raise locked kek
    pure (E.hkdf_expand 32 archive_info kek)

  unfoldable pub archive_key_hex : Py Str
  archive_key_hex = do key ← archive_key; pure (hex key)

  unfoldable pub pin_peer_key : Str → Str → Str → Py (Unit {0})
  pin_peer_key user_id key_type public_key = do
    data' ← load
    let peers = get_or data'.peers []
    let pins = get_or (lookup user_id peers) []
    save E (record data' { peers = some (insert user_id (insert key_type public_key pins) peers) })

  unfoldable pub next_send_seq : Str → Py ℤ
  next_send_seq recipient_id = do
    data' ← load
    let seqs = get_or data'.seq_send []
    let nxt = suc_ℤ (get_or (lookup recipient_id seqs) (pos 0))
    save E (record data' { seq_send = some (insert recipient_id nxt seqs) })
    pure nxt

  unfoldable pub set_recv_seq : Str → ℤ → Py (Unit {0})
  set_recv_seq sender_id seq_no = do
    data' ← load
    save E (record data' { seq_recv = some (insert sender_id seq_no (get_or data'.seq_recv [])) })
