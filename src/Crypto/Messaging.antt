-- ===== src/Crypto/Messaging.antt =====
-- client/src/crypto/messaging.py: sealing a message, and opening it behind four checks.
pub mod Encoding
pub mod Checks
pub mod Roundtrip
pub mod Form
use cs4455_epic.Base.{Bool, false, not, ◌&&◌, Option, none, some, ◌++◌}
use cs4455_epic.Base.Int.{ℤ, leb_ℤ}
use cs4455_epic.Base.Dict.{Dict}
use cs4455_epic.Base.Text.{Str, Bytes, lit}
use cs4455_epic.Codec.Base64.{b64encode}
use cs4455_epic.Codec.Decimal.{show_ℤ}
use cs4455_epic.Codec.Utf8.{encode, decode}
use cs4455_epic.Errors.{Result, ok, err, unicode_error, signature_error, replay_error}
use cs4455_epic.Json.{Json}
use cs4455_epic.Env.{Env}
use cs4455_epic.Py.{Py, pure, lift, or_raise, raise_if, ◌>>=◌, ◌>>◌}
use cs4455_epic.Crypto.Kdf.{derive_message_key, keccak256_hex}
use cs4455_epic.Crypto.Aead
use cs4455_epic.Crypto.Signing
use cs4455_epic.Crypto.Wire.{read_fields}

abbrev pub msg_info : Bytes
msg_info = lit "zebra-msg-v1"

unfoldable pub build_aad : Str → Str → ℤ → Bytes
build_aad sender_id recipient_id seq_no =
    encode (sender_id ++ (lit "|" ++ (recipient_id ++ (lit "|" ++ show_ℤ seq_no))))

unfoldable pub signed_payload : Str → Str → ℤ → Bytes → Bytes → Bytes
signed_payload sender_id recipient_id seq_no ciphertext nonce =
    encode (sender_id ++ (lit "|" ++ (recipient_id ++ (lit "|" ++ (show_ℤ seq_no ++ lit "|")))))
    ++ (ciphertext ++ (lit "|" ++ nonce))

-- The dict that `seal` returns.
pub record Sealed : Type 0 where
  pub ciphertext : Str
  pub nonce : Str
  pub signature : Str
  pub seq_no : ℤ
  pub digest : Str

unfoldable pub is_replay : Bool → Option ℤ → ℤ → Bool
is_replay enforce_replay none seq_no = false
is_replay enforce_replay (some last_seq) seq_no = enforce_replay && leb_ℤ seq_no last_seq

module _ (E : Env) where
  unfoldable pub message_key : Bytes → Bytes → Result Bytes
  message_key my_x_priv peer_x_pub = elim (E.x25519_exchange my_x_priv peer_x_pub) [
    | ok dh_out ↦ ok (derive_message_key E dh_out msg_info 32)
    | err e ↦ err e
  ]

  unfoldable pub seal :
      (plaintext sender_id recipient_id : Str) (seq_no : ℤ)
      (my_x_priv my_ed_priv peer_x_pub : Bytes)
      → Py Sealed
  unfolding message_key
  seal plaintext sender_id recipient_id seq_no my_x_priv my_ed_priv peer_x_pub = do
    let plaintext_bytes = encode plaintext
    key ← lift (message_key my_x_priv peer_x_pub)
    let aad = build_aad sender_id recipient_id seq_no
    sealed ← Aead.encrypt E key plaintext_bytes aad
    let nonce = sealed.0
    let ciphertext = sealed.1
    signature ←
        Signing.sign E (signed_payload sender_id recipient_id seq_no ciphertext nonce) my_ed_priv
    pure (record {
      ciphertext = b64encode ciphertext;
      nonce = b64encode nonce;
      signature = b64encode signature;
      seq_no = seq_no;
      digest = keccak256_hex E plaintext_bytes;
    })

  unfoldable pub open_message :
      (fields : Dict Json) (sender_id recipient_id : Str) (my_x_priv peer_x_pub peer_ed_pub : Bytes)
      (last_seq : Option ℤ) (enforce_replay : Bool)
      → Py (Str × ℤ)
  unfolding message_key
  open_message fields sender_id recipient_id my_x_priv peer_x_pub peer_ed_pub last_seq
        enforce_replay =
      do
        wire ← lift (read_fields fields)
        let seq_no = wire.seq_no
        let payload = signed_payload sender_id recipient_id seq_no wire.ciphertext wire.nonce
        verified ← Signing.verify E payload wire.signature peer_ed_pub
        raise_if (not verified) signature_error
        raise_if (is_replay enforce_replay last_seq seq_no) replay_error
        key ← lift (message_key my_x_priv peer_x_pub)
        let aad = build_aad sender_id recipient_id seq_no
        plaintext ← Aead.decrypt E key wire.nonce wire.ciphertext aad
        text ← or_raise unicode_error (decode plaintext)
        pure (text, seq_no)
