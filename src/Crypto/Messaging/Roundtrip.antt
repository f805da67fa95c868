-- ===== src/Crypto/Messaging/Roundtrip.antt =====
-- `seal` and `open_message` of client/src/crypto/messaging.py fit together.
use cs4455_epic.Base.{◌+◌, ◌≡◌, ◌≢◌, ap, Bool, false, Option, some, arith, All, length, inl, inr}
use cs4455_epic.Base.Int.{ℤ}
use cs4455_epic.Base.Dict.{Dict, lookup}
use cs4455_epic.Base.Text.{Str, Bytes, lit}
use cs4455_epic.Codec.Base64.{b64encode, b64decode-b64encode}
use cs4455_epic.Codec.Utf8.{IsScalar, encode, decode-encode}
use cs4455_epic.Errors.{Result, ok, err, Exc, Result-cases}
use cs4455_epic.Json.{Json, int, str}
use cs4455_epic.Env.{Env, IsLawful, AreBytes}
use cs4455_epic.Py.{State}
use cs4455_epic.Crypto.Kdf.{derive_message_key, keccak256_hex}
use cs4455_epic.Crypto.Aead
use cs4455_epic.Crypto.Signing
use cs4455_epic.Crypto.Wire.{Wire, read_fields}
use cs4455_epic.Crypto.Messaging.{
  Sealed, msg_info, build_aad, signed_payload, is_replay, message_key, seal, open_message,
}

-- A received dict that holds the fields of a sealed message, among others.
pub record Carries (m : Dict Json) (f : Sealed) : Type 0 where
  pub ciphertext : lookup (lit "ciphertext") m ≡ some (str f.ciphertext)
  pub nonce : lookup (lit "nonce") m ≡ some (str f.nonce)
  pub signature : lookup (lit "signature") m ≡ some (str f.signature)
  pub seq_no : lookup (lit "seqNo") m ≡ some (int f.seq_no)

-- Fields that were encoded from bytes are read back.
read_fields-Carries :
    (m : Dict Json) (f : Sealed) (w : Wire)
    → Carries m f
    → f.ciphertext ≡ b64encode w.ciphertext
    → f.nonce ≡ b64encode w.nonce
    → f.signature ≡ b64encode w.signature
    → f.seq_no ≡ w.seq_no
    → AreBytes w.ciphertext
    → AreBytes w.nonce
    → AreBytes w.signature
    → read_fields m ≡ ok w
unfolding read_fields
read_fields-Carries m f w c ec en es eq bc bn bs = ground (
  arith,
  b64decode-b64encode w.ciphertext bc,
  b64decode-b64encode w.nonce bn,
  b64decode-b64encode w.signature bs,
)

module _ (E : Env) (L : IsLawful E) (text sender_id recipient_id : Str) (seq_no : ℤ)
    (my_x_priv my_ed_priv their_x_priv : Bytes) {shared : Bytes} (s : State)
    (agree : E.x25519_exchange my_x_priv (E.x25519_public their_x_priv) ≡ ok shared) where
  abbrev sealing : Result Sealed × State
  sealing =
      seal E text sender_id recipient_id seq_no my_x_priv my_ed_priv (E.x25519_public their_x_priv)
        s

  abbrev sent_key : Bytes
  sent_key = derive_message_key E shared msg_info 32

  -- What goes over the wire, before its encoding.
  abbrev sent_wire : Bytes → Wire
  sent_wire signature = record {
    ciphertext =
        E.aesgcm_encrypt sent_key (E.urandom s.drawn 12) (encode text)
          (build_aad sender_id recipient_id seq_no);
    nonce = E.urandom s.drawn 12;
    signature = signature;
    seq_no = seq_no;
  }

  abbrev sent_payload : Bytes
  sent_payload =
      signed_payload sender_id recipient_id seq_no
        (E.aesgcm_encrypt sent_key (E.urandom s.drawn 12) (encode text)
          (build_aad sender_id recipient_id seq_no))
        (E.urandom s.drawn 12)

  abbrev sent_fields : Bytes → Sealed
  sent_fields signature = record {
    ciphertext = b64encode (sent_wire signature).ciphertext;
    nonce = b64encode (E.urandom s.drawn 12);
    signature = b64encode signature;
    seq_no = seq_no;
    digest = keccak256_hex E (encode text);
  }

  length-sent_key : length sent_key ≡ 32
  unfolding derive_message_key
  length-sent_key = L.length-hkdf_expand 32 msg_info shared (omega arith)

  seal-eq :
      (signature : Bytes)
      → E.ed25519_sign my_ed_priv sent_payload ≡ ok signature
      → sealing ≡ (ok (sent_fields signature), record s { drawn = s.drawn + 1 })
  unfolding seal message_key Aead.encrypt Signing.sign
  seal-eq signature h = ground (arith, length-sent_key)

  -- With keys that agree on a secret and an Ed25519 key of 32 bytes, sealing succeeds, and draws
  -- one random value.
  pub seal_total :
      length my_ed_priv ≡ 32 → (f : Sealed) × (sealing ≡ (ok f, record s { drawn = s.drawn + 1 }))
  seal_total size =
      let (signature, signed) = L.sign_total my_ed_priv sent_payload size in
      (sent_fields signature, seal-eq signature signed)

  seal_unsigned :
      {e : Exc} {f : Sealed} → E.ed25519_sign my_ed_priv sent_payload ≡ err e → sealing.0 ≢ ok f
  unfolding seal message_key Aead.encrypt Signing.sign
  seal_unsigned h = ground (arith, length-sent_key)

  module _ (m : Dict Json) (last_seq : Option ℤ) (enforce : Bool) (t : State)
      (scalars : All IsScalar text) (fresh : is_replay enforce last_seq seq_no ≡ false) where
    abbrev reopening : Result (Str × ℤ) × State
    reopening =
        open_message E m sender_id recipient_id their_x_priv (E.x25519_public my_x_priv)
          (E.ed25519_public my_ed_priv) last_seq enforce t

    open-sent_wire :
        (signature : Bytes)
        → E.ed25519_sign my_ed_priv sent_payload ≡ ok signature
        → read_fields m ≡ ok (sent_wire signature)
        → reopening ≡ (ok (text, seq_no), t)
    unfolding open_message message_key Signing.verify Aead.decrypt
    open-sent_wire signature signed read = ground (
      arith,
      length-sent_key,
      L.exchange_comm my_x_priv their_x_priv,
      L.verify-sign my_ed_priv sent_payload signature signed,
      L.ed25519_public_key_total (E.ed25519_public my_ed_priv) (L.length-ed25519_public my_ed_priv),
      L.decrypt-encrypt sent_key (E.urandom s.drawn 12) (encode text)
          (build_aad sender_id recipient_id seq_no) length-sent_key,
      decode-encode text scalars,
    )

    -- The recipient opens what the sender sealed: with the sender's public keys and its own
    -- private key it gets back the text and the number, if the replay check lets the number
    -- through.
    pub open-seal :
        (f : Sealed) (sealed : sealing.0 ≡ ok f) → Carries m f → reopening ≡ (ok (text, seq_no), t)
    open-seal f sealed c = elim (Result-cases (E.ed25519_sign my_ed_priv sent_payload)) [
      | inr (e, h) ↦ absurd (seal_unsigned h sealed)
      | inl (signature, h) ↦
          let same : f ≡ sent_fields signature = cc (ap (λ x. x.0) (seal-eq signature h)) in
          open-sent_wire signature h (
            read_fields-Carries m f (sent_wire signature) c (ap (λ x. x.ciphertext) same)
              (ap (λ x. x.nonce) same) (ap (λ x. x.signature) same) (ap (λ x. x.seq_no) same)
              (L.encrypt_bytes _ _ _ _) (L.urandom_bytes s.drawn 12)
              (L.sign_bytes my_ed_priv sent_payload signature h))
    ]
