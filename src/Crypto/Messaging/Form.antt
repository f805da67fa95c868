-- ===== src/Crypto/Messaging/Form.antt =====
-- The form of what `seal` of client/src/crypto/messaging.py sends.
use mathlib.Core.Path.{subst}
use cs4455_epic.Base.{◌≡◌, refl, arith, some, ◌++◌, length, inl, inr}
use cs4455_epic.Base.Int.{ℤ}
use cs4455_epic.Base.Text.{Str, Bytes, lit}
use cs4455_epic.Codec.Base64.{b64encode, b64decode, b64decode-b64encode}
use cs4455_epic.Codec.Hex.{hex, length-hex}
use cs4455_epic.Codec.Utf8.{encode}
use cs4455_epic.Errors.{ok, Result-cases}
use cs4455_epic.Env.{Env, IsLawful}
use cs4455_epic.Py.{State}
use cs4455_epic.Crypto.Kdf.{derive_message_key, keccak256_hex}
use cs4455_epic.Crypto.Aead as Aead
use cs4455_epic.Crypto.Signing as Signing
use cs4455_epic.Crypto.Messaging.{Sealed, msg_info, build_aad, signed_payload, message_key, seal}

-- The text is the Base64 of some bytes.
abbrev pub Encodes : Str → Type 0
Encodes text = (bs : Bytes) × (b64decode text ≡ some bs)

-- A nonce of 12 bytes, a ciphertext and a signature, all in Base64, the number, and a digest of `0x`
-- and 64 characters.
pub record IsWireForm (seq_no : ℤ) (f : Sealed) : Type 0 where
  pub nonce_bytes : Bytes
  pub nonce : b64decode f.nonce ≡ some nonce_bytes
  pub nonce_size : length nonce_bytes ≡ 12
  pub ciphertext : Encodes f.ciphertext
  pub signature : Encodes f.signature
  pub number : f.seq_no ≡ seq_no
  pub digest : (hash : Str) × (f.digest ≡ lit "0x" ++ hash) × (length hash ≡ 64)

module _ (E : Env) (L : IsLawful E) (text sender_id recipient_id : Str) (seq_no : ℤ)
    (my_x_priv my_ed_priv peer_x_pub : Bytes) (s : State) where
  length-message_key : (shared : Bytes) → length (derive_message_key E shared msg_info 32) ≡ 32
  unfolding derive_message_key
  length-message_key shared = L.length-hkdf_expand 32 msg_info shared (omega arith)

  digest_form :
      (hash : Str) × (keccak256_hex E (encode text) ≡ lit "0x" ++ hash) × (length hash ≡ 64)
  unfolding keccak256_hex
  digest_form =
      let digest = E.keccak256 (encode text) in
      (hex digest, refl, omega (arith, length-hex digest, L.length-keccak256 (encode text)))

  fields_form :
      (key payload signature : Bytes)
      → E.ed25519_sign my_ed_priv payload ≡ ok signature
      → IsWireForm seq_no (record {
        ciphertext = b64encode (
            E.aesgcm_encrypt key
              (E.urandom s.drawn 12)
              (encode text)
              (build_aad sender_id recipient_id seq_no));
        nonce = b64encode (E.urandom s.drawn 12);
        signature = b64encode signature;
        seq_no = seq_no;
        digest = keccak256_hex E (encode text);
      })
  fields_form key payload signature signed = record {
    nonce_bytes = E.urandom s.drawn 12;
    nonce = b64decode-b64encode (E.urandom s.drawn 12) (L.urandom_bytes s.drawn 12);
    nonce_size = L.length-urandom s.drawn 12;
    ciphertext = (_, b64decode-b64encode _ (L.encrypt_bytes _ _ _ _));
    signature = (
      signature,
      b64decode-b64encode signature (L.sign_bytes my_ed_priv payload signature signed),
    );
    number = refl;
    digest = digest_form;
  }

  -- With packages that behave as documented: whatever `seal` returns has the form that goes over the
  -- wire, with the number it was given.
  pub seal-IsWireForm :
      (f : Sealed)
      → (seal E text sender_id recipient_id seq_no my_x_priv my_ed_priv peer_x_pub s).0 ≡ ok f
      → IsWireForm seq_no f
  unfolding seal message_key Aead.encrypt Signing.sign
  seal-IsWireForm f h = elim (Result-cases (E.x25519_exchange my_x_priv peer_x_pub)) [
    | inr (e, x) ↦ absurd (ground arith)
    | inl (shared, x) ↦
        let key = derive_message_key E shared msg_info 32 in
        let size = length-message_key shared in
        let payload =
          signed_payload sender_id recipient_id seq_no
            (E.aesgcm_encrypt key (E.urandom s.drawn 12) (encode text)
              (build_aad sender_id recipient_id seq_no))
            (E.urandom s.drawn 12) in
        elim (Result-cases (E.ed25519_sign my_ed_priv payload)) [
          | inr (e, y) ↦ absurd (ground (arith, size))
          | inl (signature, y) ↦
              subst (IsWireForm seq_no) (ground (arith, size)) (fields_form key payload signature y)
        ]
  ]
