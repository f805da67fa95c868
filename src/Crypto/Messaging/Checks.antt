-- ===== src/Crypto/Messaging/Checks.antt =====
-- `open_message` of client/src/crypto/messaging.py: what an accepted message has passed, which
-- check fails first, and that opening changes no state.
use cs4455_epic.Base.{◌≡◌, ◌≢◌, inl, inr, Bool, true, false, Option, some, arith}
use cs4455_epic.Base.Int.{ℤ, ◌≤ℤ◌, ◌<ℤ◌, lt_of_not_leb_ℤ, leb_ℤ_of_le}
use cs4455_epic.Base.Dict.{Dict}
use cs4455_epic.Base.Text.{Str, Bytes}
use cs4455_epic.Codec.Utf8.{decode}
use cs4455_epic.Errors.{Exc, Result, ok, err, Result-cases, signature_error, replay_error}
use cs4455_epic.Json.{Json}
use cs4455_epic.Env.{Env}
use cs4455_epic.Py.{State}
use cs4455_epic.Crypto.Aead
use cs4455_epic.Crypto.Signing
use cs4455_epic.Crypto.Wire.{Wire, read_fields}
use cs4455_epic.Crypto.Messaging.{build_aad, signed_payload, is_replay, message_key, open_message}

module _ (E : Env) (fields : Dict Json) (sender_id recipient_id : Str)
    (my_x_priv peer_x_pub peer_ed_pub : Bytes) where
  -- Everything that the four checks establish of a message.
  pub record Accepted (text : Str) (wire : Wire) : Type 0 where
    pub plaintext : Bytes
    pub key : Bytes
    pub read : read_fields fields ≡ ok wire
    pub verified :
        E.ed25519_verify peer_ed_pub wire.signature
          (signed_payload sender_id recipient_id wire.seq_no wire.ciphertext wire.nonce)
        ≡ true
    pub agreed : message_key E my_x_priv peer_x_pub ≡ ok key
    pub opened :
        E.aesgcm_decrypt key wire.nonce wire.ciphertext
          (build_aad sender_id recipient_id wire.seq_no)
        ≡ ok plaintext
    pub decoded : decode plaintext ≡ some text

  module _ (last_seq : Option ℤ) (enforce : Bool) (s : State) where
    abbrev opening : Result (Str × ℤ) × State
    opening =
        open_message E fields sender_id recipient_id my_x_priv peer_x_pub peer_ed_pub last_seq
          enforce s

    -- Opening a message changes no state, whatever the outcome.
    pub open_message_state : opening.1 ≡ s
    unfolding open_message Signing.verify Aead.decrypt
    open_message_state = ground arith

    open_message_unread : {e : Exc} → read_fields fields ≡ err e → opening.0 ≡ err e
    unfolding open_message
    open_message_unread h = ground arith

    open_message_keyless :
        (w : Wire) {e : Exc} {x : Str × ℤ}
        → read_fields fields ≡ ok w
        → message_key E my_x_priv peer_x_pub ≡ err e
        → opening.0 ≢ ok x
    unfolding open_message Signing.verify
    open_message_keyless w h k = ground arith

    open_message_tampered :
        (w : Wire) (key : Bytes) {e : Exc} {x : Str × ℤ}
        → read_fields fields ≡ ok w
        → message_key E my_x_priv peer_x_pub ≡ ok key
        → E.aesgcm_decrypt key w.nonce w.ciphertext (build_aad sender_id recipient_id w.seq_no)
          ≡ err e
        → opening.0 ≢ ok x
    unfolding open_message Signing.verify Aead.decrypt
    open_message_tampered w key h k d = ground arith

    module _ (text : Str) (seq_no : ℤ) (accepted : opening.0 ≡ ok (text, seq_no)) where
      open_message_facts :
          (w : Wire) (key plaintext : Bytes)
          → read_fields fields ≡ ok w
          → message_key E my_x_priv peer_x_pub ≡ ok key
          → E.aesgcm_decrypt key w.nonce w.ciphertext (build_aad sender_id recipient_id w.seq_no)
            ≡ ok plaintext
          → (E.ed25519_verify peer_ed_pub w.signature
                (signed_payload sender_id recipient_id w.seq_no w.ciphertext w.nonce)
              ≡ true)
            × (decode plaintext ≡ some text)
            × (w.seq_no ≡ seq_no)
            × (is_replay enforce last_seq w.seq_no ≡ false)
      unfolding open_message Signing.verify Aead.decrypt
      open_message_facts w key plaintext r k d = ground arith

      -- A message is opened only if its fields could be read, its signature verifies under the
      -- given Ed25519 key, its sequence number is no replay, the key agreement succeeds, and its
      -- ciphertext opens under the derived key with the bound ids and number; the result is the
      -- decoded plaintext and that number.
      pub open_message-Accepted :
          (wire : Wire) × Accepted text wire
          × (wire.seq_no ≡ seq_no)
          × (is_replay enforce last_seq wire.seq_no ≡ false)
      open_message-Accepted = elim (Result-cases (read_fields fields)) [
        | inr (e, r) ↦ cc (open_message_unread r)
        | inl (w, r) ↦ elim (Result-cases (message_key E my_x_priv peer_x_pub)) [
          | inr (e, k) ↦ absurd (open_message_keyless w r k accepted)
          | inl (key, k) ↦
              elim (Result-cases (
                E.aesgcm_decrypt key w.nonce w.ciphertext
                  (build_aad sender_id recipient_id w.seq_no))) [
                    | inr (e, d) ↦ absurd (open_message_tampered w key r k d accepted)
                    | inl (plaintext, d) ↦
                        let (v, t, n, f) = open_message_facts w key plaintext r k d in
                        (
                          w,
                          record {
                            plaintext = plaintext;
                            key = key;
                            read = r;
                            verified = v;
                            agreed = k;
                            opened = d;
                            decoded = t;
                          },
                          n,
                          f,
                        )
                  ]
        ]
      ]

  module _ (s : State) (w : Wire) (read : read_fields fields ≡ ok w) where
    -- Where the fields and the Ed25519 key can be read, a signature that does not verify is reported
    -- before any other check, whatever the counter and the other keys are, and changes nothing.
    pub open_message_forged :
        (last_seq : Option ℤ) (enforce : Bool)
        → E.ed25519_public_key peer_ed_pub ≡ ok tt
        → E.ed25519_verify peer_ed_pub w.signature
            (signed_payload sender_id recipient_id w.seq_no w.ciphertext w.nonce)
          ≡ false
        → opening last_seq enforce s ≡ (err signature_error, s)
    unfolding open_message Signing.verify
    open_message_forged last_seq enforce loads forged = ground arith

    -- Where the fields and the Ed25519 key can be read and the signature verifies, a number that is
    -- not above the last one is refused with the replay check on, before any decryption, whatever
    -- the other keys are, and changes nothing.
    pub open_message_replayed :
        (last : ℤ)
        → E.ed25519_public_key peer_ed_pub ≡ ok tt
        → E.ed25519_verify peer_ed_pub w.signature
            (signed_payload sender_id recipient_id w.seq_no w.ciphertext w.nonce)
          ≡ true
        → w.seq_no ≤ℤ last
        → opening (some last) true s ≡ (err replay_error, s)
    unfolding open_message Signing.verify is_replay
    open_message_replayed last loads genuine old = ground (arith, leb_ℤ_of_le w.seq_no last old)

-- What `is_replay` lets through with the check on is above the last number.
pub fresh_of_not_replay :
    (last seq_no : ℤ) → is_replay true (some last) seq_no ≡ false → last <ℤ seq_no
unfolding is_replay
fresh_of_not_replay last seq_no h = lt_of_not_leb_ℤ seq_no last h
