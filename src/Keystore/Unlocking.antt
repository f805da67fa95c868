-- ===== src/Keystore/Unlocking.antt =====
-- `create`, `unlock` and `private_keys` of client/src/crypto/keystore.py.
use cs4455_epic.Base.{
  ◌+◌, ◌≡◌, refl, ap, ◌∙◌, some, none, [], ◌∷◌, ◌++◌, arith, length, take-append, drop-append,
  take_all,
}
use cs4455_epic.Base.Dict.{lookup}
use cs4455_epic.Base.Text.{Str, Bytes, lit}
use cs4455_epic.Codec.Base64.{b64encode, b64decode, b64decode-b64encode}
use cs4455_epic.Errors.{Exc, ok, err}
use cs4455_epic.Env.{Env, IsLawful}
use cs4455_epic.Py.{FileData, State, PrivateKeys}
use cs4455_epic.Crypto.Kdf.{derive_kek}
use cs4455_epic.Crypto.Aead
use cs4455_epic.Crypto.Signing
use cs4455_epic.Crypto.Wire.{decode_text}
use cs4455_epic.Keystore.{
  keystore_aad, archive_info, split_keys, create, unlock, private_keys, public_keys, archive_key,
}
use cs4455_epic.Keystore.Files.{blank, save, load, exists}
use cs4455_epic.Keystore.Loading.{Holds, Holds-save}
use cs4455_epic.Keystore.Atomic.{save_frame}

-- A keystore file that opens under a password to a 64-byte plaintext.
pub record Opens (E : Env) (password : Str) (d : FileData) (plaintext : Bytes) : Type 0 where
  pub salt : Bytes
  pub nonce : Bytes
  pub ciphertext : Bytes
  pub salt_text : d.salt ≡ some (b64encode salt)
  pub nonce_text : d.nonce ≡ some (b64encode nonce)
  pub ciphertext_text : d.ciphertext ≡ some (b64encode ciphertext)
  pub salt_read : b64decode (b64encode salt) ≡ some salt
  pub nonce_read : b64decode (b64encode nonce) ≡ some nonce
  pub ciphertext_read : b64decode (b64encode ciphertext) ≡ some ciphertext
  pub opened :
      E.aesgcm_decrypt (derive_kek E password salt) nonce ciphertext keystore_aad ≡ ok plaintext

module _ (E : Env) (L : IsLawful E) where
  pub length-derive_kek : (password : Str) (salt : Bytes) → length (derive_kek E password salt) ≡ 32
  unfolding derive_kek
  length-derive_kek password salt = L.length-hkdf_expand 32 _ _ (omega arith)

  -- A file that opens under the password unlocks to its two private keys.
  pub unlock-Opens :
      (password : Str) (d : FileData) (plaintext : Bytes) (s : State)
      → Holds s d
      → (o : Opens E password d plaintext)
      → unlock E password s ≡ (
        ok tt,
        record s {
          keystore = record s.keystore {
            kek = some (derive_kek E password o.salt);
            keys = some (split_keys plaintext);
          };
        },
      )
  unfolding unlock Aead.decrypt decode_text
  unlock-Opens password d plaintext s h o = ground (arith, length-derive_kek password o.salt)

  -- What `create` leaves, when no file was there.
  abbrev pub made_salt : State → Bytes
  made_salt s = E.urandom s.drawn 16

  abbrev pub made_x : State → Bytes
  made_x s = E.generate_private (s.drawn + 1)

  abbrev pub made_ed : State → Bytes
  made_ed s = E.generate_private (s.drawn + 1 + 1)

  abbrev made_nonce : State → Bytes
  made_nonce s = E.urandom (s.drawn + 1 + 1 + 1) 12

  abbrev made_ciphertext : Str → State → Bytes
  made_ciphertext password s =
      E.aesgcm_encrypt (derive_kek E password (made_salt s)) (made_nonce s) (made_x s ++ made_ed s)
        keystore_aad

  abbrev pub made_data : Str → State → FileData
  made_data password s = record blank {
    version = some 1;
    salt = some (b64encode (made_salt s));
    nonce = some (b64encode (made_nonce s));
    ciphertext = some (b64encode (made_ciphertext password s));
    pub_x25519 = some (b64encode (E.x25519_public (made_x s)));
    pub_ed25519 = some (b64encode (E.ed25519_public (made_ed s)));
    peers = some [];
  }

  abbrev pub half_made : Str → State → State
  half_made password s = record s {
    drawn = s.drawn + 1 + 1 + 1 + 1;
    keystore = record s.keystore { kek = some (derive_kek E password (made_salt s)) };
  }

  pub create-eq :
      (password : Str) (s : State)
      → lookup s.keystore.path s.files ≡ none
      → create E password s ≡ save E (made_data password s) (half_made password s)
  unfolding create exists Aead.urandom Signing.generate_keypair Aead.encrypt
  create-eq password s absent = ground (arith, length-derive_kek password (made_salt s))

  pub Holds-create :
      (password : Str) (s : State)
      → lookup s.keystore.path s.files ≡ none
      → Holds (create E password s).1 (made_data password s)
  Holds-create password s absent =
      rw (create-eq password s absent)
        (Holds-save E (made_data password s) (half_made password s) refl)

  pub create-Opens :
      (password : Str) (s : State) → Opens E password (made_data password s) (made_x s ++ made_ed s)
  create-Opens password s = record {
    salt = made_salt s;
    nonce = made_nonce s;
    ciphertext = made_ciphertext password s;
    salt_text = refl;
    nonce_text = refl;
    ciphertext_text = refl;
    salt_read = b64decode-b64encode (made_salt s) (L.urandom_bytes _ _);
    nonce_read = b64decode-b64encode (made_nonce s) (L.urandom_bytes _ _);
    ciphertext_read = b64decode-b64encode (made_ciphertext password s) (L.encrypt_bytes _ _ _ _);
    opened =
        L.decrypt-encrypt _ (made_nonce s) (made_x s ++ made_ed s) keystore_aad
          (length-derive_kek password (made_salt s));
  }

  pub salt-create-Opens :
      (password : Str) (s : State) → (create-Opens password s).salt ≡ made_salt s
  unfolding create-Opens
  salt-create-Opens password s = refl

  split-made :
      (s : State)
      → split_keys (made_x s ++ made_ed s) ≡ record { x25519 = made_x s; ed25519 = made_ed s }
  split-made s = ground (
    arith,
    take-append 32 (made_x s) (made_ed s) (L.length-generate_private _),
    drop-append 32 (made_x s) (made_ed s) (L.length-generate_private _),
    take_all 32 (made_ed s) (L.length-generate_private _),
  )

  -- Where no keystore is, creating one succeeds; unlocking it with the same password succeeds
  -- and gives private keys whose public keys are the ones that the file publishes.
  pub unlock-create :
      (password : Str) (s : State)
      → lookup s.keystore.path s.files ≡ none
      → let t = (create E password s).1 in
        let u = (unlock E password t).1 in
        (keys : PrivateKeys) × ((create E password s).0 ≡ ok tt)
        × ((unlock E password t).0 ≡ ok tt)
        × ((private_keys u).0 ≡ ok keys)
        × ((public_keys u).0
            ≡ ok (
                (lit "x25519", b64encode (E.x25519_public keys.x25519))
                ∷ (lit "ed25519", b64encode (E.ed25519_public keys.ed25519))
                ∷ []))
  unfolding private_keys public_keys load
  unlock-create password s absent =
      let held = Holds-create password s absent in
      let opened =
        unlock-Opens password (made_data password s) (made_x s ++ made_ed s) (create E password s).1
          held (create-Opens password s) in
      (
        record { x25519 = made_x s; ed25519 = made_ed s },
        ap (λ r. r.0) (create-eq password s absent) ∙ (save_frame E _ _).0,
        ap (λ r. r.0) opened,
        ground (arith, opened, split-made s),
        ground (arith, opened, held),
      )

module _ (E : Env) (L : IsLawful E) (password : Str) (d : FileData) (s : State)
    (salt nonce ciphertext : Bytes) {e : Exc} (holds : Holds s d) where
  -- A failed unlock raises and opens no private key, but the key-encryption key of the wrong
  -- password stays in memory: the archive key is then derived from it without an error.
  pub unlock_wrong_password :
      d.salt ≡ some (b64encode salt)
      → d.nonce ≡ some (b64encode nonce)
      → d.ciphertext ≡ some (b64encode ciphertext)
      → b64decode (b64encode salt) ≡ some salt
      → b64decode (b64encode nonce) ≡ some nonce
      → b64decode (b64encode ciphertext) ≡ some ciphertext
      → E.aesgcm_decrypt (derive_kek E password salt) nonce ciphertext keystore_aad ≡ err e
      → let t = (unlock E password s).1 in
        ((unlock E password s).0 ≡ err e)
        × (t.keystore.keys ≡ s.keystore.keys)
        × ((archive_key E t).0 ≡ ok (E.hkdf_expand 32 archive_info (derive_kek E password salt)))
  unfolding unlock Aead.decrypt decode_text archive_key
  unlock_wrong_password a b c a' b' c' wrong =
      let size = length-derive_kek E L password salt in (ground arith, ground arith, ground arith)
