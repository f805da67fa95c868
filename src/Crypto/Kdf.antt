-- ===== src/Crypto/Kdf.antt =====
-- client/src/crypto/kdf.py and client/src/crypto/digest.py
use cs4455_epic.Base.{ℕ, ◌++◌, take}
use cs4455_epic.Base.Text.{Str, Bytes, lit, strip}
use cs4455_epic.Codec.Hex.{hex}
use cs4455_epic.Codec.Utf8.{encode}
use cs4455_epic.Env.{Env}

module _ (E : Env) where
  unfoldable pub argon2id_raw : Str → Bytes → Bytes
  argon2id_raw password salt = E.argon2id (encode password) salt 3 65536 4 32

  unfoldable pub derive_message_key : Bytes → Bytes → ℕ → Bytes
  derive_message_key shared_secret info length = E.hkdf_expand length info shared_secret

  unfoldable pub derive_kek : Str → Bytes → Bytes
  derive_kek password salt =
      E.hkdf_expand 32 (lit "local-key-encrypt-v1") (argon2id_raw password salt)

  unfoldable pub auth_salt : Str → Bytes
  auth_salt username =
      take 16 (E.sha256 (lit "server-auth-salt-v1|" ++ encode (E.lower (strip username))))

  unfoldable pub derive_auth_hash : Str → Str → Str
  derive_auth_hash password username =
      hex (E.hkdf_expand 32 (lit "server-auth-v1") (argon2id_raw password (auth_salt username)))

  unfoldable pub keccak256_hex : Bytes → Str
  keccak256_hex plaintext = lit "0x" ++ hex (E.keccak256 plaintext)
