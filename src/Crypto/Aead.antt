-- ===== src/Crypto/Aead.antt =====
-- client/src/crypto/aead.py
use cs4455_epic.Base.{ℕ, ◌+◌, not, length, ◌==◌}
use cs4455_epic.Base.Text.{Bytes}
use cs4455_epic.Errors.{ok, value_error}
use cs4455_epic.Env.{Env}
use cs4455_epic.Py.{Py, pure, lift, raise_if, ◌>>=◌, ◌>>◌}

module _ (E : Env) where
  -- `os.urandom(size)`
  unfoldable pub urandom : ℕ → Py Bytes
  urandom size s = (ok (E.urandom s.drawn size), record s { drawn = s.drawn + 1 })

  unfoldable pub encrypt : Bytes → Bytes → Bytes → Py (Bytes × Bytes)
  unfolding urandom
  encrypt key plaintext aad = do
    raise_if (not (length key == 32)) value_error
    nonce ← urandom 12
    let ciphertext = E.aesgcm_encrypt key nonce plaintext aad
    pure (nonce, ciphertext)

  unfoldable pub decrypt : Bytes → Bytes → Bytes → Bytes → Py Bytes
  decrypt key nonce ciphertext aad = do
    raise_if (not (length key == 32)) value_error
    lift (E.aesgcm_decrypt key nonce ciphertext aad)
