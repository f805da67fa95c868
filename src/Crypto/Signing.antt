-- ===== src/Crypto/Signing.antt =====
-- client/src/crypto/signing.py
use cs4455_epic.Base.{Bool, ◌+◌}
use cs4455_epic.Base.Text.{Bytes}
use cs4455_epic.Errors.{ok}
use cs4455_epic.Env.{Env}
use cs4455_epic.Py.{Py, pure, lift, ◌>>=◌, ◌>>◌}

module _ (E : Env) where
  -- A fresh private key of either kind.
  unfoldable pub generate_private : Py Bytes
  generate_private s = (ok (E.generate_private s.drawn), record s { drawn = s.drawn + 1 })

  unfoldable pub generate_keypair : Py (Bytes × Bytes)
  unfolding generate_private
  generate_keypair = do
    priv_bytes ← generate_private
    let pub_bytes = E.ed25519_public priv_bytes
    pure (priv_bytes, pub_bytes)

  unfoldable pub sign : Bytes → Bytes → Py Bytes
  sign payload ed25519_priv = lift (E.ed25519_sign ed25519_priv payload)

  unfoldable pub verify : Bytes → Bytes → Bytes → Py Bool
  verify payload signature ed25519_pub = do
    lift (E.ed25519_public_key ed25519_pub)
    pure (E.ed25519_verify ed25519_pub signature payload)
