-- ===== src/Crypto/Wire.antt =====
-- The first lines of `open_message` in client/src/crypto/messaging.py, which read the fields that
-- came over the wire.
use cs4455_epic.Base.{true, false, none, some}
use cs4455_epic.Base.Int.{ℤ, pos}
use cs4455_epic.Base.Dict.{Dict, lookup}
use cs4455_epic.Base.Text.{Str, Bytes, lit}
use cs4455_epic.Codec.Base64.{b64decode}
use cs4455_epic.Codec.Decimal.{read_ℤ}
use cs4455_epic.Errors.{Result, ok, err, key_error, type_error, value_error}
use cs4455_epic.Json.{Json, bool, int, str}

infixl 5 ◌>>=◌
abbrev ◌>>=◌ : {A B : Type 0} → Result A → (A → Result B) → Result B
ok a >>= f = f a
err e >>= f = err e

-- `d[key]`
unfoldable pub item {ℓ} : {V : Type ℓ} → Str → Dict V → Result V
item key d = elim (lookup key d) [ none ↦ err key_error | some v ↦ ok v ]

-- `base64.b64decode(s)` of a text
unfoldable pub decode_text : Str → Result Bytes
decode_text s = elim (b64decode s) [ none ↦ err value_error | some bs ↦ ok bs ]

-- `_b64d(v)`
unfoldable pub b64d : Json → Result Bytes
unfolding decode_text
b64d (str s) = decode_text s
b64d _ = err type_error

-- `int(v)`
unfoldable pub to_int : Json → Result ℤ
to_int (int i) = ok i
to_int (bool true) = ok (pos 1)
to_int (bool false) = ok (pos 0)
to_int (str s) = elim (read_ℤ s) [ none ↦ err value_error | some i ↦ ok i ]
to_int _ = err type_error

pub record Wire : Type 0 where
  pub ciphertext : Bytes
  pub nonce : Bytes
  pub signature : Bytes
  pub seq_no : ℤ

unfoldable pub read_fields : Dict Json → Result Wire
unfolding item b64d to_int
read_fields fields = do
  ciphertext ← item (lit "ciphertext") fields
  ciphertext ← b64d ciphertext
  nonce ← item (lit "nonce") fields
  nonce ← b64d nonce
  signature ← item (lit "signature") fields
  signature ← b64d signature
  seq_no ← item (lit "seqNo") fields
  seq_no ← to_int seq_no
  ok (record { ciphertext = ciphertext; nonce = nonce; signature = signature; seq_no = seq_no })
