-- ===== src/Tests/CryptoRuns.antt =====
-- The theorems on messages at concrete inputs.
use cs4455_epic.Base.{◌≡◌, refl, ap, inl, Bool, true, false, All, Option, none, some, [], arith}
use cs4455_epic.Base.Int.{ℤ, pos}
use cs4455_epic.Base.Dict.{Dict, lookup}
use cs4455_epic.Base.Text.{Str, Bytes, lit, str_eq}
use cs4455_epic.Errors.{Result, ok, err, signature_error, replay_error}
use cs4455_epic.Json.{Json}
use cs4455_epic.Env.Toy.{replicate}
use cs4455_epic.Py.{State}
use cs4455_epic.Crypto.Wire.{Wire, read_fields, decode_text}
use cs4455_epic.Codec.Base64.{b64decode}
use cs4455_epic.Codec.Utf8.{encode, encode_char}
use cs4455_epic.Crypto.Messaging.{Sealed, seal, open_message, is_replay, signed_payload}
use cs4455_epic.Crypto.Messaging.Checks.{
  Accepted, open_message-Accepted, open_message_forged, open_message_replayed,
}
use cs4455_epic.Crypto.Messaging.Encoding.{IsPlain, signed_payload_injective}
use cs4455_epic.Crypto.Messaging.Roundtrip.{Carries, seal_total, open-seal}
use cs4455_epic.Crypto.Messaging.Form.{IsWireForm, seal-IsWireForm}
use cs4455_epic.Tests.Data.{env, env-IsLawful, new_client, with_file, message_of}

abbrev hello : Str
hello = lit "hello"

abbrev bob : Str
bob = lit "bob"

abbrev ann : Str
ann = lit "ann"

abbrev key_a : Bytes
key_a = replicate 32 6

abbrev key_b : Bytes
key_b = replicate 32 9

abbrev sealing : Result Sealed × State
sealing = seal env hello bob ann (pos 10) key_a key_b (env.x25519_public key_b) new_client

-- The fields of a message from bob to ann.
sealed_fields : (f : Sealed) × (sealing ≡ (ok f, record new_client { drawn = 1 }))
sealed_fields =
    seal_total env env-IsLawful hello bob ann (pos 10) key_a key_b key_b new_client refl refl

abbrev fields : Sealed
fields = sealed_fields.0

seal-IsWireForm_example : IsWireForm (pos 10) fields
seal-IsWireForm_example =
    seal-IsWireForm env env-IsLawful hello bob ann (pos 10) key_a key_b (env.x25519_public key_b)
      new_client fields (ap (λ r. r.0) sealed_fields.1)

message-Carries : Carries (message_of fields) fields
unfolding lookup str_eq
message-Carries = record { ciphertext = refl; nonce = refl; signature = refl; seq_no = refl }

abbrev opening : Option ℤ → Bool → Result (Str × ℤ) × State
opening last enforce =
    open_message env (message_of fields) bob ann key_b (env.x25519_public key_a)
      (env.ed25519_public key_b) last enforce with_file

not_replay : is_replay true (some (pos 9)) (pos 10) ≡ false
unfolding is_replay
not_replay = refl

open-seal_example : opening (some (pos 9)) true ≡ (ok (hello, pos 10), with_file)
open-seal_example =
    open-seal env env-IsLawful hello bob ann (pos 10) key_a key_b key_b new_client refl
      (message_of fields) (some (pos 9)) true with_file
      (
        inl (omega arith),
        (inl (omega arith), (inl (omega arith), (inl (omega arith), (inl (omega arith), tt)))),
      )
      not_replay fields (ap (λ r. r.0) sealed_fields.1) message-Carries

opened : (opening (some (pos 9)) true).0 ≡ ok (hello, pos 10)
opened =
    ap (λ r. r.0)
      (open-seal env env-IsLawful hello bob ann (pos 10) key_a key_b key_b new_client refl
        (message_of fields) (some (pos 9)) true with_file
        (
          inl (omega arith),
          (inl (omega arith), (inl (omega arith), (inl (omega arith), (inl (omega arith), tt)))),
        )
        not_replay fields (ap (λ r. r.0) sealed_fields.1) message-Carries)

abbrev BobAccepted : Wire → Type 0
BobAccepted =
    Accepted env (message_of fields) bob ann key_b (env.x25519_public key_a)
      (env.ed25519_public key_b) hello

abbrev Checked : Type 0
Checked =
    (wire : Wire) × BobAccepted wire
    × (wire.seq_no ≡ pos 10)
    × (is_replay true (some (pos 9)) wire.seq_no ≡ false)

checked : Checked
checked =
    open_message-Accepted env (message_of fields) bob ann key_b (env.x25519_public key_a)
      (env.ed25519_public key_b) (some (pos 9)) true with_file hello (pos 10) opened

open_message-Accepted_example :
    (wire : Wire) × BobAccepted wire
    × (wire.seq_no ≡ pos 10)
    × (is_replay true (some (pos 9)) wire.seq_no ≡ false)
open_message-Accepted_example =
    open_message-Accepted env (message_of fields) bob ann key_b (env.x25519_public key_a)
      (env.ed25519_public key_b) (some (pos 9)) true with_file hello (pos 10) opened

open_message_replayed_example : opening (some (pos 12)) true ≡ (err replay_error, with_file)
open_message_replayed_example =
    open_message_replayed env (message_of fields) bob ann key_b (env.x25519_public key_a)
      (env.ed25519_public key_b) with_file checked.0 checked.1.read (pos 12) refl checked.1.verified
      (rw checked.2 (omega arith))

-- A message whose signature is three zero bytes.
abbrev zeros : Str
zeros = lit "AAAA"

abbrev forged_fields : Dict Json
forged_fields =
    message_of (record {
      ciphertext = zeros;
      nonce = zeros;
      signature = zeros;
      seq_no = pos 10;
      digest = [];
    })

abbrev forged_wire : Wire
forged_wire = record {
  ciphertext = replicate 3 0;
  nonce = replicate 3 0;
  signature = replicate 3 0;
  seq_no = pos 10;
}

forged_read : read_fields forged_fields ≡ ok forged_wire
unfolding read_fields lookup str_eq b64decode decode_text
forged_read = refl

forged_signature :
    env.ed25519_verify
      (env.ed25519_public key_b)
      forged_wire.signature
      (signed_payload bob ann (pos 10) forged_wire.ciphertext forged_wire.nonce)
    ≡ false
unfolding signed_payload str_eq encode encode_char
forged_signature = refl

open_message_forged_example :
    open_message env forged_fields bob ann key_b
      (env.x25519_public key_a)
      (env.ed25519_public key_b)
      none
      true
      with_file
    ≡ (err signature_error, with_file)
open_message_forged_example =
    open_message_forged env forged_fields bob ann key_b (env.x25519_public key_a)
      (env.ed25519_public key_b) with_file forged_wire forged_read none true refl forged_signature

IsPlain-bob : All IsPlain bob
IsPlain-bob =
    ((omega arith, omega arith), ((omega arith, omega arith), ((omega arith, omega arith), tt)))

IsPlain-ann : All IsPlain ann
IsPlain-ann =
    ((omega arith, omega arith), ((omega arith, omega arith), ((omega arith, omega arith), tt)))

signed_payload_injective_example :
    (bob ≡ bob) × (ann ≡ ann) × (pos 10 ≡ pos 10) × (hello ≡ hello) × (zeros ≡ zeros)
signed_payload_injective_example =
    signed_payload_injective bob ann bob ann (pos 10) (pos 10) hello zeros hello zeros IsPlain-bob
      IsPlain-ann IsPlain-bob IsPlain-ann refl refl
