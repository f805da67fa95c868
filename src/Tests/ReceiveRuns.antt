-- ===== src/Tests/ReceiveRuns.antt =====
-- A message from bob that a client accepts.
use cs4455_epic.Base.{◌≡◌, refl, ap, inl, true, false, All, some, List, [], ◌∷◌, arith}
use cs4455_epic.Base.Int.{ℤ, pos, ◌<ℤ◌}
use cs4455_epic.Base.Dict.{Dict, lookup}
use cs4455_epic.Base.Text.{Str, Bytes, lit, str_eq}
use cs4455_epic.Codec.Base64.{b64encode}
use cs4455_epic.Errors.{ok}
use cs4455_epic.Json.{Json, str}
use cs4455_epic.Env.Toy.{replicate}
use cs4455_epic.Crypto.Messaging.{Sealed, seal, is_replay}
use cs4455_epic.Crypto.Messaging.Roundtrip.{Carries, seal_total}
use cs4455_epic.Keystore.{last_recv_seq, pinned_peer_key, next_send_seq}
use cs4455_epic.Keystore.Files.{load, parsed}
use cs4455_epic.Keystore.Loading.{Holds}
use cs4455_epic.Services.KeyService.{Found}
use cs4455_epic.Services.MessageService.{id_of, as_text, peer_keys, accept, receive}
use cs4455_epic.Services.MessageService.Accepting.{received}
use cs4455_epic.Services.MessageService.Replay.{Advances, receive-Advances}
use cs4455_epic.Services.MessageService.Delivery.{accept_delivers}
use cs4455_epic.Services.Actions.{
  Action, receive_new, send_new, fetch_keys, perform_all, accepted_numbers,
}
use cs4455_epic.Services.Actions.Ordering.{IsIncreasing, accepted_numbers-IsIncreasing}
use cs4455_epic.Services.Actions.Keeping.{actions_keep_pin, actions_raise_number}
use cs4455_epic.Codec.Utf8.{IsScalar}
use cs4455_epic.Tests.Data.{
  env, env-IsLawful, my_keys, new_client, some_file, with_file, message_of,
}

abbrev hello : Str
hello = lit "hello"

abbrev bob : Str
bob = lit "bob"

abbrev ann : Str
ann = lit "ann"

abbrev bob_key : Bytes
bob_key = replicate 32 9

sealed_fields :
    (f : Sealed) × (seal env hello bob ann
        (pos 10)
        bob_key
        bob_key
        (env.x25519_public my_keys.x25519)
        new_client
      ≡ (ok f, record new_client { drawn = 1 }))
sealed_fields =
    seal_total env env-IsLawful hello bob ann (pos 10) bob_key bob_key my_keys.x25519 new_client
      refl refl

abbrev message : Dict Json
message = message_of sealed_fields.0

message-Carries : Carries message sealed_fields.0
unfolding lookup str_eq
message-Carries = record { ciphertext = refl; nonce = refl; signature = refl; seq_no = refl }

fresh : is_replay true (received bob some_file) (pos 10) ≡ false
unfolding is_replay lookup str_eq
fresh = refl

hello_scalars : All IsScalar hello
hello_scalars = (
  inl (omega arith),
  (inl (omega arith), (inl (omega arith), (inl (omega arith), (inl (omega arith), tt)))),
)

abbrev found : Found
found = (
  (lit "x25519", b64encode (env.x25519_public bob_key))
      ∷ (lit "ed25519", b64encode (env.ed25519_public bob_key))
      ∷ [],
  false,
)

with_file-Holds : Holds with_file some_file
unfolding load lookup str_eq parsed
with_file-Holds = refl

has_x : lookup (lit "x25519") found.0 ≡ some (b64encode (env.x25519_public bob_key))
unfolding lookup str_eq
has_x = refl

has_ed : lookup (lit "ed25519") found.0 ≡ some (b64encode (env.ed25519_public bob_key))
unfolding lookup str_eq
has_ed = refl

receive-eq_accept :
    receive env message (some found) true with_file ≡ accept env message bob found true with_file
unfolding receive id_of as_text peer_keys lookup str_eq
receive-eq_accept = refl

accepted :
    ((accept env message bob found true with_file).0 ≡ ok (hello, false))
    × ((last_recv_seq bob (accept env message bob found true with_file).1).0 ≡ ok (some (pos 10)))
accepted =
    accept_delivers env env-IsLawful hello bob (pos 10) bob_key bob_key my_keys new_client with_file
      some_file message sealed_fields.0 found with_file-Holds refl hello_scalars fresh
      (ap (λ r. r.0) sealed_fields.1) message-Carries refl has_x has_ed

accept_delivers_example :
    ((accept env message bob found true with_file).0 ≡ ok (hello, false))
    × ((last_recv_seq bob (accept env message bob found true with_file).1).0 ≡ ok (some (pos 10)))
accept_delivers_example =
    accept_delivers env env-IsLawful hello bob (pos 10) bob_key bob_key my_keys new_client with_file
      some_file message sealed_fields.0 found with_file-Holds refl hello_scalars fresh
      (ap (λ r. r.0) sealed_fields.1) message-Carries refl has_x has_ed

was_received : (receive env message (some found) true with_file).0 ≡ ok (hello, false)
was_received = rw receive-eq_accept accepted.0

receive-Advances_example :
    (sender : Str) × (id_of (lit "senderId") (lit "sender_id") message ≡ str sender)
    × Advances message sender with_file (receive env message (some found) true with_file).1
receive-Advances_example =
    receive-Advances env message (some found) with_file some_file with_file-Holds (hello, false)
      was_received

abbrev actions : List Action
actions =
    receive_new message (some found)
    ∷ send_new bob hello
    ∷ fetch_keys bob
    ∷ receive_new message (some found)
    ∷ []

accepted_numbers-IsIncreasing_example :
    IsIncreasing (received bob some_file) (accepted_numbers env bob actions with_file)
accepted_numbers-IsIncreasing_example =
    accepted_numbers-IsIncreasing env bob actions with_file some_file with_file-Holds

bob_pinned : (pinned_peer_key bob (lit "x25519") with_file).0 ≡ ok (some (lit "Ym9i"))
unfolding pinned_peer_key load lookup str_eq parsed
bob_pinned = refl

actions_keep_pin_example :
    (pinned_peer_key bob (lit "x25519") (perform_all env actions with_file)).0
    ≡ ok (some (lit "Ym9i"))
actions_keep_pin_example =
    actions_keep_pin env actions with_file bob (lit "x25519") (lit "Ym9i") bob_pinned

actions_raise_number_example :
    (n n' : ℤ) × ((next_send_seq env bob with_file).0 ≡ ok n)
    × ((next_send_seq env bob (perform_all env actions (next_send_seq env bob with_file).1)).0
        ≡ ok n')
    × (n <ℤ n')
actions_raise_number_example =
    actions_raise_number env actions with_file bob some_file with_file-Holds
