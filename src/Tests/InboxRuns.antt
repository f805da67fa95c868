-- ===== src/Tests/InboxRuns.antt =====
-- The loop over the inbox at a concrete inbox: two messages from bob, in the wrong order.
use cs4455_epic.Base.{Bool, ◌≡◌, refl, inl, true, All, some, [], ◌∷◌, arith}
use cs4455_epic.Base.Int.{ℤ, pos}
use cs4455_epic.Base.Dict.{lookup, insert}
use cs4455_epic.Base.Text.{Str, Bytes, lit, str_eq}
use cs4455_epic.Codec.Base64.{b64encode}
use cs4455_epic.Codec.Utf8.{encode}
use cs4455_epic.Errors.{ok, err}
use cs4455_epic.Json.{Json, str, arr, nil, cons, obj, end, field, elements}
use cs4455_epic.Env.{Env, IsLawful, response}
use cs4455_epic.Env.Toy.{toy, toy-IsLawful, replicate}
use cs4455_epic.Py.{FileData, json, State}
use cs4455_epic.Crypto.Kdf.{derive_message_key}
use cs4455_epic.Crypto.Aead as Aead
use cs4455_epic.Crypto.Signing as Signing
use cs4455_epic.Crypto.Wire.{to_int}
use cs4455_epic.Crypto.Messaging.{Sealed, message_key, seal, is_replay}
use cs4455_epic.Keystore.Files.{load, parsed}
use cs4455_epic.Api.Client.{handle_outcome, parse_body, subscript, get_field, get_path, request}
use cs4455_epic.Api.Endpoints.{get_keys}
use cs4455_epic.Services.KeyService.{first_key, is_text}
use cs4455_epic.Services.KeyService.Fetching.{Names, known}
use cs4455_epic.Services.MessageService.Accepting.{received}
use cs4455_epic.Ui.Sort.{keyed, insert_by, sort_by_key, sort_by}
use cs4455_epic.Ui.Conversations.{decrypt_inbox}
use cs4455_epic.Ui.Conversations.Grouping.{peer_of, seq_key, sort_messages}
use cs4455_epic.Ui.Conversations.Letters.{Letter, as_shown, IsSealed, ArePending, IsReady}
use cs4455_epic.Ui.Conversations.Delivering.{decrypt_inbox_delivers}
use cs4455_epic.Tests.Data.{env, my_keys, new_client, some_file, with_file, message_of}

abbrev bob : Str
bob = lit "bob"

abbrev ann : Str
ann = lit "ann"

abbrev bob_key : Bytes
bob_key = replicate 32 9

abbrev x_text : Str
x_text = b64encode (env.x25519_public bob_key)

abbrev ed_text : Str
ed_text = b64encode (env.ed25519_public bob_key)

abbrev row : Str → Str → Json
row kt key = obj (field (lit "keyType") (str kt) (field (lit "publicKey") (str key) end))

abbrev answer : Json
answer = obj (
    field (lit "data")
      (arr (cons (row (lit "x25519") (lit "QQ==")) (cons (row (lit "ed25519") ed_text) nil))) end)

-- A server that names another key of bob for the exchange than the one that is pinned.
abbrev mail_server : Env
mail_server = toy λ before req.
    response
      (record { ok = true; status_code = 200; content = 123 ∷ []; text = []; json = some answer })

mail_server-IsLawful : IsLawful mail_server
mail_server-IsLawful = toy-IsLawful _

abbrev file : FileData
file = record some_file {
  peers = some ((bob, (lit "x25519", x_text) ∷ (lit "ed25519", ed_text) ∷ []) ∷ []);
}

abbrev client : State
client = record with_file { files = (lit "keys", json file) ∷ [] }

names : Names (lit "QQ==") ed_text (some answer)
unfolding subscript first_key is_text elements get_field str_eq lookup
names = record {
  data_field = _;
  is_data = refl;
  rows = _;
  are_rows = refl;
  has_x = refl;
  has_ed = refl;
}

answers : (t : State) → (get_keys mail_server bob t).0 ≡ ok (some answer)
unfolding get_keys get_path request handle_outcome parse_body
answers t = refl

client-IsReady : IsReady mail_server bob ann bob_key bob_key my_keys client file
unfolding load lookup str_eq parsed
client-IsReady = record {
  holds = refl;
  unlocked = refl;
  is_owner = refl;
  pinned_x = refl;
  pinned_ed = refl;
}

abbrev sealed : Str → ℤ → Sealed
sealed text n =
    elim (seal mail_server text bob ann n bob_key bob_key (mail_server.x25519_public my_keys.x25519)
      new_client).0 [
        | ok f ↦ f
        | err e ↦ record { ciphertext = []; nonce = []; signature = []; seq_no = n; digest = [] }
      ]

abbrev letter_of : Str → Str → ℤ → Letter
letter_of id text n = record {
  message = (lit "messageId", str id) ∷ message_of (sealed text n);
  id = id;
  text = text;
  number = n;
}

abbrev first : Letter
first = letter_of (lit "m1") (lit "hi") (pos 10)

abbrev second : Letter
second = letter_of (lit "m2") (lit "ok") (pos 12)

first-IsSealed : IsSealed mail_server bob ann bob_key bob_key my_keys first
unfolding seal message_key Aead.encrypt Signing.sign derive_message_key lookup str_eq peer_of encode
    b64encode
first-IsSealed = record {
  named = refl;
  from = refl;
  full = refl;
  scalars = (inl (omega arith), (inl (omega arith), tt));
  state = new_client;
  fields = sealed first.text first.number;
  sealed = refl;
  carries = record { ciphertext = refl; nonce = refl; signature = refl; seq_no = refl };
}

second-IsSealed : IsSealed mail_server bob ann bob_key bob_key my_keys second
unfolding seal message_key Aead.encrypt Signing.sign derive_message_key lookup str_eq peer_of encode
    b64encode
second-IsSealed = record {
  named = refl;
  from = refl;
  full = refl;
  scalars = (inl (omega arith), (inl (omega arith), tt));
  state = new_client;
  fields = sealed second.text second.number;
  sealed = refl;
  carries = record { ciphertext = refl; nonce = refl; signature = refl; seq_no = refl };
}

bob_sent_both :
    All
      (λ m. peer_of (lit "senderId") (lit "sender_id") m ≡ ok bob)
      (second.message ∷ first.message ∷ [])
unfolding peer_of lookup str_eq
bob_sent_both = (refl, (refl, tt))

sorted :
    sort_messages (second.message ∷ first.message ∷ []) ≡ ok (first.message ∷ second.message ∷ [])
unfolding sort_messages seq_key sort_by keyed sort_by_key insert_by to_int lookup str_eq seal
    message_key Aead.encrypt Signing.sign derive_message_key
sorted = refl

pending :
    ArePending mail_server bob ann bob_key bob_key my_keys
      (received bob file)
      []
      (first ∷ second ∷ [])
unfolding is_replay lookup insert str_eq
pending = (first-IsSealed, refl, refl, (second-IsSealed, refl, refl, tt))

-- The server names another key.
abbrev key_changed : Bool
key_changed = (known x_text ed_text (lit "QQ==") ed_text).1

decrypt_inbox_delivers_example :
    (decrypt_inbox mail_server true (second.message ∷ first.message ∷ []) [] client).0
    ≡ ok (
      (bob, as_shown key_changed first ∷ as_shown key_changed second ∷ []) ∷ [],
      insert (lit "m2") (lit "ok") (insert (lit "m1") (lit "hi") []),
    )
decrypt_inbox_delivers_example =
    decrypt_inbox_delivers mail_server bob ann bob_key bob_key my_keys mail_server-IsLawful refl
      (lit "QQ==") ed_text (some answer) names answers (first ∷ second ∷ []) second.message
      (first.message ∷ []) [] client file client-IsReady bob_sent_both sorted pending
