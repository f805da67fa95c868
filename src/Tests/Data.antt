-- ===== src/Tests/Data.antt =====
-- Test data: an environment without a server, and states of a client.
use cs4455_epic.Base.{true, none, some, [], ◌∷◌}
use cs4455_epic.Base.Int.{pos}
use cs4455_epic.Base.Dict.{Dict}
use cs4455_epic.Base.Text.{lit}
use cs4455_epic.Json.{Json, int, str, arr, nil, cons, obj, end, field}
use cs4455_epic.Env.{Env, IsLawful, refused, response}
use cs4455_epic.Env.Toy.{toy, toy-IsLawful, replicate}
use cs4455_epic.Py.{FileData, json, PrivateKeys, State}
use cs4455_epic.Crypto.Messaging.{Sealed}
use cs4455_epic.Keystore.Files.{blank}

abbrev pub env : Env
env = toy (λ before req. refused (lit "no route to host"))

pub env-IsLawful : IsLawful env
env-IsLawful = toy-IsLawful (λ before req. refused (lit "no route to host"))

abbrev pub my_keys : PrivateKeys
my_keys = record { x25519 = replicate 32 6; ed25519 = replicate 32 7 }

-- A client without files.
abbrev pub new_client : State
new_client = record {
  files = [];
  drawn = 0;
  requests = [];
  keystore = record { path = lit "keys"; kek = none; keys = none };
  session = record { token = none; user_id = none; username = none };
}

-- A keystore file with a pin and with counters.
abbrev pub some_file : FileData
some_file = record blank {
  version = some 1;
  peers = some ((lit "bob", (lit "x25519", lit "Ym9i") ∷ []) ∷ []);
  seq_send = some ((lit "bob", pos 4) ∷ []);
  seq_recv = some ((lit "bob", pos 9) ∷ []);
}

abbrev pub with_file : State
with_file = record new_client {
  files = (lit "keys", json some_file) ∷ [];
  session = record { token = some (lit "t"); user_id = some (lit "ann"); username = none };
  keystore = record { path = lit "keys"; kek = some (replicate 32 8); keys = some my_keys };
}

-- The dict that the server returns for sealed fields.
abbrev pub message_of : Sealed → Dict Json
message_of f =
    (lit "senderId", str (lit "bob"))
    ∷ (lit "ciphertext", str f.ciphertext)
    ∷ (lit "nonce", str f.nonce)
    ∷ (lit "signature", str f.signature)
    ∷ (lit "seqNo", int f.seq_no)
    ∷ []

-- A server that has one key of bob.
abbrev pub server : Env
server = toy λ before req. response (record {
  ok = true;
  status_code = 200;
  content = 123 ∷ [];
  text = [];
  json = some (
      obj (
        field (lit "data")
          (arr (
            cons
              (obj (
                field (lit "keyType") (str (lit "x25519"))
                  (field (lit "publicKey") (str (lit "QQ==")) end)))
              nil))
          end));
})
