-- ===== src/Tests/ClientRuns.antt =====
-- The theorems on the services and the interface at concrete inputs.
use cs4455_epic.Base.{Bool, ◌⊎◌, ◌≡◌, ◌≢◌, ◌↔◌, refl, true, false, none, some, [], ◌∷◌, arith}
use cs4455_epic.Base.Int.{pos}
use cs4455_epic.Base.Dict.{lookup, insert}
use cs4455_epic.Base.Text.{Str, lit, str_eq, strip, lstrip}
use cs4455_epic.Errors.{Result, ok, err, client, attribute_error, ErrorClass}
use cs4455_epic.Json.{Json, Items, Fields, str, int, arr, obj, nil, cons, end, field, fields, items}
use cs4455_epic.Env.{Env, get, Response, response}
use cs4455_epic.Env.Toy.{toy}
use cs4455_epic.Config.{keystore_path_for}
use cs4455_epic.Config.Paths.{IsCanonical, keystore_paths_apart}
use cs4455_epic.Keystore.{pin_of, pinned_peer_key, last_recv_seq}
use cs4455_epic.Keystore.Files.{load, parsed}
use cs4455_epic.Keystore.Loading.{Holds}
use cs4455_epic.Api.Client.{request, handle_outcome, parse_body}
use cs4455_epic.Api.Client.Laws.{Reports, Says, IsMisshapen, request_failure}
use cs4455_epic.Services.KeyService.{is_text, reconcile}
use cs4455_epic.Services.KeyService.Judging.{IsRecorded, reconcile_accepts_iff}
use cs4455_epic.Services.KeyService.Listing.{IsCurrent, here}
use cs4455_epic.Services.MessageService.{receive, decrypt_own}
use cs4455_epic.Services.MessageService.Preview.{preview_keeps_counters}
use cs4455_epic.Crypto.Wire.{to_int}
use cs4455_epic.Ui.Conversations.Grouping.{
  Message, field_of, group_from, append_to, peer_of, seq_key,
}
use cs4455_epic.Ui.Sort.{keyed}
use cs4455_epic.Services.KeyService.Returning.{fetch_and_pin_returns_pins}
use cs4455_epic.Services.KeyService.{Found, first_key, pin_one, compare_pin, fetch_and_pin}
use cs4455_epic.Api.Client.{get_path, get_field, subscript}
use cs4455_epic.Api.Endpoints.{get_keys}
use cs4455_epic.Json.{elements}
use cs4455_epic.Tests.Data.{env, server, new_client, some_file, with_file}

abbrev bob : Str
bob = lit "bob"

abbrev ann : Str
ann = lit "ann"

abbrev x_type : Str
x_type = lit "x25519"

with_file-Holds : Holds with_file some_file
unfolding load lookup str_eq parsed
with_file-Holds = refl

-- A server that fails every request.
abbrev failure : Response
failure = record {
  ok = false;
  status_code = 503;
  content = lit "down";
  text = lit "down";
  json = none;
}

abbrev failing : Env
failing = toy (λ before req. response failure)

request_failure_example :
    ((c : ErrorClass) × (message : Json) × Reports 503 c
      × Says failure message
      × ((request failing get (lit "/messages") [] [] none new_client).0 ≡ err (client c message)))
    ⊎ (IsMisshapen failure
        × ((request failing get (lit "/messages") [] [] none new_client).0 ≡ err attribute_error))
request_failure_example =
    request_failure failing get (lit "/messages") [] [] none new_client failure refl refl

bob_pinned : (pinned_peer_key bob x_type with_file).0 ≡ ok (some (lit "Ym9i"))
unfolding pinned_peer_key load lookup str_eq parsed
bob_pinned = refl

preview_keeps_counters_example :
    ((last_recv_seq bob (receive env [] none false with_file).1).0
      ≡ (last_recv_seq bob with_file).0)
    × ((last_recv_seq bob (decrypt_own env [] none with_file).1).0
        ≡ (last_recv_seq bob with_file).0)
preview_keeps_counters_example =
    preview_keeps_counters env [] none with_file some_file with_file-Holds bob

abbrev first : Message
first =
    (lit "messageId", str (lit "m1")) ∷ (lit "senderId", str bob) ∷ (lit "seqNo", int (pos 5)) ∷ []

abbrev second : Message
second =
    (lit "messageId", str (lit "m2")) ∷ (lit "senderId", str bob) ∷ (lit "seqNo", int (pos 3)) ∷ []

first_id : field_of (lit "messageId") first ≡ str (lit "m1")
unfolding lookup str_eq
first_id = refl

first_cached : lookup (lit "m1") ((lit "m1", lit "hi") ∷ []) ≡ some (lit "hi")
unfolding lookup str_eq
first_cached = refl

abbrev sender_of : Message → Result Str
sender_of = peer_of (lit "senderId") (lit "sender_id")

grouped : group_from sender_of (first ∷ second ∷ []) [] ≡ ok ((bob, first ∷ second ∷ []) ∷ [])
unfolding group_from append_to peer_of lookup str_eq insert
grouped = refl

numbered : keyed seq_key (first ∷ second ∷ []) ≡ ok ((pos 5, first) ∷ (pos 3, second) ∷ [])
unfolding keyed seq_key lookup str_eq to_int
numbered = refl

ann-IsCanonical : IsCanonical env ann
unfolding strip lstrip
ann-IsCanonical = record {
  lowered = refl;
  safe = (refl, (refl, (refl, tt)));
  nonempty = λ h. ground arith;
}

bob-IsCanonical : IsCanonical env bob
unfolding strip lstrip
bob-IsCanonical = record {
  lowered = refl;
  safe = (refl, (refl, (refl, tt)));
  nonempty = λ h. ground arith;
}

ann-ne-bob : ann ≢ bob
ann-ne-bob h = ground arith

keystore_paths_apart_example :
    keystore_path_for env (lit "/home") (lit "keystore.json") ann
    ≢ keystore_path_for env (lit "/home") (lit "keystore.json") bob
keystore_paths_apart_example =
    keystore_paths_apart env (lit "/home") (lit "keystore.json") ann bob ann-IsCanonical
      bob-IsCanonical ann-ne-bob

abbrev server_rows : Items
server_rows =
    cons (obj (field (lit "keyType") (str x_type) (field (lit "publicKey") (str (lit "QQ==")) end)))
      nil

abbrev server_body : Fields
server_body = field (lit "data") (arr server_rows) end

bob_pin : pin_of bob x_type some_file ≡ some (lit "Ym9i")
unfolding lookup str_eq
bob_pin = refl

server_answered : (get_keys server bob with_file).0 ≡ ok (some (obj server_body))
unfolding get_keys get_path request handle_outcome parse_body
server_answered = refl

server_listed : lookup (lit "data") (fields server_body) ≡ some (arr server_rows)
unfolding lookup str_eq
server_listed = refl

server_names : IsCurrent x_type (items server_rows) (str (lit "QQ=="))
unfolding lookup str_eq
server_names = here _ _ _ refl refl

reconcile_accepts_iff_example :
    (b : Bool) × ((reconcile server bob x_type with_file).0 ≡ ok b)
    × ((b ≡ true) ↔ (
        (str (lit "QQ==") ≡ str (lit "Ym9i"))
        ⊎ IsRecorded server bob x_type (lit "Ym9i") (get_keys server bob with_file).1))
reconcile_accepts_iff_example =
    reconcile_accepts_iff server bob x_type (lit "Ym9i") (str (lit "QQ==")) with_file some_file
      server_body server_rows with_file-Holds bob_pin server_answered server_listed server_names

abbrev fetched : Found
fetched = ((x_type, lit "Ym9i") ∷ [], true)

fetched_ok : (fetch_and_pin server bob with_file).0 ≡ ok fetched
unfolding fetch_and_pin get_keys get_path request handle_outcome parse_body get_field elements
    first_key is_text subscript pin_one compare_pin pinned_peer_key load lookup insert str_eq parsed
fetched_ok = refl

fetched_key : lookup x_type fetched.0 ≡ some (lit "Ym9i")
unfolding lookup str_eq
fetched_key = refl

held_file : Holds with_file some_file
unfolding load lookup str_eq parsed
held_file = refl

fetch_and_pin_returns_pins_example :
    (pinned_peer_key bob x_type (fetch_and_pin server bob with_file).1).0 ≡ ok (some (lit "Ym9i"))
fetch_and_pin_returns_pins_example =
    fetch_and_pin_returns_pins server bob with_file some_file held_file fetched fetched_ok x_type
      (lit "Ym9i") fetched_key
