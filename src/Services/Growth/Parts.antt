-- ===== src/Services/Growth/Parts.antt =====
-- The parts that the services are built from lose no pin and touch no counter of received messages:
-- requests, draws, reads of the keystore, and the next number to send.
use cs4455_epic.Base.{◌≡◌, refl, Bool, Option, arith}
use cs4455_epic.Base.Int.{ℤ, lt-suc_ℤ}
use cs4455_epic.Base.Dict.{Dict}
use cs4455_epic.Base.Text.{Str, Bytes}
use cs4455_epic.Errors.{Exc, Result, ok, err}
use cs4455_epic.Json.{Json}
use cs4455_epic.Env.{Env, Method}
use cs4455_epic.Py.{State, Py, FileData, gets, raise_if, catch}
use cs4455_epic.Crypto.Aead
use cs4455_epic.Crypto.Signing
use cs4455_epic.Crypto.Messaging.{seal, open_message}
use cs4455_epic.Crypto.Messaging.Checks.{open_message_state}
use cs4455_epic.Keystore.{private_keys, public_keys, last_recv_seq, next_send_seq, pinned_peer_key}
use cs4455_epic.Keystore.Files.{load}
use cs4455_epic.Keystore.Loading.{Holds, load_state}
use cs4455_epic.Keystore.Counters.{sent_count, with_sent, next_send_seq-ok, sent_count-with_sent}
use cs4455_epic.Api.Client.{request, get_path, post_path, put_path, delete_path}
use cs4455_epic.Services.Growth.{Grown, Grows, Grows-frame, Extends-refl, Extends-trans}

-- A state with the same files and the same keystore object.
abbrev pub IsSame : State → State → Type 0
IsSame s t = (t.files ≡ s.files) × (t.keystore ≡ s.keystore)

pub Holds-same : (s t : State) (d : FileData) → IsSame s t → Holds s d → Holds t d
unfolding load
Holds-same s t d same h = ground arith

Grows-same : {A : Type 0} (m : Py A) → ((s : State) → IsSame s (m s).1) → Grows m
Grows-same m h = record {
  at = λ s d holds. (d, Holds-same s (m s).1 d (h s) holds, Extends-refl d);
}

pub Grows-gets : {A : Type 0} (f : State → A) → Grows (gets f)
Grows-gets f = Grows-frame (gets f) (λ s. refl)

pub Grows-raise_if : (c : Bool) (e : Exc) → Grows (raise_if c e)
Grows-raise_if c e = Grows-frame (raise_if c e) (λ s. refl)

pub Grows-private_keys : Grows private_keys
unfolding private_keys
Grows-private_keys = Grows-frame private_keys (λ s. ground arith)

pub Grows-public_keys : Grows public_keys
unfolding public_keys
Grows-public_keys = Grows-frame public_keys (λ s. ground (arith, load_state s))

pub Grows-last_recv_seq : (u : Str) → Grows (last_recv_seq u)
unfolding last_recv_seq
Grows-last_recv_seq u = Grows-frame (last_recv_seq u) (λ s. ground (arith, load_state s))

pub Grows-pinned_peer_key : (u kt : Str) → Grows (pinned_peer_key u kt)
unfolding pinned_peer_key
Grows-pinned_peer_key u kt = Grows-frame (pinned_peer_key u kt) (λ s. ground (arith, load_state s))

module _ {A : Type 0} (m : Py A) (handler : Exc → Py A) where
  caught :
      (r : Result A) (s : State) (d : FileData)
      → ((e : Exc) → Grows (handler e))
      → Holds s d
      → Grown d (catch (λ _. (r, s)) handler s).1
  caught (ok a) s d g h = (d, h, Extends-refl d)
  caught (err e) s d g h = (g e).at s d h

  pub Grows-catch : Grows m → ((e : Exc) → Grows (handler e)) → Grows (catch m handler)
  Grows-catch gm gh = record {
    at = λ s d h.
        let (d1, h1, x1) = gm.at s d h in
        let (d2, h2, x2) = caught (m s).0 (m s).1 d1 gh h1 in (d2, h2, Extends-trans x1 x2);
  }

module _ (E : Env) where
  pub Grows-request :
      (method : Method) (path : Str) (headers params : Dict Str) (json : Option Json)
      → Grows (request E method path headers params json)
  unfolding request
  Grows-request method path headers params json =
      Grows-same (request E method path headers params json) (λ s. (refl, refl))

  pub Grows-get_path : (path : Str) (params : Dict Str) → Grows (get_path E path params)
  unfolding get_path
  Grows-get_path path params = search (Grows-request)

  pub Grows-post_path : (path : Str) (json : Json) → Grows (post_path E path json)
  unfolding post_path
  Grows-post_path path json = search (Grows-request)

  pub Grows-put_path : (path : Str) (json : Json) → Grows (put_path E path json)
  unfolding put_path
  Grows-put_path path json = search (Grows-request)

  pub Grows-delete_path : (path : Str) → Grows (delete_path E path)
  unfolding delete_path
  Grows-delete_path path = search (Grows-request)

  pub Grows-open_message :
      (m : Dict Json) (sender_id recipient_id : Str) (my_x_priv peer_x_pub peer_ed_pub : Bytes)
      (last_seq : Option ℤ) (enforce : Bool)
      → Grows (
          open_message E m sender_id recipient_id my_x_priv peer_x_pub peer_ed_pub last_seq enforce)
  Grows-open_message m u r x px ped last enforce =
      Grows-frame (open_message E m u r x px ped last enforce)
        (open_message_state E m u r x px ped last enforce)

  pub Grows-seal :
      (text sender_id recipient_id : Str) (n : ℤ) (x ed px : Bytes)
      → Grows (seal E text sender_id recipient_id n x ed px)
  unfolding seal Aead.encrypt Signing.sign
  Grows-seal text u r n x ed px = Grows-same (seal E text u r n x ed px) (λ s. ground arith)

  pub Grows-next_send_seq : (r : Str) → Grows (next_send_seq E r)
  Grows-next_send_seq r = record {
    at = λ s d h. (
      with_sent r d,
      (next_send_seq-ok E r s d h).1,
      record {
        pins = λ v kt p old. old;
        sends = λ x. ground (arith, sent_count-with_sent r x d, lt-suc_ℤ (sent_count x d));
        receives = refl;
      },
    );
  }

pub ruleset part_rules = (
  Grows-gets, Grows-raise_if, Grows-private_keys, Grows-public_keys, Grows-last_recv_seq,
  Grows-pinned_peer_key, Grows-catch, Grows-get_path, Grows-post_path, Grows-put_path,
  Grows-delete_path, Grows-open_message, Grows-seal, Grows-next_send_seq,
)
