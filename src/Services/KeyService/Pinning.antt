-- ===== src/Services/KeyService/Pinning.antt =====
-- `fetch_and_pin` of client/src/services/key_service.py: trust on first use.
use cs4455_epic.Base.{◌≡◌, ◌≢◌, refl, ap, ◌∙◌, Option, some, none, arith, inl, inr}
use cs4455_epic.Base.Text.{Str, str_eq_iff}
use cs4455_epic.Errors.{Exc, Result-cases, ok, err}
use cs4455_epic.Json.{Json, null, bool, int, str, arr, obj}
use cs4455_epic.Env.{Env}
use cs4455_epic.Py.{FileData, State, pure, ◌>>◌}
use cs4455_epic.Keystore.{pin_of, pin_peer_key, pinned_peer_key}
use cs4455_epic.Keystore.Files.{load}
use cs4455_epic.Keystore.Loading.{Holds, Holds-of_ok}
use cs4455_epic.Keystore.Pins.{with_pin, pin_of-with_pin, Holds-pin_peer_key}
use cs4455_epic.Api.Client.{request, get_path}
use cs4455_epic.Api.Endpoints.{get_keys}
use cs4455_epic.Services.Growth.{Extends, Extends-refl, Grown, Grows, grows_rules}
use cs4455_epic.Services.KeyService.{Found, compare_pin, pin_one, fetch_and_pin}

Extends-with_pin :
    (u kt p : Str) (d : FileData) → pin_of u kt d ≡ none → Extends d (with_pin u kt p d)
Extends-with_pin u kt p d free = record {
  pins = λ v k q h. ground (arith, pin_of-with_pin u kt p v k d, str_eq_iff u v, str_eq_iff kt k);
  sends = λ r. omega arith;
  receives = refl;
}

module _ (E : Env) (u kt : Str) (s : State) (d : FileData) (holds : Holds s d) where
  pub pin_then_state :
      (p : Str) (f : Found) → ((pin_peer_key E u kt p >> pure f) s).1 ≡ (pin_peer_key E u kt p s).1
  pin_then_state p f = ground arith

  pub pinned_peer_key-eq : pinned_peer_key u kt s ≡ (ok (pin_of u kt d), s)
  unfolding pinned_peer_key
  pinned_peer_key-eq = ground arith

  pub pin_one-eq :
      (p : Str) (f : Found) → pin_one E u kt (str p) f s ≡ compare_pin E u kt p f (pin_of u kt d) s
  unfolding pin_one
  pin_one-eq p f = ground (arith, pinned_peer_key-eq)

  compare_pin-Grown :
      (p : Str) (f : Found) (pin : Option Str)
      → pin_of u kt d ≡ pin
      → Grown d (compare_pin E u kt p f pin s).1
  unfolding compare_pin
  compare_pin-Grown p (result, changed) none free = (
    with_pin u kt p d,
    rw pin_then_state (Holds-pin_peer_key E u kt p s d holds),
    Extends-with_pin u kt p d free,
  )
  compare_pin-Grown p (result, changed) (some q) old = (d, holds, Extends-refl d)

  pin_one-Grown : (j : Json) (f : Found) → Grown d (pin_one E u kt j f s).1
  unfolding pin_one
  pin_one-Grown (str p) f = rw (pin_one-eq p f) (compare_pin-Grown p f (pin_of u kt d) refl)
  pin_one-Grown null f = (d, holds, Extends-refl d)
  pin_one-Grown (bool b) f = (d, holds, Extends-refl d)
  pin_one-Grown (int i) f = (d, holds, Extends-refl d)
  pin_one-Grown (arr xs) f = (d, holds, Extends-refl d)
  pin_one-Grown (obj fs) f = (d, holds, Extends-refl d)

pin_one-Grows : (E : Env) (u kt : Str) (j : Json) (f : Found) → Grows (pin_one E u kt j f)
pin_one-Grows E u kt j f = record { at = λ s d h. pin_one-Grown E u kt s d h j f }

pub Holds-get_keys :
    (E : Env) (u : Str) (s : State) (d : FileData) → Holds s d → Holds (get_keys E u s).1 d
unfolding get_keys get_path request load
Holds-get_keys E u s d h = ground arith

get_keys-Grows : (E : Env) (u : Str) → Grows (get_keys E u)
get_keys-Grows E u = record { at = λ s d h. (d, Holds-get_keys E u s d h, Extends-refl d) }

-- Whatever the server answers, fetching a peer's keys loses no pin and touches no counter.
pub fetch_and_pin-Grows : (E : Env) (u : Str) → Grows (fetch_and_pin E u)
unfolding fetch_and_pin
fetch_and_pin-Grows E u = search (grows_rules, get_keys-Grows, pin_one-Grows) depth 12

module _ (E : Env) (u v kt p : Str) (s : State) where
  pub unreadable : {e : Exc} → (load s).0 ≡ err e → (pinned_peer_key v kt s).0 ≢ ok (some p)
  unfolding pinned_peer_key
  unreadable h = ground arith

  pub pin_of_ok :
      (d : FileData) → Holds s d → (pinned_peer_key v kt s).0 ≡ ok (some p) → pin_of v kt d ≡ some p
  pin_of_ok d holds old = cc (pinned_peer_key-eq E v kt s d holds, old)

  -- A key that is pinned stays pinned, as it is, whatever the server answers to a fetch of any
  -- user's keys, and whether or not the fetch succeeds.
  pub fetch_and_pin_keeps_pin :
      (pinned_peer_key v kt s).0 ≡ ok (some p)
      → (pinned_peer_key v kt (fetch_and_pin E u s).1).0 ≡ ok (some p)
  fetch_and_pin_keeps_pin old = elim (Result-cases (load s).0) [
    | inr (e, h) ↦ absurd (unreadable h old)
    | inl (d, h) ↦
        let holds = Holds-of_ok s d h in
        let (d', held, x) = (fetch_and_pin-Grows E u).at s d holds in
        ap (λ r. r.0) (pinned_peer_key-eq E v kt (fetch_and_pin E u s).1 d' held)
        ∙ ap ok (x.pins v kt p (pin_of_ok d holds old))
  ]
