-- ===== src/Services/KeyService/Returning.antt =====
-- `fetch_and_pin` of client/src/services/key_service.py: which keys it returns.
use mathlib.Core.Path.{subst}
use cs4455_epic.Base.{◌≡◌, refl, ap, sym, ◌∙◌, arith, inl, inr, false, Option, some, none, []}
use cs4455_epic.Base.Dict.{Dict, lookup, insert, lookup-insert}
use cs4455_epic.Base.Text.{Str, lit, str_eq_iff, str_eq_refl}
use cs4455_epic.Errors.{Result, Result-cases, ok}
use cs4455_epic.Json.{Json, null, bool, int, str, arr, obj, nil}
use cs4455_epic.Env.{Env}
use cs4455_epic.Py.{FileData, State}
use cs4455_epic.Keystore.{pin_of, pinned_peer_key}
use cs4455_epic.Keystore.Loading.{Holds}
use cs4455_epic.Keystore.Pins.{with_pin, pin_of-with_pin, Holds-pin_peer_key}
use cs4455_epic.Api.Client.{data_or, each}
use cs4455_epic.Api.Endpoints.{get_keys}
use cs4455_epic.Services.KeyService.{Found, first_key, compare_pin, pin_one, fetch_and_pin}
use cs4455_epic.Services.KeyService.Pinning.{
  pin_one-eq, pin_then_state, Holds-get_keys, pinned_peer_key-eq,
}

-- Every key of `keys` is the pin of `u`.
ArePins : Str → Dict Str → FileData → Type 0
ArePins u keys d = (kt p : Str) → lookup kt keys ≡ some p → pin_of u kt d ≡ some p

-- The keys that came out are pinned in the file that is there then.
abbrev Pinned : Str → Result Found × State → Type 0
Pinned u r = (out : Found) → r.0 ≡ ok out → (d' : FileData) × Holds r.1 d' × ArePins u out.0 d'

ArePins-insert :
    (u kt p : Str) (keys : Dict Str) (d : FileData)
    → ArePins u keys d
    → ArePins u (insert kt p keys) (with_pin u kt p d)
unfolding ArePins
ArePins-insert u kt p keys d old k q h =
    ground (arith, lookup-insert kt k p keys, pin_of-with_pin u kt p u k d, str_eq_refl u, old k q)

ArePins-again :
    (u kt p : Str) (keys : Dict Str) (d : FileData)
    → pin_of u kt d ≡ some p
    → ArePins u keys d
    → ArePins u (insert kt p keys) d
unfolding ArePins
ArePins-again u kt p keys d here old k q h =
    ground (arith, lookup-insert kt k p keys, str_eq_iff kt k, old k q)

module _ (E : Env) (u kt : Str) (s : State) (d : FileData) (holds : Holds s d) where
  compare_pin-Pinned :
      (p : Str) (f : Found) (pin : Option Str)
      → pin_of u kt d ≡ pin
      → ArePins u f.0 d
      → Pinned u (compare_pin E u kt p f pin s)
  unfolding compare_pin
  compare_pin-Pinned p (keys, changed) none free old out h =
      let same : insert kt p keys ≡ out.0 = ground arith in
      (
        with_pin u kt p d,
        rw (pin_then_state E u kt s d holds) (Holds-pin_peer_key E u kt p s d holds),
        subst (λ l. ArePins u l (with_pin u kt p d)) same (ArePins-insert u kt p keys d old),
      )
  compare_pin-Pinned p (keys, changed) (some q) here old out h =
      let same : insert kt q keys ≡ out.0 = ground arith in
      (d, holds, subst (λ l. ArePins u l d) same (ArePins-again u kt q keys d here old))

  pin_one-Pinned : (j : Json) (f : Found) → ArePins u f.0 d → Pinned u (pin_one E u kt j f s)
  unfolding pin_one
  pin_one-Pinned (str p) f old out h =
      let same = pin_one-eq E u kt s d holds p f in
      subst (Pinned u) (sym same) (compare_pin-Pinned p f (pin_of u kt d) refl old) out h
  pin_one-Pinned null f old out h =
      let same : f ≡ out = ground arith in (d, holds, subst (λ g. ArePins u g.0 d) same old)
  pin_one-Pinned (bool b) f old out h = absurd (ground arith)
  pin_one-Pinned (int i) f old out h = absurd (ground arith)
  pin_one-Pinned (arr xs) f old out h = absurd (ground arith)
  pin_one-Pinned (obj fs) f old out h = absurd (ground arith)

ArePins-nil : (u : Str) (d : FileData) → ArePins u [] d
unfolding ArePins lookup
ArePins-nil u d kt p h = absurd (ground arith)

module _ (E : Env) (u : Str) (s : State) (d : FileData) (holds : Holds s d) (out : Found)
    (h : (fetch_and_pin E u s).0 ≡ ok out) where
  abbrev Ends : Type 0
  Ends = (d' : FileData) × Holds (fetch_and_pin E u s).1 d' × ArePins u out.0 d'

  abbrev asked : State
  asked = (get_keys E u s).1

  from_x :
      (x ed : Json) (found : Found)
      → (pin_one E u (lit "x25519") x ([], false) asked).0 ≡ ok found
      → fetch_and_pin E u s
        ≡ pin_one E u (lit "ed25519") ed found (pin_one E u (lit "x25519") x ([], false) asked).1
      → Ends
  from_x x ed found first rest =
      let t = (pin_one E u (lit "x25519") x ([], false) asked).1 in
      let (d1, h1, p1) =
        pin_one-Pinned E u (lit "x25519") asked d (Holds-get_keys E u s d holds) x ([], false)
          (ArePins-nil u d) found first in
      let (d2, h2, p2) =
        pin_one-Pinned E u (lit "ed25519") t d1 h1 ed found p1 out (ap (λ q. q.0) (sym rest) ∙ h) in
      (d2, subst (λ q. Holds q.1 d2) (sym rest) h2, p2)

  fetch_and_pin-ArePins : Ends
  unfolding fetch_and_pin
  fetch_and_pin-ArePins = elim (Result-cases (get_keys E u s).0) [
    | inr (e, a) ↦ absurd (ground arith)
    | inl (resp, a) ↦ elim (Result-cases (data_or (arr nil) resp)) [
      | inr (e, b) ↦ absurd (ground arith)
      | inl (data', b) ↦ elim (Result-cases (each data')) [
        | inr (e, c) ↦ absurd (ground arith)
        | inl (rows, c) ↦ elim (Result-cases (first_key (lit "x25519") rows)) [
          | inr (e, k) ↦ absurd (ground arith)
          | inl (x, k) ↦ elim (Result-cases (pin_one E u (lit "x25519") x ([], false) asked).0) [
            | inr (e, l) ↦ absurd (ground arith)
            | inl (found, l) ↦ elim (Result-cases (first_key (lit "ed25519") rows)) [
              | inr (e, n) ↦ absurd (ground arith)
              | inl (ed, n) ↦ from_x x ed found l (ground arith)
            ]
          ]
        ]
      ]
    ]
  ]

  -- Where the keystore's file can be loaded and the fetch succeeds: every key that is returned for a
  -- key type is the one that is pinned for the user and this type afterwards, whatever the server
  -- answered.
  pub fetch_and_pin_returns_pins :
      (kt p : Str)
      → lookup kt out.0 ≡ some p
      → (pinned_peer_key u kt (fetch_and_pin E u s).1).0 ≡ ok (some p)
  unfolding ArePins
  fetch_and_pin_returns_pins kt p here =
      let (d', held, pins) = fetch_and_pin-ArePins in
      ap (λ q. q.0) (pinned_peer_key-eq E u kt (fetch_and_pin E u s).1 d' held)
      ∙ ap ok (pins kt p here)
