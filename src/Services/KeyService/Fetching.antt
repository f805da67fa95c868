-- ===== src/Services/KeyService/Fetching.antt =====
-- `fetch_and_pin` of client/src/services/key_service.py for a user whose keys are pinned.
use cs4455_epic.Base.{◌≡◌, arith, true, false, Option, some, List, [], if◌then◌else◌}
use cs4455_epic.Base.Dict.{insert, lookup, lookup-insert, lookup-insert_self}
use cs4455_epic.Base.Text.{Str, lit, str_eq}
use cs4455_epic.Errors.{ok}
use cs4455_epic.Json.{Json, str, arr, nil}
use cs4455_epic.Env.{Env}
use cs4455_epic.Py.{FileData, State}
use cs4455_epic.Keystore.{pin_of}
use cs4455_epic.Keystore.Loading.{Holds}
use cs4455_epic.Api.Client.{request, get_path, data_or, each}
use cs4455_epic.Api.Endpoints.{get_keys}
use cs4455_epic.Services.KeyService.{Found, first_key, compare_pin, pin_one, fetch_and_pin}
use cs4455_epic.Services.KeyService.Pinning.{pin_one-eq, Holds-get_keys}

-- The server's answer names these public keys.
pub record Names (x ed : Str) (resp : Option Json) : Type 0 where
  pub data_field : Json
  pub is_data : data_or (arr nil) resp ≡ ok data_field
  pub rows : List Json
  pub are_rows : each data_field ≡ ok rows
  pub has_x : first_key (lit "x25519") rows ≡ ok (str x)
  pub has_ed : first_key (lit "ed25519") rows ≡ ok (str ed)

-- The pinned keys, and whether the server names others.
abbrev pub known : (x ed x_now ed_now : Str) → Found
known x ed x_now ed_now = (
  insert (lit "ed25519") ed (insert (lit "x25519") x []),
  (if str_eq ed ed_now then (if str_eq x x_now then false else true) else true),
)

pub known-x : (x ed x_now ed_now : Str) → lookup (lit "x25519") (known x ed x_now ed_now).0 ≡ some x
unfolding str_eq
known-x x ed x_now ed_now = ground (
  arith,
  lookup-insert (lit "ed25519") (lit "x25519") ed (insert (lit "x25519") x []),
  lookup-insert_self (lit "x25519") x [],
)

pub known-ed :
    (x ed x_now ed_now : Str) → lookup (lit "ed25519") (known x ed x_now ed_now).0 ≡ some ed
known-ed x ed x_now ed_now = lookup-insert_self (lit "ed25519") ed (insert (lit "x25519") x [])

-- The request for the keys, and nothing else, is new.
pub get_keys_frame :
    (E : Env) (u : Str) (s : State)
    → ((get_keys E u s).1.keystore ≡ s.keystore) × ((get_keys E u s).1.session ≡ s.session)
unfolding get_keys get_path request
get_keys_frame E u s = (ground arith, ground arith)

module _ (E : Env) (u x ed x_now ed_now : Str) (s : State) (d : FileData) (holds : Holds s d)
    (pinned_x : pin_of u (lit "x25519") d ≡ some x)
    (pinned_ed : pin_of u (lit "ed25519") d ≡ some ed) where
  pin_known :
      (kt now pin : Str) (t : State) (f : Found)
      → Holds t d
      → pin_of u kt d ≡ some pin
      → pin_one E u kt (str now) f t
        ≡ (ok (insert kt pin f.0, (if str_eq pin now then f.1 else true)), t)
  unfolding compare_pin
  pin_known kt now pin t (keys, changed) there pinned =
      ground (arith, pin_one-eq E u kt t d there now (keys, changed))

  -- Where both keys are pinned, the pinned keys are returned, and no pin is set.
  pub fetch_and_pin-known :
      (resp : Option Json)
      → (get_keys E u s).0 ≡ ok resp
      → Names x_now ed_now resp
      → fetch_and_pin E u s ≡ (ok (known x ed x_now ed_now), (get_keys E u s).1)
  unfolding fetch_and_pin
  fetch_and_pin-known resp answer names =
      let t = (get_keys E u s).1 in
      let there = Holds-get_keys E u s d holds in
      ground (
        arith,
        names.is_data,
        names.are_rows,
        names.has_x,
        names.has_ed,
        pin_known (lit "x25519") x_now x t ([], false) there pinned_x,
        pin_known (lit "ed25519") ed_now ed t
            (insert (lit "x25519") x [], (if str_eq x x_now then false else true)) there pinned_ed,
      )
