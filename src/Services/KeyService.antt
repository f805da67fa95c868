-- ===== src/Services/KeyService.antt =====
-- client/src/services/key_service.py: publishing own keys, pinning a peer's keys on first use,
-- and the check of a changed key against the server's history. A public key of the server that is
-- no text is a `TypeError` here already when it would be pinned, not only when it is decoded.
pub mod Pinning
pub mod Returning
pub mod Listing
pub mod Judging
pub mod Publishing
pub mod Fetching
use cs4455_epic.Base.{Bool, true, false, ◌||◌, Option, none, some, List, [], ◌∷◌, if◌then◌else◌}
use cs4455_epic.Base.Dict.{Dict, insert}
use cs4455_epic.Base.Text.{Str, lit, str_eq}
use cs4455_epic.Errors.{Result, ok, err, type_error}
use cs4455_epic.Json.{Json, null, str, arr, obj, nil}
use cs4455_epic.Env.{Env}
use cs4455_epic.Py.{Py, pure, raise, lift, catch, ◌>>=◌, ◌>>◌}
use cs4455_epic.Crypto.Wire.{item}
use cs4455_epic.Keystore.{public_keys, pin_peer_key, pinned_peer_key}
use cs4455_epic.Api.Client.{subscript, data_or, each}
use cs4455_epic.Api.Endpoints.{publish, get_keys, history}

-- `k["keyType"] == kt`
unfoldable pub is_text : Str → Json → Bool
is_text kt (str s) = str_eq s kt
is_text kt _ = false

-- `next((k["publicKey"] for k in data if k["keyType"] == kt), None)`
unfoldable pub first_key : Str → List Json → Result Json
unfolding is_text
first_key kt [] = ok null
first_key kt (k ∷ rest) =
    let later = first_key kt rest in
    elim (subscript (lit "keyType") k) [
      | err e ↦ err e
      | ok t ↦ if is_text kt t then subscript (lit "publicKey") k else later
    ]

-- `{h["publicKey"] for h in rows}`: a list or a dict cannot be put in a set.
unfoldable pub history_keys : List Json → Result (List Json)
history_keys [] = ok []
history_keys (h ∷ rest) =
    let later = history_keys rest in
    elim (subscript (lit "publicKey") h) [
      | err e ↦ err e
      | ok (arr xs) ↦ err type_error
      | ok (obj fs) ↦ err type_error
      | ok k ↦ elim later [ err e ↦ err e | ok ks ↦ ok (k ∷ ks) ]
    ]

unfoldable pub contains : Str → List Json → Bool
contains pinned [] = false
contains pinned (k ∷ rest) = is_text pinned k || contains pinned rest

-- The keys found so far, and whether one differed from its pin.
abbrev pub Found : Type 0
Found = Dict Str × Bool

module _ (E : Env) where
  -- What the loop of `fetch_and_pin` does with a key that the server has for a type.
  unfoldable pub compare_pin : Str → Str → Str → Found → Option Str → Py Found
  compare_pin user_id kt public_key (result, changed) none = do
    pin_peer_key E user_id kt public_key
    pure (insert kt public_key result, changed)
  compare_pin user_id kt public_key (result, changed) (some pinned) =
      pure (insert kt pinned result, (if str_eq pinned public_key then changed else true))

  -- One round of the loop.
  unfoldable pub pin_one : Str → Str → Json → Found → Py Found
  pin_one user_id kt (str public_key) found = do
    pinned ← pinned_peer_key user_id kt
    compare_pin user_id kt public_key found pinned
  pin_one user_id kt null found = pure found
  pin_one user_id kt _ found = raise type_error

  unfoldable pub fetch_and_pin : Str → Py Found
  unfolding compare_pin pin_one
  fetch_and_pin user_id = do
    resp ← get_keys E user_id
    data' ← lift (data_or (arr nil) resp)
    rows ← lift (each data')
    x ← lift (first_key (lit "x25519") rows)
    found ← pin_one user_id (lit "x25519") x ([], false)
    ed ← lift (first_key (lit "ed25519") rows)
    pin_one user_id (lit "ed25519") ed found

  unfoldable pub publish_key : Dict Str → Str → Py (Option Json)
  publish_key keys key_type = do
    public_key ← lift (item key_type keys)
    publish E public_key key_type true

  unfoldable pub publish_own_keys : Py (Unit {0})
  unfolding publish_key
  publish_own_keys = do
    keys ← public_keys
    publish_key keys (lit "x25519")
    publish_key keys (lit "ed25519")
    pure tt

  -- The `try` of `reconcile`.
  unfoldable pub pinned_in_history : Str → Str → Str → Py Bool
  unfolding history_keys contains
  pinned_in_history user_id key_type pinned = do
    hist ← history E user_id key_type
    data' ← lift (data_or (arr nil) hist)
    rows ← lift (each data')
    keys ← lift (history_keys rows)
    pure (contains pinned keys)

  -- The end of `reconcile`, from the pin.
  unfoldable pub judge : Str → Str → Json → Option Str → Py Bool
  judge user_id key_type current none = pure true
  judge user_id key_type current (some pinned) =
      if is_text pinned current
      then pure true
      else catch (pinned_in_history user_id key_type pinned) (λ e. pure false)

  unfoldable pub reconcile : Str → Str → Py Bool
  unfolding judge
  reconcile user_id key_type = do
    resp ← get_keys E user_id
    data' ← lift (data_or (arr nil) resp)
    rows ← lift (each data')
    current ← lift (first_key key_type rows)
    pinned ← pinned_peer_key user_id key_type
    judge user_id key_type current pinned
