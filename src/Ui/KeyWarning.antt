-- ===== src/Ui/KeyWarning.antt =====
-- The dialog on a changed key of client/src/ui/widgets.py. Its handlers are modelled with
-- `self._dev` off; a worker thread runs at once.
pub mod Repinning
use cs4455_epic.Base.{
  Bool, false, not, ltb, Option, none, some, List, [], ◌∷◌, ◌++◌, take, length, map, if◌then◌else◌,
}
use cs4455_epic.Base.Dict.{lookup, insert, erase}
use cs4455_epic.Base.Text.{Str, lit}
use cs4455_epic.Errors.{Exc, Result, ok, err, type_error}
use cs4455_epic.Json.{Json, null, str, arr, nil, truthy}
use cs4455_epic.Env.{Env}
use cs4455_epic.Py.{Py, pure, raise, lift, ◌>>=◌, ◌>>◌}
use cs4455_epic.Keystore.{pin_peer_key}
use cs4455_epic.Api.Client.{get_field, data_or, each}
use cs4455_epic.Api.Endpoints.{get_keys, history}
use cs4455_epic.Services.KeyService.{first_key, reconcile}
use cs4455_epic.Ui.Conversations.{attempt}
use cs4455_epic.Ui.Populate.{Conversation}
use cs4455_epic.Ui.Window.{Window}

-- `_clear_warning` on a conversation, and on the window's conversations
unfoldable pub cleared : Conversation → Conversation
cleared conversation = record conversation {
  messages = map (λ m. erase (lit "_key_warning") m) conversation.messages;
  key_warning = false;
}

unfoldable pub clear_warning : Str → Window → Window
unfolding cleared
clear_warning peer_id window = elim (lookup peer_id window.conversations) [
  | none ↦ window
  | some conversation ↦ record window {
    conversations = insert peer_id (cleared conversation) window.conversations;
  }
]

-- The verdict that `_reconcile` shows.
pub data Verdict : Type 0 where
  unavailable verified_rotation possible_attack : Verdict
  not_verified : Exc → Verdict

-- A prior key as `_view_key_history` shows it: version, fingerprint and date.
abbrev pub PriorKey : Type 0
PriorKey = Json × (Str × Json)

-- `e.get("publicKey", "") or ""`, cut to 16 characters
unfoldable pub fingerprint : Json → Result Str
fingerprint (str key) = ok (if ltb 16 (length key) then take 16 key ++ lit "…" else key)
fingerprint key = if truthy key then err type_error else ok []

unfoldable pub prior_key : Json → Result PriorKey
unfolding fingerprint
prior_key e = elim (get_field (lit "publicKey") (str []) e) [
  | err x ↦ err x
  | ok key ↦ elim (fingerprint key) [
    | err x ↦ err x
    | ok fp ↦ elim (get_field (lit "rotatedAt") null e) [
      | err x ↦ err x
      | ok rotated ↦ elim (get_field (lit "version") (str (lit "?")) e) [
        | err x ↦ err x
        | ok version ↦ ok (version, (fp, if truthy rotated then rotated else str (lit "—")))
      ]
    ]
  ]
]

unfoldable pub prior_keys : List Json → Result (List PriorKey)
unfolding prior_key
prior_keys [] = ok []
prior_keys (e ∷ rest) =
    let later = prior_keys rest in
    elim (prior_key e) [ err x ↦ err x | ok k ↦ elim later [ err x ↦ err x | ok ks ↦ ok (k ∷ ks) ] ]

-- The loop runs over no entries where `not entries`.
unfoldable pub entries_of : Json → Result (List Json)
entries_of entries = if truthy entries then each entries else ok []

module _ (E : Env) where
  -- `if pub is not None: ks.pin_peer_key(peer_id, kt, pub)`. A key that is no text is a `TypeError`
  -- here already when it would be pinned.
  unfoldable pub repin_key : Str → Str → Json → Py (Unit {0})
  repin_key peer_id kt null = pure tt
  repin_key peer_id kt (str public_key) = pin_peer_key E peer_id kt public_key
  repin_key peer_id kt _ = raise type_error

  -- One round of the loop of `accept`.
  unfoldable pub repin_one : Str → List Json → Str → Py (Unit {0})
  unfolding repin_key
  repin_one peer_id rows kt = do key ← lift (first_key kt rows); repin_key peer_id kt key

  -- The keys that the server has for a user now.
  unfoldable pub current_keys : Str → Py (List Json)
  current_keys peer_id = do
    resp ← get_keys E peer_id
    data' ← lift (data_or (arr nil) resp)
    lift (each data')

  -- The `try` of `run` in `accept`.
  unfoldable pub repin : Str → Py (Unit {0})
  unfolding current_keys repin_one
  repin peer_id = do
    rows ← current_keys peer_id
    repin_one peer_id rows (lit "x25519")
    repin_one peer_id rows (lit "ed25519")

  -- `accept`; the flag tells whether there is a keystore, and `none` beside the window is success.
  unfoldable pub accept_key : Bool → Str → Window → Py (Window × Option Exc)
  unfolding repin clear_warning
  accept_key unlocked [] window = pure (window, none)
  accept_key unlocked (c ∷ id) window =
      if not unlocked then pure (clear_warning (c ∷ id) window, none) else (do
        outcome ← attempt (repin (c ∷ id))
        elim outcome [
          | err e ↦ pure (window, some e)
          | ok _ ↦ pure (clear_warning (c ∷ id) window, none)
        ])

  -- `all(reconcile(peer_id, kt) for kt in ("x25519", "ed25519"))`
  unfoldable pub both_reconcile : Str → Py Bool
  both_reconcile peer_id = do
    x ← reconcile E peer_id (lit "x25519")
    (if x then reconcile E peer_id (lit "ed25519") else pure false)

  -- `_reconcile`
  unfoldable pub verdict : Str → Py Verdict
  unfolding both_reconcile
  verdict [] = pure unavailable
  verdict (c ∷ id) = do
    outcome ← attempt (both_reconcile (c ∷ id))
    elim outcome [
      | err e ↦ pure (not_verified e)
      | ok legit ↦ pure (if legit then verified_rotation else possible_attack)
    ]

  -- The section of `_view_key_history` for one key type.
  unfoldable pub history_section : Str → Str → Py (List PriorKey)
  unfolding prior_keys entries_of
  history_section peer_id kt = do
    resp ← history E peer_id kt
    data' ← lift (data_or (arr nil) resp)
    rows ← lift (entries_of data')
    lift (prior_keys rows)

  -- `run` of `_view_key_history`: what it shows of the two key types.
  unfoldable pub view_key_history : Str → Py (Result (List PriorKey × List PriorKey))
  unfolding history_section
  view_key_history peer_id = attempt (do
    x ← history_section peer_id (lit "x25519")
    ed ← history_section peer_id (lit "ed25519")
    pure (x, ed))
