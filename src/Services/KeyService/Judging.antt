-- ===== src/Services/KeyService/Judging.antt =====
-- `reconcile` of client/src/services/key_service.py: which change of a key it accepts.
use cs4455_epic.Base.{
  refl, ◌≡◌, ◌↔◌, ◌⊎◌, inl, inr, arith, true, false, Bool, Bool-cases, some, none, List, [], ◌∷◌,
  Option, Option-cases,
}
use cs4455_epic.Base.Dict.{lookup}
use cs4455_epic.Base.Text.{Str, lit}
use cs4455_epic.Errors.{ok, Result-cases}
use cs4455_epic.Json.{
  Json, Items, Fields, null, bool, int, str, arr, obj, items, fields, elements, end, field,
}
use cs4455_epic.Env.{Env}
use cs4455_epic.Py.{FileData, State}
use cs4455_epic.Keystore.{pin_of}
use cs4455_epic.Keystore.Loading.{Holds}
use cs4455_epic.Api.Client.{subscript, get_field}
use cs4455_epic.Api.Endpoints.{get_keys, history}
use cs4455_epic.Services.KeyService.{
  is_text, history_keys, contains, pinned_in_history, judge, reconcile,
}
use cs4455_epic.Services.KeyService.Pinning.{Holds-get_keys, pinned_peer_key-eq}
use cs4455_epic.Services.KeyService.Listing.{
  IsCurrent, AreKeys, Among, is_text_iff, first_key-IsCurrent, contains_iff, AreKeys-history_keys,
  history_keys-AreKeys,
}

-- The server's history of the user's keys could be read, and lists the key.
pub record IsRecorded (E : Env) (user_id key_type pinned : Str) (s : State) : Type 0 where
  pub body : Fields
  pub rows : Items
  pub keys : List Json
  pub answered : (history E user_id key_type s).0 ≡ ok (some (obj body))
  pub listed : lookup (lit "data") (fields body) ≡ some (arr rows)
  pub named : AreKeys (items rows) keys
  pub among : Among (str pinned) keys

module _ (E : Env) (user_id key_type pinned : Str) (s : State) where
  abbrev Accepted : Type 0
  Accepted = (pinned_in_history E user_id key_type pinned s).0 ≡ ok true

  IsRecorded-Accepted : IsRecorded E user_id key_type pinned s → Accepted
  unfolding pinned_in_history get_field elements
  IsRecorded-Accepted r = ground (
    arith,
    r.answered,
    r.listed,
    AreKeys-history_keys (items r.rows) r.keys r.named,
    (contains_iff pinned r.keys).1 r.among,
  )

  module _ (h : Accepted) where
    read_rows :
        (body : Fields) (rows : Items)
        → (history E user_id key_type s).0 ≡ ok (some (obj body))
        → lookup (lit "data") (fields body) ≡ some (arr rows)
        → IsRecorded E user_id key_type pinned s
    unfolding pinned_in_history get_field elements
    read_rows body rows x y = elim (Result-cases (history_keys (items rows))) [
      | inr (e, z) ↦ absurd (ground arith)
      | inl (keys, z) ↦ record {
        body = body;
        rows = rows;
        keys = keys;
        answered = x;
        listed = y;
        named = history_keys-AreKeys (items rows) keys z;
        among = (contains_iff pinned keys).0 (ground arith);
      }
    ]

    read_data :
        (body : Fields) (v : Json)
        → (history E user_id key_type s).0 ≡ ok (some (obj body))
        → lookup (lit "data") (fields body) ≡ some v
        → IsRecorded E user_id key_type pinned s
    unfolding pinned_in_history get_field elements history_keys subscript contains
    read_data body (arr rows) x y = read_rows body rows x y
    read_data body (obj end) x y = absurd (ground arith)
    read_data body (obj (field k v fs)) x y = absurd (ground arith)
    read_data body (str []) x y = absurd (ground arith)
    read_data body (str (c ∷ t)) x y = absurd (ground arith)
    read_data body null x y = absurd (ground arith)
    read_data body (bool b) x y = absurd (ground arith)
    read_data body (int i) x y = absurd (ground arith)

    read_body :
        (resp : Option Json)
        → (history E user_id key_type s).0 ≡ ok resp
        → IsRecorded E user_id key_type pinned s
    unfolding pinned_in_history get_field elements history_keys contains
    read_body none x = absurd (ground arith)
    read_body (some (obj body)) x = elim (Option-cases (lookup (lit "data") (fields body))) [
      | inl y ↦ absurd (ground arith)
      | inr (v, y) ↦ read_data body v x y
    ]
    read_body (some null) x = absurd (ground arith)
    read_body (some (bool b)) x = absurd (ground arith)
    read_body (some (int i)) x = absurd (ground arith)
    read_body (some (str t)) x = absurd (ground arith)
    read_body (some (arr xs)) x = absurd (ground arith)

    Accepted-IsRecorded : IsRecorded E user_id key_type pinned s
    unfolding pinned_in_history
    Accepted-IsRecorded = elim (Result-cases (history E user_id key_type s).0) [
      | inl (resp, x) ↦ read_body resp x
      | inr (e, x) ↦ absurd (ground arith)
    ]

  judge_other :
      (current : Json)
      → is_text pinned current ≡ false
      → (b : Bool) × ((judge E user_id key_type current (some pinned) s).0 ≡ ok b)
        × ((b ≡ true) ↔ IsRecorded E user_id key_type pinned s)
  unfolding judge
  judge_other current h = elim (Result-cases (pinned_in_history E user_id key_type pinned s).0) [
    | inl (b, x) ↦ (
      b,
      ground arith,
      (λ yes. Accepted-IsRecorded (ground arith), λ r. ground (arith, IsRecorded-Accepted r)),
    )
    | inr (e, x) ↦ (
      false,
      ground arith,
      (λ no. absurd (ground arith), λ r. absurd (ground (arith, IsRecorded-Accepted r))),
    )
  ]

module _ (E : Env) (user_id key_type pinned : Str) (current : Json) (s : State) (d : FileData)
    (body : Fields) (rows : Items) (holds : Holds s d)
    (here : pin_of user_id key_type d ≡ some pinned)
    (answered : (get_keys E user_id s).0 ≡ ok (some (obj body)))
    (listed : lookup (lit "data") (fields body) ≡ some (arr rows))
    (named : IsCurrent key_type (items rows) current) where
  abbrev asked : State
  asked = (get_keys E user_id s).1

  reconcile-judge :
      reconcile E user_id key_type s ≡ judge E user_id key_type current (some pinned) asked
  unfolding reconcile get_field elements
  reconcile-judge = ground (
    arith,
    first_key-IsCurrent key_type (items rows) current named,
    pinned_peer_key-eq E user_id key_type asked d (Holds-get_keys E user_id s d holds),
  )

  reconcile_same : is_text pinned current ≡ true → (reconcile E user_id key_type s).0 ≡ ok true
  unfolding judge
  reconcile_same h = ground (arith, reconcile-judge)

  -- Where a key is pinned and the server answers the request for the user's keys with a list of
  -- them: reconciling returns True exactly when the first listed key of the type is the pinned one,
  -- or the server's history could be read, names only keys that are no lists or dicts, and the
  -- pinned key is among them. In all other cases it returns False: a failed look into the history
  -- accepts no change.
  pub reconcile_accepts_iff :
      (b : Bool) × ((reconcile E user_id key_type s).0 ≡ ok b)
      × ((b ≡ true) ↔ ((current ≡ str pinned) ⊎ IsRecorded E user_id key_type pinned asked))
  reconcile_accepts_iff = elim (Bool-cases (is_text pinned current)) [
    | inl h ↦ (true, reconcile_same h, (λ yes. inl ((is_text_iff pinned current).0 h), λ x. refl))
    | inr h ↦
        let (b, is, when) = judge_other E user_id key_type pinned asked current h in
        (
          b,
          ground (arith, reconcile-judge),
          (
            λ yes. inr (when.0 yes),
            λ x. elim x [
              | inl e ↦ absurd (ground (arith, (is_text_iff pinned current).1 e))
              | inr r ↦ when.1 r
            ],
          ),
        )
  ]
