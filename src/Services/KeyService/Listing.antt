-- ===== src/Services/KeyService/Listing.antt =====
-- The keys that the server lists, as client/src/services/key_service.py reads them.
use mathlib.Core.Path.{subst}
use cs4455_epic.Base.{
  refl, ◌≡◌, ◌≢◌, ◌↔◌, ◌⊎◌, inl, inr, arith, true, false, Bool-cases, some, List, [], ◌∷◌,
  Option-cases,
}
use cs4455_epic.Base.Dict.{lookup}
use cs4455_epic.Base.Text.{Str, lit, str_eq_iff, str_eq_refl}
use cs4455_epic.Errors.{ok, err, Exc, Result-cases}
use cs4455_epic.Json.{Json, Items, Fields, null, bool, int, str, arr, obj, fields}
use cs4455_epic.Api.Client.{subscript}
use cs4455_epic.Services.KeyService.{is_text, first_key, history_keys, contains}

-- The public key of the first row of the type, or `null` where there is none.
pub data IsCurrent (key_type : Str) : List Json → Json → Type 0 where
  absent : IsCurrent key_type [] null
  here :
      (fs : Fields) (rows : List Json) (key : Json)
      → lookup (lit "keyType") (fields fs) ≡ some (str key_type)
      → lookup (lit "publicKey") (fields fs) ≡ some key
      → IsCurrent key_type (obj fs ∷ rows) key
  later :
      (fs : Fields) (rows : List Json) (t key : Json)
      → lookup (lit "keyType") (fields fs) ≡ some t
      → t ≢ str key_type
      → IsCurrent key_type rows key
      → IsCurrent key_type (obj fs ∷ rows) key

-- A public key that can be put into a set.
abbrev pub CanHash : Json → Type 0
CanHash key = ((xs : Items) → key ≢ arr xs) × ((gs : Fields) → key ≢ obj gs)

-- The public keys of the rows, none of which is a list or a dict.
pub data AreKeys : List Json → List Json → Type 0 where
  no_rows : AreKeys [] []
  a_row :
      (fs : Fields) (rows keys : List Json) (key : Json)
      → lookup (lit "publicKey") (fields fs) ≡ some key
      → CanHash key
      → AreKeys rows keys
      → AreKeys (obj fs ∷ rows) (key ∷ keys)

abbrev pub Among : Json → List Json → Type 0
Among key [] = ⊥
Among key (k ∷ keys) = (k ≡ key) ⊎ Among key keys

pub is_text_iff : (t : Str) (v : Json) → (is_text t v ≡ true) ↔ (v ≡ str t)
unfolding is_text
is_text_iff t (str s) =
    (λ h. ground (arith, str_eq_iff s t), λ h. ground (arith, str_eq_iff s t, str_eq_refl t))
is_text_iff t null = (λ h. absurd (ground arith), λ h. absurd (ground arith))
is_text_iff t (bool b) = (λ h. absurd (ground arith), λ h. absurd (ground arith))
is_text_iff t (int i) = (λ h. absurd (ground arith), λ h. absurd (ground arith))
is_text_iff t (arr xs) = (λ h. absurd (ground arith), λ h. absurd (ground arith))
is_text_iff t (obj fs) = (λ h. absurd (ground arith), λ h. absurd (ground arith))

pub other_text : (t : Str) (v : Json) → v ≢ str t → is_text t v ≡ false
other_text t v h = elim (Bool-cases (is_text t v)) [
  | inl b ↦ absurd (h ((is_text_iff t v).0 b))
  | inr b ↦ b
]

pub first_key-IsCurrent :
    (kt : Str) (rows : List Json) (key : Json) → IsCurrent kt rows key → first_key kt rows ≡ ok key
unfolding first_key subscript
first_key-IsCurrent kt _ _ absent = ground arith
first_key-IsCurrent kt _ _ (here fs rows key t k) = ground (arith, (is_text_iff kt (str kt)).1)
first_key-IsCurrent kt _ _ (later fs rows t key at other rest) =
    ground (arith, other_text kt t other, first_key-IsCurrent kt rows key rest)

pub contains_iff : (t : Str) (keys : List Json) → (contains t keys ≡ true) ↔ Among (str t) keys
unfolding contains
contains_iff t [] = (λ h. absurd (ground arith), λ h. absurd h)
contains_iff t (k ∷ keys) = (
  λ h. elim (Bool-cases (is_text t k)) [
    | inl b ↦ inl ((is_text_iff t k).0 b)
    | inr b ↦ inr ((contains_iff t keys).0 (ground arith))
  ],
  λ h. elim h [
    | inl same ↦ ground (arith, (is_text_iff t k).1 same)
    | inr further ↦ elim (Bool-cases (is_text t k)) [
      | inl b ↦ ground arith
      | inr b ↦ ground (arith, (contains_iff t keys).1 further)
    ]
  ],
)

module _ (fs : Fields) (rows keys : List Json) where
  history_keys-cons :
      (key : Json)
      → lookup (lit "publicKey") (fields fs) ≡ some key
      → CanHash key
      → history_keys rows ≡ ok keys
      → history_keys (obj fs ∷ rows) ≡ ok (key ∷ keys)
  unfolding history_keys subscript
  history_keys-cons (arr xs) at (flat, shallow) rest = absurd (flat xs refl)
  history_keys-cons (obj gs) at (flat, shallow) rest = absurd (shallow gs refl)
  history_keys-cons null at (flat, shallow) rest = ground arith
  history_keys-cons (bool b) at (flat, shallow) rest = ground arith
  history_keys-cons (int i) at (flat, shallow) rest = ground arith
  history_keys-cons (str s) at (flat, shallow) rest = ground arith

pub AreKeys-history_keys : (rows keys : List Json) → AreKeys rows keys → history_keys rows ≡ ok keys
unfolding history_keys
AreKeys-history_keys _ _ no_rows = refl
AreKeys-history_keys _ _ (a_row fs rows keys key at hashed rest) =
    history_keys-cons fs rows keys key at hashed (AreKeys-history_keys rows keys rest)

-- A row that was read.
row_read :
    (row : Json) (rows out : List Json)
    → history_keys (row ∷ rows) ≡ ok out
    → (fs : Fields) × (key : Json) × (keys : List Json) × (row ≡ obj fs)
      × (lookup (lit "publicKey") (fields fs) ≡ some key)
      × CanHash key
      × (history_keys rows ≡ ok keys)
      × (out ≡ key ∷ keys)
unfolding history_keys subscript
row_read (obj fs) rows out h = elim (Option-cases (lookup (lit "publicKey") (fields fs))) [
  | inl x ↦ absurd (ground arith)
  | inr (key, x) ↦ elim (Result-cases (history_keys rows)) [
    | inr (e, y) ↦ by_key_failed key e x y
    | inl (keys, y) ↦ by_key key keys x y
  ]
]
  where
    by_key_failed :
        (key : Json) (e : Exc)
        → lookup (lit "publicKey") (fields fs) ≡ some key
        → history_keys rows ≡ err e
        → (gs : Fields) × (key : Json) × (keys : List Json) × (obj fs ≡ obj gs)
          × (lookup (lit "publicKey") (fields gs) ≡ some key)
          × CanHash key
          × (history_keys rows ≡ ok keys)
          × (out ≡ key ∷ keys)
    by_key_failed (arr xs) e x y = absurd (ground arith)
    by_key_failed (obj gs) e x y = absurd (ground arith)
    by_key_failed null e x y = absurd (ground arith)
    by_key_failed (bool b) e x y = absurd (ground arith)
    by_key_failed (int i) e x y = absurd (ground arith)
    by_key_failed (str s) e x y = absurd (ground arith)

    by_key :
        (key : Json) (keys : List Json)
        → lookup (lit "publicKey") (fields fs) ≡ some key
        → history_keys rows ≡ ok keys
        → (gs : Fields) × (key : Json) × (keys : List Json) × (obj fs ≡ obj gs)
          × (lookup (lit "publicKey") (fields gs) ≡ some key)
          × CanHash key
          × (history_keys rows ≡ ok keys)
          × (out ≡ key ∷ keys)
    by_key (arr xs) keys x y = absurd (ground arith)
    by_key (obj gs) keys x y = absurd (ground arith)
    by_key null keys x y = (
      fs,
      null,
      keys,
      refl,
      x,
      (λ g h. absurd (ground arith), λ g h. absurd (ground arith)),
      y,
      ground arith,
    )
    by_key (bool b) keys x y = (
      fs,
      bool b,
      keys,
      refl,
      x,
      (λ g h. absurd (ground arith), λ g h. absurd (ground arith)),
      y,
      ground arith,
    )
    by_key (int i) keys x y = (
      fs,
      int i,
      keys,
      refl,
      x,
      (λ g h. absurd (ground arith), λ g h. absurd (ground arith)),
      y,
      ground arith,
    )
    by_key (str t) keys x y = (
      fs,
      str t,
      keys,
      refl,
      x,
      (λ g h. absurd (ground arith), λ g h. absurd (ground arith)),
      y,
      ground arith,
    )
row_read null rows out h = absurd (ground arith)
row_read (bool b) rows out h = absurd (ground arith)
row_read (int i) rows out h = absurd (ground arith)
row_read (str s) rows out h = absurd (ground arith)
row_read (arr xs) rows out h = absurd (ground arith)

pub history_keys-AreKeys : (rows keys : List Json) → history_keys rows ≡ ok keys → AreKeys rows keys
unfolding history_keys
history_keys-AreKeys [] keys h =
    let same : [] ≡ keys = ground arith in subst (AreKeys []) same no_rows
history_keys-AreKeys (row ∷ rows) out h =
    let (fs, key, keys, is, at, hashed, rest, same) = row_read row rows out h in
    rw is (rw same (a_row fs rows keys key at hashed (history_keys-AreKeys rows keys rest)))
