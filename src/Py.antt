-- ===== src/Py.antt =====
-- The client's state, and methods that change it and may raise. What was written before a raise
-- stays written, so the state comes back beside the exception too.
use cs4455_epic.Base.{ℕ, Bool, Option, none, some, List, if◌then◌else◌}
use cs4455_epic.Base.Int.{ℤ}
use cs4455_epic.Base.Dict.{Dict}
use cs4455_epic.Base.Text.{Str, Bytes}
use cs4455_epic.Errors.{Exc, Result, ok, err}
use cs4455_epic.Env.{Request}

-- The dict of a JSON file that the client writes: a keystore, or a message cache, which has
-- `version`, `nonce` and `ciphertext` alone. A key that the file lacks is `none`.
pub record FileData : Type 0 where
  pub version : Option ℕ
  pub salt : Option Str
  pub nonce : Option Str
  pub ciphertext : Option Str
  pub pub_x25519 : Option Str
  pub pub_ed25519 : Option Str
  pub peers : Option (Dict (Dict Str))
  pub seq_send : Option (Dict ℤ)
  pub seq_recv : Option (Dict ℤ)

-- What a file holds: such a dict, or anything that `json.load` refuses.
pub data Content : Type 0 where
  json : FileData → Content
  other : Content

pub record PrivateKeys : Type 0 where
  pub x25519 : Bytes
  pub ed25519 : Bytes

-- The attributes of a `Keystore` object.
pub record Keystore : Type 0 where
  pub path : Str
  pub kek : Option Bytes
  pub keys : Option PrivateKeys

pub record Session : Type 0 where
  pub token : Option Str
  pub user_id : Option Str
  pub username : Option Str

-- The files, how many random values were drawn, the requests that were sent, and the one
-- keystore and session that the services share.
pub record State : Type 0 where
  pub files : Dict Content
  pub drawn : ℕ
  pub requests : List Request
  pub keystore : Keystore
  pub session : Session

abbrev pub Py : Type 0 → Type 0
Py A = State → Result A × State

module _ {A : Type 0} where
  abbrev pub pure : A → Py A
  pure a s = (ok a, s)

  abbrev pub raise : Exc → Py A
  raise e s = (err e, s)

  abbrev pub gets : (State → A) → Py A
  gets f s = (ok (f s), s)

  abbrev pub lift : Result A → Py A
  lift r s = (r, s)

  -- A value that may be missing.
  abbrev pub or_raise : Exc → Option A → Py A
  or_raise e none = raise e
  or_raise e (some a) = pure a

abbrev pub modify : (State → State) → Py (Unit {0})
modify f s = (ok tt, f s)

infixl 5 ◌>>=◌ ◌>>◌
abbrev pub ◌>>=◌ : {A B : Type 0} → Py A → (A → Py B) → Py B
◌>>=◌ m f s = let (r, s') = m s in elim r [ ok a ↦ f a s' | err e ↦ (err e, s') ]

abbrev pub ◌>>◌ : {A B : Type 0} → Py A → Py B → Py B
m >> k = m >>= λ _. k

-- `if c: raise e`
abbrev pub raise_if : Bool → Exc → Py (Unit {0})
raise_if c e s = (if c then err e else ok tt, s)

-- `try: m` with a handler, which sees the state that `m` left.
abbrev pub catch : {A : Type 0} → Py A → (Exc → Py A) → Py A
catch m handler s = let (r, s') = m s in elim r [ ok a ↦ (ok a, s') | err e ↦ handler e s' ]
