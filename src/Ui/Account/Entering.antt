-- ===== src/Ui/Account/Entering.antt =====
-- `_login` of client/src/ui/login_frame.py: what the main window can rely on.
use mathlib.Core.Path.{subst}
use cs4455_epic.Base.{◌≡◌, refl, ◌≢◌, ◌⊎◌, inl, inr, arith, Bool, true, false, none, some}
use cs4455_epic.Base.Text.{Str, Bytes, lit}
use cs4455_epic.Errors.{Exc, Result, Result-cases, ok, err}
use cs4455_epic.Json.{Json}
use cs4455_epic.Env.{Env}
use cs4455_epic.Py.{Keystore, State, Py, PrivateKeys, pure, lift, ◌>>=◌, ◌>>◌}
use cs4455_epic.Keystore as Keystore
use cs4455_epic.Keystore.Loading.{load_state}
use cs4455_epic.Api.Client.{post_path, request, subscript}
use cs4455_epic.Api.Endpoints as Api
use cs4455_epic.Services.KeyService.{publish_own_keys}
use cs4455_epic.Services.AuthService as AuthService
use cs4455_epic.Services.AuthService.{open_keystore}
use cs4455_epic.Config.{keystore_path_for}
use cs4455_epic.Ui.Account.{
  App, LoginEnd, shows_main, login_failure, adopt, new_service, login_done, login_run,
}

-- Where `m` returns, its value and the state that it leaves satisfy `Q`.
record Ensures {A : Type 0} (m : Py A) (Q : A → State → Type 0) : Type 0 where
  at : (s : State) (a : A) → (m s).0 ≡ ok a → Q a (m s).1

module _ {A B : Type 0} (f : A → Py B) (Q : B → State → Type 0) where
  later :
      (r : Result A) (t : State) (b : B)
      → ((a : A) → r ≡ ok a → ((f a) t).0 ≡ ok b → Q b ((f a) t).1)
      → ((lift r >>= f) t).0 ≡ ok b
      → Q b ((lift r >>= f) t).1
  later (ok a) t b k h = k a refl h
  later (err e) t b k h = absurd (ground arith)

  Ensures-lift : (r : Result A) → ((a : A) → r ≡ ok a → Ensures (f a) Q) → Ensures (lift r >>= f) Q
  Ensures-lift r k = record { at = λ s b h. later r s b (λ a e. (k a e).at s b) h }

  Ensures-bind : (m : Py A) → ((a : A) → Ensures (f a) Q) → Ensures (m >>= f) Q
  Ensures-bind m k = record { at = λ s b h. later (m s).0 (m s).1 b (λ a e. (k a).at (m s).1 b) h }

  -- What `m` ensures is still so at the end, if `f` keeps it.
  Ensures-then :
      (R : State → Type 0) (m : Py A)
      → Ensures m (λ a t. R t)
      → ((a : A) (t : State) (b : B) → R t → (f a t).0 ≡ ok b → Q b (f a t).1)
      → Ensures (m >>= f) Q
  Ensures-then R m e k = record {
    at = λ s b h. later (m s).0 (m s).1 b (λ a same. k a (m s).1 b (e.at s a same)) h;
  }

-- The private keys are in memory.
pub IsUnlocked : State → Type 0
IsUnlocked t = (keys : PrivateKeys) × (t.keystore.keys ≡ some keys)

-- The answer to a login has what the application takes from it.
pub record HasUser (data' : Json) : Type 0 where
  pub token : Json
  pub user : Json
  pub user_id : Json
  pub username : Json
  pub token_there : subscript (lit "token") data' ≡ ok token
  pub user_there : subscript (lit "user") data' ≡ ok user
  pub id_there : subscript (lit "userId") user ≡ ok user_id
  pub name_there : subscript (lit "username") user ≡ ok username

set_keys-IsUnlocked :
    (plaintext : Bytes) → Ensures (Keystore.set_keys plaintext) (λ a t. IsUnlocked t)
unfolding IsUnlocked
set_keys-IsUnlocked plaintext = record { at = λ s a h. (Keystore.split_keys plaintext, refl) }

HasUser-of :
    (data' token user user_id username : Json)
    → subscript (lit "token") data' ≡ ok token
    → subscript (lit "user") data' ≡ ok user
    → subscript (lit "userId") user ≡ ok user_id
    → subscript (lit "username") user ≡ ok username
    → HasUser data'
HasUser-of data' token user user_id username t u i n = record {
  token = token;
  user = user;
  user_id = user_id;
  username = username;
  token_there = t;
  user_there = u;
  id_there = i;
  name_there = n;
}

module _ (E : Env) where
  unlock-IsUnlocked : (password : Str) → Ensures (Keystore.unlock E password) (λ a t. IsUnlocked t)
  unfolding Keystore.unlock IsUnlocked
  unlock-IsUnlocked password = search (Ensures-bind, set_keys-IsUnlocked) depth 20

  open_keystore-IsUnlocked :
      (password : Str) (present : Bool)
      → Ensures (open_keystore E password present) (λ a t. IsUnlocked t)
  unfolding open_keystore
  open_keystore-IsUnlocked password true = unlock-IsUnlocked password
  open_keystore-IsUnlocked password false =
      Ensures-bind _ _ (Keystore.create E password) (λ _. unlock-IsUnlocked password)

  publish_keystore : (s : State) → (publish_own_keys E s).1.keystore ≡ s.keystore
  unfolding publish_own_keys Keystore.public_keys Api.publish post_path request
  publish_keystore s = ground (arith, load_state s)

  published :
      (data' : Json)
      → HasUser data'
      → (t : State) (b : Json) → IsUnlocked t
      → ((publish_own_keys E >> pure data') t).0 ≡ ok b
      → HasUser b × IsUnlocked ((publish_own_keys E >> pure data') t).1
  unfolding IsUnlocked
  published data' has t b (keys, unlocked) h = elim (Result-cases (publish_own_keys E t).0) [
    | inr (e, x) ↦ absurd (ground arith)
    | inl (u, x) ↦
        let same : data' ≡ b = ground arith in
        (subst HasUser same has, (keys, ground (arith, publish_keystore t)))
  ]

  entered :
      (password : Str) (present : Bool) (data' : Json)
      → HasUser data'
      → Ensures
          (open_keystore E password present >> (publish_own_keys E >> pure data'))
          (λ d t. HasUser d × IsUnlocked t)
  entered password present data' has =
      Ensures-then _ _ IsUnlocked (open_keystore E password present)
        (open_keystore-IsUnlocked password present) (λ _. published data' has)

  login-Ensures :
      (username password : Str)
      → Ensures (AuthService.login E username password) (λ data' t. HasUser data' × IsUnlocked t)
  unfolding AuthService.login
  login-Ensures username password =
      search (Ensures-lift, entered, Ensures-bind, HasUser-of) depth 40

module _ (data' : Json) (k : Keystore) (app : App) where
  adopt-HasUser :
      HasUser data'
      → (app' : App) × (adopt data' k app ≡ (app', shows_main)) × (app'.keystore ≡ some k)
  unfolding adopt
  adopt-HasUser h = (
    record app { token = h.token; user_id = h.user_id; username = h.username; keystore = some k },
    ground (arith, h.token_there, h.user_there, h.id_there, h.name_there),
    refl,
  )

login_failure-ne : (e : Exc) → login_failure e ≢ shows_main
unfolding login_failure
login_failure-ne e h = ground arith

module _ (E : Env) (dir file user pw : Str) (app : App) (s : State) where
  abbrev run : Result (App × LoginEnd) × State
  run = login_run E dir file user pw app s

  -- What a login comes to.
  abbrev pub Fails : Type 0
  Fails = (end' : LoginEnd) × (run.0 ≡ ok (app, end')) × (end' ≢ shows_main)

  abbrev pub Enters : Type 0
  Enters =
      (app' : App) × (keys : PrivateKeys) × (run.0 ≡ ok (app', shows_main))
      × (app'.keystore ≡ some run.1.keystore)
      × (run.1.keystore.keys ≡ some keys)

  -- The worker of a login never raises. Either it fails with a message and leaves the application's
  -- token, user and keystore as they were, or it opens the main window, and then the application
  -- has the services' keystore and the private keys are unlocked in it.
  pub login_run_enters : Fails ⊎ Enters
  unfolding login_run login_done new_service IsUnlocked
  login_run_enters =
      let t : State = record s {
        keystore = record { path = keystore_path_for E dir file user; kek = none; keys = none };
        session = record { token = none; user_id = none; username = none };
      } in
      elim (Result-cases (AuthService.login E user pw t).0) [
        | inr (e, h) ↦ inl (login_failure e, ground arith, login_failure-ne e)
        | inl (data', h) ↦
            let (has, (keys, unlocked)) = (login-Ensures E user pw).at t data' h in
            let (app', same, kept) =
              adopt-HasUser data' (AuthService.login E user pw t).1.keystore app has in
            inr (app', keys, ground arith, ground arith, ground arith)
      ]
