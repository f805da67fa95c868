-- ===== src/Services/AuthService/Sending.antt =====
-- What the requests of client/src/services/auth_service.py carry.
use mathlib.Core.List.{append-nil}
use cs4455_epic.Base.{
  ◌≡◌, refl, sym, ap, ◌∙◌, arith, Bool, true, false, Option, none, some, List, [], ◌∷◌, ◌++◌,
  if◌then◌else◌,
}
use cs4455_epic.Base.Text.{Str, lit}
use cs4455_epic.Errors.{Result, ok, err, attribute_error}
use cs4455_epic.Json.{Json, str, obj, obj_of}
use cs4455_epic.Env.{Env, Request, post, put}
use cs4455_epic.Py.{State, Py, pure, lift, or_raise, ◌>>=◌, ◌>>◌}
use cs4455_epic.Crypto.Kdf.{derive_auth_hash}
use cs4455_epic.Session.{set}
use cs4455_epic.Keystore as Keystore
use cs4455_epic.Keystore.Quiet.{
  Quiet, quiet_rules, Quiet-then, Quiet-pure, Quiet-create, Quiet-unlock, Quiet-change_password,
}
use cs4455_epic.Api.Client.{build_request, request, post_path, put_path}
use cs4455_epic.Api.Endpoints as Api
use cs4455_epic.Services.KeyService.{publish_own_keys}
use cs4455_epic.Services.KeyService.Publishing.{Published, publish_own_keys-Published}
use cs4455_epic.Services.MessageService.{as_text}
use cs4455_epic.Services.AuthService.{open_keystore, remove_file, login, register, change_password}

-- An action that sends nothing but the public keys of the keystore file that it leaves.
record Publishing {A : Type 0} (m : Py A) : Type 0 where
  at : (s : State) → Published s (m s).1

module _ {A : Type 0} where
  Publishing-pure : (a : A) → Publishing (pure a)
  Publishing-pure a = record { at = λ s. ([], sym (append-nil s.requests), tt) }

module _ {A B : Type 0} where
  Publishing-then :
      (r : Result A) (f : A → Py B) (s t : State)
      → t.requests ≡ s.requests
      → ((a : A) → Publishing (f a))
      → Published s ((lift r >>= f) t).1
  Publishing-then (err e) f s t same g = ([], same ∙ sym (append-nil s.requests), tt)
  Publishing-then (ok a) f s t same g =
      let (new, more, all) = (g a).at t in (new, more ∙ ap (λ r. r ++ new) same, all)

  Publishing-bind :
      (m : Py A) (f : A → Py B) → Quiet m → ((a : A) → Publishing (f a)) → Publishing (m >>= f)
  Publishing-bind m f q g = record { at = λ s. Publishing-then (m s).0 f s (m s).1 (q.at s) g }

  -- What comes after the publication returns a value alone.
  publishing_last :
      (r : Result A) (b : B) (s t : State) → Published s t → Published s ((lift r >> pure b) t).1
  publishing_last (ok a) b s t p = p
  publishing_last (err e) b s t p = p

  Publishing-last : (m : Py A) (b : B) → Publishing m → Publishing (m >> pure b)
  Publishing-last m b p = record { at = λ s. publishing_last (m s).0 b s (m s).1 (p.at s) }

-- An action after which the requests are these.
record Asking {A : Type 0} (sent : State → List Request) (m : Py A) : Type 0 where
  at : (s : State) → (m s).1.requests ≡ sent s

-- An action that asks first, and then sends nothing but public keys.
record Entering {A : Type 0} (sent : State → List Request) (m : Py A) : Type 0 where
  at : (s : State) → Published (record s { requests = sent s }) (m s).1

module _ {A B : Type 0} (sent : State → List Request) (m : Py A) (f : A → Py B) where
  Asking-bind : Asking sent m → ((a : A) → Quiet (f a)) → Asking sent (m >>= f)
  Asking-bind q g = record { at = λ s. cc (Quiet-then (m s).0 f (m s).1 g, q.at s) }

  Entering-bind : Asking sent m → ((a : A) → Publishing (f a)) → Entering sent (m >>= f)
  Entering-bind q g = record {
    at = λ s. Publishing-then (m s).0 f (record s { requests = sent s }) (m s).1 (q.at s) g;
  }

Quiet-as_text : (v : Json) → Quiet (as_text v)
unfolding as_text
Quiet-as_text v = record { at = λ s. ground arith }

module _ (E : Env) where
  Quiet-open_keystore : (password : Str) (present : Bool) → Quiet (open_keystore E password present)
  unfolding open_keystore
  Quiet-open_keystore password true = Quiet-unlock E password
  Quiet-open_keystore password false = search (quiet_rules, Quiet-create, Quiet-unlock) depth 20

Quiet-set : (token user_id username : Str) → Quiet (set token user_id username)
unfolding set
Quiet-set token user_id username = record { at = λ s. refl }

Quiet-remove_file : Quiet remove_file
Quiet-remove_file = record { at = λ s. refl }

-- The body with the credential that goes in place of the password.
abbrev pub credential : Str → Str → Json
credential username hash =
    obj (obj_of ((lit "username", str username) ∷ (lit "password", str hash) ∷ []))

module _ (E : Env) where
  publish_own_keys-Publishing : Publishing (publish_own_keys E)
  publish_own_keys-Publishing = record { at = publish_own_keys-Published E }

  -- The requests of `change_password`, for the user name of the session.
  pub password_change : (current new : Str) → Option Str → State → List Request
  password_change current new none s = []
  password_change current new (some name) s =
      build_request E put (lit "/api/auth/password") [] []
        (some (
          obj (
            obj_of (
              (lit "currentPassword", str (derive_auth_hash E current name))
              ∷ (lit "newPassword", str (derive_auth_hash E new name))
              ∷ []))))
        s
      ∷ []

  -- The requests of `register` and `login`.
  pub registration : (username password : Str) → State → Request
  registration username password s =
      build_request E post (lit "/api/auth/register") [] []
        (some (credential username (derive_auth_hash E password username))) s

  pub sign_in : (username password : Str) → State → Request
  sign_in username password s =
      build_request E post (lit "/api/auth/login") [] []
        (some (credential username (derive_auth_hash E password username))) s

  Quiet-clearing : (present : Bool) → Quiet (if present then remove_file else pure tt)
  Quiet-clearing true = Quiet-remove_file
  Quiet-clearing false = Quiet-pure tt

  Quiet-rewrapping :
      (with_keystore : Bool) (current new : Str)
      → Quiet (if with_keystore then Keystore.change_password E current new else pure tt)
  Quiet-rewrapping true current new = Quiet-change_password E current new
  Quiet-rewrapping false current new = Quiet-pure tt

  register_asks :
      (username password : Str)
      → Asking
          (λ s. s.requests ++ (registration username password s ∷ []))
          (Api.register E username (derive_auth_hash E password username))
  unfolding Api.register post_path request registration
  register_asks username password = record { at = λ s. refl }

  login_asks :
      (username password : Str)
      → Asking
          (λ s. s.requests ++ (sign_in username password s ∷ []))
          (Api.login E username (derive_auth_hash E password username))
  unfolding Api.login post_path request sign_in
  login_asks username password = record { at = λ s. refl }

  change_asks :
      (current new name : Str)
      → Asking
          (λ s. s.requests ++ password_change current new (some name) s)
          (Api.change_password E (derive_auth_hash E current name) (derive_auth_hash E new name))
  unfolding Api.change_password put_path request password_change
  change_asks current new name = record { at = λ s. refl }

  register-Asking :
      (username password : Str)
      → Asking
          (λ s. s.requests ++ (registration username password s ∷ []))
          (register E username password)
  unfolding register
  register-Asking username password =
      search (Asking-bind, register_asks, quiet_rules, Quiet-clearing, Quiet-create) depth 30

  login-Entering :
      (username password : Str)
      → Entering (λ s. s.requests ++ (sign_in username password s ∷ [])) (login E username password)
  unfolding login
  login-Entering username password =
      search
        (
          Entering-bind, login_asks, Publishing-bind, Publishing-last, publish_own_keys-Publishing,
          quiet_rules, Quiet-as_text, Quiet-set, Quiet-open_keystore,
        )
        depth 60

  change_named :
      (current new : Str) (with_keystore : Bool) (name : Option Str) (s : State)
      → ((or_raise attribute_error name >>= λ username. do
        result ←
            Api.change_password E
              (derive_auth_hash E current username)
              (derive_auth_hash E new username)
        (if with_keystore then Keystore.change_password E current new else pure tt)
        pure result)
          s).1.requests
        ≡ s.requests ++ password_change current new name s
  unfolding password_change
  change_named current new with_keystore none s = sym (append-nil s.requests)
  change_named current new with_keystore (some name) s = asks.at s
    where
      asks :
          Asking
            (λ s. s.requests ++ password_change current new (some name) s)
            (do
              result ←
                  Api.change_password E
                    (derive_auth_hash E current name)
                    (derive_auth_hash E new name)
              (if with_keystore then Keystore.change_password E current new else pure tt)
              pure result)
      asks = search (Asking-bind, change_asks, quiet_rules, Quiet-rewrapping) depth 30

  -- Whatever the server answers, and wherever they stop: `register` sends one request, `login` one
  -- and then public keys of the keystore file alone, and `change_password` one, or none without a
  -- user name in the session. In these requests the credentials derived by Argon2id and HKDF stand
  -- in place of the passwords.
  pub credentials_hashed :
      (username password current new : Str) (with_keystore : Bool) (s : State)
      → ((register E username password s).1.requests
          ≡ s.requests ++ (registration username password s ∷ []))
        × Published
            (record s { requests = s.requests ++ (sign_in username password s ∷ []) })
            (login E username password s).1
        × ((change_password E current new with_keystore s).1.requests
            ≡ s.requests ++ password_change current new s.session.username s)
  unfolding change_password
  credentials_hashed username password current new with_keystore s = (
    (register-Asking username password).at s,
    (login-Entering username password).at s,
    change_named current new with_keystore s.session.username s,
  )
