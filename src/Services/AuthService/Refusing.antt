-- ===== src/Services/AuthService/Refusing.antt =====
-- What client/src/services/auth_service.py leaves where the server refuses.
use cs4455_epic.Base.{◌≡◌, refl, arith, Bool, Option, none, some, if◌then◌else◌}
use cs4455_epic.Base.Text.{Str}
use cs4455_epic.Errors.{Exc, err, attribute_error}
use cs4455_epic.Base.Dict.{Dict}
use cs4455_epic.Crypto.Kdf.{derive_auth_hash}
use cs4455_epic.Keystore as Keystore
use cs4455_epic.Json.{Json}
use cs4455_epic.Env.{Env, Method, Request}
use cs4455_epic.Py.{State, Py, pure, or_raise, ◌>>=◌, ◌>>◌}
use cs4455_epic.Api.Client.{build_request, handle_outcome, request, post_path, put_path}
use cs4455_epic.Api.Endpoints as Api
use cs4455_epic.Services.AuthService.{register, login, change_password}

-- The action raises, and leaves all but the list of requests as it was.
pub record IsRefused {A : Type 0} (m : Py A) (s : State) : Type 0 where
  pub exception : Exc
  pub raised : (m s).0 ≡ err exception
  pub files : (m s).1.files ≡ s.files
  pub drawn : (m s).1.drawn ≡ s.drawn
  pub keystore : (m s).1.keystore ≡ s.keystore
  pub session : (m s).1.session ≡ s.session

module _ {A B : Type 0} where
  -- What comes after it is not done.
  IsRefused-bind : (m : Py A) (f : A → Py B) (s : State) → IsRefused m s → IsRefused (m >>= f) s
  IsRefused-bind m f s refused = record {
    exception = refused.exception;
    raised = ground (arith, refused.raised);
    files = ground (arith, refused.raised, refused.files);
    drawn = ground (arith, refused.raised, refused.drawn);
    keystore = ground (arith, refused.raised, refused.keystore);
    session = ground (arith, refused.raised, refused.session);
  }

-- The answer to any request after those that were sent is an exception.
abbrev pub Refuses : Env → State → (Request → Exc) → Type 0
Refuses E s fail = (r : Request) → handle_outcome (E.http s.requests r) ≡ err (fail r)

module _ (E : Env) (s : State) (fail : Request → Exc) (refuses : Refuses E s fail) where
  request-IsRefused :
      (method : Method) (path : Str) (headers params : Dict Str) (json : Option Json)
      → IsRefused (request E method path headers params json) s
  unfolding request
  request-IsRefused method path headers params json =
      let req = build_request E method path headers params json s in
      record {
        exception = fail req;
        raised = refuses req;
        files = refl;
        drawn = refl;
        keystore = refl;
        session = refl;
      }

  register-IsRefused : (username password : Str) → IsRefused (register E username password) s
  unfolding register Api.register post_path
  register-IsRefused username password = search (IsRefused-bind, request-IsRefused)

  login-IsRefused : (username password : Str) → IsRefused (login E username password) s
  unfolding login Api.login post_path
  login-IsRefused username password = search (IsRefused-bind, request-IsRefused)

  change_asked :
      (current new name : Str) (with_keystore : Bool)
      → IsRefused
          (do
            result ←
                Api.change_password E
                  (derive_auth_hash E current name)
                  (derive_auth_hash E new name)
            (if with_keystore then Keystore.change_password E current new else pure tt)
            pure result)
          s
  unfolding Api.change_password put_path
  change_asked current new name with_keystore = search (IsRefused-bind, request-IsRefused)

  change_named :
      (current new : Str) (with_keystore : Bool) (name : Option Str)
      → IsRefused
          (or_raise attribute_error name >>= λ username. do
            result ←
                Api.change_password E
                  (derive_auth_hash E current username)
                  (derive_auth_hash E new username)
            (if with_keystore then Keystore.change_password E current new else pure tt)
            pure result)
          s
  change_named current new with_keystore none = record {
    exception = attribute_error;
    raised = refl;
    files = refl;
    drawn = refl;
    keystore = refl;
    session = refl;
  }
  change_named current new with_keystore (some name) =
      let changing = change_asked current new name with_keystore in
      record {
        exception = changing.exception;
        raised = changing.raised;
        files = changing.files;
        drawn = changing.drawn;
        keystore = changing.keystore;
        session = changing.session;
      }

  -- Where the server refuses the next request, or cannot be reached, `register`, `login` and
  -- `change_password` raise, and the keystore's file, the keystore object and the session stay as
  -- they were: a registration replaces no keystore, and a change of the password wraps no key again,
  -- that the server has not agreed to.
  pub auth_service-IsRefused :
      (username password current new : Str) (with_keystore : Bool)
      → IsRefused (register E username password) s
        × IsRefused (login E username password) s
        × IsRefused (change_password E current new with_keystore) s
  unfolding change_password
  auth_service-IsRefused username password current new with_keystore =
      let changing = change_named current new with_keystore s.session.username in
      (
        register-IsRefused username password,
        login-IsRefused username password,
        record {
          exception = changing.exception;
          raised = changing.raised;
          files = changing.files;
          drawn = changing.drawn;
          keystore = changing.keystore;
          session = changing.session;
        },
      )
