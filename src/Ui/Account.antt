-- ===== src/Ui/Account.antt =====
-- The forms of client/src/ui: `_submit` of register_frame.py, `_login` of login_frame.py,
-- `change_password` and `_logout` of main_frame.py. A handler returns the notice that it shows, with
-- the exception in place of its text. What the worker threads do is run at once.
pub mod Registering
pub mod Entering
pub mod Changing
use cs4455_epic.Base.{
  Bool, false, not, ◌&&◌, ◌||◌, ltb, Option, none, some, [], length, if◌then◌else◌,
}
use cs4455_epic.Base.Dict.{is_some}
use cs4455_epic.Base.Text.{Str, lit, str_eq, strip}
use cs4455_epic.Errors.{
  Exc, Result, ok, err, client, network_error, conflict_error, validation_error,
}
use cs4455_epic.Json.{Json, null, str}
use cs4455_epic.Env.{Env}
use cs4455_epic.Py.{Keystore, Py, pure, gets, lift, modify, ◌>>=◌, ◌>>◌}
use cs4455_epic.Config.{keystore_path_for}
use cs4455_epic.Keystore.Failing as Failing
use cs4455_epic.Keystore.Failing.{Disk}
use cs4455_epic.Keystore.{archive_key_hex, archive_path}
use cs4455_epic.Keystore.Files.{exists}
use cs4455_epic.Api.Client.{subscript}
use cs4455_epic.Services.AuthService as AuthService
use cs4455_epic.Ui.Archive.{System, rekey_archive}
use cs4455_epic.Ui.Conversations.{attempt}

-- The attributes of the application; `null` is `None`. The keystore object is shared with the
-- services, and is given here as it was when it was assigned.
pub record App : Type 0 where
  pub token : Json
  pub user_id : Json
  pub username : Json
  pub keystore : Option Keystore

-- `MIN_PASSWORD_LENGTH` is 12.
pub data Problem : Type 0 where
  missing too_short different : Problem

-- The checks that both forms begin with: `first` is the user name or the current password.
unfoldable pub form_problem : (first password confirm : Str) → Option Problem
form_problem first password confirm =
    if str_eq first [] || str_eq password []
    then some missing
    else if ltb (length password) 12
    then some too_short
    else if not (str_eq password confirm)
    then some different
    else none

-- `AuthService(keystore=Keystore(path=path))`
unfoldable pub new_service : Str → Py (Unit {0})
new_service path = modify λ s. record s {
  keystore = record { path = path; kek = none; keys = none };
  session = record { token = none; user_id = none; username = none };
}

pub data RegisterEnd : Type 0 where
  rejected : Problem → RegisterEnd
  unreachable name_taken registered : RegisterEnd
  invalid : Json → RegisterEnd
  failed : Exc → RegisterEnd

-- The handlers of the worker of `_submit`.
unfoldable pub register_failure : Exc → RegisterEnd
register_failure (client network_error message) = unreachable
register_failure (client conflict_error message) = name_taken
register_failure (client validation_error message) = invalid message
register_failure e = failed e

pub data LoginEnd : Type 0 where
  shows_main no_connection invalid_login : LoginEnd

unfoldable pub login_failure : Exc → LoginEnd
login_failure (client network_error message) = no_connection
login_failure e = invalid_login

-- The assignments after `auth.login`. What was assigned before a `KeyError` stays.
unfoldable pub adopt : Json → Keystore → App → App × LoginEnd
adopt data' keystore app = elim (subscript (lit "token") data') [
  | err e ↦ (app, login_failure e)
  | ok token ↦
      let app1 = record app { token = token } in
      elim (subscript (lit "user") data') [
        | err e ↦ (app1, login_failure e)
        | ok user ↦ elim (subscript (lit "userId") user) [
          | err e ↦ (app1, login_failure e)
          | ok user_id ↦
              let app2 = record app1 { user_id = user_id } in
              elim (subscript (lit "username") user) [
                | err e ↦ (app2, login_failure e)
                | ok name ↦ (record app2 { username = name; keystore = some keystore }, shows_main)
              ]
        ]
      ]
]

pub data ChangeEnd : Type 0 where
  refused : Problem → ChangeEnd
  keys_unavailable : ChangeEnd
  changed_dev : ChangeEnd
  server_failed : Exc → ChangeEnd
  keys_failed : Exc → ChangeEnd
  changed : Option Exc → ChangeEnd

-- `_logout`, less the screen
unfoldable pub logout : App → App
logout app = record app { token = null; user_id = null; username = null }

-- `None` where the key could not be computed; `rekey_archive` does nothing then, as for `""`.
abbrev pub text_or_none : Result Str → Str
text_or_none (ok key) = key
text_or_none (err e) = []

module _ (E : Env) (dir file : Str) where
  -- The end of the worker of `_submit`.
  unfoldable pub register_done : App → Result (Option Json) → Py (App × RegisterEnd)
  unfolding register_failure
  register_done app (err e) = pure (app, register_failure e)
  register_done app (ok resp) = do
    keystore ← gets (λ s. s.keystore)
    pure (record app { keystore = some keystore }, registered)

  unfoldable pub register_run : (user pw : Str) → App → Py (App × RegisterEnd)
  unfolding new_service register_done
  register_run user pw app = do
    new_service (keystore_path_for E dir file user)
    outcome ← attempt (AuthService.register E user pw)
    register_done app outcome

  unfoldable pub submit : (user pw confirm : Str) → App → Py (App × RegisterEnd)
  unfolding form_problem register_run
  submit user pw confirm app = elim (form_problem (strip user) (strip pw) (strip confirm)) [
    | some problem ↦ pure (app, rejected problem)
    | none ↦ register_run (strip user) (strip pw) app
  ]

  unfoldable pub login_done : App → Result Json → Py (App × LoginEnd)
  unfolding adopt login_failure
  login_done app (err e) = pure (app, login_failure e)
  login_done app (ok data') = do keystore ← gets (λ s. s.keystore); pure (adopt data' keystore app)

  unfoldable pub login_run : (user pw : Str) → App → Py (App × LoginEnd)
  unfolding new_service login_done
  login_run user pw app = do
    new_service (keystore_path_for E dir file user)
    outcome ← attempt (AuthService.login E user pw)
    login_done app outcome

  -- `_login`, with the bypass for development
  unfoldable pub login : (user pw : Str) → App → Py (App × LoginEnd)
  unfolding login_run
  login user pw app =
      if str_eq (strip user) (lit "test") && str_eq (strip pw) (lit "test1234")
      then pure (
        record app {
          token = str (lit "dev-token");
          user_id = str (lit "dev-user-id");
          username = str (lit "test");
        },
        shows_main,
      )
      else login_run (strip user) (strip pw) app

module _ (E : Env) (T : System) where
  -- The body of the `try` around `rekey_archive`.
  unfoldable pub rekey_body : Result Str → Py (Unit {0})
  rekey_body old_arch_key = do
    new_arch_key ← archive_key_hex E
    archive ← gets archive_path
    lift (rekey_archive T archive (text_or_none old_arch_key) new_arch_key)

  -- The worker from the archive's re-keying on.
  unfoldable pub rekey_step : Result Str → Py ChangeEnd
  unfolding rekey_body
  rekey_step old_arch_key = do
    outcome ← attempt (rekey_body old_arch_key)
    elim outcome [ ok _ ↦ pure (changed none) | err e ↦ pure (changed (some e)) ]

module _ (E : Env) (T : System) (keys_disk cache_disk : Disk) where
  -- The worker from the re-wrapping of the keystore on; the disk may fail when it writes the file of
  -- the keys or of the cache.
  unfoldable pub rewrap_step : (cur new : Str) → Py ChangeEnd
  unfolding rekey_step
  rewrap_step cur new = do
    old_arch_key ← attempt (archive_key_hex E)
    outcome ← attempt (Failing.change_password_on E keys_disk cache_disk cur new)
    elim outcome [ ok _ ↦ rekey_step E T old_arch_key | err e ↦ pure (keys_failed e) ]

  -- The worker of the inner `change_password`.
  unfoldable pub change_run : (cur new : Str) → Py ChangeEnd
  unfolding rewrap_step
  change_run cur new = do
    outcome ← attempt (AuthService.change_password E cur new false)
    elim outcome [ ok _ ↦ rewrap_step cur new | err e ↦ pure (server_failed e) ]

  -- After it, `_logout` runs where the password was changed.
  unfoldable pub after_change : App → ChangeEnd → App
  unfolding logout
  after_change app (changed failure) = logout app
  after_change app _ = app

  -- The inner `change_password`; `dev` is `self._dev`.
  unfoldable pub change_password : Bool → (current new confirm : Str) → App → Py (App × ChangeEnd)
  unfolding form_problem change_run after_change
  change_password dev current new confirm app s =
      elim (form_problem (strip current) (strip new) (strip confirm)) [
        | some problem ↦ (ok (app, refused problem), s)
        | none ↦
            if dev
            then (ok (app, changed_dev), s)
            else if not (is_some app.keystore && exists s)
            then (ok (app, keys_unavailable), s)
            else (do
              end' ← change_run (strip current) (strip new)
              pure (after_change app end', end'))
                s
      ]
