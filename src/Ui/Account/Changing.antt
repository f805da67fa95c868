-- ===== src/Ui/Account/Changing.antt =====
-- The inner `change_password` of client/src/ui/main_frame.py: the server's step, then the
-- keystore's.
use cs4455_epic.Base.{◌≡◌, ◌≢◌, refl, inl, inr, arith, false, Option, none, some}
use cs4455_epic.Base.Text.{Str, Bytes}
use cs4455_epic.Errors.{Exc, Result, Result-cases, ok, err}
use cs4455_epic.Env.{Env, IsLawful}
use cs4455_epic.Py.{FileData, State}
use cs4455_epic.Keystore.{archive_key_hex, archive_key}
use cs4455_epic.Keystore.Loading.{Holds}
use cs4455_epic.Keystore.Unlocking.{Opens}
use cs4455_epic.Keystore.Failing.{Disk, works, change_password_on}
use cs4455_epic.Keystore.Failing.Keeping.{
  OpensTo, Ended, finished, not_written, cache_not_written, change_password_on-Ended,
}
use cs4455_epic.Services.Growth.Parts.{Holds-same}
use cs4455_epic.Api.Client.{put_path, post_path, request}
use cs4455_epic.Api.Endpoints as Api
use cs4455_epic.Services.AuthService as AuthService
use cs4455_epic.Ui.Archive.{System}
use cs4455_epic.Ui.Account.{
  ChangeEnd, server_failed, changed, keys_failed, rekey_body, rekey_step, rewrap_step, change_run,
}

module _ (E : Env) (cur new : Str) (s : State) where
  -- The server's step leaves files and keystore alone.
  server_step_frame :
      ((AuthService.change_password E cur new false s).1.files ≡ s.files)
      × ((AuthService.change_password E cur new false s).1.keystore ≡ s.keystore)
  unfolding AuthService.change_password Api.change_password put_path post_path request
  server_step_frame = ground arith

archive_key_hex_state : (E : Env) (s : State) → (archive_key_hex E s).1 ≡ s
unfolding archive_key_hex archive_key
archive_key_hex_state E s = ground arith

module _ (E : Env) (T : System) where
  rekey_body_state : (old : Result Str) (s : State) → (rekey_body E T old s).1 ≡ s
  unfolding rekey_body
  rekey_body_state old s = ground (arith, archive_key_hex_state E s)

  rekey_step-changed :
      (old : Result Str) (s : State)
      → (failure : Option Exc) × (rekey_step E T old s ≡ (ok (changed failure), s))
  unfolding rekey_step
  rekey_step-changed old s = elim (Result-cases (rekey_body E T old s).0) [
    | inl (u, h) ↦ (none, ground (arith, rekey_body_state old s))
    | inr (e, h) ↦ (some e, ground (arith, rekey_body_state old s))
  ]

module _ (E : Env) (L : IsLawful E) (T : System) (keys_disk cache_disk : Disk) (cur new : Str)
    (s : State) (d : FileData) (plaintext : Bytes) (holds : Holds s d)
    (o : Opens E cur d plaintext) where
  abbrev run : Result ChangeEnd × State
  run = change_run E T keys_disk cache_disk cur new s

  -- How the change of the password can end, with the notice that it gives.
  pub data HasEnded (r : Result ChangeEnd × State) : Type 0 where
    refused :
        (e : Exc)
        → r.0 ≡ ok (server_failed e)
        → r.1.files ≡ s.files
        → r.1.keystore ≡ s.keystore
        → HasEnded r
    complete :
        (failure : Option Exc)
        → r.0 ≡ ok (changed failure)
        → OpensTo E L plaintext new r.1
        → HasEnded r
    in_between :
        (e : Exc)
        → r.0 ≡ ok (keys_failed e)
        → keys_disk ≢ works
        → OpensTo E L plaintext cur r.1
        → HasEnded r
    without_cache :
        (e : Exc)
        → r.0 ≡ ok (keys_failed e)
        → cache_disk ≢ works
        → OpensTo E L plaintext new r.1
        → HasEnded r

  module _ (t : State) where
    abbrev changing : Result (Unit {0}) × State
    changing = change_password_on E keys_disk cache_disk cur new t

    rewrap_step-failed :
        (e : Exc)
        → changing.0 ≡ err e
        → rewrap_step E T keys_disk cache_disk cur new t ≡ (ok (keys_failed e), changing.1)
    unfolding rewrap_step
    rewrap_step-failed e h = ground (arith, archive_key_hex_state E t)

    rewrap_step-changed :
        changing.0 ≡ ok tt
        → (failure : Option Exc) × (rewrap_step E T keys_disk cache_disk cur new t
            ≡ (ok (changed failure), changing.1))
    unfolding rewrap_step
    rewrap_step-changed h =
        let (failure, same) = rekey_step-changed E T (archive_key_hex E t).0 changing.1 in
        (failure, ground (arith, archive_key_hex_state E t))

    rewrap_step-HasEnded :
        Ended E L plaintext keys_disk cache_disk cur new changing
        → HasEnded (rewrap_step E T keys_disk cache_disk cur new t)
    rewrap_step-HasEnded (finished done opens) =
        let (failure, same) = rewrap_step-changed done in rw same (complete failure refl opens)
    rewrap_step-HasEnded (not_written e raised disk opens) =
        rw (rewrap_step-failed e raised) (in_between e refl disk opens)
    rewrap_step-HasEnded (cache_not_written e raised disk opens) =
        rw (rewrap_step-failed e raised) (without_cache e refl disk opens)

  -- Where the keystore opens under the current password, to these keys: whatever the server
  -- answers, whatever the disk does, and whether or not the archive can be put under its new key,
  -- the change ends in one of four ways. The server's step raised, and files and keystore are as
  -- they were (the server may have changed the password, if its answer was lost). Or the change is
  -- reported, and the new password opens the keystore to the same private keys. Or the failure of
  -- the keystore's part is reported: then the disk failed, and the current password still opens the
  -- keystore to the same keys, or, if only the cache was not written, the new one does.
  pub change_run-HasEnded : HasEnded run
  unfolding change_run
  change_run-HasEnded =
      let t = (AuthService.change_password E cur new false s).1 in
      let (files, keystore) = server_step_frame E cur new s in
      elim (Result-cases (AuthService.change_password E cur new false s).0) [
        | inr (e, h) ↦ refused e (ground arith) (ground arith) (ground arith)
        | inl (resp, h) ↦
            let held : Holds t d = Holds-same s t d (files, keystore) holds in
            let same : run ≡ rewrap_step E T keys_disk cache_disk cur new t = ground arith in
            rw same (
              rewrap_step-HasEnded t
                (change_password_on-Ended E L plaintext cur new d t held o keys_disk cache_disk))
      ]
