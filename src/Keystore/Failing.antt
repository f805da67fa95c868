-- ===== src/Keystore/Failing.antt =====
-- `_write_json_secure` of client/src/crypto/keystore.py where the disk may fail, and
-- `change_password` on such a disk.
pub mod Keeping
use cs4455_epic.Base.{◌+◌, ◌≡◌, ◌⊎◌, none, some, List, [], ◌∷◌}
use cs4455_epic.Base.Dict.{Dict}
use cs4455_epic.Base.Text.{Str}
use cs4455_epic.Codec.Base64.{b64encode}
use cs4455_epic.Codec.Utf8.{encode}
use cs4455_epic.Errors.{Exc, ok, err}
use cs4455_epic.Env.{Env}
use cs4455_epic.Py.{FileData, Content, json, Py, pure, gets, ◌>>=◌, ◌>>◌}
use cs4455_epic.Crypto.Kdf.{derive_kek}
use cs4455_epic.Crypto.Aead as Aead
use cs4455_epic.Keystore.{
  keystore_aad, cache_aad, cache_path, stored, set_kek, set_keys, decrypt_cache,
}
use cs4455_epic.Keystore.Files.{
  blank, load, FileOp, create, write, run_ops, write_ops, failed_ops, tmp_path, write_json_secure,
}

-- What the disk does in a write: all of it; or `os.open` raises, or `json.dump`, or
-- `os.replace`.
pub data Disk : Type 0 where
  works : Disk
  open_fails dump_fails replace_fails : Exc → Disk

-- The system calls that were made, with the name of the temporary file.
unfoldable pub ops_on : Disk → Str → Str → Content → List FileOp
ops_on works tmp path content = write_ops tmp path content
ops_on (open_fails e) tmp path content = []
ops_on (dump_fails e) tmp path content = failed_ops tmp
ops_on (replace_fails e) tmp path content = create tmp ∷ write tmp content ∷ []

-- The exception of a disk that fails.
abbrev pub IsFailing : Disk → Exc → Type 0
IsFailing disk e = (disk ≡ open_fails e) ⊎ (disk ≡ dump_fails e) ⊎ (disk ≡ replace_fails e)

module _ (E : Env) where
  abbrev failed_at : Disk → Exc → Str → FileData → Py (Unit {0})
  failed_at disk e path data' s = (
    err e,
    record s {
      files =
          run_ops (ops_on disk (tmp_path E.pid path (E.urandom s.drawn 6)) path (json data'))
            s.files;
      drawn = s.drawn + 1;
    },
  )

  unfoldable pub write_on : Disk → Str → FileData → Py (Unit {0})
  unfolding ops_on
  write_on works path data' = write_json_secure E path data'
  write_on (open_fails e) path data' = failed_at (open_fails e) e path data'
  write_on (dump_fails e) path data' = failed_at (dump_fails e) e path data'
  write_on (replace_fails e) path data' = failed_at (replace_fails e) e path data'

  unfoldable pub save_cache_on : Disk → Dict Str → Py (Unit {0})
  unfolding write_on
  save_cache_on disk cache s = elim s.keystore.kek [
    | none ↦ (ok tt, s)
    | some kek ↦
        (do
          let payload = encode (E.dumps cache)
          sealed ← Aead.encrypt E kek payload cache_aad
          path ← gets cache_path
          write_on disk path (record blank {
            version = some 1;
            nonce = some (b64encode sealed.0);
            ciphertext = some (b64encode sealed.1);
          }))
          s
  ]

  unfoldable pub resave_on : Disk → Dict Str → Py (Unit {0})
  unfolding save_cache_on
  resave_on disk [] = pure tt
  resave_on disk (entry ∷ cache) = save_cache_on disk (entry ∷ cache)

  -- `change_password`, with what the disk does when the keystore's file and when the cache is
  -- written
  unfoldable pub change_password_on : (keys cache : Disk) → Str → Str → Py (Unit {0})
  unfolding write_on resave_on
  change_password_on keys_disk cache_disk old_password new_password = do
    data' ← load
    salt ← stored data'.salt
    let old_kek = derive_kek E old_password salt
    nonce ← stored data'.nonce
    ciphertext ← stored data'.ciphertext
    plaintext ← Aead.decrypt E old_kek nonce ciphertext keystore_aad
    let new_kek = derive_kek E new_password salt
    sealed ← Aead.encrypt E new_kek plaintext keystore_aad
    path ← gets (λ s. s.keystore.path)
    write_on keys_disk path
        (record data' { nonce = some (b64encode sealed.0); ciphertext = some (b64encode sealed.1) })
    set_kek new_kek
    set_keys plaintext
    cache ← decrypt_cache E (some old_kek)
    resave_on cache_disk cache
