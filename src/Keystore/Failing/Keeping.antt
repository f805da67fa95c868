-- ===== src/Keystore/Failing/Keeping.antt =====
-- `change_password` of client/src/crypto/keystore.py on a disk that may fail: which password opens
-- the keystore afterwards.
use cs4455_epic.Base.{
  ◌+◌, ◌≡◌, ◌≢◌, refl, ap, sym, ◌∙◌, length, some, [], ◌∷◌, ◌⊎◌, inl, inr, arith,
}
use cs4455_epic.Base.Dict.{Dict, lookup, insert, lookup-insert, lookup-erase}
use cs4455_epic.Base.Text.{Str, Bytes, str_eq_iff}
use cs4455_epic.Errors.{Exc, Result, ok, err}
use cs4455_epic.Env.{Env, IsLawful}
use cs4455_epic.Py.{FileData, Content, json, other, State}
use cs4455_epic.Crypto.Aead as Aead
use cs4455_epic.Crypto.Wire.{decode_text}
use cs4455_epic.Keystore.{
  split_keys, cache_path, decrypt_cache, save_message_cache, unlock, private_keys,
}
use cs4455_epic.Keystore.Files.{save, load, tmp_path, run_ops}
use cs4455_epic.Keystore.Atomic.{save_frame, tmp_path-ne}
use cs4455_epic.Keystore.Loading.{Holds}
use cs4455_epic.Keystore.Cache.{
  decrypt_cache_safe, save_message_cache-ok, save_message_cache-eq, blob, drawn_once, Holds-saved,
  cache_tmp-ne,
}
use cs4455_epic.Keystore.Unlocking.{Opens, length-derive_kek, unlock-Opens}
use cs4455_epic.Keystore.Password.{
  old_kek, new_kek, rewrapped, rekeyed, Holds-rekeyed, Opens-rewrapped,
}
use cs4455_epic.Keystore.Failing.{
  Disk, works, open_fails, dump_fails, replace_fails, ops_on, write_on, save_cache_on, resave_on,
  change_password_on,
}

-- A write that fails changes the temporary file alone.
lookup-ops_on :
    (disk : Disk) (tmp path j : Str) (content : Content) (files : Dict Content)
    → disk ≢ works
    → tmp ≢ j
    → lookup j (run_ops (ops_on disk tmp path content) files) ≡ lookup j files
unfolding run_ops ops_on
lookup-ops_on works tmp path j content files fails apart = absurd (fails refl)
lookup-ops_on (open_fails e) tmp path j content files fails apart = refl
lookup-ops_on (dump_fails e) tmp path j content files fails apart =
    let begun = insert tmp other files in
    ground (
      arith,
      lookup-erase tmp j (insert tmp other begun),
      lookup-insert tmp j other begun,
      lookup-insert tmp j other files,
      str_eq_iff tmp j,
    )
lookup-ops_on (replace_fails e) tmp path j content files fails apart = ground (
  arith,
  lookup-insert tmp j content (insert tmp other files),
  lookup-insert tmp j other files,
  str_eq_iff tmp j,
)

Holds-files :
    (s t : State) (d : FileData)
    → t.keystore.path ≡ s.keystore.path
    → lookup s.keystore.path t.files ≡ lookup s.keystore.path s.files
    → Holds s d
    → Holds t d
unfolding load
Holds-files s t d path same h = ground arith

-- What a write that fails leaves.
record IsFailed (E : Env) (path : Str) (s : State) (r : Result (Unit {0}) × State) : Type 0 where
  exception : Exc
  raised : r.0 ≡ err exception
  keystore : r.1.keystore ≡ s.keystore
  others :
      (j : Str)
      → tmp_path E.pid path (E.urandom s.drawn 6) ≢ j
      → lookup j r.1.files ≡ lookup j s.files

write_on-IsFailed :
    (E : Env) (disk : Disk) (path : Str) (d : FileData) (s : State)
    → disk ≢ works
    → IsFailed E path s (write_on E disk path d s)
unfolding write_on
write_on-IsFailed E works path d s fails = absurd (fails refl)
write_on-IsFailed E (open_fails e) path d s fails = record {
  exception = e;
  raised = refl;
  keystore = refl;
  others = λ j apart. lookup-ops_on (open_fails e) _ path j (json d) s.files fails apart;
}
write_on-IsFailed E (dump_fails e) path d s fails = record {
  exception = e;
  raised = refl;
  keystore = refl;
  others = λ j apart. lookup-ops_on (dump_fails e) _ path j (json d) s.files fails apart;
}
write_on-IsFailed E (replace_fails e) path d s fails = record {
  exception = e;
  raised = refl;
  keystore = refl;
  others = λ j apart. lookup-ops_on (replace_fails e) _ path j (json d) s.files fails apart;
}

works-cases : (disk : Disk) → (disk ≡ works) ⊎ (disk ≢ works)
works-cases works = inl refl
works-cases (open_fails e) = inr (λ h. ground arith)
works-cases (dump_fails e) = inr (λ h. ground arith)
works-cases (replace_fails e) = inr (λ h. ground arith)

module _ (E : Env) (L : IsLawful E) (plaintext : Bytes) where
  -- The password opens the keystore to these private keys.
  abbrev pub OpensTo : Str → State → Type 0
  OpensTo password s =
      ((unlock E password s).0 ≡ ok tt)
      × ((private_keys (unlock E password s).1).0 ≡ ok (split_keys plaintext))

  Opens-OpensTo :
      (password : Str) (d : FileData) (s : State)
      → Holds s d
      → Opens E password d plaintext
      → OpensTo password s
  unfolding private_keys
  Opens-OpensTo password d s h o =
      let u = unlock-Opens E L password d plaintext s h o in (ap (λ r. r.0) u, ground (arith, u))

  -- How the change ends: complete; with the old file, where writing it failed; or with the new file,
  -- where writing the cache failed.
  pub data Ended (keys_disk cache_disk : Disk) (old new : Str) (r : Result (Unit {0}) × State)
      : Type 0 where
    finished : r.0 ≡ ok tt → OpensTo new r.1 → Ended keys_disk cache_disk old new r
    not_written :
        (e : Exc)
        → r.0 ≡ err e
        → keys_disk ≢ works
        → OpensTo old r.1
        → Ended keys_disk cache_disk old new r
    cache_not_written :
        (e : Exc)
        → r.0 ≡ err e
        → cache_disk ≢ works
        → OpensTo new r.1
        → Ended keys_disk cache_disk old new r

  save_cache_on-eq :
      (disk : Disk) (kek : Bytes) (c : Dict Str) (s : State)
      → s.keystore.kek ≡ some kek
      → length kek ≡ 32
      → save_cache_on E disk c s ≡ write_on E disk (cache_path s) (blob E s kek c) (drawn_once E s)
  unfolding save_cache_on Aead.encrypt cache_path
  save_cache_on-eq disk kek c s unlocked size = ground arith

  module _ (old new : Str) (d : FileData) (s : State) (holds : Holds s d)
      (o : Opens E old d plaintext) where
    abbrev at_cache : State
    at_cache = rekeyed E L old new d plaintext s holds o

    abbrev kek : Bytes
    kek = new_kek E L old new d plaintext s holds o

    size : length kek ≡ 32
    size = length-derive_kek E L new o.salt

    new_opens : (t : State) → Holds t (rewrapped E L old new d plaintext s holds o) → OpensTo new t
    new_opens t h =
        Opens-OpensTo new (rewrapped E L old new d plaintext s holds o) t h
          (Opens-rewrapped E L old new d plaintext s holds o)

    rekeyed_holds : Holds at_cache (rewrapped E L old new d plaintext s holds o)
    rekeyed_holds = Holds-rekeyed E L old new d plaintext s holds o

    resave_on-Ended :
        (keys_disk cache_disk : Disk) (c : Dict Str)
        → Ended keys_disk cache_disk old new (resave_on E cache_disk c at_cache)
    unfolding resave_on
    resave_on-Ended keys_disk cache_disk [] = finished refl (new_opens at_cache rekeyed_holds)
    resave_on-Ended keys_disk cache_disk (x ∷ c) = elim (works-cases cache_disk) [
      | inl fine ↦
          let same : save_cache_on E cache_disk (x ∷ c) at_cache
              ≡ save_message_cache E (x ∷ c) at_cache =
            rw fine (saved_on (x ∷ c)) in
          rw same (
            finished (save_message_cache-ok E at_cache kek (x ∷ c) refl size) (
              new_opens (save_message_cache E (x ∷ c) at_cache).1
                (Holds-saved E at_cache kek (x ∷ c) refl size _ rekeyed_holds)))
      | inr fails ↦
          let once = drawn_once E at_cache in
          let cached = blob E at_cache kek (x ∷ c) in
          let left = write_on-IsFailed E cache_disk (cache_path at_cache) cached once fails in
          let after = (write_on E cache_disk (cache_path at_cache) cached once).1 in
          rw (save_cache_on-eq cache_disk kek (x ∷ c) at_cache refl size) (
            cache_not_written left.exception left.raised fails (
              new_opens after (
                Holds-files at_cache after _ (ap (λ k. k.path) left.keystore)
                  (left.others at_cache.keystore.path (cache_tmp-ne E.pid _ at_cache))
                  rekeyed_holds)))
    ]
      where
        saved_on :
            (c : Dict Str) → save_cache_on E works c at_cache ≡ save_message_cache E c at_cache
        saved_on c =
            save_cache_on-eq works kek c at_cache refl size
            ∙ sym (save_message_cache-eq E at_cache kek c refl size)

    working_eq :
        (cache_disk : Disk) (c : Dict Str)
        → decrypt_cache E (some (old_kek E L old new d plaintext s holds o)) at_cache
          ≡ (ok c, at_cache)
        → change_password_on E works cache_disk old new s ≡ resave_on E cache_disk c at_cache
    unfolding change_password_on write_on save Aead.decrypt Aead.encrypt decode_text
    working_eq cache_disk c h = ground (
      arith,
      length-derive_kek E L old o.salt,
      size,
      save_frame E (rewrapped E L old new d plaintext s holds o) (record s { drawn = s.drawn + 1 }),
    )

    failing_eq :
        (keys_disk cache_disk : Disk) (e : Exc)
        → (write_on E keys_disk s.keystore.path
            (rewrapped E L old new d plaintext s holds o)
            (record s { drawn = s.drawn + 1 })).0
          ≡ err e
        → change_password_on E keys_disk cache_disk old new s ≡ (
          err e,
          (write_on E keys_disk s.keystore.path
              (rewrapped E L old new d plaintext s holds o)
              (record s { drawn = s.drawn + 1 })).1,
        )
    unfolding change_password_on Aead.decrypt Aead.encrypt decode_text
    failing_eq keys_disk cache_disk e h = ground (arith, length-derive_kek E L old o.salt, size)

    -- Whatever the disk does: the change ends, and either password, as said, opens the keystore to
    -- the same private keys.
    pub change_password_on-Ended :
        (keys_disk cache_disk : Disk)
        → Ended keys_disk cache_disk old new (change_password_on E keys_disk cache_disk old new s)
    change_password_on-Ended keys_disk cache_disk = elim (works-cases keys_disk) [
      | inl fine ↦
          let (c, e) =
            decrypt_cache_safe E at_cache (some (old_kek E L old new d plaintext s holds o)) in
          rw fine (rw (working_eq cache_disk c e) (resave_on-Ended works cache_disk c))
      | inr fails ↦
          let once = record s { drawn = s.drawn + 1 } in
          let data' = rewrapped E L old new d plaintext s holds o in
          let left = write_on-IsFailed E keys_disk s.keystore.path data' once fails in
          let after = (write_on E keys_disk s.keystore.path data' once).1 in
          rw (failing_eq keys_disk cache_disk left.exception left.raised) (
            not_written left.exception refl fails (
              Opens-OpensTo old d after
                (Holds-files s after d (ap (λ k. k.path) left.keystore)
                  (left.others s.keystore.path (tmp_path-ne E.pid s.keystore.path _)) holds)
                o))
    ]
