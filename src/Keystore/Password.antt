-- ===== src/Keystore/Password.antt =====
-- `change_password` of client/src/crypto/keystore.py: the keys and the cache under a new password.
use cs4455_epic.Base.{ℕ, ◌+◌, ◌≡◌, ◌≢◌, refl, ◌∙◌, sym, ap, some, [], ◌∷◌, ◌++◌, arith}
use cs4455_epic.Base.Dict.{Dict, lookup}
use cs4455_epic.Base.Text.{Str, Bytes, lit, str_eq_iff}
use cs4455_epic.Codec.Base64.{b64encode, b64decode-b64encode}
use cs4455_epic.Codec.Decimal.{show_ℕ-cons}
use cs4455_epic.Errors.{Result, ok}
use cs4455_epic.Env.{Env, IsLawful}
use cs4455_epic.Py.{FileData, State}
use cs4455_epic.Crypto.Kdf.{derive_kek}
use cs4455_epic.Crypto.Aead
use cs4455_epic.Crypto.Wire.{decode_text}
use cs4455_epic.Keystore.{
  keystore_aad, split_keys, cache_path, decrypt_cache, load_message_cache, resave_cache,
  change_password, unlock, private_keys,
}
use cs4455_epic.Keystore.Files.{save, load, tmp_path}
use cs4455_epic.Keystore.Atomic.{save_frame, lookup-write_json_secure}
use cs4455_epic.Keystore.Loading.{Holds, Holds-save, Holds-version}
use cs4455_epic.Keystore.Cache.{
  decrypt_cache_safe, decrypt_cache_same, saved_keystore, save_message_cache-ok, Holds-saved,
  load-save_message_cache, cache_path-ne,
}
use cs4455_epic.Keystore.Unlocking.{Opens, length-derive_kek, unlock-Opens}

append_left : (p x y : Str) → p ++ x ≡ p ++ y → x ≡ y
append_left [] x y h = h
append_left (c ∷ p) x y h = append_left p x y (ground arith)

second : Str → ℕ
second (a ∷ b ∷ rest) = b
second _ = 0

-- The temporary name of the keystore is not the name of the cache.
keystore_tmp-ne :
    (pid : ℕ) (random : Bytes) (s : State) → tmp_path pid s.keystore.path random ≢ cache_path s
unfolding tmp_path cache_path second
keystore_tmp-ne pid random s h =
    let (c, rest, e, d) = show_ℕ-cons pid in
    let tail = append_left s.keystore.path _ _ h in
    absurd (omega (arith, d, ap second (rw e at tail)))

module _ (E : Env) (L : IsLawful E) (old_password new_password : Str) (d : FileData)
    (plaintext : Bytes) (s : State) (holds : Holds s d) (o : Opens E old_password d plaintext) where
  abbrev pub old_kek : Bytes
  old_kek = derive_kek E old_password o.salt

  abbrev pub new_kek : Bytes
  new_kek = derive_kek E new_password o.salt

  -- The file after the change: nonce and ciphertext are new, all else stays.
  abbrev pub rewrapped : FileData
  rewrapped = record d {
    nonce = some (b64encode (E.urandom s.drawn 12));
    ciphertext =
        some (b64encode (E.aesgcm_encrypt new_kek (E.urandom s.drawn 12) plaintext keystore_aad));
  }

  abbrev pub rewritten : State
  rewritten = (save E rewrapped (record s { drawn = s.drawn + 1 })).1

  -- The state in which the message cache is written again.
  abbrev pub rekeyed : State
  rekeyed = record rewritten {
    keystore = record rewritten.keystore { kek = some new_kek; keys = some (split_keys plaintext) };
  }

  change_password-eq :
      (c : Dict Str)
      → decrypt_cache E (some old_kek) rekeyed ≡ (ok c, rekeyed)
      → change_password E old_password new_password s ≡ resave_cache E c rekeyed
  unfolding change_password Aead.decrypt Aead.encrypt decode_text
  change_password-eq c h = ground (
    arith,
    length-derive_kek E L old_password o.salt,
    length-derive_kek E L new_password o.salt,
    save_frame E rewrapped (record s { drawn = s.drawn + 1 }),
  )

  pub Holds-rekeyed : Holds rekeyed rewrapped
  unfolding load
  Holds-rekeyed =
      ground
        (arith, Holds-save E rewrapped (record s { drawn = s.drawn + 1 }) (Holds-version s d holds))

  pub Opens-rewrapped : Opens E new_password rewrapped plaintext
  Opens-rewrapped = record {
    salt = o.salt;
    nonce = E.urandom s.drawn 12;
    ciphertext = E.aesgcm_encrypt new_kek (E.urandom s.drawn 12) plaintext keystore_aad;
    salt_text = o.salt_text;
    nonce_text = refl;
    ciphertext_text = refl;
    salt_read = o.salt_read;
    nonce_read = b64decode-b64encode _ (L.urandom_bytes _ _);
    ciphertext_read = b64decode-b64encode _ (L.encrypt_bytes _ _ _ _);
    opened =
        L.decrypt-encrypt new_kek (E.urandom s.drawn 12) plaintext keystore_aad
          (length-derive_kek E L new_password o.salt);
  }

  -- What a change leaves, whatever the cache held.
  record IsChanged (r : Result (Unit {0}) × State) : Type 0 where
    succeeds : r.0 ≡ ok tt
    held : Holds r.1 rewrapped
    unlocked : r.1.keystore ≡ rekeyed.keystore

  resave-IsChanged : (c : Dict Str) → IsChanged (resave_cache E c rekeyed)
  unfolding resave_cache
  resave-IsChanged [] = record { succeeds = refl; held = Holds-rekeyed; unlocked = refl }
  resave-IsChanged (x ∷ c) =
      let size = length-derive_kek E L new_password o.salt in
      record {
        succeeds = save_message_cache-ok E rekeyed new_kek (x ∷ c) refl size;
        held = Holds-saved E rekeyed new_kek (x ∷ c) refl size rewrapped Holds-rekeyed;
        unlocked = saved_keystore E rekeyed new_kek (x ∷ c) refl size;
      }

  abbrev changed : Result (Unit {0}) × State
  changed = change_password E old_password new_password s

  changed-IsChanged : IsChanged changed
  changed-IsChanged =
      let (c, e) = decrypt_cache_safe E rekeyed (some old_kek) in
      rw (change_password-eq c e) (resave-IsChanged c)

  -- Changing the password of a keystore that opens under the old one succeeds. It replaces nonce
  -- and ciphertext of the file and nothing else in it, and a later unlock with the new password
  -- gives the same private keys.
  pub change_password_keeps_keys :
      (changed.0 ≡ ok tt)
      × Holds changed.1 rewrapped
      × ((unlock E new_password changed.1).0 ≡ ok tt)
      × ((private_keys (unlock E new_password changed.1).1).0 ≡ ok (split_keys plaintext))
  unfolding private_keys
  change_password_keeps_keys =
      let c = changed-IsChanged in
      let u = unlock-Opens E L new_password rewrapped plaintext changed.1 c.held Opens-rewrapped in
      (c.succeeds, c.held, ap (λ r. r.0) u, ground (arith, u))

  rekeyed-cache_path : cache_path rekeyed ≡ cache_path s
  unfolding cache_path
  rekeyed-cache_path = ap (λ k. k.path ++ lit ".msgcache") (save_frame E rewrapped _).1

  lookup-rekeyed_cache : lookup (cache_path rekeyed) rekeyed.files ≡ lookup (cache_path s) s.files
  unfolding save
  lookup-rekeyed_cache =
      let tmp = tmp_path E.pid s.keystore.path (E.urandom (s.drawn + 1) 6) in
      ground (
        arith,
        rekeyed-cache_path,
        lookup-write_json_secure E s.keystore.path rewrapped (record s { drawn = s.drawn + 1 })
            (cache_path s),
        str_eq_iff s.keystore.path (cache_path s),
        cache_path-ne s,
        str_eq_iff tmp (cache_path s),
        keystore_tmp-ne E.pid (E.urandom (s.drawn + 1) 6) s,
      )

  decrypt_cache-rekeyed :
      (c : Dict Str)
      → decrypt_cache E (some old_kek) s ≡ (ok c, s)
      → decrypt_cache E (some old_kek) rekeyed ≡ (ok c, rekeyed)
  decrypt_cache-rekeyed c h = decrypt_cache_same E s rekeyed lookup-rekeyed_cache (some old_kek) c h

  -- A message cache that the old password's key opened, and that is not empty, is read unchanged
  -- after the password was changed.
  pub change_password_keeps_cache :
      (x : Str × Str) (c : Dict Str)
      → s.keystore.kek ≡ some old_kek
      → load_message_cache E s ≡ (ok (x ∷ c), s)
      → load_message_cache E changed.1 ≡ (ok (x ∷ c), changed.1)
  unfolding load_message_cache resave_cache
  change_password_keeps_cache x c h loaded =
      let before : decrypt_cache E (some old_kek) s ≡ (ok (x ∷ c), s) =
        ap (λ k. decrypt_cache E k s) (sym h) ∙ loaded in
      let after = change_password-eq (x ∷ c) (decrypt_cache-rekeyed (x ∷ c) before) in
      rw after (
        load-save_message_cache E rekeyed new_kek (x ∷ c) refl
          (length-derive_kek E L new_password o.salt) L)
