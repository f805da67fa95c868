-- ===== src/Keystore/Cache.antt =====
-- The message cache of client/src/crypto/keystore.py: `_decrypt_cache`, `load_message_cache` and
-- `save_message_cache`.
use cs4455_epic.Base.{
  ℕ, ◌+◌, ◌≡◌, ◌≢◌, refl, ◌∙◌, ap, ◌++◌, inl, inr, Bool-cases, Option, some, none, [], arith,
  length, length-append, if◌then◌else◌,
}
use cs4455_epic.Base.Dict.{Dict, lookup, is_some}
use cs4455_epic.Base.Text.{Str, Bytes, lit, str_eq, str_eq_iff, str_eq_refl}
use cs4455_epic.Codec.Base64.{b64encode, b64decode-b64encode}
use cs4455_epic.Codec.Utf8.{encode, decode-encode}
use cs4455_epic.Errors.{Result-cases, ok}
use cs4455_epic.Env.{Env, IsLawful}
use cs4455_epic.Py.{FileData, json, State}
use cs4455_epic.Crypto.Aead
use cs4455_epic.Crypto.Wire.{decode_text}
use cs4455_epic.Keystore.{
  cache_aad, cache_path, read_cache, decrypt_cache, load_message_cache, write_cache,
  save_message_cache,
}
use cs4455_epic.Keystore.Files.{blank, read_json, parsed, write_json_secure, tmp_path, load}
use cs4455_epic.Keystore.Atomic.{lookup-write_json_secure, write_frame}
use cs4455_epic.Keystore.Loading.{Holds}

module _ (E : Env) (s : State) where
  read_cache_state : (kek : Bytes) → (read_cache E kek s).1 ≡ s
  unfolding read_cache read_json Aead.decrypt
  read_cache_state kek = ground arith

  pub decrypt_cache_safe :
      (kek : Option Bytes) → (c : Dict Str) × (decrypt_cache E kek s ≡ (ok c, s))
  unfolding decrypt_cache
  decrypt_cache_safe none = ([], refl)
  decrypt_cache_safe (some kek) = elim (Bool-cases (is_some (lookup (cache_path s) s.files))) [
    | inr missing ↦ ([], rw missing)
    | inl there ↦ elim (Result-cases (read_cache E kek s).0) [
      | inl (c, h) ↦ (c, ground (arith, read_cache_state kek))
      | inr (e, h) ↦ ([], ground (arith, read_cache_state kek))
    ]
  ]

  -- Loading the cache never raises and never changes anything: whatever is wrong with the file
  -- or the key, the result is some dict.
  pub load_message_cache_safe : (c : Dict Str) × (load_message_cache E s ≡ (ok c, s))
  unfolding load_message_cache
  load_message_cache_safe = decrypt_cache_safe s.keystore.kek

  -- The encrypted blob that a save writes.
  abbrev pub blob : Bytes → Dict Str → FileData
  blob kek c = record blank {
    version = some 1;
    nonce = some (b64encode (E.urandom s.drawn 12));
    ciphertext =
        some
          (b64encode (E.aesgcm_encrypt kek (E.urandom s.drawn 12) (encode (E.dumps c)) cache_aad));
  }

  abbrev pub drawn_once : State
  drawn_once = record s { drawn = s.drawn + 1 }

  pub save_message_cache-eq :
      (kek : Bytes) (c : Dict Str)
      → s.keystore.kek ≡ some kek
      → length kek ≡ 32
      → save_message_cache E c s ≡ write_json_secure E (cache_path s) (blob kek c) drawn_once
  unfolding save_message_cache write_cache Aead.encrypt cache_path
  save_message_cache-eq kek c h size = ground arith

module _ (E : Env) (s t : State)
    (same : lookup (cache_path t) t.files ≡ lookup (cache_path s) s.files) where
  read_cache_same : (kek : Bytes) → (read_cache E kek t).0 ≡ (read_cache E kek s).0
  unfolding read_cache read_json Aead.decrypt
  read_cache_same kek = ground arith

  -- What the cache decrypts to depends on its file and the key alone.
  pub decrypt_cache_same :
      (kek : Option Bytes) (c : Dict Str)
      → decrypt_cache E kek s ≡ (ok c, s)
      → decrypt_cache E kek t ≡ (ok c, t)
  unfolding decrypt_cache
  decrypt_cache_same none c h = ground arith
  decrypt_cache_same (some kek) c h =
      ground (arith, read_cache_same kek, read_cache_state E s kek, read_cache_state E t kek)

-- The name of the cache is not that of the keystore, and its temporary name is not either.
pub cache_path-ne : (s : State) → cache_path s ≢ s.keystore.path
unfolding cache_path
cache_path-ne s h =
    absurd (omega (arith, ap length h, length-append s.keystore.path (lit ".msgcache")))

pub cache_tmp-ne :
    (pid : ℕ) (random : Bytes) (s : State) → tmp_path pid (cache_path s) random ≢ s.keystore.path
unfolding cache_path tmp_path
cache_tmp-ne pid random s h = absurd (
    omega (
      arith,
      ap length h,
      length-append (s.keystore.path ++ lit ".msgcache") _,
      length-append s.keystore.path (lit ".msgcache"),
    ))

module _ (E : Env) (s : State) (kek : Bytes) (c : Dict Str) (unlocked : s.keystore.kek ≡ some kek)
    (size : length kek ≡ 32) where
  abbrev saved : State
  saved = (save_message_cache E c s).1

  pub saved_keystore : saved.keystore ≡ s.keystore
  saved_keystore = ground (
    arith,
    save_message_cache-eq E s kek c unlocked size,
    write_frame E (cache_path s) (blob E s kek c) (drawn_once E s),
  )

  pub save_message_cache-ok : (save_message_cache E c s).0 ≡ ok tt
  save_message_cache-ok =
      ap (λ r. r.0) (save_message_cache-eq E s kek c unlocked size)
      ∙ (write_frame E (cache_path s) (blob E s kek c) (drawn_once E s)).0

  lookup-saved :
      (j : Str)
      → lookup j saved.files ≡ (
          if str_eq (cache_path s) j
          then some (json (blob E s kek c))
          else if str_eq (tmp_path E.pid (cache_path s) (E.urandom (s.drawn + 1) 6)) j
          then none
          else lookup j s.files)
  lookup-saved j =
      ap (λ r. lookup j r.1.files) (save_message_cache-eq E s kek c unlocked size)
      ∙ lookup-write_json_secure E (cache_path s) (blob E s kek c) (drawn_once E s) j

  -- Saving the cache leaves the keystore's own file alone.
  pub Holds-saved : (d : FileData) → Holds s d → Holds saved d
  unfolding load
  Holds-saved d h =
      let tmp = tmp_path E.pid (cache_path s) (E.urandom (s.drawn + 1) 6) in
      ground (
        arith,
        saved_keystore,
        lookup-saved s.keystore.path,
        str_eq_iff (cache_path s) s.keystore.path,
        cache_path-ne s,
        str_eq_iff tmp s.keystore.path,
        cache_tmp-ne E.pid (E.urandom (s.drawn + 1) 6) s,
      )

  saved_path : cache_path saved ≡ cache_path s
  unfolding cache_path
  saved_path = ap (λ k. k.path ++ lit ".msgcache") saved_keystore

  lookup-saved_cache : lookup (cache_path saved) saved.files ≡ some (json (blob E s kek c))
  lookup-saved_cache =
      ap (λ p. lookup p saved.files) saved_path
      ∙ lookup-saved (cache_path s)
      ∙ rw (str_eq_refl (cache_path s))

  read-saved_cache : IsLawful E → read_cache E kek saved ≡ (ok c, saved)
  unfolding read_cache read_json parsed Aead.decrypt decode_text
  read-saved_cache L = ground (
    arith,
    lookup-saved_cache,
    b64decode-b64encode (E.urandom s.drawn 12) (L.urandom_bytes s.drawn 12),
    b64decode-b64encode (E.aesgcm_encrypt kek (E.urandom s.drawn 12) (encode (E.dumps c)) cache_aad)
        (L.encrypt_bytes _ _ _ _),
    L.decrypt-encrypt kek (E.urandom s.drawn 12) (encode (E.dumps c)) cache_aad size,
    decode-encode (E.dumps c) (L.dumps_scalars c),
    L.loads-dumps c,
  )

  -- What was saved with an unlocked keystore is loaded again.
  pub load-save_message_cache : IsLawful E → load_message_cache E saved ≡ (ok c, saved)
  unfolding load_message_cache decrypt_cache
  load-save_message_cache L = ground (arith, saved_keystore, lookup-saved_cache, read-saved_cache L)
