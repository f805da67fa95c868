-- ===== src/Tests/KeystoreRuns.antt =====
-- The theorems on the keystore at concrete inputs.
use cs4455_epic.Base.{
  ◌≡◌, ◌≢◌, refl, sym, ap, ◌∙◌, ◌⊎◌, none, some, map, List, [], ◌∷◌, ◌++◌, arith, take, length,
}
use cs4455_epic.Base.Int.{pos}
use cs4455_epic.Base.Dict.{Dict, lookup}
use cs4455_epic.Base.Text.{Str, Bytes, lit, str_eq}
use cs4455_epic.Codec.Base64.{b64encode, b64decode, b64decode-b64encode}
use cs4455_epic.Codec.Utf8.{encode, encode_char}
use cs4455_epic.Errors.{ok, err, invalid_tag}
use cs4455_epic.Env.Toy.{replicate}
use cs4455_epic.Py.{FileData, Content, json, PrivateKeys, State}
use cs4455_epic.Crypto.Kdf.{derive_kek, argon2id_raw}
use cs4455_epic.Keystore.{
  keystore_aad, archive_info, split_keys, create, unlock, private_keys, public_keys, archive_key,
  change_password, save_message_cache, load_message_cache,
}
use cs4455_epic.Keystore.Files.{blank, run_ops, write_ops, load, parsed}
use cs4455_epic.Keystore.Loading.{Holds}
use cs4455_epic.Keystore.Atomic.{write_ops_atomic, save_frame}
use cs4455_epic.Keystore.Counters.{
  numbers, numbers_consecutive, count_from, occurrences, sent_count,
}
use cs4455_epic.Keystore.Cache.{load-save_message_cache, saved_keystore, Holds-saved}
use cs4455_epic.Keystore.Unlocking.{
  Opens, length-derive_kek, unlock-create, unlock_wrong_password, made_x, made_ed, made_data,
  half_made, create-eq, Holds-create, create-Opens, salt-create-Opens,
}
use cs4455_epic.Keystore.Password.{
  rewrapped, change_password_keeps_keys, change_password_keeps_cache,
}
use cs4455_epic.Keystore.Refinement.{
  Call, keystore_answers, book_answers, book_of, keystore_refines_book,
}
use cs4455_epic.Tests.Data.{env, env-IsLawful, new_client, some_file, with_file}

abbrev bob : Str
bob = lit "bob"

abbrev ann : Str
ann = lit "ann"

abbrev x_type : Str
x_type = lit "x25519"

with_file-Holds : Holds with_file some_file
unfolding load lookup str_eq parsed
with_file-Holds = refl

numbers_consecutive_example :
    numbers env bob (bob ∷ ann ∷ bob ∷ []) with_file
    ≡ count_from (occurrences bob (bob ∷ ann ∷ bob ∷ [])) (sent_count bob some_file)
numbers_consecutive_example =
    numbers_consecutive env bob (bob ∷ ann ∷ bob ∷ []) with_file some_file with_file-Holds

abbrev files : Dict Content
files = (lit "keys", json some_file) ∷ []

apart : lit "keys.tmp" ≢ lit "keys"
apart h = absurd (omega (arith, ap length h))

write_ops_atomic_example :
    (lookup
        (lit "keys")
        (run_ops (take 2 (write_ops (lit "keys.tmp") (lit "keys") (json blank))) files)
      ≡ lookup (lit "keys") files)
    ⊎ (lookup
          (lit "keys")
          (run_ops (take 2 (write_ops (lit "keys.tmp") (lit "keys") (json blank))) files)
        ≡ some (json blank))
write_ops_atomic_example = write_ops_atomic (lit "keys.tmp") (lit "keys") (json blank) apart files 2

abbrev one_text : Dict Str
one_text = (lit "m1", lit "hello") ∷ []

load-save_message_cache_example :
    load_message_cache env (save_message_cache env one_text with_file).1
    ≡ (ok one_text, (save_message_cache env one_text with_file).1)
load-save_message_cache_example =
    load-save_message_cache env with_file (replicate 32 8) one_text refl refl env-IsLawful

abbrev word : Str
word = lit "secret"

no_file : lookup (lit "keys") new_client.files ≡ none
unfolding lookup
no_file = refl

unlock-create_example :
    (keys : PrivateKeys) × ((create env word new_client).0 ≡ ok tt)
    × ((unlock env word (create env word new_client).1).0 ≡ ok tt)
    × ((private_keys (unlock env word (create env word new_client).1).1).0 ≡ ok keys)
    × ((public_keys (unlock env word (create env word new_client).1).1).0
        ≡ ok (
            (lit "x25519", b64encode (env.x25519_public keys.x25519))
            ∷ (lit "ed25519", b64encode (env.ed25519_public keys.ed25519))
            ∷ []))
unlock-create_example = unlock-create env env-IsLawful word new_client no_file

-- A keystore that was made under `word`.
abbrev created : State
created = (create env word new_client).1

abbrev made : FileData
made = made_data env env-IsLawful word new_client

abbrev both_keys : Bytes
both_keys = made_x env env-IsLawful new_client ++ made_ed env env-IsLawful new_client

created-Holds : Holds created made
created-Holds = Holds-create env env-IsLawful word new_client no_file

abbrev created-Opens : Opens env word made both_keys
created-Opens = create-Opens env env-IsLawful word new_client

abbrev new_file : FileData
new_file =
    rewrapped env env-IsLawful word (lit "better") made both_keys created created-Holds
      created-Opens

change_password_keeps_keys_example :
    ((change_password env word (lit "better") created).0 ≡ ok tt)
    × Holds (change_password env word (lit "better") created).1 new_file
    × ((unlock env (lit "better") (change_password env word (lit "better") created).1).0 ≡ ok tt)
    × ((private_keys
          (unlock env (lit "better") (change_password env word (lit "better") created).1).1).0
        ≡ ok (split_keys both_keys))
change_password_keeps_keys_example =
    change_password_keeps_keys env env-IsLawful word (lit "better") made both_keys created
      created-Holds created-Opens

abbrev kek : Bytes
kek = derive_kek env word created-Opens.salt

created_kek : created.keystore.kek ≡ some kek
created_kek =
    ap (λ r. r.1.keystore.kek) (create-eq env env-IsLawful word new_client no_file)
    ∙ ap (λ k. k.kek) (save_frame env made (half_made env env-IsLawful word new_client)).1
    ∙ ap (λ x. some (derive_kek env word x))
        (sym (salt-create-Opens env env-IsLawful word new_client))

kek_size : length kek ≡ 32
kek_size = length-derive_kek env env-IsLawful word created-Opens.salt

abbrev with_cache : State
with_cache = (save_message_cache env one_text created).1

with_cache-Holds : Holds with_cache made
with_cache-Holds = Holds-saved env created kek one_text created_kek kek_size made created-Holds

change_password_keeps_cache_example :
    load_message_cache env (change_password env word (lit "better") with_cache).1
    ≡ (ok one_text, (change_password env word (lit "better") with_cache).1)
change_password_keeps_cache_example =
    change_password_keeps_cache env env-IsLawful word (lit "better") made both_keys with_cache
      with_cache-Holds created-Opens (lit "m1", lit "hello") []
      (ap (λ k. k.kek) (saved_keystore env created kek one_text created_kek kek_size) ∙ created_kek)
      (load-save_message_cache env created kek one_text created_kek kek_size env-IsLawful)

-- A keystore whose ciphertext no password opens.
abbrev zeros : Bytes
zeros = replicate 3 0

abbrev broken : FileData
broken = record blank {
  version = some 1;
  salt = some (b64encode zeros);
  nonce = some (b64encode zeros);
  ciphertext = some (b64encode zeros);
}

abbrev with_broken : State
with_broken = record new_client { files = (lit "keys", json broken) ∷ [] }

with_broken-Holds : Holds with_broken broken
unfolding load lookup str_eq parsed
with_broken-Holds = refl

zeros_read : b64decode (b64encode zeros) ≡ some zeros
zeros_read = b64decode-b64encode zeros (omega arith, (omega arith, (omega arith, tt)))

wrong : env.aesgcm_decrypt (derive_kek env word zeros) zeros zeros keystore_aad ≡ err invalid_tag
unfolding derive_kek argon2id_raw encode encode_char str_eq
wrong = refl

unlock_wrong_password_example :
    ((unlock env word with_broken).0 ≡ err invalid_tag)
    × ((unlock env word with_broken).1.keystore.keys ≡ with_broken.keystore.keys)
    × ((archive_key env (unlock env word with_broken).1).0
        ≡ ok (env.hkdf_expand 32 archive_info (derive_kek env word zeros)))
unlock_wrong_password_example =
    unlock_wrong_password env env-IsLawful word broken with_broken zeros zeros zeros
      with_broken-Holds refl refl refl zeros_read zeros_read zeros_read wrong

abbrev calls : List Call
calls =
    Call.next bob
    ∷ Call.pin ann x_type (lit "QQ==")
    ∷ Call.pinned ann x_type
    ∷ Call.set_last bob (pos 12)
    ∷ Call.last bob
    ∷ Call.next bob
    ∷ []

keystore_refines_book_example :
    keystore_answers env calls with_file ≡ map ok (book_answers calls (book_of some_file))
keystore_refines_book_example = keystore_refines_book env calls with_file some_file with_file-Holds
