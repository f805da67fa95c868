-- ===== src/Keystore/Quiet.antt =====
-- The keystore of client/src/crypto/keystore.py sends nothing.
use cs4455_epic.Base.{◌≡◌, refl, arith, Bool, Option, none, some, [], ◌∷◌}
use cs4455_epic.Base.Dict.{Dict}
use cs4455_epic.Base.Text.{Str, Bytes}
use cs4455_epic.Errors.{Exc, Result, ok, err}
use cs4455_epic.Env.{Env}
use cs4455_epic.Py.{FileData, State, Py, pure, lift, gets, or_raise, raise_if, catch, ◌>>=◌}
use cs4455_epic.Crypto.Aead as Aead
use cs4455_epic.Crypto.Signing as Signing
use cs4455_epic.Keystore as Keystore
use cs4455_epic.Keystore.{public_keys}
use cs4455_epic.Keystore.Files.{read_json, save, load, write_json_secure}
use cs4455_epic.Keystore.Loading.{load_state}

-- An action that sends nothing.
pub record Quiet {A : Type 0} (m : Py A) : Type 0 where
  pub at : (s : State) → (m s).1.requests ≡ s.requests

module _ {A B : Type 0} where
  pub Quiet-then :
      (r : Result A) (f : A → Py B) (s : State)
      → ((a : A) → Quiet (f a))
      → ((lift r >>= f) s).1.requests ≡ s.requests
  Quiet-then (ok a) f s g = (g a).at s
  Quiet-then (err e) f s g = refl

  pub Quiet-bind : (m : Py A) (f : A → Py B) → Quiet m → ((a : A) → Quiet (f a)) → Quiet (m >>= f)
  Quiet-bind m f q g = record { at = λ s. cc (Quiet-then (m s).0 f (m s).1 g, q.at s) }

module _ {A : Type 0} where
  pub Quiet-pure : (a : A) → Quiet (pure a)
  Quiet-pure a = record { at = λ s. refl }

  pub Quiet-gets : (f : State → A) → Quiet (gets f)
  Quiet-gets f = record { at = λ s. refl }

  pub Quiet-lift : (r : Result A) → Quiet (lift r)
  Quiet-lift r = record { at = λ s. refl }

  pub Quiet-or_raise : (e : Exc) (o : Option A) → Quiet (or_raise e o)
  Quiet-or_raise e none = record { at = λ s. refl }
  Quiet-or_raise e (some a) = record { at = λ s. refl }

pub Quiet-raise_if : (c : Bool) (e : Exc) → Quiet (raise_if c e)
Quiet-raise_if c e = record { at = λ s. refl }

pub Quiet-set_kek : (kek : Bytes) → Quiet (Keystore.set_kek kek)
Quiet-set_kek kek = record { at = λ s. refl }

pub Quiet-set_keys : (plaintext : Bytes) → Quiet (Keystore.set_keys plaintext)
Quiet-set_keys plaintext = record { at = λ s. refl }

pub Quiet-stored : (value : Option Str) → Quiet (Keystore.stored value)
Quiet-stored value = search (Quiet-bind, Quiet-or_raise, Quiet-lift)

pub Quiet-read_json : (path : State → Str) → Quiet (read_json path)
unfolding read_json
Quiet-read_json path = record { at = λ s. refl }

pub Quiet-load : Quiet load
Quiet-load = record { at = λ s. ground (arith, load_state s) }

module _ (E : Env) where
  pub Quiet-urandom : (n : _) → Quiet (Aead.urandom E n)
  unfolding Aead.urandom
  Quiet-urandom n = record { at = λ s. refl }

  pub Quiet-generate_private : Quiet (Signing.generate_private E)
  unfolding Signing.generate_private
  Quiet-generate_private = record { at = λ s. refl }

  pub Quiet-generate_keypair : Quiet (Signing.generate_keypair E)
  unfolding Signing.generate_keypair
  Quiet-generate_keypair = record { at = λ s. refl }

  pub Quiet-encrypt : (k p a : Bytes) → Quiet (Aead.encrypt E k p a)
  unfolding Aead.encrypt
  Quiet-encrypt k p a = record { at = λ s. ground arith }

  pub Quiet-decrypt : (k n c a : Bytes) → Quiet (Aead.decrypt E k n c a)
  unfolding Aead.decrypt
  Quiet-decrypt k n c a = record { at = λ s. ground arith }

  pub Quiet-write_json_secure : (path : Str) (d : FileData) → Quiet (write_json_secure E path d)
  unfolding write_json_secure
  Quiet-write_json_secure path d = record { at = λ s. refl }

  pub Quiet-save : (d : FileData) → Quiet (save E d)
  unfolding save write_json_secure
  Quiet-save d = record { at = λ s. refl }

pub ruleset quiet_rules = (
  Quiet-bind, Quiet-pure, Quiet-gets, Quiet-lift, Quiet-or_raise, Quiet-raise_if, Quiet-set_kek,
  Quiet-set_keys, Quiet-stored, Quiet-load, Quiet-urandom, Quiet-generate_private,
  Quiet-generate_keypair, Quiet-encrypt, Quiet-decrypt, Quiet-save,
)

module _ (E : Env) where
  pub Quiet-create : (password : Str) → Quiet (Keystore.create E password)
  unfolding Keystore.create
  Quiet-create password = search quiet_rules depth 40

  pub Quiet-unlock : (password : Str) → Quiet (Keystore.unlock E password)
  unfolding Keystore.unlock
  Quiet-unlock password = search quiet_rules depth 40

  Quiet-catch :
      {A : Type 0} (m : Py A) (handler : Exc → Py A)
      → Quiet m
      → ((e : Exc) → Quiet (handler e))
      → Quiet (catch m handler)
  Quiet-catch {A} m handler q h = record { at = λ s. caught (m s).0 (m s).1 s (q.at s) }
    where
      caught :
          (r : Result A) (t s : State)
          → t.requests ≡ s.requests
          → (catch (λ _. (r, t)) handler s).1.requests ≡ s.requests
      caught (ok a) t s same = same
      caught (err e) t s same = cc ((h e).at t, same)

  Quiet-read_cache : (kek : Bytes) → Quiet (Keystore.read_cache E kek)
  unfolding Keystore.read_cache
  Quiet-read_cache kek = search (quiet_rules, Quiet-read_json) depth 40

  Quiet-decrypt_cache : (kek : Option Bytes) → Quiet (Keystore.decrypt_cache E kek)
  unfolding Keystore.decrypt_cache
  Quiet-decrypt_cache none = record { at = λ s. refl }
  Quiet-decrypt_cache (some kek) = record {
    at = λ s. ground (
      arith,
      (Quiet-catch (Keystore.read_cache E kek) (λ e. pure []) (Quiet-read_cache kek)
            (λ e. Quiet-pure [])).at
          s,
    );
  }

  Quiet-write_cache : (kek : Bytes) (cache : Dict Str) → Quiet (Keystore.write_cache E kek cache)
  unfolding Keystore.write_cache
  Quiet-write_cache kek cache = search (quiet_rules, Quiet-write_json_secure) depth 40

  Quiet-save_message_cache : (cache : Dict Str) → Quiet (Keystore.save_message_cache E cache)
  unfolding Keystore.save_message_cache
  Quiet-save_message_cache cache = record { at = λ s. kept s.keystore.kek s }
    where
      kept :
          (kek : Option Bytes) (s : State)
          → (elim kek as (λ k. Result (Unit {0}) × State) [
            | none ↦ (ok tt, s)
            | some kek ↦ Keystore.write_cache E kek cache s
          ]).1.requests
            ≡ s.requests
      kept none s = refl
      kept (some kek) s = (Quiet-write_cache kek cache).at s

  Quiet-resave_cache : (cache : Dict Str) → Quiet (Keystore.resave_cache E cache)
  unfolding Keystore.resave_cache
  Quiet-resave_cache [] = Quiet-pure tt
  Quiet-resave_cache (entry ∷ cache) = Quiet-save_message_cache (entry ∷ cache)

  pub Quiet-change_password : (old new : Str) → Quiet (Keystore.change_password E old new)
  unfolding Keystore.change_password
  Quiet-change_password old new =
      search (quiet_rules, Quiet-decrypt_cache, Quiet-resave_cache) depth 40
