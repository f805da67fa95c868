-- ===== src/Env.antt =====
-- What the client takes from outside the repository: the packages cryptography, argon2-cffi,
-- pycryptodome and requests, the system's random numbers, and the server.
pub mod Toy
use cs4455_epic.Base.{ℕ, ◌<◌, ◌≤◌, ◌≡◌, Bool, true, Option, some, List, length, All}
use cs4455_epic.Base.Dict.{Dict}
use cs4455_epic.Base.Text.{Str, Bytes}
use cs4455_epic.Codec.Utf8.{IsScalar}
use cs4455_epic.Errors.{Result, ok}
use cs4455_epic.Json.{Json}

pub data Method : Type 0 where
  get post put delete : Method

-- One call of `requests.Session.request`.
pub record Request : Type 0 where
  pub method : Method
  pub url : Str
  pub headers : Dict Str
  pub params : Dict Str
  pub json : Option Json

-- `ok`, `status_code`, `content` and `text` of a `requests.Response`, and what `json()` returns
-- (`none` is a `ValueError`).
pub record Response : Type 0 where
  pub ok : Bool
  pub status_code : ℕ
  pub content : Bytes
  pub text : Str
  pub json : Option Json

pub data Outcome : Type 0 where
  refused : Str → Outcome
  response : Response → Outcome

-- A call of a package that may raise returns a `Result`; `ed25519_verify` is false where the
-- package raises `InvalidSignature`. A drawn value depends on how many were drawn before it. The
-- server may answer by all requests that it has received. `dumps` and `loads` are the `json`
-- module's on a dict of texts, and `lower` is `str.lower`. A private key is 32 bytes; what the
-- package does with any other length is not modelled.
pub record Env : Type 0 where
  pub argon2id : (secret salt : Bytes) (time_cost memory_cost parallelism hash_len : ℕ) → Bytes
  pub hkdf_expand : (length : ℕ) (info key : Bytes) → Bytes
  pub sha256 : Bytes → Bytes
  pub keccak256 : Bytes → Bytes
  pub x25519_public : (priv : Bytes) → Bytes
  pub x25519_exchange : (priv pub_key : Bytes) → Result Bytes
  pub ed25519_public : (priv : Bytes) → Bytes
  pub ed25519_sign : (priv payload : Bytes) → Result Bytes
  pub ed25519_public_key : (pub_key : Bytes) → Result (Unit {0})
  pub ed25519_verify : (pub_key signature payload : Bytes) → Bool
  pub aesgcm_encrypt : (key nonce plaintext aad : Bytes) → Bytes
  pub aesgcm_decrypt : (key nonce ciphertext aad : Bytes) → Result Bytes
  pub urandom : (drawn size : ℕ) → Bytes
  pub generate_private : (drawn : ℕ) → Bytes
  pub lower : Str → Str
  pub dumps : Dict Str → Str
  pub loads : Str → Option (Dict Str)
  pub pid : ℕ
  pub base_url : Str
  pub http : (before : List Request) → Request → Outcome

abbrev pub AreBytes : Bytes → Type 0
AreBytes = All (λ b. b < 256)

-- The documented behaviour that the theorems rely on.
pub record IsLawful (E : Env) : Type 0 where
  pub length-hkdf_expand :
      (n : ℕ) (info key : Bytes) → n ≤ 8160 → length (E.hkdf_expand n info key) ≡ n
  pub length-x25519_public : (k : Bytes) → length (E.x25519_public k) ≡ 32
  pub x25519_public_bytes : (k : Bytes) → AreBytes (E.x25519_public k)
  pub exchange_comm :
      (a b : Bytes)
      → E.x25519_exchange a (E.x25519_public b) ≡ E.x25519_exchange b (E.x25519_public a)
  pub length-ed25519_public : (k : Bytes) → length (E.ed25519_public k) ≡ 32
  pub ed25519_public_bytes : (k : Bytes) → AreBytes (E.ed25519_public k)
  pub ed25519_public_key_total : (p : Bytes) → length p ≡ 32 → E.ed25519_public_key p ≡ ok tt
  pub sign_total : (k m : Bytes) → length k ≡ 32 → (sig : Bytes) × (E.ed25519_sign k m ≡ ok sig)
  pub verify-sign :
      (k m sig : Bytes)
      → E.ed25519_sign k m ≡ ok sig
      → E.ed25519_verify (E.ed25519_public k) sig m ≡ true
  pub sign_bytes : (k m sig : Bytes) → E.ed25519_sign k m ≡ ok sig → AreBytes sig
  pub decrypt-encrypt :
      (k n p a : Bytes) → length k ≡ 32 → E.aesgcm_decrypt k n (E.aesgcm_encrypt k n p a) a ≡ ok p
  pub encrypt_bytes : (k n p a : Bytes) → AreBytes (E.aesgcm_encrypt k n p a)
  pub length-urandom : (drawn size : ℕ) → length (E.urandom drawn size) ≡ size
  pub length-keccak256 : (m : Bytes) → length (E.keccak256 m) ≡ 32
  pub urandom_bytes : (drawn size : ℕ) → AreBytes (E.urandom drawn size)
  pub length-generate_private : (drawn : ℕ) → length (E.generate_private drawn) ≡ 32
  pub loads-dumps : (d : Dict Str) → E.loads (E.dumps d) ≡ some d
  pub dumps_scalars : (d : Dict Str) → All IsScalar (E.dumps d)
