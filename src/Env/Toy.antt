-- ===== src/Env/Toy.antt =====
-- A concrete environment with every law that the theorems ask of the packages. It hides nothing:
-- a ciphertext is the key, the associated data and the plaintext, written in unary.
use cs4455_epic.Base.{
  ℕ, zero, suc, ◌<◌, ◌≡◌, refl, sym, ap, ◌∙◌, inl, some, List, [], ◌∷◌, ◌++◌, arith, length, take,
  drop, All, All-append, take-append, drop-append, ◌==◌, if◌then◌else◌, All-mono,
}
use cs4455_epic.Base.Dict.{Dict}
use cs4455_epic.Base.Text.{Str, Bytes, lit, str_eq, str_eq_refl}
use cs4455_epic.Codec.Utf8.{IsScalar}
use cs4455_epic.Errors.{Result, ok, err, invalid_tag, value_error}
use cs4455_epic.Env.{Env, IsLawful, AreBytes, Request, Outcome}

abbrev pub replicate : ℕ → ℕ → List ℕ
replicate zero x = []
replicate (suc n) x = x ∷ replicate n x

length-replicate : (n x : ℕ) → length (replicate n x) ≡ n
length-replicate zero x = refl
length-replicate (suc n) x = ap suc (length-replicate n x)

-- Below 5, so both a byte and an ASCII character.
abbrev AreSmall : List ℕ → Type 0
AreSmall = All (λ b. b < 5)

replicate_small : (n x : ℕ) → x < 5 → AreSmall (replicate n x)
replicate_small zero x h = tt
replicate_small (suc n) x h = (h, replicate_small n x h)

small_bytes : (bs : List ℕ) → AreSmall bs → AreBytes bs
small_bytes bs h = All-mono (λ b. b < 5) (λ b. b < 256) (λ b l. omega arith) bs h

-- A list in unary before a rest: every number as so many ones, and a zero.
abbrev digits : ℕ → ℕ → ℕ → List ℕ → List ℕ
digits one stop zero rest = stop ∷ rest
digits one stop (suc n) rest = one ∷ digits one stop n rest

abbrev unary : ℕ → ℕ → List ℕ → List ℕ → List ℕ
unary one stop [] rest = rest
unary one stop (x ∷ xs) rest = digits one stop x (unary one stop xs rest)

digits_small :
    (one stop n : ℕ) (rest : List ℕ)
    → one < 5
    → stop < 5
    → AreSmall rest
    → AreSmall (digits one stop n rest)
digits_small one stop zero rest a b h = (b, h)
digits_small one stop (suc n) rest a b h = (a, digits_small one stop n rest a b h)

unary_small :
    (one stop : ℕ) (xs rest : List ℕ)
    → one < 5
    → stop < 5
    → AreSmall rest
    → AreSmall (unary one stop xs rest)
unary_small one stop [] rest a b h = h
unary_small one stop (x ∷ xs) rest a b h =
    digits_small one stop x (unary one stop xs rest) a b (unary_small one stop xs rest a b h)

abbrev bump : List ℕ → List ℕ
bump [] = []
bump (x ∷ xs) = suc x ∷ xs

abbrev read_unary : List ℕ → List ℕ
read_unary [] = []
read_unary (zero ∷ r) = 0 ∷ read_unary r
read_unary (suc d ∷ r) = bump (read_unary r)

read_digits : (n : ℕ) (rest : List ℕ) → read_unary (digits 1 0 n rest) ≡ n ∷ read_unary rest
read_digits zero rest = refl
read_digits (suc n) rest = ap bump (read_digits n rest)

read-unary : (xs : List ℕ) → read_unary (unary 1 0 xs []) ≡ xs
read-unary [] = refl
read-unary (x ∷ xs) = read_digits x (unary 1 0 xs []) ∙ ap (λ r. x ∷ r) (read-unary xs)

-- The part of a ciphertext that stands for the key and the associated data.
abbrev heading : Bytes → Bytes → Bytes
heading key aad = unary 1 0 key (2 ∷ unary 1 0 aad (2 ∷ []))

abbrev toy_decrypt : Bytes → Bytes → Bytes → Bytes → Result Bytes
toy_decrypt key nonce c aad =
    let h = heading key aad in
    if str_eq (take (length h) c) h then ok (read_unary (drop (length h) c)) else err invalid_tag

toy_decrypt-encrypt : (k n p a : Bytes) → toy_decrypt k n (heading k a ++ unary 1 0 p []) a ≡ ok p
toy_decrypt-encrypt k n p a =
    rw
      (
        take-append (length (heading k a)) (heading k a) (unary 1 0 p []) refl,
        drop-append (length (heading k a)) (heading k a) (unary 1 0 p []) refl,
        str_eq_refl (heading k a),
        read-unary p,
      )
      refl

heading_small : (k a : Bytes) → AreSmall (heading k a)
heading_small k a =
    unary_small 1 0 k _ (omega arith) (omega arith)
      (omega arith, unary_small 1 0 a _ (omega arith) (omega arith) (omega arith, tt))

-- A dict as text: the characters of a key, those of its value, and a 2.
abbrev toy_dumps : Dict Str → Str
toy_dumps [] = []
toy_dumps ((k, v) ∷ d) = unary 4 3 k (unary 1 0 v (2 ∷ toy_dumps d))

abbrev to_key : (List ℕ → List ℕ) → Dict Str → Dict Str
to_key f [] = []
to_key f ((k, v) ∷ d) = (f k, v) ∷ d

abbrev to_value : (List ℕ → List ℕ) → Dict Str → Dict Str
to_value f [] = []
to_value f ((k, v) ∷ d) = (k, f v) ∷ d

abbrev read_digit : ℕ → Dict Str → Dict Str
read_digit zero d = to_value (λ v. 0 ∷ v) d
read_digit (suc zero) d = to_value bump d
read_digit (suc (suc zero)) d = ([], []) ∷ d
read_digit (suc (suc (suc zero))) d = to_key (λ k. 0 ∷ k) d
read_digit (suc (suc (suc (suc n)))) d = to_key bump d

abbrev toy_loads : Str → Dict Str
toy_loads [] = []
toy_loads (c ∷ s) = read_digit c (toy_loads s)

loads_value_digits :
    (n : ℕ) (rest k v : Str) (d : Dict Str)
    → toy_loads rest ≡ (k, v) ∷ d
    → toy_loads (digits 1 0 n rest) ≡ (k, n ∷ v) ∷ d
loads_value_digits zero rest k v d h = ap (read_digit 0) h
loads_value_digits (suc n) rest k v d h = ap (read_digit 1) (loads_value_digits n rest k v d h)

loads_key_digits :
    (n : ℕ) (rest k v : Str) (d : Dict Str)
    → toy_loads rest ≡ (k, v) ∷ d
    → toy_loads (digits 4 3 n rest) ≡ (n ∷ k, v) ∷ d
loads_key_digits zero rest k v d h = ap (read_digit 3) h
loads_key_digits (suc n) rest k v d h = ap (read_digit 4) (loads_key_digits n rest k v d h)

loads_value :
    (v : Str) (rest : Str) (d : Dict Str)
    → toy_loads rest ≡ ([], []) ∷ d
    → toy_loads (unary 1 0 v rest) ≡ ([], v) ∷ d
loads_value [] rest d h = h
loads_value (c ∷ v) rest d h = loads_value_digits c _ [] v d (loads_value v rest d h)

loads_key :
    (k v : Str) (rest : Str) (d : Dict Str)
    → toy_loads rest ≡ ([], v) ∷ d
    → toy_loads (unary 4 3 k rest) ≡ (k, v) ∷ d
loads_key [] v rest d h = h
loads_key (c ∷ k) v rest d h = loads_key_digits c _ k v d (loads_key k v rest d h)

toy_loads-dumps : (d : Dict Str) → toy_loads (toy_dumps d) ≡ d
toy_loads-dumps [] = refl
toy_loads-dumps ((k, v) ∷ d) =
    loads_key k v _ d (loads_value v _ d (ap (λ r. ([], []) ∷ r) (toy_loads-dumps d)))

dumps_small : (d : Dict Str) → AreSmall (toy_dumps d)
dumps_small [] = tt
dumps_small ((k, v) ∷ d) =
    unary_small 4 3 k _ (omega arith) (omega arith)
      (unary_small 1 0 v _ (omega arith) (omega arith) (omega arith, dumps_small d))

abbrev pad : ℕ → List ℕ → List ℕ
pad zero xs = []
pad (suc n) [] = 0 ∷ pad n []
pad (suc n) (x ∷ xs) = x ∷ pad n xs

length-pad : (n : ℕ) (xs : List ℕ) → length (pad n xs) ≡ n
length-pad zero xs = refl
length-pad (suc n) [] = ap suc (length-pad n [])
length-pad (suc n) (x ∷ xs) = ap suc (length-pad n xs)

-- The environment with a given server.
abbrev pub toy : (List Request → Request → Outcome) → Env
toy server = record {
  argon2id = λ secret salt t m p n. secret;
  hkdf_expand = λ n info key. pad n key;
  sha256 = λ b. b;
  keccak256 = λ b. pad 32 b;
  x25519_public = λ k. replicate 32 1;
  x25519_exchange = λ a b. ok (replicate 32 3);
  ed25519_public = λ k. replicate 32 2;
  ed25519_sign = λ k m. ok (unary 1 0 m []);
  ed25519_public_key = λ p. if length p == 32 then ok tt else err value_error;
  ed25519_verify = λ p sig m. str_eq sig (unary 1 0 m []);
  aesgcm_encrypt = λ k n p a. heading k a ++ unary 1 0 p [];
  aesgcm_decrypt = toy_decrypt;
  urandom = λ drawn size. replicate size 1;
  generate_private = λ drawn. replicate 32 4;
  lower = λ s. s;
  dumps = toy_dumps;
  loads = λ s. some (toy_loads s);
  pid = 7;
  base_url = lit "http://localhost:3000/";
  http = server;
}

pub toy-IsLawful : (server : List Request → Request → Outcome) → IsLawful (toy server)
toy-IsLawful server = record {
  length-hkdf_expand = λ n info key h. length-pad n key;
  length-x25519_public = λ k. refl;
  x25519_public_bytes = λ k. small_bytes (replicate 32 1) (replicate_small 32 1 (omega arith));
  exchange_comm = λ a b. refl;
  length-ed25519_public = λ k. refl;
  ed25519_public_bytes = λ k. small_bytes (replicate 32 2) (replicate_small 32 2 (omega arith));
  ed25519_public_key_total = λ p h. ground arith;
  sign_total = λ k m h. (unary 1 0 m [], refl);
  verify-sign = λ k m sig h. ground (arith, str_eq_refl (unary 1 0 m []));
  sign_bytes = λ k m sig h.
      let e : unary 1 0 m [] ≡ sig = cc h in
      rw (sym e) (small_bytes _ (unary_small 1 0 m [] (omega arith) (omega arith) tt));
  decrypt-encrypt = λ k n p a h. toy_decrypt-encrypt k n p a;
  encrypt_bytes = λ k n p a. small_bytes _ (
      All-append (λ b. b < 5) (heading k a) _ (heading_small k a)
        (unary_small 1 0 p [] (omega arith) (omega arith) tt));
  length-urandom = λ drawn size. length-replicate size 1;
  length-keccak256 = λ m. length-pad 32 m;
  urandom_bytes = λ drawn size. small_bytes _ (replicate_small size 1 (omega arith));
  length-generate_private = λ drawn. refl;
  loads-dumps = λ d. ap some (toy_loads-dumps d);
  dumps_scalars = λ d. All-mono (λ b. b < 5) IsScalar (λ b l. inl (omega arith)) _ (dumps_small d);
}
