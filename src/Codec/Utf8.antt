-- ===== src/Codec/Utf8.antt =====
-- `str.encode("utf-8")` and `bytes.decode("utf-8")`. Texts hold no lone surrogates here, so
-- encoding is total.
use cs4455_epic.Base.{
  ℕ, zero, suc, ◌+◌, ◌-◌, ◌*◌, ◌/◌, ◌%◌, ◌≤◌, ◌<◌, ◌≡◌, refl, ◌⊎◌, Bool, ◌&&◌, ◌||◌, Option, none,
  some, [], ◌∷◌, arith, ltb, leb, if◌then◌else◌, All,
}
use cs4455_epic.Base.Text.{Str, Bytes}

-- A code point that is no surrogate.
abbrev pub IsScalar : ℕ → Type 0
IsScalar c = (c < 0xd800) ⊎ ((0xe000 ≤ c) × (c < 0x110000))

unfoldable pub encode_char : ℕ → Bytes → Bytes
encode_char c rest =
    if ltb c 0x80
    then c ∷ rest
    else if ltb c 0x800
    then (0xc0 + c / 64) ∷ (0x80 + c % 64) ∷ rest
    else if ltb c 0x10000
    then (0xe0 + c / 4096) ∷ (0x80 + c / 64 % 64) ∷ (0x80 + c % 64) ∷ rest
    else (0xf0 + c / 262144)
      ∷ (0x80 + c / 4096 % 64)
      ∷ (0x80 + c / 64 % 64)
      ∷ (0x80 + c % 64)
      ∷ rest

unfoldable pub encode : Str → Bytes
encode [] = []
encode (c ∷ s) = encode_char c (encode s)

-- Between characters, or inside one: how many bytes are to come after the next one, the bits so
-- far, and the least code point that needs this many bytes.
pub data Place : Type 0 where
  start : Place
  inside : ℕ → ℕ → ℕ → Place

pub data Move : Type 0 where
  fail : Move
  keep : Place → Move
  emit : ℕ → Move

is_scalar : ℕ → Bool
is_scalar c = ltb c 0xd800 || (leb 0xe000 c && ltb c 0x110000)

on_byte : Place → ℕ → Move
unfolding is_scalar
on_byte start b =
    if ltb b 0x80
    then emit b
    else if leb 0xc2 b && ltb b 0xe0
    then keep (inside 0 (b - 0xc0) 0x80)
    else if leb 0xe0 b && ltb b 0xf0
    then keep (inside 1 (b - 0xe0) 0x800)
    else if leb 0xf0 b && ltb b 0xf5
    then keep (inside 2 (b - 0xf0) 0x10000)
    else fail
on_byte (inside zero bits low) b =
    let c = bits * 64 + (b - 0x80) in
    if leb 0x80 b && ltb b 0xc0 && leb low c && is_scalar c then emit c else fail
on_byte (inside (suc k) bits low) b =
    if leb 0x80 b && ltb b 0xc0 then keep (inside k (bits * 64 + (b - 0x80)) low) else fail

cons : ℕ → Option Str → Option Str
cons c none = none
cons c (some s) = some (c ∷ s)

decode_from : Place → Bytes → Option Str
decode_from start [] = some []
decode_from (inside k bits low) [] = none
decode_from p (b ∷ rest) = elim (on_byte p b) [
  | fail ↦ none
  | keep q ↦ decode_from q rest
  | emit c ↦ cons c (decode_from start rest)
]

-- `none` is a `UnicodeDecodeError`.
unfoldable pub decode : Bytes → Option Str
unfolding decode_from on_byte cons
decode bs = decode_from start bs

decode_from-encode_char :
    (c : ℕ) (rest : Bytes)
    → IsScalar c
    → decode_from start (encode_char c rest) ≡ cons c (decode_from start rest)
unfolding decode_from on_byte encode_char
decode_from-encode_char c rest h = ground arith

decode_from-encode : (s : Str) → All IsScalar s → decode_from start (encode s) ≡ some s
unfolding encode
decode_from-encode [] h = unfold decode_from in refl
decode_from-encode (c ∷ s) h =
    rw (decode_from-encode_char c (encode s) h.0, decode_from-encode s h.1) (unfold cons in refl)

-- Decoding gives back every text that was encoded.
pub decode-encode : (s : Str) → All IsScalar s → decode (encode s) ≡ some s
unfolding decode
decode-encode s h = decode_from-encode s h

-- Encoding ASCII text changes nothing.
pub encode_ascii : (s : Str) → All (λ c. c < 0x80) s → encode s ≡ s
unfolding encode encode_char
encode_ascii [] h = refl
encode_ascii (c ∷ s) h = ground (arith, encode_ascii s h.1)
