-- ===== src/Codec/Base64.antt =====
-- `base64.b64encode` and `base64.b64decode`, the latter as it is called by the client: characters
-- outside the alphabet are skipped, and a pad sequence ends the input.
use cs4455_epic.Base.{
  ℕ, ◌+◌, ◌-◌, ◌*◌, ◌/◌, ◌%◌, ◌<◌, ◌≡◌, refl, Bool, true, false, ◌&&◌, Option, none, some, [], ◌∷◌,
  arith, ltb, leb, ◌==◌, if◌then◌else◌, All,
}
use cs4455_epic.Base.Text.{Str, Bytes}

pub char : ℕ → ℕ
char i =
    if ltb i 26
    then i + 65
    else if ltb i 52
    then i + 71
    else if ltb i 62
    then i - 4
    else if i == 62
    then 43
    else 47

value : ℕ → Option ℕ
value c =
    if leb 65 c && leb c 90
    then some (c - 65)
    else if leb 97 c && leb c 122
    then some (c - 71)
    else if leb 48 c && leb c 57
    then some (c + 4)
    else if c == 43
    then some 62
    else if c == 47
    then some 63
    else none

abbrev pub AreSmall : Bytes → Type 0
AreSmall = All (λ b. b < 256)

unfoldable pub b64encode : Bytes → Str
b64encode [] = []
b64encode (a ∷ []) = char (a / 4) ∷ char (a % 4 * 16) ∷ 61 ∷ 61 ∷ []
b64encode (a ∷ b ∷ []) = char (a / 4) ∷ char (a % 4 * 16 + b / 16) ∷ char (b % 16 * 4) ∷ 61 ∷ []
b64encode (a ∷ b ∷ c ∷ rest) =
    char (a / 4)
    ∷ char (a % 4 * 16 + b / 16)
    ∷ char (b % 16 * 4 + c / 64)
    ∷ char (c % 64)
    ∷ b64encode rest

-- The place in a group of four, with the bits that are left over. The flag tells that one pad
-- character has been read.
pub data Quad : Type 0 where
  q0 : Quad
  q1 : ℕ → Quad
  q2 : ℕ → Bool → Quad
  q3 : ℕ → Quad

pub data Move : Type 0 where
  stop : Move
  keep : Quad → Move
  emit : ℕ → Quad → Move

on_pad : Quad → Move
on_pad q0 = keep q0
on_pad (q1 l) = keep (q1 l)
on_pad (q2 l false) = keep (q2 l true)
on_pad (q2 l true) = stop
on_pad (q3 l) = stop

on_value : Quad → ℕ → Move
on_value q0 v = keep (q1 v)
on_value (q1 l) v = emit (l * 4 + v / 16) (q2 (v % 16) false)
on_value (q2 l _) v = emit (l * 16 + v / 4) (q3 (v % 4))
on_value (q3 l) v = emit (l * 64 + v) q0

on_char : Quad → ℕ → Move
unfolding on_pad on_value value
on_char q c = if c == 61 then on_pad q else elim (value c) [ none ↦ keep q | some v ↦ on_value q v ]

cons : ℕ → Option Bytes → Option Bytes
cons b none = none
cons b (some bs) = some (b ∷ bs)

decode_from : Quad → Str → Option Bytes
decode_from q0 [] = some []
decode_from (q1 l) [] = none
decode_from (q2 l _) [] = none
decode_from (q3 l) [] = none
decode_from q (c ∷ s) = elim (on_char q c) [
  | stop ↦ some []
  | keep q' ↦ decode_from q' s
  | emit b q' ↦ cons b (decode_from q' s)
]

is_ascii : Str → Bool
is_ascii [] = true
is_ascii (c ∷ s) = ltb c 128 && is_ascii s

-- `none` is a `ValueError`: a text that is not ASCII, or an incomplete last group.
unfoldable pub b64decode : Str → Option Bytes
unfolding decode_from on_char cons is_ascii
b64decode s = if is_ascii s then decode_from q0 s else none

on_char-char : (q : Quad) (i : ℕ) → i < 64 → on_char q (char i) ≡ on_value q i
unfolding char on_char
on_char-char q i h = ground arith

module _ (i : ℕ) (s : Str) (small : i < 64) where
  decode-q0 : decode_from q0 (char i ∷ s) ≡ decode_from (q1 i) s
  unfolding decode_from on_value
  decode-q0 = rw (on_char-char q0 i small, decode_from) refl

  decode-q1 :
      (l : ℕ)
      → decode_from (q1 l) (char i ∷ s) ≡ cons (l * 4 + i / 16) (decode_from (q2 (i % 16) false) s)
  unfolding decode_from on_value
  decode-q1 l = rw (on_char-char (q1 l) i small, decode_from) refl

  decode-q2 :
      (l : ℕ)
      → decode_from (q2 l false) (char i ∷ s) ≡ cons (l * 16 + i / 4) (decode_from (q3 (i % 4)) s)
  unfolding decode_from on_value
  decode-q2 l = rw (on_char-char (q2 l false) i small, decode_from) refl

  decode-q3 : (l : ℕ) → decode_from (q3 l) (char i ∷ s) ≡ cons (l * 64 + i) (decode_from q0 s)
  unfolding decode_from on_value
  decode-q3 l = rw (on_char-char (q3 l) i small, decode_from) refl

-- The pad characters of the last group end the input.
decode_pads : (l : ℕ) → decode_from (q2 l false) (61 ∷ 61 ∷ []) ≡ some []
unfolding decode_from on_char on_pad
decode_pads l = refl

decode_pad : (l : ℕ) → decode_from (q3 l) (61 ∷ []) ≡ some []
unfolding decode_from on_char on_pad
decode_pad l = refl

decode_from-b64encode : (bs : Bytes) → AreSmall bs → decode_from q0 (b64encode bs) ≡ some bs
unfolding b64encode cons
decode_from-b64encode [] h = unfold decode_from in refl
decode_from-b64encode (a ∷ []) h =
    rw (decode-q0 (a / 4) _ (omega arith), decode-q1 (a % 4 * 16) _ (omega arith), decode_pads)
      (ground arith)
decode_from-b64encode (a ∷ b ∷ []) h =
    rw
      (
        decode-q0 (a / 4) _ (omega arith),
        decode-q1 (a % 4 * 16 + b / 16) _ (omega arith),
        decode-q2 (b % 16 * 4) _ (omega arith),
        decode_pad,
      )
      (ground arith)
decode_from-b64encode (a ∷ b ∷ c ∷ rest) h =
    rw
      (
        decode-q0 (a / 4) _ (omega arith),
        decode-q1 (a % 4 * 16 + b / 16) _ (omega arith),
        decode-q2 (b % 16 * 4 + c / 64) _ (omega arith),
        decode-q3 (c % 64) _ (omega arith),
        decode_from-b64encode rest h.1.1.1,
      )
      (ground arith)

char_small : (i : ℕ) → i < 64 → ltb (char i) 128 ≡ true
unfolding char
char_small i h = ground arith

b64encode_ascii : (bs : Bytes) → AreSmall bs → is_ascii (b64encode bs) ≡ true
unfolding b64encode is_ascii
b64encode_ascii [] h = refl
b64encode_ascii (a ∷ []) h =
    rw (char_small (a / 4) (omega arith), char_small (a % 4 * 16) (omega arith))
b64encode_ascii (a ∷ b ∷ []) h = rw (
  char_small (a / 4) (omega arith),
  char_small (a % 4 * 16 + b / 16) (omega arith),
  char_small (b % 16 * 4) (omega arith),
)
b64encode_ascii (a ∷ b ∷ c ∷ rest) h = rw (
  char_small (a / 4) (omega arith),
  char_small (a % 4 * 16 + b / 16) (omega arith),
  char_small (b % 16 * 4 + c / 64) (omega arith),
  char_small (c % 64) (omega arith),
  b64encode_ascii rest h.1.1.1,
)

-- Decoding gives back all bytes that were encoded.
pub b64decode-b64encode : (bs : Bytes) → AreSmall bs → b64decode (b64encode bs) ≡ some bs
unfolding b64decode
b64decode-b64encode bs h = rw (b64encode_ascii bs h) (decode_from-b64encode bs h)
