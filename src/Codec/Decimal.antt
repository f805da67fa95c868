-- ===== src/Codec/Decimal.antt =====
-- `str(n)` and `int(s)` on integers.
use cs4455_epic.Base.{
  ℕ, zero, suc, ◌+◌, ◌-◌, ◌*◌, ◌/◌, ◌%◌, ◌≤◌, ◌<◌, ◌≡◌, refl, ◌∙◌, ap, sym, inl, inr, Bool, true,
  false, ◌&&◌, Bool-cases, Option, none, some, [], ◌∷◌, arith, ltb, leb, ◌==◌, if◌then◌else◌, All,
  All-mono,
}
use cs4455_epic.Base.Int.{ℤ, pos, negsuc}
use cs4455_epic.Base.Text.{Str, strip}

abbrev pub IsDigit : ℕ → Type 0
IsDigit c = (48 ≤ c) × (c ≤ 57)

-- The digits of `n` before those of `rest`. The fuel bounds the number of digits.
digits : ℕ → ℕ → Str → Str
digits zero n rest = rest
digits (suc f) n rest =
    let more = digits f (n / 10) ((48 + n % 10) ∷ rest) in
    if ltb n 10 then (48 + n) ∷ rest else more

-- `str(n)` of a natural number: `n + 1` is more than its number of digits.
pub show_ℕ : ℕ → Str
show_ℕ n = digits (suc n) n []

unfoldable pub show_ℤ : ℤ → Str
show_ℤ (pos n) = show_ℕ n
show_ℤ (negsuc n) = 45 ∷ show_ℕ (suc n)

-- The digits of a number, with single underscores between digits allowed. The flag tells that a
-- digit was read last.
pub read_digits : ℕ → Bool → Str → Option ℕ
read_digits acc true [] = some acc
read_digits acc false [] = none
read_digits acc after (c ∷ s) =
    let digit = read_digits (acc * 10 + (c - 48)) true s in
    let gap = read_digits acc false s in
    if leb 48 c && leb c 57 then digit else if c == 95 && after then gap else none

to_pos : Option ℕ → Option ℤ
to_pos none = none
to_pos (some n) = some (pos n)

negate : Option ℕ → Option ℤ
negate none = none
negate (some zero) = some (pos 0)
negate (some (suc n)) = some (negsuc n)

pub read_signed : Str → Option ℤ
unfolding to_pos negate
read_signed [] = none
read_signed (c ∷ s) =
    if c == 45
    then negate (read_digits 0 false s)
    else if c == 43
    then to_pos (read_digits 0 false s)
    else to_pos (read_digits 0 false (c ∷ s))

-- `int(s)` of a text of ASCII digits; `none` is a `ValueError`.
unfoldable pub read_ℤ : Str → Option ℤ
unfolding read_signed read_digits
read_ℤ s = read_signed (strip s)

digits-digits : (f n : ℕ) (rest : Str) → All IsDigit rest → All IsDigit (digits f n rest)
unfolding digits
digits-digits zero n rest h = h
digits-digits (suc f) n rest h = ground (arith, digits-digits f (n / 10) ((48 + n % 10) ∷ rest))

pub show_ℕ_digits : (n : ℕ) → All IsDigit (show_ℕ n)
unfolding show_ℕ
show_ℕ_digits n = digits-digits (suc n) n [] tt

read_digits-cons :
    (acc d : ℕ) (after : Bool) (rest : Str)
    → d < 10
    → read_digits acc after ((48 + d) ∷ rest) ≡ read_digits (acc * 10 + d) true rest
unfolding read_digits
read_digits-cons acc d after rest h = ground arith

read_digits-digits :
    (f n : ℕ) (after : Bool) (rest : Str)
    → n < f
    → read_digits 0 after (digits f n rest) ≡ read_digits n true rest
unfolding digits
read_digits-digits zero n after rest h = elim h [ ]
read_digits-digits (suc f) n after rest h = elim (Bool-cases (ltb n 10)) [
  | inl small ↦ rw small (
      read_digits-cons 0 n after rest (ground arith)
      ∙ ap (λ m. read_digits m true rest) (omega arith))
  | inr large ↦
      rw (large, read_digits-digits f (n / 10) after ((48 + n % 10) ∷ rest) (ground arith))
        (read_digits-cons (n / 10) (n % 10) true rest (omega arith)
          ∙ ap (λ m. read_digits m true rest) (omega arith))
]

-- Reading the digits of a number gives the number.
pub read_digits-show_ℕ : (n : ℕ) (after : Bool) → read_digits 0 after (show_ℕ n) ≡ some n
unfolding show_ℕ
read_digits-show_ℕ n after =
    read_digits-digits (suc n) n after [] (omega arith) ∙ unfold read_digits in refl

digits_nonempty : (f n : ℕ) (rest : Str) → n < f → (c : ℕ) × (s : Str) × (digits f n rest ≡ c ∷ s)
unfolding digits
digits_nonempty zero n rest h = elim h [ ]
digits_nonempty (suc f) n rest h = elim (Bool-cases (ltb n 10)) [
  | inl small ↦ (48 + n, rest, rw small)
  | inr large ↦ rw large (digits_nonempty f (n / 10) ((48 + n % 10) ∷ rest) (ground arith))
]

-- The decimal of a number begins with a digit.
pub show_ℕ-cons : (n : ℕ) → (c : ℕ) × (s : Str) × (show_ℕ n ≡ c ∷ s) × IsDigit c
unfolding show_ℕ
show_ℕ-cons n =
    let (c, s, e) = digits_nonempty (suc n) n [] (omega arith) in
    (c, s, e, (rw e at (show_ℕ_digits n)).0)

read_signed_digit :
    (c : ℕ) (s : Str) → IsDigit c → read_signed (c ∷ s) ≡ to_pos (read_digits 0 false (c ∷ s))
unfolding read_signed
read_signed_digit c s d = ground arith

pub read_signed-show_ℤ : (i : ℤ) → read_signed (show_ℤ i) ≡ some i
unfolding show_ℤ
read_signed-show_ℤ (pos n) =
    let (c, s, e, d) = show_ℕ-cons n in
    ap read_signed e
    ∙ read_signed_digit c s d
    ∙ ap (λ t. to_pos (read_digits 0 false t)) (sym e)
    ∙ unfold to_pos in rw (read_digits-show_ℕ n false)
read_signed-show_ℤ (negsuc n) = unfold read_signed in rw (read_digits-show_ℕ (suc n) false)

-- Two integers with the same decimal are equal.
pub show_ℤ_injective : (i j : ℤ) → show_ℤ i ≡ show_ℤ j → i ≡ j
show_ℤ_injective i j h = cc (read_signed-show_ℤ i, read_signed-show_ℤ j)

-- The characters of a decimal: digits, and a minus sign.
abbrev pub IsDecimal : ℕ → Type 0
IsDecimal c = (45 ≤ c) × (c ≤ 57)

pub show_ℤ-IsDecimal : (i : ℤ) → All IsDecimal (show_ℤ i)
unfolding show_ℤ
show_ℤ-IsDecimal (pos n) =
    All-mono IsDigit IsDecimal (λ c d. omega arith) (show_ℕ n) (show_ℕ_digits n)
show_ℤ-IsDecimal (negsuc n) = (
  omega arith,
  All-mono IsDigit IsDecimal (λ c d. omega arith) (show_ℕ (suc n)) (show_ℕ_digits (suc n)),
)
