-- ===== src/Codec/Hex.antt =====
-- `bytes.hex()`
use cs4455_epic.Base.{ℕ, ◌+◌, ◌*◌, ◌/◌, ◌%◌, ◌≡◌, [], ◌∷◌, arith, ltb, if◌then◌else◌, length}
use cs4455_epic.Base.Text.{Str, Bytes}

pub nibble : ℕ → ℕ
nibble d = if ltb d 10 then 48 + d else 87 + d

unfoldable pub hex : Bytes → Str
unfolding nibble
hex [] = []
hex (b ∷ bs) = nibble (b / 16) ∷ nibble (b % 16) ∷ hex bs

pub length-hex : (bs : Bytes) → length (hex bs) ≡ length bs * 2
unfolding hex
length-hex [] = omega arith
length-hex (b ∷ bs) = omega (arith, length-hex bs)
