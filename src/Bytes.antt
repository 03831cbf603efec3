-- ===== src/Bytes.antt =====
-- `to_le_bytes` and `from_le_bytes`, at every width.
use focal_vector.Base.{
  ℕ, zero, suc, ◌+◌, ◌*◌, ◌/◌, ◌%◌, ◌^◌, ◌<◌, ◌≡◌, refl, ap, List, [], ◌∷◌, length, All, arith,
}
use native.Mathlib.Nat.{pow-suc}

unfoldable pub to_le_bytes : ℕ → ℕ → List ℕ
to_le_bytes zero n = []
to_le_bytes (suc w) n = (n % 256) ∷ to_le_bytes w (n / 256)

unfoldable pub from_le_bytes : List ℕ → ℕ
from_le_bytes [] = 0
from_le_bytes (b ∷ bs) = b + 256 * from_le_bytes bs

pub length-to_le_bytes : (w n : ℕ) → length (to_le_bytes w n) ≡ w
unfolding to_le_bytes
length-to_le_bytes zero n = refl
length-to_le_bytes (suc w) n = ap suc (length-to_le_bytes w (n / 256))

-- A number that fits in w bytes is read back.
pub from_le-to_le : (w n : ℕ) → n < 256 ^ w → from_le_bytes (to_le_bytes w n) ≡ n
unfolding to_le_bytes from_le_bytes
from_le-to_le zero n h = omega arith
from_le-to_le (suc w) n h = omega (arith, from_le-to_le w (n / 256) (omega (arith, pow-suc 256 w)))

-- Every byte of the encoding is a byte.
pub to_le_bytes-All : (w n : ℕ) → All (λ b. b < 256) (to_le_bytes w n)
unfolding to_le_bytes
to_le_bytes-All zero n = tt
to_le_bytes-All (suc w) n = (omega arith, to_le_bytes-All w (n / 256))
