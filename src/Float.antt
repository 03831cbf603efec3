-- ===== src/Float.antt =====
-- IEEE 754 numbers as bit patterns: an `f32` is a number below 2^32, an `f64` one below 2^64.
-- Classification and comparison are written out. Arithmetic is a parameter, `FloatOps`.
use Prim.Native.Nat.{compare, Ordering}
use focal_vector.Base.{
  ℕ, ◌+◌, ◌-◌, ◌/◌, ◌%◌, ◌^◌, ◌<◌, ◌≡◌, Bool, true, not, ◌&&◌, List, ltb, leb, ◌==◌, if◌then◌else◌,
}
use focal_vector.Order.{IsPreorder, on, on-IsPreorder, compare-IsPreorder}

abbrev pub F32 : Type 0
F32 = ℕ

abbrev pub F64 : Type 0
F64 = ℕ

-- `f32::is_finite`: the exponent bits are not all set.
unfoldable pub is_finite32 : F32 → Bool
is_finite32 b = not ((b / 2 ^ 23) % 256 == 255)

unfoldable pub is_finite64 : F64 → Bool
is_finite64 b = not ((b / 2 ^ 52) % 2048 == 2047)

unfoldable pub is_nan64 : F64 → Bool
unfolding is_finite64
is_nan64 b = not (is_finite64 b) && not (b % 2 ^ 52 == 0)

-- `value == 0.0`, for either sign
unfoldable pub is_zero64 : F64 → Bool
is_zero64 b = b % 2 ^ 63 == 0

-- A pattern's rank in `total_cmp`: the negative patterns come first and fall.
unfoldable pub total_key32 : F32 → ℕ
total_key32 b = if ltb b (2 ^ 31) then b + 2 ^ 31 else 2 ^ 32 - 1 - b

unfoldable pub total_key64 : F64 → ℕ
total_key64 b = if ltb b (2 ^ 63) then b + 2 ^ 63 else 2 ^ 64 - 1 - b

abbrev pub total_cmp32 : F32 → F32 → Ordering
total_cmp32 = on compare total_key32

abbrev pub total_cmp64 : F64 → F64 → Ordering
total_cmp64 = on compare total_key64

pub total_cmp32-IsPreorder : IsPreorder total_cmp32
total_cmp32-IsPreorder = on-IsPreorder compare total_key32 compare-IsPreorder

-- `if value == 0.0 { 0.0 } else { value }`
unfoldable pub canonical_zero : F64 → F64
unfolding is_zero64
canonical_zero b = if is_zero64 b then 0 else b

-- `a >= b`, `a < b` and `a == b` on `f64`: false at a NaN, and the two zeros are equal.
unfoldable pub ge64 : F64 → F64 → Bool
unfolding is_nan64 canonical_zero total_key64
ge64 a b =
    not (is_nan64 a)
    && (not (is_nan64 b) && leb (total_key64 (canonical_zero b)) (total_key64 (canonical_zero a)))

unfoldable pub lt64 : F64 → F64 → Bool
unfolding is_nan64 canonical_zero total_key64
lt64 a b =
    not (is_nan64 a)
    && (not (is_nan64 b) && ltb (total_key64 (canonical_zero a)) (total_key64 (canonical_zero b)))

unfoldable pub eq64 : F64 → F64 → Bool
unfolding is_nan64 canonical_zero
eq64 a b = not (is_nan64 a) && (not (is_nan64 b) && canonical_zero a == canonical_zero b)

-- `a < b` on `f32`
unfoldable pub lt32 : F32 → F32 → Bool
unfolding is_finite32 total_key32
lt32 a b =
    let is_nan = λ (x : F32). not (is_finite32 x) && not (x % 2 ^ 23 == 0) in
    let canonical = λ (x : F32). if x % 2 ^ 31 == 0 then 0 else x in
    not (is_nan a)
    && (not (is_nan b) && ltb (total_key32 (canonical a)) (total_key32 (canonical b)))

-- The processor's arithmetic. Each result is a pattern of its width.
pub record FloatOps : Type 0 where
  pub add32 : F32 → F32 → F32
  pub sub32 : F32 → F32 → F32
  pub mul32 : F32 → F32 → F32
  pub neg32 : F32 → F32
  pub sum32 : List F32 → F32
  pub widen : F32 → F64
  pub mul64 : F64 → F64 → F64
  pub sum64 : List F64 → F64
  pub sqrt64 : F64 → F64
  pub recip64 : F64 → F64
  pub narrow : F64 → F32
  -- `i64 as f64`, on the bits of the integer
  pub from_i64 : ℕ → F64
  pub mul32_range : (a b : F32) → mul32 a b < 2 ^ 32
  pub from_i64_finite : (n : ℕ) → is_finite64 (from_i64 n) ≡ true
