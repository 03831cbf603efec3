-- ===== src/MetadataIndex/Values.antt =====
-- The two readings of a stored value: as the key or the number of a posting, and by the filter itself.
use Prim.Native.Nat.{compare}
use focal_vector.Base.{
  ℕ, Bool, true, false, ◌≡◌, Option, none, some, ◌∷◌, ◌||◌, ◌&&◌, not, arith, leb, ltb,
}
use focal_vector.Order.{is_eq, is_le, is_lt}
use focal_vector.Str.{Str, str_cmp, str_eq, str_cmp-IsLawful}
use focal_vector.Float.{F64, is_nan64, is_finite64, canonical_zero, ge64, lt64, eq64, total_key64}
use focal_vector.Filter.{Value, keyword, integer, float, boolean, value_eq, in_bounds}
use focal_vector.MetadataIndex.{ScalarKey, from_value, scalar_cmp, is_nan_bound, is_empty_range}
use focal_vector.MetadataIndex.Ranges.{within}

-- Whether the key of a stored value is that of a sought one.
abbrev pub same_key : Option ScalarKey → Option ScalarKey → Bool
same_key none k = false
same_key (some j) none = false
same_key (some j) (some k) = is_eq (scalar_cmp j k)

str_cmp_code : (s t : Str) → str_cmp (0 ∷ t) (0 ∷ s) ≡ str_cmp t s
unfolding str_cmp
str_cmp_code s t = ground arith

pub same_key-from_value :
    (stored sought : Value)
    → same_key (from_value sought) (from_value stored) ≡ value_eq stored sought
unfolding from_value value_eq eq64 str_cmp str_eq
same_key-from_value (keyword s) (keyword t) =
    ground (arith, str_cmp_code s t, str_cmp-IsLawful.preorder.swap s t)
same_key-from_value (integer m) (integer n) = ground arith
same_key-from_value (float v) (float w) = ground arith
same_key-from_value (boolean true) (boolean b) = ground arith
same_key-from_value (boolean false) (boolean b) = ground arith
same_key-from_value v w = ground arith

-- Bounds that let nothing through before the postings are read.
abbrev pub is_void : Option F64 → Option F64 → Bool
is_void gte lt' = is_nan_bound gte || (is_nan_bound lt' || is_empty_range gte lt')

pub finite_not_nan : (x : F64) → is_finite64 x ≡ true → is_nan64 x ≡ false
unfolding is_nan64
finite_not_nan x h = ground arith

two_bounds :
    (nan_l nan_u nan_x : Bool) (l u x : ℕ)
    → nan_x ≡ false
    → (not (nan_l || (nan_u || (not nan_l && (not nan_u && leb u l))))
        && (is_le (compare l x) && is_lt (compare x u)))
      ≡ (not nan_x && (not nan_l && leb l x)) && (not nan_x && (not nan_u && ltb x u))
two_bounds true nan_u nan_x l u x h = ground arith
two_bounds false true nan_x l u x h = ground arith
two_bounds false false nan_x l u x h = ground arith

-- A posted number lies between the bounds of the read where the filter's own comparison says so.
pub within-in_bounds :
    (gte lt' : Option F64) (x : F64)
    → is_finite64 x ≡ true
    → (not (is_void gte lt') && within gte lt' (canonical_zero x)) ≡ in_bounds gte lt' x
unfolding ge64 lt64
within-in_bounds none none x h = ground arith
within-in_bounds (some l) none x h = ground (arith, finite_not_nan x)
within-in_bounds none (some u) x h = ground (arith, finite_not_nan x)
within-in_bounds (some l) (some u) x h =
    two_bounds (is_nan64 l) (is_nan64 u) (is_nan64 x) (total_key64 (canonical_zero l))
      (total_key64 (canonical_zero u)) (total_key64 (canonical_zero x)) (finite_not_nan x h)
