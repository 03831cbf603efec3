-- ===== src/Filter.antt =====
-- src/filter.rs: metadata values, filters, and the scan that decides whether a point matches.
use focal_vector.Base.{
  ℕ, Bool, true, false, not, ◌&&◌, ◌||◌, Option, none, some, ◌==◌, if◌then◌else◌,
}
use focal_vector.Float.{F64, is_finite64, ge64, lt64, eq64, FloatOps}
use focal_vector.Str.{Str, str_cmp, str_eq}
use focal_vector.Map.{Map, lookup}

-- An `i64` is its 64 bits.
pub data Value : Type 0 where
  keyword : Str → Value
  integer : ℕ → Value
  float : F64 → Value
  boolean : Bool → Value

-- `BTreeMap<String, Value>`
abbrev pub Metadata : Type 0
Metadata = Map Str Value

mutual
  pub data Filter : Type 0 where
    match_all : Filter
    equals : Str → Value → Filter
    range : Str → Option F64 → Option F64 → Filter
    conj : Filters → Filter
    disj : Filters → Filter
    negation : Filter → Filter

  pub data Filters : Type 0 where
    nil : Filters
    cons : Filter → Filters → Filters

abbrev bool_eq : Bool → Bool → Bool
bool_eq true b = b
bool_eq false b = not b

-- The derived `PartialEq` of `Value`.
unfoldable pub value_eq : Value → Value → Bool
value_eq (keyword s) (keyword t) = str_eq s t
value_eq (integer m) (integer n) = m == n
value_eq (float a) (float b) = eq64 a b
value_eq (boolean a) (boolean b) = bool_eq a b
value_eq _ _ = false

-- `metadata.get(field) == Some(value)`
unfoldable pub found_eq : Option Value → Value → Bool
unfolding value_eq
found_eq none value = false
found_eq (some v) value = value_eq v value

-- `is_none_or`
abbrev pub none_or : Option F64 → (F64 → Bool) → Bool
none_or none p = true
none_or (some x) p = p x

abbrev pub in_bounds : Option F64 → Option F64 → F64 → Bool
in_bounds gte lt v = none_or gte (λ lower. ge64 v lower) && none_or lt (λ upper. lt64 v upper)

module _ (fl : FloatOps) where
  unfoldable pub numeric_value : Value → Option F64
  numeric_value (integer n) = some (fl.from_i64 n)
  numeric_value (float v) = if is_finite64 v then some v else none
  numeric_value (keyword s) = none
  numeric_value (boolean b) = none

  -- `.and_then(numeric_value).is_some_and(…)`
  unfoldable pub found_in : Option Value → Option F64 → Option F64 → Bool
  unfolding numeric_value
  found_in none gte lt = false
  found_in (some v) gte lt = elim (numeric_value v) [ none ↦ false | some x ↦ in_bounds gte lt x ]

  unfoldable mutual
    unfolding found_eq found_in

    pub matches : Filter → Metadata → Bool
    matches match_all m = true
    matches (equals field value) m = found_eq (lookup str_cmp field m) value
    matches (range field gte lt) m = found_in (lookup str_cmp field m) gte lt
    matches (conj fs) m = matches_all fs m
    matches (disj fs) m = matches_any fs m
    matches (negation f) m = not (matches f m)

    pub matches_all : Filters → Metadata → Bool
    matches_all nil m = true
    matches_all (cons f fs) m = matches f m && matches_all fs m

    pub matches_any : Filters → Metadata → Bool
    matches_any nil m = false
    matches_any (cons f fs) m = matches f m || matches_any fs m
