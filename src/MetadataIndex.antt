-- ===== src/MetadataIndex.antt =====
-- src/metadata_index.rs: which points can pass a filter, from postings by field and value. A set of IDs
-- is a list; an entry of a map of sets is made when its first ID comes.
pub mod Equality
pub mod Ranges
pub mod Values
pub mod Build
pub mod Candidates
use Prim.Native.Nat.{compare, Ordering}
use focal_vector.Base.{
  ℕ, Bool, true, false, not, ◌||◌, ◌&&◌, Option, none, some, List, [], ◌∷◌, keep, is_empty,
  if◌then◌else◌,
}
use focal_vector.Order.{is_le, is_lt, on}
use focal_vector.Str.{Str, str_cmp}
use focal_vector.Float.{F64, FloatOps, is_nan64, canonical_zero, ge64, total_cmp64}
use focal_vector.Map.{Map, lookup, hash_insert, tree_insert, contains, set_insert, set_extend}
use focal_vector.Filter.{
  Value, keyword, integer, float, boolean, Metadata, Filter, Filters, match_all, equals, range,
  conj, disj, negation, nil, cons, numeric_value,
}
use focal_vector.Point.{StoredPoint}

pub data ScalarKey : Type 0 where
  keyword_key : Str → ScalarKey
  integer_key : ℕ → ScalarKey
  float_key : F64 → ScalarKey
  boolean_key : Bool → ScalarKey

-- `ScalarKey::from_value`
unfoldable pub from_value : Value → Option ScalarKey
from_value (keyword s) = some (keyword_key s)
from_value (integer n) = some (integer_key n)
from_value (float v) = if is_nan64 v then none else some (float_key (canonical_zero v))
from_value (boolean b) = some (boolean_key b)

abbrev pub bool_number : Bool → ℕ
bool_number true = 1
bool_number false = 0

-- A key as a text that begins with its kind.
abbrev pub code : ScalarKey → List ℕ
code (keyword_key s) = 0 ∷ s
code (integer_key n) = 1 ∷ n ∷ []
code (float_key v) = 2 ∷ v ∷ []
code (boolean_key b) = 3 ∷ bool_number b ∷ []

-- Some order whose equality is that of the keys.
abbrev pub scalar_cmp : ScalarKey → ScalarKey → Ordering
scalar_cmp = on str_cmp code

pub record MetadataIndex : Type 0 where
  pub all_ids : List Str
  pub equality : Map Str (Map ScalarKey (List Str))
  pub numeric : Map Str (Map F64 (List Str))

abbrev pub or_empty {ℓ} : {A : Type ℓ} → Option (List A) → List A
or_empty none = []
or_empty (some xs) = xs

-- `equality.entry(field).or_default().entry(key).or_default().insert(id)`
unfoldable pub post_key :
    Str → ScalarKey → Str → Map Str (Map ScalarKey (List Str)) → Map Str (Map ScalarKey (List Str))
post_key field key id m =
    let postings = or_empty (lookup str_cmp field m) in
    hash_insert str_cmp field
      (hash_insert scalar_cmp key
        (set_insert str_cmp id (or_empty (lookup scalar_cmp key postings))) postings)
      m

-- the same for `numeric`, whose inner map is ordered
unfoldable pub post_number :
    Str → F64 → Str → Map Str (Map F64 (List Str)) → Map Str (Map F64 (List Str))
post_number field number id m =
    let postings = or_empty (lookup str_cmp field m) in
    hash_insert str_cmp field
      (tree_insert total_cmp64 number
        (set_insert str_cmp id (or_empty (lookup total_cmp64 number postings))) postings)
      m

module _ (fl : FloatOps) where
  unfoldable pub post_entry : Str → MetadataIndex → Str × Value → MetadataIndex
  unfolding from_value post_key post_number
  post_entry id index (field, v) = record index {
    equality = elim (from_value v) [
      | none ↦ index.equality
      | some key ↦ post_key field key id index.equality
    ];
    numeric = elim (numeric_value fl v) [
      | none ↦ index.numeric
      | some x ↦ post_number field (canonical_zero x) id index.numeric
    ];
  }

  unfoldable pub post_entries : Str → MetadataIndex → Metadata → MetadataIndex
  unfolding post_entry
  post_entries id index [] = index
  post_entries id index (e ∷ m) = post_entries id (post_entry id index e) m

  -- the loop of `build`
  unfoldable pub post_points : MetadataIndex → List StoredPoint → MetadataIndex
  unfolding post_entries
  post_points index [] = index
  post_points index (p ∷ ps) =
      post_points
        (post_entries p.id (record index { all_ids = set_insert str_cmp p.id index.all_ids })
          p.metadata)
        ps

  unfoldable pub build : List StoredPoint → MetadataIndex
  unfolding post_points
  build points = post_points (record { all_ids = []; equality = []; numeric = [] }) points

abbrev pub is_nan_bound : Option F64 → Bool
is_nan_bound none = false
is_nan_bound (some x) = is_nan64 x

abbrev pub is_empty_range : Option F64 → Option F64 → Bool
is_empty_range (some lower) (some upper) = ge64 lower upper
is_empty_range _ _ = false

-- `Bound::Included` of the lower and `Bound::Excluded` of the upper bound
abbrev pub above : Option F64 → F64 → Bool
above none x = true
above (some lower) x = is_le (total_cmp64 (canonical_zero lower) x)

abbrev pub under : Option F64 → F64 → Bool
under none x = true
under (some upper) x = is_lt (total_cmp64 x (canonical_zero upper))

unfoldable pub flatten : Map F64 (List Str) → List Str
flatten [] = []
flatten (e ∷ m) = set_extend str_cmp (flatten m) e.1

-- `BTreeMap::range` panics on a range that ends before it starts; the guards come first.
unfoldable pub range_ids : MetadataIndex → Str → Option F64 → Option F64 → List Str
unfolding flatten is_nan64
range_ids index field gte lt' =
    if is_nan_bound gte || is_nan_bound lt'
    then []
    else if is_empty_range gte lt'
    then []
    else (elim (lookup str_cmp field index.numeric) [
      | none ↦ []
      | some values ↦ flatten (keep (λ e. above gte e.0 && under lt' e.0) values)
    ])

unfoldable pub equal_ids : MetadataIndex → Str → Value → List Str
unfolding from_value
equal_ids index field value = elim (from_value value) [
  | none ↦ []
  | some key ↦ or_empty (lookup scalar_cmp key (or_empty (lookup str_cmp field index.equality)))
]

unfoldable mutual
  unfolding equal_ids range_ids

  pub candidates : MetadataIndex → Filter → List Str
  candidates index match_all = index.all_ids
  candidates index (equals field value) = equal_ids index field value
  candidates index (range field gte lt') = range_ids index field gte lt'
  candidates index (conj nil) = index.all_ids
  candidates index (conj (cons f fs)) = retain_all index (candidates index f) fs
  candidates index (disj fs) = extend_all index [] fs
  candidates index (negation f) =
      let excluded = candidates index f in
      keep (λ id. not (contains str_cmp id excluded)) index.all_ids

  -- the loop of `And`, which ends when nothing is left
  pub retain_all : MetadataIndex → List Str → Filters → List Str
  retain_all index ids nil = ids
  retain_all index ids (cons f fs) =
      let kept = keep (λ id. contains str_cmp id (candidates index f)) ids in
      let rest = retain_all index kept fs in if is_empty kept then kept else rest

  pub extend_all : MetadataIndex → List Str → Filters → List Str
  extend_all index ids nil = ids
  extend_all index ids (cons f fs) =
      extend_all index (set_extend str_cmp ids (candidates index f)) fs
