-- ===== src/MetadataIndex/Build.antt =====
-- What `build` files: the reads of an index after each point.
use Prim.Native.Nat.{Ordering}
use focal_vector.Base.{
  Bool, true, false, ◌≡◌, refl, Option, none, some, List, [], ◌∷◌, ◌||◌, ◌&&◌, not, arith, All,
  Option-cases, Bool-cases, All-imp, inl, inr,
}
use focal_vector.Order.{is_eq}
use focal_vector.Str.{Str, str_cmp, str_cmp-IsLawful}
use focal_vector.Float.{F64, FloatOps, canonical_zero, is_finite64}
use focal_vector.Map.{Map, lookup, contains, IsOrdered}
use focal_vector.Filter.{
  Value, integer, float, boolean, keyword, Metadata, numeric_value, found_eq, found_in,
}
use focal_vector.MetadataIndex.{
  MetadataIndex, ScalarKey, from_value, or_empty, post_key, post_entry, post_entries, equal_ids,
  range_ids, flatten,
}
use focal_vector.MetadataIndex.Equality.{filed, filed-post_key}
use focal_vector.MetadataIndex.Ranges.{seen, seen-post_number}
use focal_vector.MetadataIndex.Values.{same_key, same_key-from_value, is_void, within-in_bounds}

-- The three reads of an index, at an ID.
abbrev pub in_all : Str → MetadataIndex → Bool
in_all a index = contains str_cmp a index.all_ids

abbrev pub in_equal : Str → Str → Value → MetadataIndex → Bool
in_equal a field v index = contains str_cmp a (equal_ids index field v)

abbrev pub in_range : Str → Str → Option F64 → Option F64 → MetadataIndex → Bool
in_range a field gte lt' index = contains str_cmp a (range_ids index field gte lt')

-- A read by value goes to the postings of the value's key, if it has one.
abbrev filed_at : Str → Str → Option ScalarKey → Map Str (Map ScalarKey (List Str)) → Bool
filed_at a g none m = false
filed_at a g (some j) m = contains str_cmp a (filed g j m)

in_equal_read :
    (a g : Str) (v : Value) (index : MetadataIndex)
    → in_equal a g v index ≡ filed_at a g (from_value v) index.equality
unfolding equal_ids contains
in_equal_read a g v index = ground arith

abbrev posted :
    Str
    → Option ScalarKey
    → Str
    → Map Str (Map ScalarKey (List Str))
    → Map Str (Map ScalarKey (List Str))
posted f none i m = m
posted f (some k) i m = post_key f k i m

filed_at-posted :
    (a i g f : Str) (sought stored : Option ScalarKey) (m : Map Str (Map ScalarKey (List Str)))
    → filed_at a g sought (posted f stored i m)
      ≡ (is_eq (str_cmp g f) && (same_key sought stored && is_eq (str_cmp a i)))
        || filed_at a g sought m
filed_at-posted a i g f none none m = ground arith
filed_at-posted a i g f none (some k) m = ground arith
filed_at-posted a i g f (some j) none m = ground arith
filed_at-posted a i g f (some j) (some k) m = filed-post_key a i g f j k m

in_range_read :
    (a g : Str) (gte lt' : Option F64) (index : MetadataIndex)
    → in_range a g gte lt' index
      ≡ not (is_void gte lt') && seen a gte lt' (or_empty (lookup str_cmp g index.numeric))
unfolding range_ids contains flatten
in_range_read a g gte lt' index = ground arith

module _ (fl : FloatOps) where
  numeric_value_finite : (v : Value) (x : F64) → numeric_value fl v ≡ some x → is_finite64 x ≡ true
  unfolding numeric_value
  numeric_value_finite (keyword s) x h = cc
  numeric_value_finite (boolean b) x h = cc
  numeric_value_finite (integer n) x h = ground (arith, fl.from_i64_finite n)
  numeric_value_finite (float v) x h = ground arith

  pub in_equal-post_entry :
      (a g : Str) (w : Value) (i f : Str) (v : Value) (index : MetadataIndex)
      → in_equal a g w (post_entry fl i index (f, v))
        ≡ (is_eq (str_cmp g f) && (found_eq (some v) w && is_eq (str_cmp a i)))
          || in_equal a g w index
  unfolding post_entry found_eq
  in_equal-post_entry a g w i f v index = ground (
    arith,
    in_equal_read a g w index,
    in_equal_read a g w (post_entry fl i index (f, v)),
    filed_at-posted a i g f (from_value w) (from_value v) index.equality,
    same_key-from_value v w,
  )

  pub in_range-post_entry :
      (a g : Str) (gte lt' : Option F64) (i f : Str) (v : Value) (index : MetadataIndex)
      → in_range a g gte lt' (post_entry fl i index (f, v))
        ≡ (is_eq (str_cmp g f) && (found_in fl (some v) gte lt' && is_eq (str_cmp a i)))
          || in_range a g gte lt' index
  unfolding post_entry found_in
  in_range-post_entry a g gte lt' i f v index = elim (Option-cases (numeric_value fl v)) [
    | inl e ↦ ground (
      arith,
      e,
      in_range_read a g gte lt' index,
      in_range_read a g gte lt' (post_entry fl i index (f, v)),
    )
    | inr (x, e) ↦ ground (
      arith,
      e,
      in_range_read a g gte lt' index,
      in_range_read a g gte lt' (post_entry fl i index (f, v)),
      seen-post_number a gte lt' g f (canonical_zero x) i index.numeric,
      within-in_bounds gte lt' x (numeric_value_finite v x e),
    )
  ]

  -- A read of one field of an index that a posting of a value adds its ID to by a test of the value.
  module _ (a g : Str) (read : MetadataIndex → Bool) (test : Option Value → Bool)
      (test_none : test none ≡ false)
      (step : (i f : Str) (v : Value) (index : MetadataIndex)
        → read (post_entry fl i index (f, v))
          ≡ (is_eq (str_cmp g f) && (test (some v) && is_eq (str_cmp a i))) || read index) where
    read-unfiled :
        (i : Str) (m : Metadata) (index : MetadataIndex)
        → All (λ e. is_eq (str_cmp g e.0) ≡ false) m
        → read (post_entries fl i index m) ≡ read index
    unfolding post_entries
    read-unfiled i [] index d = refl
    read-unfiled i (e ∷ m) index d =
        ground (arith, read-unfiled i m (post_entry fl i index e) d.1, step i e.0 e.1 index, d.0)

    pub read-post_entries :
        (i : Str) (m : Metadata) (index : MetadataIndex)
        → IsOrdered str_cmp m
        → read (post_entries fl i index m)
          ≡ (is_eq (str_cmp a i) && test (lookup str_cmp g m)) || read index
    unfolding post_entries lookup
    read-post_entries i [] index d = ground (arith, test_none)
    read-post_entries i (e ∷ m) index d = elim (Bool-cases (is_eq (str_cmp g e.0))) [
      | inl h ↦ ground (
        arith,
        h,
        step i e.0 e.1 index,
        read-unfiled i m (post_entry fl i index e) (All-imp (differ h) m d.0),
      )
      | inr h ↦
          ground
            (arith, h, step i e.0 e.1 index, read-post_entries i m (post_entry fl i index e) d.1)
    ]
      where
        differ :
            is_eq (str_cmp g e.0) ≡ true
            → (x : Str × Value) → str_cmp e.0 x.0 ≡ Ordering.lt
            → is_eq (str_cmp g x.0) ≡ false
        differ h x l = ground (arith, h, l, str_cmp-IsLawful.eq_of_cmp g e.0)

  pub in_all-post_entries :
      (a i : Str) (m : Metadata) (index : MetadataIndex)
      → in_all a (post_entries fl i index m) ≡ in_all a index
  unfolding post_entries post_entry
  in_all-post_entries a i [] index = refl
  in_all-post_entries a i (e ∷ m) index = in_all-post_entries a i m (post_entry fl i index e)
