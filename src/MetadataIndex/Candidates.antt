-- ===== src/MetadataIndex/Candidates.antt =====
-- The candidates of a filter against a scan of the points that the index was built from.
use focal_vector.Base.{
  Bool, true, false, ◌≡◌, refl, ◌∙◌, sym, Option, List, [], ◌∷◌, ◌||◌, ◌&&◌, not, if◌then◌else◌,
  arith, any, keep, is_empty, All, map,
}
use focal_vector.Order.{is_eq}
use focal_vector.Str.{Str, str_cmp, str_cmp-IsLawful}
use focal_vector.Float.{F64, FloatOps}
use focal_vector.Map.{lookup, contains, set_insert, set_extend, IsOrdered}
use focal_vector.Map.Sets.{contains-set_insert, contains-set_extend, contains-keep}
use focal_vector.Filter.{
  Filter, Filters, match_all, equals, range, conj, disj, negation, nil, cons, matches, matches_all,
  matches_any, Value, Metadata, found_eq, found_in,
}
use focal_vector.Point.{StoredPoint}
use focal_vector.Sort.Unique.{AllDiffer}
use focal_vector.Collection.{id_cmp}
use focal_vector.MetadataIndex.{
  MetadataIndex, post_entries, post_points, build, candidates, retain_all, extend_all, equal_ids,
  range_ids,
}
use focal_vector.MetadataIndex.Build.{
  in_all, in_equal, in_range, in_equal-post_entry, in_range-post_entry, read-post_entries,
  in_all-post_entries,
}

-- The points have the ID and pass the test.
abbrev some_point : Str → (Metadata → Bool) → List StoredPoint → Bool
some_point a test points = any (λ p. is_eq (str_cmp a p.id) && test p.metadata) points

abbrev pub HasOrderedMetadata : StoredPoint → Type 0
HasOrderedMetadata p = IsOrdered str_cmp p.metadata

module _ (fl : FloatOps) where
  in_all-post_points :
      (a : Str) (points : List StoredPoint) (index : MetadataIndex)
      → in_all a (post_points fl index points) ≡ some_point a (λ m. true) points || in_all a index
  unfolding post_points
  in_all-post_points a [] index = refl
  in_all-post_points a (p ∷ ps) index =
      let added = record index { all_ids = set_insert str_cmp p.id index.all_ids } in
      ground (
        arith,
        in_all-post_points a ps (post_entries fl p.id added p.metadata),
        in_all-post_entries fl a p.id p.metadata added,
        contains-set_insert str_cmp-IsLawful a p.id index.all_ids,
      )

  in_equal-post_points :
      (a g : Str) (w : Value) (points : List StoredPoint) (index : MetadataIndex)
      → All HasOrderedMetadata points
      → in_equal a g w (post_points fl index points)
        ≡ some_point a (λ m. found_eq (lookup str_cmp g m) w) points || in_equal a g w index
  unfolding post_points found_eq equal_ids
  in_equal-post_points a g w [] index o = refl
  in_equal-post_points a g w (p ∷ ps) index o =
      let added = record index { all_ids = set_insert str_cmp p.id index.all_ids } in
      ground (
        arith,
        in_equal-post_points a g w ps (post_entries fl p.id added p.metadata) o.1,
        read-post_entries fl a g (in_equal a g w) (λ v. found_eq v w) refl
            (in_equal-post_entry fl a g w) p.id p.metadata added o.0,
      )

  in_range-post_points :
      (a g : Str) (gte lt' : Option F64) (points : List StoredPoint) (index : MetadataIndex)
      → All HasOrderedMetadata points
      → in_range a g gte lt' (post_points fl index points)
        ≡ some_point a (λ m. found_in fl (lookup str_cmp g m) gte lt') points
          || in_range a g gte lt' index
  unfolding post_points found_in range_ids
  in_range-post_points a g gte lt' [] index o = refl
  in_range-post_points a g gte lt' (p ∷ ps) index o =
      let added = record index { all_ids = set_insert str_cmp p.id index.all_ids } in
      ground (
        arith,
        in_range-post_points a g gte lt' ps (post_entries fl p.id added p.metadata) o.1,
        read-post_entries fl a g (in_range a g gte lt') (λ v. found_in fl v gte lt') refl
            (in_range-post_entry fl a g gte lt') p.id p.metadata added o.0,
      )

  -- An index that answers about one ID as the metadata of its only point, or, when `here` is false, not.
  record Describes (index : MetadataIndex) (a : Str) (here : Bool) (m : Metadata) : Type 0 where
    all : in_all a index ≡ here
    equal : (g : Str) (w : Value) → in_equal a g w index ≡ here && found_eq (lookup str_cmp g m) w
    ranged :
        (g : Str) (gte lt' : Option F64)
        → in_range a g gte lt' index ≡ here && found_in fl (lookup str_cmp g m) gte lt'

  is_empty-contains :
      (a : Str) (ids : List Str) → is_empty ids ≡ true → contains str_cmp a ids ≡ false
  unfolding contains
  is_empty-contains a [] h = refl
  is_empty-contains a (i ∷ ids) h = cc

  module _ (index : MetadataIndex) (a : Str) (here : Bool) (m : Metadata)
      (d : Describes index a here m) where
    mutual
      unfolding candidates retain_all extend_all matches matches_all matches_any contains

      candidates-matches :
          (f : Filter) → contains str_cmp a (candidates index f) ≡ here && matches fl f m
      candidates-matches match_all = ground (arith, d.all)
      candidates-matches (equals g w) = d.equal g w
      candidates-matches (range g gte lt') = d.ranged g gte lt'
      candidates-matches (conj nil) = ground (arith, d.all)
      candidates-matches (conj (cons f fs)) =
          retain_all-matches fs (candidates index f) (matches fl f m) (candidates-matches f)
      candidates-matches (disj fs) = extend_all-matches fs []
      candidates-matches (negation f) = ground (
        arith,
        d.all,
        candidates-matches f,
        contains-keep str_cmp-IsLawful a (λ id. not (contains str_cmp id (candidates index f)))
            index.all_ids,
      )

      retain_all-matches :
          (fs : Filters) (ids : List Str) (b : Bool)
          → contains str_cmp a ids ≡ here && b
          → contains str_cmp a (retain_all index ids fs) ≡ here && (b && matches_all fl fs m)
      retain_all-matches nil ids b h = ground arith
      retain_all-matches (cons f fs) ids b h =
          let kept = keep (λ id. contains str_cmp id (candidates index f)) ids in
          ground (
            arith,
            h,
            candidates-matches f,
            contains-keep str_cmp-IsLawful a (λ id. contains str_cmp id (candidates index f)) ids,
            retain_all-matches fs kept (b && matches fl f m),
            is_empty-contains a kept,
          )

      extend_all-matches :
          (fs : Filters) (ids : List Str)
          → contains str_cmp a (extend_all index ids fs)
            ≡ contains str_cmp a ids || (here && matches_any fl fs m)
      extend_all-matches nil ids = ground arith
      extend_all-matches (cons f fs) ids = ground (
        arith,
        extend_all-matches fs (set_extend str_cmp ids (candidates index f)),
        candidates-matches f,
        contains-set_extend str_cmp-IsLawful a (candidates index f) ids,
      )

-- The metadata of the first point with the ID, or none.
abbrev found : Str → List StoredPoint → Metadata
found a [] = []
found a (p ∷ ps) = if is_eq (str_cmp a p.id) then p.metadata else found a ps

some_point_none :
    (a : Str) (test : Metadata → Bool) (p : StoredPoint) (ps : List StoredPoint)
    → is_eq (str_cmp a p.id) ≡ true
    → All (λ q. is_eq (id_cmp p q) ≡ false) ps
    → some_point a test ps ≡ false
unfolding id_cmp
some_point_none a test p [] e d = refl
some_point_none a test p (q ∷ ps) e d =
    ground (arith, some_point_none a test p ps e d.1, str_cmp-IsLawful.eq_of_cmp a p.id, d.0)

-- At most one point has the ID, so a test of some such point is one of the found metadata.
some_point-found :
    (a : Str) (test : Metadata → Bool) (points : List StoredPoint)
    → AllDiffer id_cmp points
    → some_point a test points ≡ some_point a (λ m. true) points && test (found a points)
some_point-found a test [] d = refl
some_point-found a test (p ∷ ps) d = ground (
  arith,
  some_point-found a test ps d.1,
  some_point_none a test p ps,
  some_point_none a (λ m. true) p ps,
  d.0,
)

module _ (fl : FloatOps) where
  -- The IDs of the points that pass, by a scan of them all.
  abbrev pub passing : Filter → List StoredPoint → List Str
  passing f points = map (λ p. p.id) (keep (λ p. matches fl f p.metadata) points)

  contains-passing :
      (a : Str) (f : Filter) (points : List StoredPoint)
      → contains str_cmp a (passing f points) ≡ some_point a (matches fl f) points
  unfolding contains
  contains-passing a f [] = refl
  contains-passing a f (p ∷ ps) = ground (arith, contains-passing a f ps)

  build-Describes :
      (points : List StoredPoint) (a : Str)
      → All HasOrderedMetadata points
      → AllDiffer id_cmp points
      → Describes fl (build fl points) a (some_point a (λ m. true) points) (found a points)
  unfolding build equal_ids range_ids contains lookup
  build-Describes points a o d =
      let empty : MetadataIndex = record { all_ids = []; equality = []; numeric = [] } in
      record {
        all = ground (arith, in_all-post_points fl a points empty);
        equal = λ g w. ground (
          arith,
          in_equal-post_points fl a g w points empty o,
          some_point-found a (λ m. found_eq (lookup str_cmp g m) w) points d,
        );
        ranged = λ g gte lt'. ground (
          arith,
          in_range-post_points fl a g gte lt' points empty o,
          some_point-found a (λ m. found_in fl (lookup str_cmp g m) gte lt') points d,
        );
      }

  -- The candidates of a filter, from the index of points with different IDs and ordered metadata, are the IDs
  -- of the points that a scan finds to match.
  pub candidates-build :
      (points : List StoredPoint) (f : Filter) (a : Str)
      → All HasOrderedMetadata points
      → AllDiffer id_cmp points
      → contains str_cmp a (candidates (build fl points) f) ≡ contains str_cmp a (passing f points)
  candidates-build points f a o d =
      candidates-matches fl (build fl points) a (some_point a (λ m. true) points) (found a points)
        (build-Describes points a o d) f
      ∙ sym (some_point-found a (matches fl f) points d)
      ∙ sym (contains-passing a f points)
