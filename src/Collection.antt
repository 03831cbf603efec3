-- ===== src/Collection.antt =====
-- src/collection.rs: the in-memory collection. A method that changes the collection returns it beside
-- its result, so that the effect of an error is visible. `usize` and `u64` are numbers; `checked_add`
-- on the sequence is written out.
pub mod Batch
pub mod Validity
pub mod Search
use Prim.Native.Nat.{Ordering}
use focal_vector.Base.{
  ℕ, ◌+◌, ◌-◌, ◌^◌, Bool, true, false, not, ◌≡◌, Option, none, some, List, [], ◌∷◌, map, length,
  keep, any, is_empty, ltb, ◌==◌, if◌then◌else◌,
}
use focal_vector.Outcome.{
  text, Error, invalid_dimension, invalid_config, invalid_query, corrupt_storage, sequence_overflow,
  Result, ok, err, ◌>>=◌, ◌>>◌, reject_if,
}
use focal_vector.Str.{Str, str_cmp}
use focal_vector.Float.{F32, FloatOps}
use focal_vector.Map.{Map, lookup, hash_insert, remove}
use focal_vector.Metric.{Metric, prepare, score}
use focal_vector.Filter.{Metadata, Filter, matches}
use focal_vector.Sort.{sort}
use focal_vector.Sort.TopK.{offer_all}
use focal_vector.Point.{
  CollectionConfig, UpsertPoint, StoredPoint, SearchHit, RankedPoint, rank_cmp,
}

pub record Collection : Type 0 where
  pub config : CollectionConfig
  pub points : Map Str StoredPoint
  pub sequence : ℕ

abbrev pub u64_max : ℕ
u64_max = 2 ^ 64 - 1

unfoldable pub new : CollectionConfig → Result Collection
new config = do
  reject_if (config.dimension == 0) (invalid_config (text "dimension must be greater than zero"))
  ok (record { config = config; points = []; sequence = 0 })

unfoldable pub next_sequence : Collection → Result ℕ
next_sequence c = if c.sequence == u64_max then err sequence_overflow else ok (c.sequence + 1)

unfoldable pub get_stored : Collection → Str → Option StoredPoint
get_stored c id = lookup str_cmp id c.points

unfoldable pub insert_all : List StoredPoint → Map Str StoredPoint → Map Str StoredPoint
insert_all [] m = m
insert_all (p ∷ ps) m = insert_all ps (hash_insert str_cmp p.id p m)

unfoldable pub remove_all : List Str → Map Str StoredPoint → Map Str StoredPoint
remove_all [] m = m
remove_all (id ∷ ids) m = remove_all ids (remove str_cmp id m)

unfoldable pub apply_prepared_upsert : Collection → List StoredPoint → ℕ → Collection
unfolding insert_all
apply_prepared_upsert c points sequence = record c {
  points = insert_all points c.points;
  sequence = sequence;
}

unfoldable pub apply_delete_at : Collection → List Str → ℕ → Collection
unfolding remove_all
apply_delete_at c ids sequence = record c { points = remove_all ids c.points; sequence = sequence }

-- Missing IDs are valid no-ops.
unfoldable pub delete : Collection → List Str → Collection × Result ℕ
unfolding next_sequence apply_delete_at
delete c ids = elim (next_sequence c) [
  | err e ↦ (c, err e)
  | ok sequence ↦ (apply_delete_at c ids sequence, ok sequence)
]

abbrev pub values : Map Str StoredPoint → List StoredPoint
values m = map (λ e. e.1) m

unfoldable pub id_cmp : StoredPoint → StoredPoint → Ordering
id_cmp a b = str_cmp a.id b.id

-- `snapshot_points` and `snapshot_stored_points`
unfoldable pub snapshot_points : Collection → List StoredPoint
unfolding id_cmp
snapshot_points c = sort id_cmp (values c.points)

-- only an entry whose sequence is still current is replaced
unfoldable pub replace_current : StoredPoint → Map Str StoredPoint → Map Str StoredPoint
replace_current p m = elim (lookup str_cmp p.id m) [
  | none ↦ m
  | some current ↦ if current.sequence == p.sequence then hash_insert str_cmp p.id p m else m
]

unfoldable pub replace_persisted : List StoredPoint → Map Str StoredPoint → Map Str StoredPoint
unfolding replace_current
replace_persisted [] m = m
replace_persisted (p ∷ ps) m = replace_persisted ps (replace_current p m)

unfoldable pub replace_persisted_points : Collection → List StoredPoint → Collection
unfolding replace_persisted
replace_persisted_points c points = record c { points = replace_persisted points c.points }

-- the loop of `restore_stored_snapshot`; it stops at the first ID that is there already
unfoldable pub insert_new :
    List StoredPoint → Map Str StoredPoint → Map Str StoredPoint × Result (Unit {0})
insert_new [] m = (m, ok tt)
insert_new (p ∷ ps) m = elim (lookup str_cmp p.id m) [
  | none ↦ insert_new ps (hash_insert str_cmp p.id p m)
  | some _ ↦ (
    hash_insert str_cmp p.id p m,
    err (corrupt_storage (text "segment contains duplicate point IDs")),
  )
]

unfoldable pub restore_snapshot : Collection → List StoredPoint → ℕ → Collection × Result (Unit {0})
unfolding insert_new
restore_snapshot c points sequence =
    if any (λ (p : StoredPoint). ltb sequence p.sequence) points
    then (c, err (corrupt_storage (text "point sequence is newer than its segment")))
    else (let (m, result) = insert_new points [] in
        elim result [
          | err e ↦ (record c { points = m }, err e)
          | ok _ ↦ (record c { points = m; sequence = sequence }, ok tt)
        ])

abbrev pub to_hit : RankedPoint → SearchHit
to_hit r = record {
  id = r.point.id;
  score = r.score;
  metadata = r.point.metadata;
  sequence = r.point.sequence;
}

module _ (fl : FloatOps) where
  unfoldable pub prepare_point : CollectionConfig → ℕ → UpsertPoint → Result StoredPoint
  prepare_point config sequence point = do
    reject_if (not (length point.vector == config.dimension))
        (invalid_dimension config.dimension (length point.vector))
    reject_if (is_empty point.id) (invalid_query (text "point ID must not be empty"))
    vector ← prepare fl config.metric point.vector
    ok (record { id = point.id; vector = vector; metadata = point.metadata; sequence = sequence })

  -- the loop of `prepare_upsert`
  unfoldable pub prepare_each : CollectionConfig → ℕ → List UpsertPoint → Result (List StoredPoint)
  unfolding prepare_point
  prepare_each config sequence [] = ok []
  prepare_each config sequence (point ∷ points) = do
    prepared ← prepare_point config sequence point
    rest ← prepare_each config sequence points
    ok (prepared ∷ rest)

  unfoldable pub prepare_upsert :
      CollectionConfig → List UpsertPoint → ℕ → Result (List StoredPoint)
  unfolding prepare_each
  prepare_upsert config points sequence = do
    reject_if (is_empty points) (invalid_query (text "upsert batch must not be empty"))
    prepare_each config sequence points

  unfoldable pub upsert : Collection → List UpsertPoint → Collection × Result ℕ
  unfolding next_sequence prepare_upsert apply_prepared_upsert
  upsert c points = elim (next_sequence c) [
    | err e ↦ (c, err e)
    | ok sequence ↦ elim (prepare_upsert c.config points sequence) [
      | err e ↦ (c, err e)
      | ok prepared ↦ (apply_prepared_upsert c prepared sequence, ok sequence)
    ]
  ]

  unfoldable pub rank : CollectionConfig → List F32 → StoredPoint → RankedPoint
  rank config query point = record {
    point = point;
    score = score fl config.metric query point.vector;
  }

  -- A heap keeps the best k, and its elements are sorted at the end.
  unfoldable pub top_k : CollectionConfig → List F32 → ℕ → List StoredPoint → List SearchHit
  unfolding rank
  top_k config query k points =
      map to_hit (sort rank_cmp (offer_all rank_cmp k [] (map (rank config query) points)))

  -- `filter.is_none_or(|filter| filter.matches(&point.metadata))`
  unfoldable pub passes : Option Filter → StoredPoint → Bool
  passes none point = true
  passes (some filter) point = matches fl filter point.metadata

  unfoldable pub check_query : CollectionConfig → List F32 → ℕ → Result (List F32)
  check_query config query k = do
    reject_if (k == 0) (invalid_query (text "k must be greater than zero"))
    reject_if (not (length query == config.dimension))
        (invalid_dimension config.dimension (length query))
    prepare fl config.metric query

  unfoldable pub search : Collection → List F32 → ℕ → Option Filter → Result (List SearchHit)
  unfolding check_query top_k passes
  search c query k filter = do
    prepared ← check_query c.config query k
    ok (top_k c.config prepared k (keep (passes filter) (values c.points)))

  -- `ids.iter().filter_map(|id| self.points.get(id))`
  unfoldable pub get_each : Map Str StoredPoint → List Str → List StoredPoint
  get_each m [] = []
  get_each m (id ∷ ids) =
      let rest = get_each m ids in elim (lookup str_cmp id m) [ none ↦ rest | some p ↦ p ∷ rest ]

  unfoldable pub search_ids :
      Collection → List F32 → ℕ → List Str → Option Filter → Result (List SearchHit)
  unfolding check_query top_k passes get_each
  search_ids c query k ids filter = do
    prepared ← check_query c.config query k
    ok (top_k c.config prepared k (keep (passes filter) (get_each c.points ids)))
