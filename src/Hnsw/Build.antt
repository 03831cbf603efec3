-- ===== src/Hnsw/Build.antt =====
-- src/hnsw.rs: building an index from points: the checks of the input, the first points one by one, the
-- rest in batches that are planned together, and the final pruning and packing. Of several vectors that
-- are refused, the first is reported, where the parallel source may report another.
use focal_vector.Base.{
  ℕ, zero, suc, not, List, [], ◌∷◌, none, some, ◌==◌, if◌then◌else◌, length, take, drop, map, any,
  is_empty, get_elem?,
}
use focal_vector.Outcome.{
  text, invalid_query, invalid_dimension, invalid_vector, Result, ok, ◌>>=◌, ◌>>◌, reject_if,
}
use focal_vector.Str.{Str, str_cmp}
use focal_vector.Float.{F32, FloatOps, is_finite32}
use focal_vector.Map.{contains}
use focal_vector.Metric.{Metric, prepare}
use focal_vector.Hnsw.{HnswConfig, validate_config, deterministic_level}
use focal_vector.Hnsw.Vectors.{
  QuantOps, VectorStorage, prepared_vector, quantized, quantize, scalar_int8, empty_arena,
}
use focal_vector.Hnsw.Workspace.{Workspace}
use focal_vector.Hnsw.Graph.{HnswIndex, len}
use focal_vector.Hnsw.Compact.{finalize_compact_graph}
use focal_vector.Hnsw.Insert.{
  PreparedPoint, Plan, prune, apply_insertion, plan_point, insert_prepared,
}

abbrev pub parallel_build_seed : ℕ
parallel_build_seed = 4096

abbrev pub parallel_build_batch : ℕ
parallel_build_batch = 512

abbrev pub empty_index : ℕ → Metric → HnswConfig → VectorStorage → HnswIndex
empty_index dimension metric config storage = record {
  dimension = dimension;
  metric = metric;
  config = config;
  nodes = [];
  ids = [];
  vectors = empty_arena storage;
  entry_point = none;
  max_level = 0;
  compact_graph = none;
}

module _ (fl : FloatOps) (qo : QuantOps) where
  unfoldable pub insert_all : List PreparedPoint → HnswIndex × Workspace → HnswIndex × Workspace
  unfolding insert_prepared
  insert_all [] s = s
  insert_all (p ∷ ps) s = insert_all ps (insert_prepared fl qo p s)

  -- The plans of a batch are all made before the first of them is applied.
  unfoldable pub plan_batch :
      HnswIndex → List PreparedPoint → Workspace → List (PreparedPoint × Plan) × Workspace
  unfolding plan_point
  plan_batch index [] workspace = ([], workspace)
  plan_batch index (p ∷ ps) workspace =
      let (plan, used) = plan_point fl qo index p workspace in
      let (plans, used') = plan_batch index ps used in ((p, plan) ∷ plans, used')

  unfoldable pub apply_batch : List (PreparedPoint × Plan) → HnswIndex → HnswIndex
  unfolding apply_insertion
  apply_batch [] index = index
  apply_batch ((point, plan) ∷ rest) index =
      apply_batch rest (apply_insertion fl qo point plan index)

  -- A round for each batch: no more than there are points.
  unfoldable pub insert_batches : ℕ → List PreparedPoint → HnswIndex × Workspace → HnswIndex
  unfolding plan_batch apply_batch
  insert_batches zero points (index, workspace) = index
  insert_batches (suc fuel) points (index, workspace) =
      let (plans, used) = plan_batch index (take parallel_build_batch points) workspace in
      let rest =
        insert_batches fuel (drop parallel_build_batch points) (apply_batch plans index, used) in
      if is_empty points then index else rest

  unfoldable pub prune_layers : ℕ → ℕ → ℕ → HnswIndex → HnswIndex
  unfolding prune
  prune_layers node layer zero index = index
  prune_layers node layer (suc left) index =
      prune_layers node (suc layer) left (prune fl qo node layer index)

  unfoldable pub layer_count : HnswIndex → ℕ → ℕ
  layer_count index node = elim (get_elem? index.nodes node) [
    | none ↦ 0
    | some n ↦ length n.neighbors
  ]

  -- `compact_neighbors`, from the given node on
  unfoldable pub compact_neighbors : ℕ → ℕ → HnswIndex → HnswIndex
  unfolding prune_layers layer_count
  compact_neighbors node zero index = index
  compact_neighbors node (suc left) index =
      compact_neighbors (suc node) left (prune_layers node 0 (layer_count index node) index)

  unfoldable pub build_prepared_points :
      ℕ → Metric → HnswConfig → VectorStorage → List PreparedPoint → Result HnswIndex
  unfolding insert_all insert_batches compact_neighbors finalize_compact_graph
  build_prepared_points dimension metric config storage prepared =
      let seeded =
        insert_all (take parallel_build_seed prepared)
          (empty_index dimension metric config storage, record { visited = []; generation = 0 }) in
      let rest = drop parallel_build_seed prepared in
      let index = insert_batches (length rest) rest seeded in
      finalize_compact_graph (compact_neighbors 0 (len index) index)

-- The loop that refuses an empty ID or one that came before.
unfoldable pub check_ids : List Str → List Str → Result (Unit {0})
unfolding contains
check_ids before [] = ok tt
check_ids before (id ∷ ids) = do
  reject_if (is_empty id) (invalid_query (text "point ID must not be empty"))
  reject_if (contains str_cmp id before) (invalid_query (text "HNSW point IDs must be unique"))
  check_ids (id ∷ before) ids

-- The same loop of `build_quantized_prepared`, which also checks each vector.
unfoldable pub check_points : ℕ → List Str → List (Str × List F32) → Result (Unit {0})
unfolding contains
check_points dimension before [] = ok tt
check_points dimension before ((id, vector) ∷ points) = do
  reject_if (is_empty id) (invalid_query (text "point ID must not be empty"))
  reject_if (contains str_cmp id before) (invalid_query (text "HNSW point IDs must be unique"))
  reject_if (not (length vector == dimension)) (invalid_dimension dimension (length vector))
  reject_if (any (λ v. not (is_finite32 v)) vector)
      (invalid_vector (text "components must be finite"))
  check_points dimension (id ∷ before) points

module _ (fl : FloatOps) (qo : QuantOps) where
  unfoldable pub prepare_point :
      ℕ → Metric → HnswConfig → VectorStorage → Str × List F32 → Result PreparedPoint
  unfolding prepared_vector deterministic_level
  prepare_point dimension metric config storage (id, vector) = do
    reject_if (not (length vector == dimension)) (invalid_dimension dimension (length vector))
    prepared ← prepare fl metric vector
    ok (record {
      id = id;
      vector = prepared_vector fl qo storage prepared;
      level = deterministic_level id config.m;
    })

  unfoldable pub prepare_all :
      ℕ → Metric → HnswConfig → VectorStorage → List (Str × List F32) → Result (List PreparedPoint)
  unfolding prepare_point
  prepare_all dimension metric config storage [] = ok []
  prepare_all dimension metric config storage (p ∷ ps) = do
    point ← prepare_point dimension metric config storage p
    points ← prepare_all dimension metric config storage ps
    ok (point ∷ points)

  -- `build_with_storage`, which `build` and `build_quantized` call with one storage each
  unfoldable pub build :
      ℕ → Metric → HnswConfig → VectorStorage → List (Str × List F32) → Result HnswIndex
  unfolding validate_config check_ids prepare_all build_prepared_points
  build dimension metric config storage points = do
    validate_config dimension config
    check_ids [] (map (λ p. p.0) points)
    prepared ← prepare_all dimension metric config storage points
    build_prepared_points fl qo dimension metric config storage prepared

  quantized_point : HnswConfig → Str × List F32 → PreparedPoint
  unfolding quantize deterministic_level
  quantized_point config (id, vector) = record {
    id = id;
    vector = quantized (quantize fl qo vector);
    level = deterministic_level id config.m;
  }

  unfoldable pub build_quantized_prepared :
      ℕ → Metric → HnswConfig → List (Str × List F32) → Result HnswIndex
  unfolding validate_config check_points quantized_point build_prepared_points
  build_quantized_prepared dimension metric config points = do
    validate_config dimension config
    check_points dimension [] points
    build_prepared_points fl qo dimension metric config scalar_int8
        (map (quantized_point config) points)
