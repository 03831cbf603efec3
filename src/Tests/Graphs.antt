-- ===== src/Tests/Graphs.antt =====
-- Runs of the index of vectors.
use focal_vector.Base.{
  ℕ, zero, suc, ◌≡◌, refl, List, [], ◌∷◌, some, none, map, arith, ◌+◌, ◌<◌, true, false, All,
}
use focal_vector.Str.{Str, str_cmp}
use focal_vector.Outcome.{Result, ok, ◌>>=◌}
use focal_vector.Float.{F32, is_finite32, total_key32, lt32}
use focal_vector.Metric.{dot_product, prepare}
use focal_vector.Map.{contains}
use focal_vector.Sort.{insert_behind, insert_before, peek, pop, sort}
use focal_vector.Sharding.{stable_hash}
use focal_vector.Hnsw.{
  HnswConfig, validate_config, max_connections, deterministic_level, climb, next_hash,
}
use focal_vector.Hnsw.Vectors.{
  QuantOps, full, plain_arena, prepared_vector, push, get, score_vectors, integer_dot,
}
use focal_vector.Hnsw.IntegerDot.{plain_dot, integer_dot-eq-plain_dot}
use focal_vector.Hnsw.Workspace.{Workspace, begin, resize, visit, set_at}
use focal_vector.Hnsw.Walk.{
  greedy_closest, item, search_layer, walk, start, visit_neighbors, visit_neighbor, qualifies,
  above_worst, below_worst, push_result, select_neighbors, select,
}
use focal_vector.Hnsw.Walked.{here, along, holds}
use focal_vector.Hnsw.Graph.{
  HnswIndex, id_at, neighbors, node_links, packed, score, vector, descend, search, check_search,
}
use focal_vector.Hnsw.Compact.{finalize_compact_graph, pack_nodes, pack_layers}
use focal_vector.Hnsw.Insert.{
  empty_layers, insert_prepared, plan_point, plan_insert, plan_layers, plan_layer, apply_insertion,
  add_node, raise_entry, link_layers, link_back_all, link_back, update_links, update, prune, pruned,
  links_at,
}
use focal_vector.Hnsw.Build.{
  build, check_ids, prepare_all, prepare_point, build_prepared_points, insert_all, insert_batches,
  compact_neighbors, prune_layers, layer_count,
}
use focal_vector.Hnsw.Search.{IsSearchable, IsConnected, scan, search_exact, search_pool}
use focal_vector.Hnsw.Finished.{build-IsSearchable}
use focal_vector.Hnsw.Packed.{neighbors-finalize}
use focal_vector.Hnsw.Greedy.{greedy_closest_ends, betters}
use focal_vector.Filter.{Filter, negation, equals, integer, boolean}
use focal_vector.Point.{StoredPoint}
use focal_vector.Collection.{id_cmp}
use focal_vector.Sort.Unique.{AllDiffer}
use focal_vector.MetadataIndex
use focal_vector.MetadataIndex.{candidates}
use focal_vector.MetadataIndex.Candidates.{HasOrderedMetadata, passing, candidates-build}
use focal_vector.Tests.{arithmetic, one}

-- Some conversions, in the place of the hardware's.
abbrev pub conversions : QuantOps
conversions = record {
  div32 = λ a b. a;
  max32 = λ a b. a;
  sqrt32 = λ a. a;
  of_i64 = λ n. 0;
  code = λ v. 0;
}

abbrev small_config : HnswConfig
small_config = record { m = 2; ef_construction = 2 }

abbrev two_points : List (Str × List F32)
two_points = ((97 ∷ []), one ∷ []) ∷ ((98 ∷ []), one ∷ []) ∷ []

abbrev built : Result HnswIndex
built = build arithmetic conversions 1 dot_product small_config full two_points

abbrev pub graph : HnswIndex
graph = record {
  dimension = 1;
  metric = dot_product;
  config = small_config;
  nodes =
      record { level = 0; range_start = 0; neighbors = [] }
      ∷ record { level = 0; range_start = 1; neighbors = [] }
      ∷ [];
  ids = (97 ∷ []) ∷ (98 ∷ []) ∷ [];
  vectors = plain_arena (one ∷ one ∷ []);
  entry_point = some 0;
  max_level = 0;
  compact_graph = some (record {
    ranges = record { from = 0; to = 1 } ∷ record { from = 1; to = 2 } ∷ [];
    links = 1 ∷ 0 ∷ [];
  });
}

built_graph : build arithmetic conversions 1 dot_product small_config full two_points ≡ ok graph
unfolding build validate_config check_ids contains str_cmp prepare_all prepare_point prepare
    is_finite32 prepared_vector deterministic_level climb next_hash stable_hash
    build_prepared_points insert_all insert_prepared plan_point plan_insert descend plan_layers
    plan_layer search_layer walk start visit_neighbors visit_neighbor qualifies above_worst
    below_worst push_result visit begin resize set_at insert_behind peek pop sort insert_before
    select_neighbors select max_connections empty_layers apply_insertion add_node push raise_entry
    link_layers link_back_all link_back update_links update prune pruned links_at insert_batches
    compact_neighbors prune_layers layer_count finalize_compact_graph pack_nodes pack_layers
    neighbors node_links score vector get score_vectors total_key32 lt32
built_graph = refl

graph-IsSearchable : IsSearchable graph × (graph.ids ≡ map (λ p. p.0) two_points)
graph-IsSearchable =
    build-IsSearchable arithmetic conversions 1 dot_product small_config full two_points graph
      (omega arith) built_graph

graph-IsConnected : IsConnected graph
unfolding neighbors node_links packed contains
graph-IsConnected zero zero l m = here
graph-IsConnected zero (suc zero) l m = along here refl
graph-IsConnected (suc zero) zero l m = along here refl
graph-IsConnected (suc zero) (suc zero) l m = here
graph-IsConnected (suc (suc i)) j l m = absurd (omega arith)
graph-IsConnected zero (suc (suc j)) l m = absurd (omega arith)
graph-IsConnected (suc zero) (suc (suc j)) l m = absurd (omega arith)

build-IsSearchable_example : IsSearchable graph × (graph.ids ≡ map (λ p. p.0) two_points)
build-IsSearchable_example =
    build-IsSearchable arithmetic conversions 1 dot_product small_config full two_points graph
      (omega arith) built_graph

search_exact_example : (search arithmetic conversions graph (one ∷ []) 1 2 []).0 ≡ (
    check_search arithmetic conversions graph (one ∷ []) 1 2 >>= λ prepared.
    ok (scan arithmetic conversions graph 1 prepared))
search_exact_example =
    search_exact arithmetic conversions graph (one ∷ []) 1 2 [] graph-IsSearchable.0
      graph-IsConnected tt (omega arith)

abbrev used : Workspace
used = record { visited = 3 ∷ 7 ∷ []; generation = 7 }

search_pool_example :
    (search arithmetic conversions graph (one ∷ []) 1 1 []).0
    ≡ (search arithmetic conversions graph (one ∷ []) 1 1 (used ∷ [])).0
search_pool_example =
    search_pool arithmetic conversions graph (one ∷ []) 1 1 [] (used ∷ []) graph-IsSearchable.0 tt
      (record { behind = (omega arith, (omega arith, tt)); fits = omega arith }, tt)

integer_dot-eq-plain_dot_example :
    integer_dot (1 ∷ 255 ∷ 3 ∷ 4 ∷ 5 ∷ []) (1 ∷ 2 ∷ 128 ∷ 4 ∷ 5 ∷ [])
    ≡ plain_dot (1 ∷ 255 ∷ 3 ∷ 4 ∷ 5 ∷ []) (1 ∷ 2 ∷ 128 ∷ 4 ∷ 5 ∷ [])
integer_dot-eq-plain_dot_example =
    integer_dot-eq-plain_dot (1 ∷ 255 ∷ 3 ∷ 4 ∷ 5 ∷ []) (1 ∷ 2 ∷ 128 ∷ 4 ∷ 5 ∷ []) refl

greedy_closest_ends_example :
    (let end = greedy_closest (neighbors graph 0) (λ i. i) (id_at graph) 2 0 in
      (greedy_closest (neighbors graph 0) (λ i. i) (id_at graph) (2 + 5) 0 ≡ end)
      × (end < 2)
      × ((i : ℕ)
          → holds i (neighbors graph 0 end) ≡ true
          → betters
              (neighbors graph 0)
              (λ j. j)
              (id_at graph)
              (item (neighbors graph 0) (λ j. j) i)
              (item (neighbors graph 0) (λ j. j) end)
            ≡ false))
greedy_closest_ends_example =
    greedy_closest_ends (neighbors graph 0) (λ i. i) (id_at graph) 2
      (graph-IsSearchable.0.links_in 0) 0 5 (omega arith)

abbrev unpacked : HnswIndex
unpacked = record {
  dimension = 1;
  metric = dot_product;
  config = small_config;
  nodes =
      record { level = 0; range_start = 0; neighbors = (1 ∷ []) ∷ [] }
      ∷ record { level = 0; range_start = 0; neighbors = (0 ∷ []) ∷ [] }
      ∷ [];
  ids = (97 ∷ []) ∷ (98 ∷ []) ∷ [];
  vectors = plain_arena (one ∷ one ∷ []);
  entry_point = some 0;
  max_level = 0;
  compact_graph = none;
}

packs : finalize_compact_graph unpacked ≡ ok graph
unfolding finalize_compact_graph pack_nodes pack_layers
packs = refl

neighbors-finalize_example : neighbors graph 0 1 ≡ neighbors unpacked 0 1
neighbors-finalize_example = neighbors-finalize unpacked graph (refl, (refl, tt)) refl packs 0 1

abbrev tagged : StoredPoint
tagged = record {
  id = 97 ∷ [];
  vector = one ∷ [];
  metadata = ((120 ∷ []), integer 5) ∷ ((121 ∷ []), boolean true) ∷ [];
  sequence = 1;
}

abbrev other : StoredPoint
other = record {
  id = 98 ∷ [];
  vector = one ∷ [];
  metadata = ((120 ∷ []), integer 6) ∷ [];
  sequence = 1;
}

abbrev wanted : Filter
wanted = negation (equals (120 ∷ []) (integer 6))

points_differ : AllDiffer id_cmp (tagged ∷ other ∷ [])
unfolding id_cmp str_cmp
points_differ = ((refl, tt), (tt, tt))

metadata_ordered : All HasOrderedMetadata (tagged ∷ other ∷ [])
unfolding str_cmp
metadata_ordered = (((refl, tt), (tt, tt)), ((tt, tt), tt))

candidates-build_example :
    contains str_cmp
      (97 ∷ [])
      (candidates (MetadataIndex.build arithmetic (tagged ∷ other ∷ [])) wanted)
    ≡ contains str_cmp (97 ∷ []) (passing arithmetic wanted (tagged ∷ other ∷ []))
candidates-build_example =
    candidates-build arithmetic (tagged ∷ other ∷ []) wanted (97 ∷ []) metadata_ordered
      points_differ
