-- ===== src/Hnsw/Graph.antt =====
-- src/hnsw.rs, `HnswIndex`: the nodes with their links, as lists by layer or packed into one list, and
-- the search of an index. Reading a node, ID or range that is not there would panic; here it yields an
-- empty list or zero.
use focal_vector.Base.{
  ℕ, zero, suc, Bool, true, false, List, [], ◌∷◌, ◌+◌, ◌-◌, Option, none, some, ltb, ◌==◌,
  if◌then◌else◌, length, take, drop, map, get_elem?,
}
use focal_vector.Outcome.{
  text, invalid_query, invalid_dimension, Result, ok, err, ◌>>=◌, ◌>>◌, reject_if,
}
use focal_vector.Str.{Str}
use focal_vector.Float.{F32, FloatOps}
use focal_vector.Metric.{Metric, prepare}
use focal_vector.Hnsw.{HnswConfig}
use focal_vector.Hnsw.Vectors.{
  QuantOps, PreparedVector, VectorArena, storage, get, prepared_vector, score_vectors,
  component_bytes,
}
use focal_vector.Hnsw.Workspace.{Workspace}
use focal_vector.Hnsw.Walk.{HeapItem, search_layer, greedy_closest}

pub record Node : Type 0 where
  pub level : ℕ
  pub range_start : ℕ
  pub neighbors : List (List ℕ)

pub record LinkRange : Type 0 where
  pub from : ℕ
  pub to : ℕ

pub record CompactGraph : Type 0 where
  pub ranges : List LinkRange
  pub links : List ℕ

-- The pool of workspaces is an argument of the search.
pub record HnswIndex : Type 0 where
  pub dimension : ℕ
  pub metric : Metric
  pub config : HnswConfig
  pub nodes : List Node
  pub ids : List Str
  pub vectors : VectorArena
  pub entry_point : Option ℕ
  pub max_level : ℕ
  pub compact_graph : Option CompactGraph

pub record HnswHit : Type 0 where
  pub id : Str
  pub score : F32

-- `unwrap_or_default`
abbrev pub layer_at : List (List ℕ) → ℕ → List ℕ
layer_at layers layer = elim (get_elem? layers layer) [ none ↦ [] | some links ↦ links ]

-- `&graph.links[range.start..range.end]`
unfoldable pub packed : CompactGraph → ℕ → List ℕ
packed graph at = elim (get_elem? graph.ranges at) [
  | none ↦ []
  | some range ↦ take (range.to - range.from) (drop range.from graph.links)
]

unfoldable pub node_links : Option CompactGraph → Node → ℕ → List ℕ
unfolding packed
node_links compact node layer = if ltb node.level layer then [] else (elim compact [
  | some graph ↦ packed graph (node.range_start + layer)
  | none ↦ layer_at node.neighbors layer
])

unfoldable pub neighbors : HnswIndex → ℕ → ℕ → List ℕ
unfolding node_links
neighbors index layer node = elim (get_elem? index.nodes node) [
  | none ↦ []
  | some n ↦ node_links index.compact_graph n layer
]

abbrev pub id_at : HnswIndex → ℕ → Str
id_at index node = elim (get_elem? index.ids node) [ none ↦ [] | some id ↦ id ]

abbrev pub len : HnswIndex → ℕ
len index = length index.nodes

unfoldable pub vector : HnswIndex → ℕ → PreparedVector
unfolding get
vector index node = get index.vectors node index.dimension

-- `HnswStats`
pub record HnswStats : Type 0 where
  pub nodes : ℕ
  pub layers : ℕ
  pub links : ℕ
  pub id_bytes : ℕ
  pub vector_heap_bytes : ℕ
  pub vectors_memory_mapped : Bool

abbrev pub sum_lengths {ℓ} : {A : Type ℓ} → List (List A) → ℕ
sum_lengths [] = 0
sum_lengths (x ∷ xs) = length x + sum_lengths xs

abbrev is_mapped : VectorArena → Bool
is_mapped (VectorArena.plain_arena vectors) = false
is_mapped (VectorArena.code_arena codes scales norms) = false
is_mapped (VectorArena.mapped_arena bytes offsets scales norms) = true

unfoldable pub stats : HnswIndex → HnswStats
unfolding component_bytes
stats index = record {
  nodes = length index.nodes;
  layers = elim index.compact_graph [ none ↦ 0 | some graph ↦ length graph.ranges ];
  links = elim index.compact_graph [ none ↦ 0 | some graph ↦ length graph.links ];
  id_bytes = sum_lengths index.ids;
  vector_heap_bytes = component_bytes index.vectors;
  vectors_memory_mapped = is_mapped index.vectors;
}

abbrev pub max_pooled : ℕ
max_pooled = 8

-- The last workspace of the pool is the head of the list.
unfoldable pub take_workspace : List Workspace → Workspace × List Workspace
take_workspace [] = (record { visited = []; generation = 0 }, [])
take_workspace (w ∷ pool) = (w, pool)

unfoldable pub return_workspace : Workspace → List Workspace → List Workspace
return_workspace w pool = if ltb (length pool) max_pooled then w ∷ pool else pool

module _ (fl : FloatOps) (qo : QuantOps) where
  unfoldable pub score : HnswIndex → PreparedVector → ℕ → F32
  unfolding score_vectors vector
  score index query node = score_vectors fl qo index.metric query (vector index node)

  -- The greedy descent from the given layer to the one above `stop`; a round for each node is enough.
  unfoldable pub descend : HnswIndex → PreparedVector → ℕ → ℕ → ℕ → ℕ
  unfolding greedy_closest neighbors score
  descend index query stop zero current = current
  descend index query stop (suc layer) current =
      let lower = descend index query stop layer (
        greedy_closest (neighbors index (suc layer)) (score index query) (id_at index) (len index)
          current) in
      if ltb stop (suc layer) then lower else current

  abbrev pub to_hit : HnswIndex → HeapItem → HnswHit
  to_hit index item = record { id = id_at index item.index; score = item.score }

  -- `search` of a prepared query
  unfoldable pub search_prepared :
      HnswIndex → PreparedVector → ℕ → ℕ → List Workspace → List HnswHit × List Workspace
  unfolding descend search_layer take_workspace return_workspace
  search_prepared index query k ef_search pool = elim index.entry_point [
    | none ↦ ([], pool)
    | some entry ↦
        let current = descend index query 0 index.max_level entry in
        let (workspace, others) = take_workspace pool in
        let (candidates, used) =
          search_layer (neighbors index 0) (score index query) (id_at index) (len index) current
            ef_search workspace in
        (map (to_hit index) (take k candidates), return_workspace used others)
  ]

  unfoldable pub check_search : HnswIndex → List F32 → ℕ → ℕ → Result PreparedVector
  unfolding prepared_vector
  check_search index query k ef_search = do
    reject_if (k == 0) (invalid_query (text "k must be greater than zero"))
    reject_if (ltb ef_search k) (invalid_query (text "ef_search must be at least k"))
    if length query == index.dimension
        then (prepare fl index.metric query >>= λ prepared.
            ok (prepared_vector fl qo (storage index.vectors) prepared))
        else err (invalid_dimension index.dimension (length query))

  unfoldable pub search :
      HnswIndex → List F32 → ℕ → ℕ → List Workspace → Result (List HnswHit) × List Workspace
  unfolding check_search search_prepared
  search index query k ef_search pool = elim (check_search index query k ef_search) [
    | err e ↦ (err e, pool)
    | ok prepared ↦
        let (hits, pool') = search_prepared index prepared k ef_search pool in (ok hits, pool')
  ]
