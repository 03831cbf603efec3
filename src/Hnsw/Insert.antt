-- ===== src/Hnsw/Insert.antt =====
-- src/hnsw.rs: building an index. Each point is planned against the index as it is, then linked in, and a
-- list of links that has grown to twice its limit is pruned. Points after the first 4096 are planned in
-- batches of 512; one workspace is threaded through where the source has one for each worker.
use focal_vector.Base.{
  ℕ, zero, suc, List, [], ◌∷◌, ◌++◌, ◌-◌, ◌*◌, ◌^◌, ◌%◌, none, some, ltb, leb, if◌then◌else◌,
  length, map, get_elem?, min,
}
use focal_vector.Str.{Str}
use focal_vector.Float.{F32, FloatOps}
use focal_vector.Sort.{sort}
use focal_vector.Hnsw.{max_connections}
use focal_vector.Hnsw.Vectors.{QuantOps, PreparedVector, push, score_vectors}
use focal_vector.Hnsw.Workspace.{Workspace}
use focal_vector.Hnsw.Walk.{HeapItem, item, search_layer, select_neighbors, by_scored_id}
use focal_vector.Hnsw.Graph.{HnswIndex, neighbors, id_at, len, vector, score, descend}
use focal_vector.Hnsw.Compact.{as_u32}

pub record PreparedPoint : Type 0 where
  pub id : Str
  pub vector : PreparedVector
  pub level : ℕ

-- `InsertionPlan`: the selected neighbors by layer, from the base
abbrev pub Plan : Type 0
Plan = List (List HeapItem)

-- Changing one element of a list; there is none out of range, where the source would panic.
unfoldable pub update {ℓ} : {A : Type ℓ} → ℕ → (A → A) → List A → List A
update i f [] = []
update zero f (x ∷ xs) = f x ∷ xs
update (suc i) f (x ∷ xs) = x ∷ update i f xs

-- `self.nodes[node].neighbors[layer]`, changed
unfoldable pub update_links : ℕ → ℕ → (List ℕ → List ℕ) → HnswIndex → HnswIndex
unfolding update
update_links node layer f index = record index {
  nodes = update node (λ n. record n { neighbors = update layer f n.neighbors }) index.nodes;
}

-- `self.nodes[node].neighbors[layer]`
unfoldable pub links_at : HnswIndex → ℕ → ℕ → List ℕ
links_at index node layer = elim (get_elem? index.nodes node) [
  | none ↦ []
  | some n ↦ elim (get_elem? n.neighbors layer) [ none ↦ [] | some links ↦ links ]
]

-- `vec![Vec::new(); count]`
unfoldable pub empty_layers {ℓ} : {A : Type ℓ} → ℕ → List (List A)
empty_layers zero = []
empty_layers (suc n) = [] ∷ empty_layers n

abbrev pub indices32 : List HeapItem → List ℕ
indices32 items = map (λ (a : HeapItem). as_u32 a.index) items

abbrev saturating_double : ℕ → ℕ
saturating_double n = min (n * 2) (2 ^ 64 - 1)

-- The new node, without links.
unfoldable pub add_node : PreparedPoint → HnswIndex → HnswIndex
unfolding push
add_node point index = record index {
  vectors = push index.vectors point.vector;
  nodes =
      index.nodes
      ++ record {
        level = point.level % 256;
        range_start = 0;
        neighbors = empty_layers (suc point.level);
      }
        ∷ [];
  ids = index.ids ++ point.id ∷ [];
}

unfoldable pub raise_entry : ℕ → ℕ → HnswIndex → HnswIndex
raise_entry new_index level index =
    if ltb index.max_level level
    then record index { entry_point = some new_index; max_level = level }
    else index

module _ (fl : FloatOps) (qo : QuantOps) where
  unfoldable pub near : HnswIndex → ℕ → ℕ → F32
  unfolding score_vectors vector
  near index i j = score_vectors fl qo index.metric (vector index i) (vector index j)

  -- What pruning makes of the links of a node.
  unfoldable pub pruned : HnswIndex → ℕ → ℕ → List ℕ → List ℕ
  unfolding near select_neighbors sort max_connections
  pruned index node layer links =
      let candidates =
        sort (by_scored_id (neighbors index layer) (near index node) (id_at index))
          (map (item (neighbors index layer) (near index node)) links) in
      indices32 (select_neighbors (near index) candidates (max_connections index.config layer))

  unfoldable pub prune : ℕ → ℕ → HnswIndex → HnswIndex
  unfolding pruned update_links links_at
  prune node layer index =
      let links = links_at index node layer in
      if leb (length links) (max_connections index.config layer)
      then index
      else update_links node layer (λ old. pruned index node layer links) index

  -- The link back from one selected neighbor.
  unfoldable pub link_back : ℕ → ℕ → HnswIndex → ℕ → HnswIndex
  unfolding prune
  link_back new_index layer index neighbor =
      let linked = update_links neighbor layer (λ links. links ++ as_u32 new_index ∷ []) index in
      let limit = saturating_double (max_connections index.config layer) in
      if leb limit (length (links_at linked neighbor layer))
      then prune neighbor layer linked
      else linked

  unfoldable pub link_back_all : ℕ → ℕ → HnswIndex → List HeapItem → HnswIndex
  unfolding link_back
  link_back_all new_index layer index [] = index
  link_back_all new_index layer index (a ∷ items) =
      link_back_all new_index layer (link_back new_index layer index a.index) items

  -- The loop over the plan, from the given layer up.
  unfoldable pub link_layers : ℕ → ℕ → HnswIndex → Plan → HnswIndex
  unfolding link_back_all
  link_layers new_index layer index [] = index
  link_layers new_index layer index (selected ∷ plan) =
      let linked = update_links new_index layer (λ links. links ++ indices32 selected) index in
      link_layers new_index (suc layer) (link_back_all new_index layer linked selected) plan

  unfoldable pub apply_insertion : PreparedPoint → Plan → HnswIndex → HnswIndex
  unfolding add_node link_layers raise_entry
  apply_insertion point plan index =
      let new_index = len index in
      let added = add_node point index in
      elim index.entry_point [
        | none ↦ record added { entry_point = some new_index; max_level = point.level }
        | some entry ↦ raise_entry new_index point.level (link_layers new_index 0 added plan)
      ]

  -- One layer of a plan: the neighbors selected there, and the closest of them, where the next layer starts.
  unfoldable pub plan_layer :
      HnswIndex → PreparedPoint → ℕ → ℕ → Workspace → List HeapItem × ℕ × Workspace
  unfolding search_layer neighbors score select_neighbors near
  plan_layer index point layer current workspace =
      let (candidates, used) =
        search_layer (neighbors index layer) (score fl qo index point.vector) (id_at index)
          (len index) current index.config.ef_construction workspace in
      let selected =
        select_neighbors (near index) candidates (max_connections index.config layer) in
      (selected, elim selected [ [] ↦ current | closest ∷ rest ↦ closest.index ], used)

  -- The layers from the given one down, in the order from the base up.
  unfoldable pub plan_layers : HnswIndex → PreparedPoint → ℕ → ℕ → Workspace → Plan × Workspace
  unfolding plan_layer
  plan_layers index point zero current workspace =
      let (selected, closest, used) = plan_layer index point zero current workspace in
      (selected ∷ [], used)
  plan_layers index point (suc layer) current workspace =
      let (selected, closest, used) = plan_layer index point (suc layer) current workspace in
      let (lower, used') = plan_layers index point layer closest used in
      (lower ++ selected ∷ [], used')

  unfoldable pub plan_insert : HnswIndex → PreparedPoint → ℕ → Workspace → Plan × Workspace
  unfolding descend plan_layers empty_layers
  plan_insert index point entry workspace =
      let current = descend fl qo index point.vector point.level index.max_level entry in
      let connected = min point.level index.max_level in
      let (plan, used) = plan_layers index point connected current workspace in
      (plan ++ empty_layers (point.level - connected), used)

  -- A plan for an index that has an entry; the first node needs none.
  unfoldable pub plan_point : HnswIndex → PreparedPoint → Workspace → Plan × Workspace
  unfolding plan_insert
  plan_point index point workspace = elim index.entry_point [
    | none ↦ (empty_layers (suc point.level), workspace)
    | some entry ↦ plan_insert index point entry workspace
  ]

  unfoldable pub insert_prepared : PreparedPoint → HnswIndex × Workspace → HnswIndex × Workspace
  unfolding plan_point apply_insertion
  insert_prepared point (index, workspace) =
      let (plan, used) = plan_point index point workspace in
      (apply_insertion point plan index, used)
