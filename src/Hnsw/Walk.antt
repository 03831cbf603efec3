-- ===== src/Hnsw/Walk.antt =====
-- src/hnsw.rs: the walks over the links of one layer. The links, IDs and scores of the nodes are
-- parameters: Hnsw/Graph takes them from an index. `search_layer` and `search_layer_for_build` are one
-- function.
use Prim.Native.Nat.{compare, Ordering}
use focal_vector.Base.{
  ℕ, zero, suc, Bool, false, List, [], ◌∷◌, none, some, ◌&&◌, ◌||◌, ◌==◌, ltb, leb, if◌then◌else◌,
  length, take, all, ◌++◌, ◌-◌,
}
use focal_vector.Order.{lexicographic, flipped, on, is_lt}
use focal_vector.Str.{Str, str_cmp}
use focal_vector.Float.{F32, total_cmp32, lt32}
use focal_vector.Sort.{insert_behind, sort, peek, pop}
use focal_vector.Hnsw.Workspace.{Workspace, begin, visit}

pub record HeapItem : Type 0 where
  pub index : ℕ
  pub score : F32

-- `impl Ord for HeapItem`: by score, and at equal scores the lower index is the greater item.
abbrev pub item_cmp : HeapItem → HeapItem → Ordering
item_cmp =
    lexicographic (on total_cmp32 (λ (a : HeapItem). a.score))
      (flipped (on compare (λ (a : HeapItem). a.index)))

-- `Reverse` of it: the best item first.
abbrev pub best_first : HeapItem → HeapItem → Ordering
best_first = flipped item_cmp

-- `compare_scored`
abbrev pub compare_scored : F32 × Str → F32 × Str → Ordering
compare_scored = lexicographic (flipped (on total_cmp32 (λ e. e.0))) (on str_cmp (λ e. e.1))

-- The heaps: the frontier's greatest item is its last, and of the results the worst is the last.
pub record Walk : Type 0 where
  pub frontier : List HeapItem
  pub results : List HeapItem
  pub workspace : Workspace

-- Whether an item is below the worst of the results, and whether it is above it.
unfoldable pub below_worst : HeapItem → List HeapItem → Bool
below_worst item results = elim (peek results) [
  | none ↦ false
  | some worst ↦ is_lt (item_cmp item worst)
]

unfoldable pub above_worst : HeapItem → List HeapItem → Bool
above_worst item results = elim (peek results) [
  | none ↦ false
  | some worst ↦ is_lt (best_first item worst)
]

-- `results.len() < ef || item > worst`
unfoldable pub qualifies : ℕ → HeapItem → List HeapItem → Bool
unfolding above_worst
qualifies ef item results = ltb (length results) ef || above_worst item results

-- `push`, and `pop` when there are more than `ef`
unfoldable pub push_result : ℕ → HeapItem → List HeapItem → List HeapItem
push_result ef item results =
    let pushed = insert_behind best_first item results in
    if ltb ef (length pushed) then pop pushed else pushed

module _ (links : ℕ → List ℕ) (score : ℕ → F32) where
  abbrev pub item : ℕ → HeapItem
  item node = record { index = node; score = score node }

  unfoldable pub visit_neighbor : ℕ → Walk → ℕ → Walk
  unfolding qualifies push_result visit
  visit_neighbor ef s neighbor =
      let (is_new, workspace) = visit neighbor s.workspace in
      if is_new
      then (if qualifies ef (item neighbor) s.results
          then record {
            frontier = insert_behind item_cmp (item neighbor) s.frontier;
            results = push_result ef (item neighbor) s.results;
            workspace = workspace;
          }
          else record s { workspace = workspace })
      else record s { workspace = workspace }

  unfoldable pub visit_neighbors : ℕ → Walk → List ℕ → Walk
  unfolding visit_neighbor
  visit_neighbors ef s [] = s
  visit_neighbors ef s (n ∷ ns) = visit_neighbors ef (visit_neighbor ef s n) ns

  -- The loop, on fuel: it ends when the frontier is empty or holds nothing that can better the results.
  unfoldable pub walk : ℕ → ℕ → Walk → Walk
  unfolding visit_neighbors below_worst
  walk zero ef s = s
  walk (suc fuel) ef s = elim (peek s.frontier) [
    | none ↦ s
    | some candidate ↦
        let rest =
          walk fuel ef
            (visit_neighbors ef (record s { frontier = pop s.frontier }) (links candidate.index)) in
        if leb ef (length s.results) && below_worst candidate s.results then s else rest
  ]

  -- The walk begins at the entry, which is visited, in a workspace for so many nodes.
  unfoldable pub start : ℕ → ℕ → Workspace → Walk
  start node_count entry workspace = record {
    frontier = item entry ∷ [];
    results = item entry ∷ [];
    workspace = (visit entry (begin node_count workspace)).1;
  }

  module _ (id_of : ℕ → Str) where
    abbrev pub by_scored_id : HeapItem → HeapItem → Ordering
    by_scored_id = on compare_scored (λ (a : HeapItem). (a.score, id_of a.index))

    -- A round pops one node, and no node is pushed twice: one round more than nodes is enough.
    unfoldable pub search_layer : ℕ → ℕ → ℕ → Workspace → List HeapItem × Workspace
    unfolding walk start
    search_layer node_count entry ef workspace =
        let s = walk (suc node_count) ef (start node_count entry workspace) in
        (sort by_scored_id s.results, s.workspace)

    -- One round of `greedy_closest`: the best of the node and its neighbors, the first of equals.
    unfoldable pub closest : HeapItem → List ℕ → HeapItem
    closest best [] = best
    closest best (n ∷ ns) = closest (if is_lt (by_scored_id (item n) best) then item n else best) ns

    unfoldable pub greedy_closest : ℕ → ℕ → ℕ
    unfolding closest
    greedy_closest zero current = current
    greedy_closest (suc fuel) current =
        let best = (closest (item current) (links current)).index in
        let rest = greedy_closest fuel best in if best == current then current else rest

-- `select_neighbors`: a candidate that is nearer to a selected one than to the node is kept for later.
module _ (near : ℕ → ℕ → F32) where
  abbrev pub is_diverse : HeapItem → List HeapItem → Bool
  is_diverse candidate selected =
      all (λ (other : HeapItem). lt32 (near candidate.index other.index) candidate.score) selected

  unfoldable pub select :
      ℕ → List HeapItem → List HeapItem → List HeapItem → List HeapItem × List HeapItem
  select limit selected rejected [] = (selected, rejected)
  select limit selected rejected (c ∷ cs) =
      let chosen = select limit (selected ++ c ∷ []) rejected cs in
      let refused = select limit selected (rejected ++ c ∷ []) cs in
      if length selected == limit
      then (selected, rejected)
      else if is_diverse c selected
      then chosen
      else refused

  unfoldable pub select_neighbors : List HeapItem → ℕ → List HeapItem
  unfolding select
  select_neighbors candidates limit =
      let (selected, rejected) = select limit [] [] candidates in
      selected ++ take (limit - length selected) rejected
