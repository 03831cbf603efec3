-- ===== src/Hnsw/Search.antt =====
-- The search of a whole index: exact with room for every node of a connected base layer, and the same
-- whatever workspaces the pool holds.
use focal_vector.Base.{
  ℕ, zero, suc, true, List, [], ◌∷◌, ◌≤◌, ◌<◌, ◌≡◌, refl, ap, sym, subst, ◌∙◌, none, some, map,
  take, length, All, arith, Option-cases, Bool-cases, inl, inr, ltb,
}
use focal_vector.Order.{is_eq}
use focal_vector.Outcome.{ok, ◌>>=◌, Result-cases}
use focal_vector.Str.{str_cmp}
use focal_vector.Float.{F32, FloatOps}
use focal_vector.Sort.{sort}
use focal_vector.Sort.TopK.{best}
use focal_vector.Hnsw.Vectors.{QuantOps, PreparedVector}
use focal_vector.Hnsw.Workspace.{Workspace, IsValid}
use focal_vector.Hnsw.Walk.{item, by_scored_id}
use focal_vector.Hnsw.Walked.{Reaches}
use focal_vector.Hnsw.Layer.{IsClosed}
use focal_vector.Hnsw.Greedy.{greedy_closest-IsLocal, rank_bound}
use focal_vector.Hnsw.Exact.{below, search_layer-eq-scan}
use focal_vector.Hnsw.Pool.{search_layer_workspace}
use focal_vector.Hnsw.Graph.{
  HnswIndex, HnswHit, neighbors, id_at, len, score, descend, to_hit, take_workspace,
  search_prepared, check_search, search,
}

-- Links and the entry stay in range, IDs differ, and only an empty index has no entry.
pub record IsSearchable (index : HnswIndex) : Type 0 where
  pub links_in : (layer : ℕ) → IsClosed (neighbors index layer) (len index)
  pub entry_in : (entry : ℕ) → index.entry_point ≡ some entry → entry < len index
  pub own_ids :
      (i j : ℕ)
      → i < len index
      → j < len index
      → is_eq (str_cmp (id_at index i) (id_at index j)) ≡ true
      → i ≡ j
  pub no_entry : index.entry_point ≡ none → index.nodes ≡ []

abbrev pub IsConnected : HnswIndex → Type 0
IsConnected index = (i j : ℕ) → i < len index → j < len index → Reaches (neighbors index 0) i j

abbrev pub AllValid : List Workspace → Type 0
AllValid pool = All IsValid pool

module _ (fl : FloatOps) (qo : QuantOps) where
  descend_range :
      (index : HnswIndex) (query : PreparedVector) (stop layer current : ℕ)
      → IsSearchable index
      → current < len index
      → descend fl qo index query stop layer current < len index
  unfolding descend
  descend_range index query stop zero current s l = l
  descend_range index query stop (suc layer) current s l =
      elim (Bool-cases (ltb stop (suc layer))) [
        | inr e ↦ rw (e, descend) l
        | inl e ↦
            let lower =
              greedy_closest-IsLocal (neighbors index (suc layer)) (score fl qo index query)
                (id_at index) (len index) (s.links_in (suc layer)) (len index) current l
                (rank_bound (neighbors index (suc layer)) (score fl qo index query) (id_at index)
                  (len index) (s.links_in (suc layer)) current l) in
            rw (e, descend) (descend_range index query stop layer _ s lower.0)
      ]

  -- Every node as a hit, the best first: the specification scans them all.
  unfoldable pub scan : HnswIndex → ℕ → PreparedVector → List HnswHit
  scan index k query = map (to_hit fl qo index) (
      best (by_scored_id (neighbors index 0) (score fl qo index query) (id_at index)) k
        (map (item (neighbors index 0) (score fl qo index query)) (below (len index))))

  taken-IsValid : (pool : List Workspace) → AllValid pool → IsValid (take_workspace pool).0
  unfolding take_workspace
  taken-IsValid [] v = record { behind = tt; fits = omega arith }
  taken-IsValid (w ∷ pool) v = v.0

  search_empty :
      (index : HnswIndex) (query : PreparedVector) (k ef_search : ℕ) (pool : List Workspace)
      → index.entry_point ≡ none
      → (search_prepared fl qo index query k ef_search pool).0 ≡ []
  unfolding search_prepared
  search_empty index query k ef_search pool e = simp (e, search_prepared)

  scan_empty :
      (index : HnswIndex) (query : PreparedVector) (k : ℕ) → len index ≡ 0 → scan index k query ≡ []
  unfolding scan best sort
  scan_empty index query k e =
      subst
        (λ m.
          map (to_hit fl qo index) (
            take k (
              sort (by_scored_id (neighbors index 0) (score fl qo index query) (id_at index))
                (map (item (neighbors index 0) (score fl qo index query)) (below m))))
          ≡ [])
        (sym e) (nothing k)
    where
      nothing : (j : ℕ) → map (to_hit fl qo index) (take j []) ≡ []
      nothing zero = refl
      nothing (suc j) = refl

  search_prepared-eq-scan :
      (index : HnswIndex) (query : PreparedVector) (k ef_search : ℕ) (pool : List Workspace)
      → IsSearchable index
      → IsConnected index
      → AllValid pool
      → 0 < ef_search
      → len index ≤ ef_search
      → (search_prepared fl qo index query k ef_search pool).0 ≡ scan index k query
  unfolding search_prepared scan best take_workspace
  search_prepared-eq-scan index query k ef_search pool s c v pos few =
      elim (Option-cases index.entry_point) [
        | inl e ↦
            search_empty index query k ef_search pool e
            ∙ sym (scan_empty index query k (ap length (s.no_entry e)))
        | inr (entry, e) ↦
            let current = descend fl qo index query 0 index.max_level entry in
            let l = descend_range index query 0 index.max_level entry s (s.entry_in entry e) in
            rw e (
              ap (λ hits. map (to_hit fl qo index) (take k hits))
                (search_layer-eq-scan (neighbors index 0) (score fl qo index query) (len index)
                  current ef_search pos (s.links_in 0) (id_at index) (take_workspace pool).0
                  (taken-IsValid pool v) l few (λ j h. c current j l h) s.own_ids))
      ]

  search_prepared_pool :
      (index : HnswIndex) (query : PreparedVector) (k ef_search : ℕ) (pool pool' : List Workspace)
      → IsSearchable index
      → AllValid pool
      → AllValid pool'
      → 0 < ef_search
      → (search_prepared fl qo index query k ef_search pool).0
        ≡ (search_prepared fl qo index query k ef_search pool').0
  unfolding search_prepared
  search_prepared_pool index query k ef_search pool pool' s v v' pos =
      elim (Option-cases index.entry_point) [
        | inl e ↦ rw e refl
        | inr (entry, e) ↦
            let current = descend fl qo index query 0 index.max_level entry in
            rw e (
              ap (λ hits. map (to_hit fl qo index) (take k hits))
                (search_layer_workspace (neighbors index 0) (score fl qo index query) (len index)
                  current ef_search pos (s.links_in 0) (id_at index) (take_workspace pool).0
                  (take_workspace pool').0 (taken-IsValid pool v) (taken-IsValid pool' v')
                  (descend_range index query 0 index.max_level entry s (s.entry_in entry e))))
      ]

  -- A query that passes the checks asks for at least one hit, in a list of at least so many.
  check_search_ef :
      (index : HnswIndex) (query : List F32) (k ef_search : ℕ) {prepared : PreparedVector}
      → check_search fl qo index query k ef_search ≡ ok prepared
      → 0 < ef_search
  unfolding check_search
  check_search_ef index query k ef_search h = ground (arith, h)

  -- With room for every node, a search of an index fit for searching whose base layer is connected is
  -- exact, whatever valid workspaces the pool holds: it is refused as the checks say, and otherwise gives
  -- the k best of all the nodes, by score and then by ID.
  pub search_exact :
      (index : HnswIndex) (query : List F32) (k ef_search : ℕ) (pool : List Workspace)
      → IsSearchable index
      → IsConnected index
      → AllValid pool
      → len index ≤ ef_search
      → (search fl qo index query k ef_search pool).0
        ≡ (check_search fl qo index query k ef_search >>= λ prepared. ok (scan index k prepared))
  unfolding search
  search_exact index query k ef_search pool s c v few =
      elim (Result-cases (check_search fl qo index query k ef_search)) [
        | inr (why, e) ↦ rw (search, e) refl
        | inl (prepared, e) ↦
            rw (search, e)
              (ap ok (
                search_prepared-eq-scan index prepared k ef_search pool s c v
                  (check_search_ef index query k ef_search e) few))
      ]

  -- A search of an index fit for searching does not depend on the valid workspaces in the pool.
  pub search_pool :
      (index : HnswIndex) (query : List F32) (k ef_search : ℕ) (pool pool' : List Workspace)
      → IsSearchable index
      → AllValid pool
      → AllValid pool'
      → (search fl qo index query k ef_search pool).0
        ≡ (search fl qo index query k ef_search pool').0
  unfolding search
  search_pool index query k ef_search pool pool' s v v' =
      elim (Result-cases (check_search fl qo index query k ef_search)) [
        | inr (why, e) ↦ rw (search, e) refl
        | inl (prepared, e) ↦
            rw (search, e)
              (ap ok (
                search_prepared_pool index prepared k ef_search pool pool' s v v'
                  (check_search_ef index query k ef_search e)))
      ]
