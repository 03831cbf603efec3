-- ===== src/Hnsw/Built.antt =====
-- The loops of the build keep the index in shape, and add the points in their order.
use focal_vector.Base.{
  ℕ, zero, suc, true, List, [], ◌∷◌, ◌++◌, ◌+◌, ◌^◌, ◌≤◌, ◌<◌, ◌≡◌, refl, ap, sym, ◌∙◌, subst, All,
  map, length, length-map, length-append, take, drop, append_assoc, append-nil, take-append-drop,
  length-take, length-drop, arith,
}
use focal_vector.Str.{Str}
use focal_vector.Float.{FloatOps}
use focal_vector.Hnsw.Vectors.{QuantOps}
use focal_vector.Hnsw.Workspace.{Workspace, IsValid}
use focal_vector.Hnsw.Graph.{HnswIndex, len}
use focal_vector.Hnsw.Insert.{
  PreparedPoint, Plan, prune, apply_insertion, plan_point, insert_prepared,
}
use focal_vector.Hnsw.Build.{
  insert_all, plan_batch, apply_batch, insert_batches, prune_layers, layer_count, compact_neighbors,
  parallel_build_batch,
}
use focal_vector.Hnsw.Sound.{has_layer, IsSound}
use focal_vector.Hnsw.Linked.{
  Fits, IsPlanned, IsLinkedFrom, IsLinkedFrom-refl, IsLinkedFrom-trans, prune-IsLinkedFrom,
}
use focal_vector.Hnsw.Inserted.{IsGraph, apply_insertion-IsGraph}
use focal_vector.Hnsw.Growth.{Grows, apply_insertion-Grows}
use focal_vector.Hnsw.Walk.{HeapItem}
use focal_vector.Hnsw.Select.{All-take}
use focal_vector.Hnsw.Walked.{map-append}
use focal_vector.Hnsw.Planned.{plan_point-IsPlan}

pub All_drop {ℓ κ} :
    {A : Type ℓ} (P : A → Type κ) (n : ℕ) (xs : List A) → All P xs → All P (drop n xs)
All_drop P zero xs a = a
All_drop P (suc n) [] a = tt
All_drop P (suc n) (x ∷ xs) a = All_drop P n xs a.1

abbrev pub IsLow : PreparedPoint → Type 0
IsLow p = p.level < 256

abbrev pub point_ids : List PreparedPoint → List Str
point_ids points = map (λ (p : PreparedPoint). p.id) points

module _ (fl : FloatOps) (qo : QuantOps) where
  Grows-refl : (index : HnswIndex) → Grows fl qo index index []
  Grows-refl index = record {
    layers = λ i l h. h;
    count = omega arith;
    same_ids = sym (append-nil index.ids);
    same_config = refl;
  }

  Grows-trans :
      (a b c : HnswIndex) (xs ys : List Str)
      → Grows fl qo a b xs
      → Grows fl qo b c ys
      → Grows fl qo a c (xs ++ ys)
  Grows-trans a b c xs ys p q = record {
    layers = λ i l h. q.layers i l (p.layers i l h);
    count = omega (arith, p.count, q.count, length-append xs ys);
    same_ids = q.same_ids ∙ ap (λ r. r ++ ys) p.same_ids ∙ append_assoc a.ids xs ys;
    same_config = q.same_config ∙ p.same_config;
  }

  -- An index in shape, grown from another by the given IDs, with a workspace that is valid.
  pub record IsGrown (before : HnswIndex) (more : List Str) (out : HnswIndex × Workspace)
      : Type 0 where
    pub graph : IsGraph out.0
    pub valid : IsValid out.1
    pub grows : Grows fl qo before out.0 more

  insert_prepared-IsGrown :
      (point : PreparedPoint) (index : HnswIndex) (w : Workspace)
      → IsGraph index
      → 0 < index.config.ef_construction
      → len index < 2 ^ 32
      → IsValid w
      → IsLow point
      → IsGrown index (point.id ∷ []) (insert_prepared fl qo point (index, w))
  unfolding insert_prepared
  insert_prepared-IsGrown point index w g pos room v low =
      let p = plan_point-IsPlan fl qo index point w g pos (omega arith) v in
      record {
        graph = apply_insertion-IsGraph fl qo point _ index g low room p.count p.planned;
        valid = p.valid;
        grows = apply_insertion-Grows fl qo point _ index g low room p.count p.planned;
      }

  pub insert_all-IsGrown :
      (points : List PreparedPoint) (index : HnswIndex) (w : Workspace)
      → IsGraph index
      → 0 < index.config.ef_construction
      → len index + length points ≤ 2 ^ 32
      → IsValid w
      → All IsLow points
      → IsGrown index (point_ids points) (insert_all fl qo points (index, w))
  unfolding insert_all
  insert_all-IsGrown [] index w g pos room v low = record {
    graph = g;
    valid = v;
    grows = Grows-refl index;
  }
  insert_all-IsGrown (p ∷ ps) index w g pos room v low =
      let (next, used) = insert_prepared fl qo p (index, w) in
      let h = insert_prepared-IsGrown p index w g pos (omega arith) v low.0 in
      let h' =
        insert_all-IsGrown ps next used h.graph
          (subst (λ c. 0 < c.ef_construction) (sym h.grows.same_config) pos)
          (omega (arith, h.grows.count)) h.valid low.1 in
      record {
        graph = h'.graph;
        valid = h'.valid;
        grows = Grows-trans index next _ (p.id ∷ []) (point_ids ps) h.grows h'.grows;
      }

  grown_IsPlanned :
      (plan : Plan) (a b : HnswIndex) (layer : ℕ)
      → ((i l : ℕ) → has_layer a i l ≡ true → has_layer b i l ≡ true)
      → IsPlanned fl qo a layer plan
      → IsPlanned fl qo b layer plan
  grown_IsPlanned [] a b layer h p = tt
  grown_IsPlanned (items ∷ plan) a b layer h p =
      (fit items p.0, grown_IsPlanned plan a b (suc layer) h p.1)
    where
      fit : (xs : List HeapItem) → All (Fits a layer) xs → All (Fits b layer) xs
      fit [] q = tt
      fit (x ∷ xs) q = ((h x.index layer q.0.0, q.0.1), fit xs q.1)

  -- A point with a plan that may be applied.
  abbrev IsReady : HnswIndex → PreparedPoint × Plan → Type 0
  IsReady index (point, plan) =
      IsLow point × (length plan ≡ suc point.level) × IsPlanned fl qo index 0 plan

  later-IsReady :
      (plans : List (PreparedPoint × Plan)) (a b : HnswIndex)
      → ((i l : ℕ) → has_layer a i l ≡ true → has_layer b i l ≡ true)
      → All (IsReady a) plans
      → All (IsReady b) plans
  later-IsReady [] a b h r = tt
  later-IsReady ((point, plan) ∷ plans) a b h r =
      ((r.0.0, r.0.1, grown_IsPlanned plan a b 0 h r.0.2), later-IsReady plans a b h r.1)

  abbrev plan_ids : List (PreparedPoint × Plan) → List Str
  plan_ids plans = map (λ (e : PreparedPoint × Plan). e.0.id) plans

  plan_batch-IsReady :
      (points : List PreparedPoint) (index : HnswIndex) (w : Workspace)
      → IsGraph index
      → 0 < index.config.ef_construction
      → len index ≤ 2 ^ 32
      → IsValid w
      → All IsLow points
      → All (IsReady index) (plan_batch fl qo index points w).0
        × (plan_ids (plan_batch fl qo index points w).0 ≡ point_ids points)
        × IsValid (plan_batch fl qo index points w).1
  unfolding plan_batch
  plan_batch-IsReady [] index w g pos small v low = (tt, refl, v)
  plan_batch-IsReady (p ∷ ps) index w g pos small v low =
      let q = plan_point-IsPlan fl qo index p w g pos small v in
      let (ready, same, valid) =
        plan_batch-IsReady ps index (plan_point fl qo index p w).1 g pos small q.valid low.1 in
      (((low.0, q.count, q.planned), ready), ap (λ ids. p.id ∷ ids) same, valid)

  apply_batch-IsGrown :
      (plans : List (PreparedPoint × Plan)) (index : HnswIndex) (w : Workspace)
      → IsGraph index
      → len index + length plans ≤ 2 ^ 32
      → IsValid w
      → All (IsReady index) plans
      → IsGrown index (plan_ids plans) (apply_batch fl qo plans index, w)
  unfolding apply_batch
  apply_batch-IsGrown [] index w g room v r = record {
    graph = g;
    valid = v;
    grows = Grows-refl index;
  }
  apply_batch-IsGrown ((point, plan) ∷ plans) index w g room v r =
      let next = apply_insertion fl qo point plan index in
      let grows = apply_insertion-Grows fl qo point plan index g r.0.0 (omega arith) r.0.1 r.0.2 in
      let graph =
        apply_insertion-IsGraph fl qo point plan index g r.0.0 (omega arith) r.0.1 r.0.2 in
      let h =
        apply_batch-IsGrown plans next w graph (omega (arith, grows.count)) v
          (later-IsReady plans index next grows.layers r.1) in
      record {
        graph = h.graph;
        valid = h.valid;
        grows = Grows-trans index next _ (point.id ∷ []) (plan_ids plans) grows h.grows;
      }

  pub insert_batches-IsGrown :
      (fuel : ℕ) (points : List PreparedPoint) (index : HnswIndex) (w : Workspace)
      → IsGraph index
      → 0 < index.config.ef_construction
      → len index + length points ≤ 2 ^ 32
      → IsValid w
      → All IsLow points
      → length points ≤ fuel
      → IsGraph (insert_batches fl qo fuel points (index, w))
        × Grows fl qo index (insert_batches fl qo fuel points (index, w)) (point_ids points)
  unfolding insert_batches
  insert_batches-IsGrown zero [] index w g pos room v low enough = (g, Grows-refl index)
  insert_batches-IsGrown zero (p ∷ ps) index w g pos room v low enough = absurd (omega arith)
  insert_batches-IsGrown (suc fuel) [] index w g pos room v low enough = (g, Grows-refl index)
  insert_batches-IsGrown (suc fuel) (p ∷ ps) index w g pos room v low enough =
      let points = p ∷ ps in
      let batch = take parallel_build_batch points in
      let left = drop parallel_build_batch points in
      let lowb = All-take IsLow parallel_build_batch points low in
      let (plans, used) = plan_batch fl qo index batch w in
      let (ready, same, valid) = plan_batch-IsReady batch index w g pos (omega arith) v lowb in
      let count : length plans ≡ length batch =
        sym (length-map (λ (e : PreparedPoint × Plan). e.0.id) plans)
        ∙ ap length same
        ∙ length-map (λ (x : PreparedPoint). x.id) batch in
      let cut = length-take parallel_build_batch points in
      let uncut = length-drop parallel_build_batch points in
      let next = apply_batch fl qo plans index in
      let h = apply_batch-IsGrown plans index used g (omega (arith, count, cut)) valid ready in
      let grows = subst (Grows fl qo index next) same h.grows in
      let all_ids : point_ids batch ++ point_ids left ≡ point_ids points =
        sym (map-append (λ (x : PreparedPoint). x.id) batch left)
        ∙ ap point_ids (take-append-drop parallel_build_batch points) in
      let ids_count = length-map (λ (x : PreparedPoint). x.id) batch in
      let rest =
        insert_batches-IsGrown fuel left next used h.graph
          (subst (λ c. 0 < c.ef_construction) (sym grows.same_config) pos)
          (omega (arith, grows.count, ids_count, cut, uncut)) valid
          (All_drop IsLow parallel_build_batch points low) (omega (arith, uncut)) in
      (
        rest.0,
        subst (Grows fl qo index _) all_ids
            (Grows-trans index next _ (point_ids batch) (point_ids left) grows rest.1),
      )

  prune_layers-IsLinkedFrom :
      (left node layer : ℕ) (index : HnswIndex)
      → len index ≤ 2 ^ 32
      → IsSound index
      → IsLinkedFrom index (prune_layers fl qo node layer left index)
  unfolding prune_layers
  prune_layers-IsLinkedFrom zero node layer index small s = IsLinkedFrom-refl index s
  prune_layers-IsLinkedFrom (suc left) node layer index small s =
      let next = prune fl qo node layer index in
      let k = prune-IsLinkedFrom fl qo node layer index small s in
      IsLinkedFrom-trans index next _ k (
        prune_layers-IsLinkedFrom left node (suc layer) next
          (subst (λ m. m ≤ 2 ^ 32) (sym k.count) small) k.sound)

  pub compact_neighbors-IsLinkedFrom :
      (left node : ℕ) (index : HnswIndex)
      → len index ≤ 2 ^ 32
      → IsSound index
      → IsLinkedFrom index (compact_neighbors fl qo node left index)
  unfolding compact_neighbors
  compact_neighbors-IsLinkedFrom zero node index small s = IsLinkedFrom-refl index s
  compact_neighbors-IsLinkedFrom (suc left) node index small s =
      let next = prune_layers fl qo node 0 (layer_count fl qo index node) index in
      let k = prune_layers-IsLinkedFrom (layer_count fl qo index node) node 0 index small s in
      IsLinkedFrom-trans index next _ k (
        compact_neighbors-IsLinkedFrom left (suc node) next
          (subst (λ m. m ≤ 2 ^ 32) (sym k.count) small) k.sound)
