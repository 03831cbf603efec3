-- ===== src/Hnsw/Planned.antt =====
-- A plan picks, for each layer, only nodes that have the layer.
use focal_vector.Base.{
  ℕ, zero, suc, true, List, [], ◌∷◌, ◌++◌, ◌+◌, ◌-◌, ◌^◌, ◌≤◌, ◌<◌, ◌≡◌, refl, ap, sym, ◌∙◌, subst,
  ltb, none, some, All, map, length, length-append, min, arith, Option-cases, Bool-cases, inl, inr,
}
use focal_vector.Float.{FloatOps}
use focal_vector.Sort.TopK.{best}
use focal_vector.Hnsw.{max_connections}
use focal_vector.Hnsw.Vectors.{QuantOps, PreparedVector}
use focal_vector.Hnsw.Workspace.{Workspace, IsValid}
use focal_vector.Hnsw.Walk.{HeapItem, item, best_first, by_scored_id, search_layer, greedy_closest}
use focal_vector.Hnsw.Walked.{holds, Reaches, here, along, IsGoal}
use focal_vector.Hnsw.Layer.{IsClosed}
use focal_vector.Hnsw.Exact.{search_layer-IsSearched, search_layer-IsValid}
use focal_vector.Hnsw.Greedy.{greedy_closest_keeps}
use focal_vector.Hnsw.Select.{All-sort, All-take, select_neighbors-All}
use focal_vector.Hnsw.Graph.{HnswIndex, neighbors, id_at, len, score, descend}
use focal_vector.Hnsw.Insert.{
  PreparedPoint, Plan, near, empty_layers, plan_layer, plan_layers, plan_insert, plan_point,
}
use focal_vector.Hnsw.Sound.{has_layer, has_layer_range, neighbors-links_at}
use focal_vector.Hnsw.Linked.{Fits, IsPlanned, lower_layer}
use focal_vector.Hnsw.Inserted.{IsGraph}

-- The links that a search of the index reads keep within the layer.
graph_along :
    (index : HnswIndex) (layer i j : ℕ)
    → IsGraph index
    → holds j (neighbors index layer i) ≡ true
    → has_layer index j layer ≡ true
graph_along index layer i j g h =
    g.sound.links_ok i layer j
      (subst (λ xs. holds j xs ≡ true) (neighbors-links_at index layer i g.unpacked g.sound) h)

pub graph-IsClosed :
    (index : HnswIndex) (layer : ℕ) → IsGraph index → IsClosed (neighbors index layer) (len index)
graph-IsClosed index layer g i j l h =
    has_layer_range index j layer (graph_along index layer i j g h)

reached_layer :
    (index : HnswIndex) (layer entry : ℕ) {j : ℕ}
    → IsGraph index
    → has_layer index entry layer ≡ true
    → Reaches (neighbors index layer) entry j
    → has_layer index j layer ≡ true
reached_layer index layer entry g e here = e
reached_layer index layer entry {j} g e (along {i} r h) = graph_along index layer i j g h

module _ (fl : FloatOps) (qo : QuantOps) where
  descend_layer :
      (index : HnswIndex) (query : PreparedVector) (stop layer current : ℕ)
      → IsGraph index
      → has_layer index current layer ≡ true
      → has_layer index (descend fl qo index query stop layer current) (min stop layer) ≡ true
  unfolding descend
  descend_layer index query stop zero current g h =
      lower_layer fl qo index current (min stop 0) 0 (omega arith) h
  descend_layer index query stop (suc layer) current g h =
      elim (Bool-cases (ltb stop (suc layer))) [
        | inr e ↦
            rw (e, descend)
              (lower_layer fl qo index current (min stop (suc layer)) (suc layer) (omega arith) h)
        | inl e ↦
            let moved =
              greedy_closest_keeps (neighbors index (suc layer)) (score fl qo index query)
                (id_at index) (λ i. has_layer index i (suc layer) ≡ true)
                (λ i j p m. graph_along index (suc layer) i j g m) (len index) current h in
            let after =
              greedy_closest (neighbors index (suc layer)) (score fl qo index query) (id_at index)
                (len index) current in
            let same : min stop (suc layer) ≡ min stop layer = ground (arith, e) in
            rw (e, descend)
              (subst (λ m. has_layer index (descend fl qo index query stop layer after) m ≡ true)
                (sym same)
                (descend_layer index query stop layer after g
                  (lower_layer fl qo index after layer (suc layer) (omega arith) moved)))
      ]

  -- What a layer's plan needs: a valid workspace, and a start that has the layer.
  record CanPlan (index : HnswIndex) (layer current : ℕ) (w : Workspace) : Type 0 where
    valid : IsValid w
    starts : has_layer index current layer ≡ true

  -- What it gives: fit neighbors, a next start on the layer, and a valid workspace.
  record HasPlanned (index : HnswIndex) (layer : ℕ) (out : List HeapItem × ℕ × Workspace)
      : Type 0 where
    fit : All (Fits index layer) out.0
    next : has_layer index out.1 layer ≡ true
    valid : IsValid out.2

  goals_fit :
      (index : HnswIndex) (layer current ef : ℕ) (query : PreparedVector) (seen : List ℕ)
      → IsGraph index
      → len index ≤ 2 ^ 32
      → has_layer index current layer ≡ true
      → All (IsGoal (neighbors index layer) (score fl qo index query) (len index) current ef) seen
      → All (Fits index layer) (map (item (neighbors index layer) (score fl qo index query)) seen)
  goals_fit index layer current ef query [] g small h a = tt
  goals_fit index layer current ef query (x ∷ seen) g small h a = (
    (reached_layer index layer current g h a.0.1, omega (arith, a.0.0, small)),
    goals_fit index layer current ef query seen g small h a.1,
  )

  next-Fits :
      (index : HnswIndex) (layer current : ℕ) (selected : List HeapItem)
      → has_layer index current layer ≡ true
      → All (Fits index layer) selected
      → has_layer index (elim selected [ [] ↦ current | closest ∷ rest ↦ closest.index ]) layer
        ≡ true
  next-Fits index layer current [] h a = h
  next-Fits index layer current (x ∷ xs) h a = a.0.0

  plan_layer-HasPlanned :
      (index : HnswIndex) (point : PreparedPoint) (layer current : ℕ) (w : Workspace)
      → IsGraph index
      → 0 < index.config.ef_construction
      → len index ≤ 2 ^ 32
      → CanPlan index layer current w
      → HasPlanned index layer (plan_layer fl qo index point layer current w)
  unfolding plan_layer best
  plan_layer-HasPlanned index point layer current w g pos small c =
      let links = neighbors index layer in
      let query = score fl qo index point.vector in
      let ef = index.config.ef_construction in
      let inside = has_layer_range index current layer c.starts in
      let s =
        search_layer-IsSearched links query (len index) current ef pos
          (graph-IsClosed index layer g) (id_at index) w c.valid inside in
      let candidates : All (Fits index layer)
          (search_layer links query (id_at index) (len index) current ef w).0 =
        subst (All (Fits index layer)) (sym s.best_seen) (
          All-sort (Fits index layer) (by_scored_id links query (id_at index)) _ (
            All-take (Fits index layer) ef _ (
              All-sort (Fits index layer) best_first _ (
                goals_fit index layer current ef point.vector s.seen g small c.starts s.goals)))) in
      let selected =
        select_neighbors-All (near fl qo index) (Fits index layer) _
          (max_connections index.config layer) candidates in
      record {
        fit = selected;
        next = next-Fits index layer current _ c.starts selected;
        valid =
            search_layer-IsValid links query (len index) current ef pos
              (graph-IsClosed index layer g) (id_at index) w c.valid inside;
      }

  -- One more layer at the top of a plan.
  IsPlanned-snoc :
      (plan : Plan) (index : HnswIndex) (layer : ℕ) (items : List HeapItem)
      → IsPlanned fl qo index layer plan
      → All (Fits index (layer + length plan)) items
      → IsPlanned fl qo index layer (plan ++ items ∷ [])
  IsPlanned-snoc [] index layer items p a =
      let same : layer + 0 ≡ layer = omega arith in
      (subst (λ l. All (Fits index l) items) same a, tt)
  IsPlanned-snoc (x ∷ plan) index layer items p a =
      let same : layer + suc (length plan) ≡ suc layer + length plan = omega arith in
      (
        p.0,
        IsPlanned-snoc plan index (suc layer) items p.1
            (subst (λ l. All (Fits index l) items) same a),
      )

  IsPlanned-empty :
      (plan : Plan) (n : ℕ) (index : HnswIndex) (layer : ℕ)
      → IsPlanned fl qo index layer plan
      → IsPlanned fl qo index layer (plan ++ empty_layers n)
  unfolding empty_layers
  IsPlanned-empty [] zero index layer p = tt
  IsPlanned-empty [] (suc n) index layer p = (tt, IsPlanned-empty [] n index (suc layer) tt)
  IsPlanned-empty (x ∷ plan) n index layer p = (p.0, IsPlanned-empty plan n index (suc layer) p.1)

  -- A whole plan: fit for its layers, as many as given, and the workspace valid.
  pub record IsPlan (index : HnswIndex) (layers : ℕ) (out : Plan × Workspace) : Type 0 where
    pub planned : IsPlanned fl qo index 0 out.0
    pub count : length out.0 ≡ layers
    pub valid : IsValid out.1

  plan_layers-IsPlan :
      (layer : ℕ) (index : HnswIndex) (point : PreparedPoint) (current : ℕ) (w : Workspace)
      → IsGraph index
      → 0 < index.config.ef_construction
      → len index ≤ 2 ^ 32
      → CanPlan index layer current w
      → IsPlan index (suc layer) (plan_layers fl qo index point layer current w)
  unfolding plan_layers
  plan_layers-IsPlan zero index point current w g pos small c =
      let h = plan_layer-HasPlanned index point zero current w g pos small c in
      record { planned = (h.fit, tt); count = refl; valid = h.valid }
  plan_layers-IsPlan (suc layer) index point current w g pos small c =
      let h = plan_layer-HasPlanned index point (suc layer) current w g pos small c in
      let out = plan_layer fl qo index point (suc layer) current w in
      let lower = plan_layers-IsPlan layer index point out.1 out.2 g pos small (record {
        valid = h.valid;
        starts = lower_layer fl qo index out.1 layer (suc layer) (omega arith) h.next;
      }) in
      let at : 0 + length (plan_layers fl qo index point layer out.1 out.2).0 ≡ suc layer =
        omega (arith, lower.count) in
      record {
        planned =
            IsPlanned-snoc _ index 0 out.0 lower.planned
              (subst (λ l. All (Fits index l) out.0) (sym at) h.fit);
        count =
            length-append (plan_layers fl qo index point layer out.1 out.2).0 _
            ∙ omega (arith, lower.count);
        valid = lower.valid;
      }

  length-empty_layers : (n : ℕ) → length (empty_layers {A = HeapItem} n) ≡ n
  unfolding empty_layers
  length-empty_layers zero = refl
  length-empty_layers (suc n) = ap suc (length-empty_layers n)

  plan_insert-IsPlan :
      (index : HnswIndex) (point : PreparedPoint) (entry : ℕ) (w : Workspace)
      → IsGraph index
      → 0 < index.config.ef_construction
      → len index ≤ 2 ^ 32
      → IsValid w
      → index.entry_point ≡ some entry
      → IsPlan index (suc point.level) (plan_insert fl qo index point entry w)
  unfolding plan_insert
  plan_insert-IsPlan index point entry w g pos small v e =
      let connected = min point.level index.max_level in
      let current = descend fl qo index point.vector point.level index.max_level entry in
      let p = plan_layers-IsPlan connected index point current w g pos small (record {
        valid = v;
        starts =
            descend_layer index point.vector point.level index.max_level entry g
              (g.entry_ok entry e);
      }) in
      record {
        planned = IsPlanned-empty _ (point.level - connected) index 0 p.planned;
        count =
            length-append (plan_layers fl qo index point connected current w).0 _
            ∙ omega (arith, p.count, length-empty_layers (point.level - connected));
        valid = p.valid;
      }

  plan_point_first :
      (index : HnswIndex) (point : PreparedPoint) (w : Workspace)
      → index.entry_point ≡ none
      → plan_point fl qo index point w ≡ (empty_layers (suc point.level), w)
  unfolding plan_point
  plan_point_first index point w e = simp (plan_point, e)

  plan_point_later :
      (index : HnswIndex) (point : PreparedPoint) (w : Workspace) (entry : ℕ)
      → index.entry_point ≡ some entry
      → plan_point fl qo index point w ≡ plan_insert fl qo index point entry w
  unfolding plan_point
  plan_point_later index point w entry e = simp (plan_point, e)

  pub plan_point-IsPlan :
      (index : HnswIndex) (point : PreparedPoint) (w : Workspace)
      → IsGraph index
      → 0 < index.config.ef_construction
      → len index ≤ 2 ^ 32
      → IsValid w
      → IsPlan index (suc point.level) (plan_point fl qo index point w)
  plan_point-IsPlan index point w g pos small v = elim (Option-cases index.entry_point) [
    | inl e ↦
        subst (IsPlan index (suc point.level)) (sym (plan_point_first index point w e)) (record {
          planned = IsPlanned-empty [] (suc point.level) index 0 tt;
          count = length-empty_layers (suc point.level);
          valid = v;
        })
    | inr (entry, e) ↦
        subst (IsPlan index (suc point.level)) (sym (plan_point_later index point w entry e))
          (plan_insert-IsPlan index point entry w g pos small v e)
  ]
