-- ===== src/Hnsw/Visits.antt =====
-- What the visits to the neighbors of one node add to a walk.
use Prim.Native.Nat.{compare}
use focal_vector.Base.{
  ℕ, suc, true, List, [], ◌∷◌, ◌+◌, ◌≤◌, ◌<◌, ◌≡◌, ap, ◌==◌, ◌||◌, ◌&&◌, All, length, arith,
  Bool-cases, inl, inr,
}
use focal_vector.Order.{is_eq}
use focal_vector.Float.{F32}
use focal_vector.Map.{contains}
use focal_vector.Sort.TopK.{length-insert_behind}
use focal_vector.Hnsw.Workspace.{visit, visit-is_seen}
use focal_vector.Hnsw.Unseen.{unseen, unseen-visit}
use focal_vector.Hnsw.Walk.{Walk, item, qualifies, visit_neighbor, visit_neighbors}
use focal_vector.Hnsw.Heap.{item_cmp-IsPreorder}
use focal_vector.Hnsw.Walked.{
  holds, indices, holds-insert_behind, holds-snoc, IsGoal, Walked, seen_after, length_results,
  ahead_after, visit_neighbor_old, visit_neighbor_new, visit_neighbor-Walked,
}

module _ (links : ℕ → List ℕ) (score : ℕ → F32) (n entry ef : ℕ) where
  -- A step of the walk adds to what it has seen, the wanted nodes included.
  pub record Further (s : Walk) (seen : List ℕ) (s' : Walk) (wanted : List ℕ) : Type 0 where
    pub seen' : List ℕ
    pub walked : Walked links score n entry ef s' seen'
    pub kept : (i : ℕ) → holds i seen ≡ true → holds i seen' ≡ true
    pub has : (i : ℕ) → holds i wanted ≡ true → holds i seen' ≡ true
    pub grown : (i : ℕ) → holds i (indices s.frontier) ≡ true → holds i (indices s'.frontier) ≡ true
    pub queued :
        n ≤ ef
        → (i : ℕ) → holds i seen' ≡ true
        → holds i seen || holds i (indices s'.frontier) ≡ true
    pub work : length s'.frontier + unseen s'.workspace ≤ length s.frontier + unseen s.workspace

  length-ahead_after :
      (s : Walk) (j : ℕ) → length (ahead_after links score n entry ef s j) ≤ suc (length s.frontier)
  unfolding ahead_after
  length-ahead_after s j =
      ground (arith, length-insert_behind item_cmp-IsPreorder (item links score j) s.frontier)

  work_visit_neighbor :
      (s : Walk) (j : ℕ)
      → (let s' = visit_neighbor links score ef s j in
          length s'.frontier + unseen s'.workspace ≤ length s.frontier + unseen s.workspace)
  work_visit_neighbor s j = elim (Bool-cases (visit j s.workspace).0) [
    | inl new ↦
        rw (visit_neighbor_new links score n entry ef s j new)
          (omega (arith, length-ahead_after s j, unseen-visit j s.workspace new))
    | inr old ↦ rw (visit_neighbor_old links score n entry ef s j old) (omega arith)
  ]

  holds-ahead_after :
      (s : Walk) (j i : ℕ)
      → holds i (indices (ahead_after links score n entry ef s j))
        ≡ (qualifies ef (item links score j) s.results && j == i) || holds i (indices s.frontier)
  unfolding ahead_after
  holds-ahead_after s j i = ground (arith, holds-insert_behind i (item links score j) s.frontier)

  room :
      (s : Walk) (seen : List ℕ) (j : ℕ)
      → Walked links score n entry ef s seen
      → n ≤ ef
      → (visit j s.workspace).0 ≡ true
      → qualifies ef (item links score j) s.results ≡ true
  unfolding qualifies
  room s seen j w few new =
      let count = length_results links score n entry ef s seen w in
      ground (arith, count, w.counted, unseen-visit j s.workspace new)

  grown_visit_neighbor :
      (s : Walk) (j i : ℕ)
      → holds i (indices s.frontier) ≡ true
      → holds i (indices (visit_neighbor links score ef s j).frontier) ≡ true
  grown_visit_neighbor s j i h = elim (Bool-cases (visit j s.workspace).0) [
    | inl new ↦
        rw (visit_neighbor_new links score n entry ef s j new)
          (ground (arith, h, holds-ahead_after s j i))
    | inr old ↦ rw (visit_neighbor_old links score n entry ef s j old) h
  ]

  -- With room for every node, a new node always qualifies.
  queued_visit_neighbor :
      (s : Walk) (seen : List ℕ) (j : ℕ)
      → Walked links score n entry ef s seen
      → n ≤ ef
      → (i : ℕ) → holds i (seen_after links score n entry ef seen (visit j s.workspace).0 j) ≡ true
      → holds i seen || holds i (indices (visit_neighbor links score ef s j).frontier) ≡ true
  queued_visit_neighbor s seen j w few i h = elim (Bool-cases (visit j s.workspace).0) [
    | inl new ↦ rw (visit_neighbor_new links score n entry ef s j new) (
        ground
          (arith, h, new, holds-snoc seen i j, holds-ahead_after s j i, room s seen j w few new))
    | inr old ↦ ground (arith, h, old)
  ]

  visit_neighbor-Further :
      (s : Walk) (seen : List ℕ) (j : ℕ)
      → 0 < ef
      → Walked links score n entry ef s seen
      → IsGoal links score n entry ef j
      → Further s seen (visit_neighbor links score ef s j) (j ∷ [])
  unfolding contains
  visit_neighbor-Further s seen j pos w g = record {
    seen' = seen_after links score n entry ef seen (visit j s.workspace).0 j;
    walked = visit_neighbor-Walked links score n entry ef s seen j pos w g;
    kept = λ i h. ground (arith, holds-snoc seen i j, h);
    has = λ i h.
        let same : i ≡ j = ground arith in
        let both : holds i seen ≡ holds j seen = ap (λ k. holds k seen) same in
        ground (arith, holds-snoc seen i j, w.marks j g.0, visit-is_seen j s.workspace);
    grown = λ i h. grown_visit_neighbor s j i h;
    queued = λ few i h. queued_visit_neighbor s seen j w few i h;
    work = work_visit_neighbor s j;
  }

  Further-trans :
      (s : Walk) (seen : List ℕ) (s' s'' : Walk) (j : ℕ) (js : List ℕ)
      → (o : Further s seen s' (j ∷ [])) → Further s' o.seen' s'' js
      → Further s seen s'' (j ∷ js)
  unfolding contains
  Further-trans s seen s' s'' j js o p = record {
    seen' = p.seen';
    walked = p.walked;
    kept = λ i h. p.kept i (o.kept i h);
    has = λ i h. elim (Bool-cases (is_eq (compare i j))) [
      | inl e ↦ p.kept i (o.has i (ground arith))
      | inr e ↦ p.has i (ground arith)
    ];
    grown = λ i h. p.grown i (o.grown i h);
    queued = λ few i h. elim (Bool-cases (holds i o.seen')) [
      | inl old ↦ ground (arith, o.queued few i old, p.grown i)
      | inr new ↦ ground (arith, p.queued few i h)
    ];
    work = omega (arith, o.work, p.work);
  }

  pub visit_neighbors-Further :
      (ns : List ℕ) (s : Walk) (seen : List ℕ)
      → 0 < ef
      → Walked links score n entry ef s seen
      → All (IsGoal links score n entry ef) ns
      → Further s seen (visit_neighbors links score ef s ns) ns
  unfolding visit_neighbors contains
  visit_neighbors-Further [] s seen pos w g = record {
    seen' = seen;
    walked = w;
    kept = λ i h. h;
    has = λ i h. cc;
    grown = λ i h. h;
    queued = λ few i h. ground (arith, h);
    work = omega arith;
  }
  visit_neighbors-Further (j ∷ ns) s seen pos w g =
      let o = visit_neighbor-Further s seen j pos w g.0 in
      Further-trans s seen _ _ j ns o
        (visit_neighbors-Further ns (visit_neighbor links score ef s j) o.seen' pos o.walked g.1)
