-- ===== src/Hnsw/Pool.antt =====
-- A search of a layer does not depend on the workspace that it takes.
use focal_vector.Base.{
  ℕ, zero, suc, List, [], ◌∷◌, ◌<◌, ◌≡◌, refl, ap, sym, ◌∙◌, subst, ◌&&◌, leb, none, some, All,
  arith, Option-cases, Bool-cases, inl, inr, length,
}
use focal_vector.Str.{Str}
use focal_vector.Float.{F32}
use focal_vector.Sort.{sort, peek, pop}
use focal_vector.Hnsw.Workspace.{Workspace, IsValid, visit, visit-is_seen}
use focal_vector.Hnsw.Walk.{
  Walk, below_worst, visit_neighbor, visit_neighbors, walk, start, search_layer, by_scored_id,
}
use focal_vector.Hnsw.Walked.{
  IsGoal, Walked, seen_after, ahead_after, visit_neighbor_old, visit_neighbor_new,
  visit_neighbor-Walked,
}
use focal_vector.Hnsw.Layer.{IsClosed, popped-Walked, goals_of, peek-All}
use focal_vector.Hnsw.Exact.{start-Walked}

module _ (links : ℕ → List ℕ) (score : ℕ → F32) (n entry ef : ℕ) (pos : 0 < ef)
    (closed : IsClosed links n) where
  -- Two walks that have seen the same, in workspaces of their own.
  record Same (s s' : Walk) (seen : List ℕ) : Type 0 where
    left : Walked links score n entry ef s seen
    right : Walked links score n entry ef s' seen
    frontiers : s.frontier ≡ s'.frontier
    outcomes : s.results ≡ s'.results

  alike :
      (s s' : Walk) (j : ℕ)
      → s.frontier ≡ s'.frontier
      → s.results ≡ s'.results
      → (visit j s'.workspace).0 ≡ (visit j s.workspace).0
      → (let t = visit_neighbor links score ef s j in
          let t' = visit_neighbor links score ef s' j in
          (t.frontier ≡ t'.frontier) × (t.results ≡ t'.results))
  unfolding ahead_after
  alike s s' j f r flags = elim (Bool-cases (visit j s.workspace).0) [
    | inl new ↦
        rw
          (
            visit_neighbor_new links score n entry ef s j new,
            visit_neighbor_new links score n entry ef s' j (flags ∙ new),
          )
          (rw (f, r) (refl, refl))
    | inr old ↦
        rw
          (
            visit_neighbor_old links score n entry ef s j old,
            visit_neighbor_old links score n entry ef s' j (flags ∙ old),
          )
          (f, r)
  ]

  visit_neighbor-Same :
      (s s' : Walk) (seen : List ℕ) (j : ℕ)
      → Same s s' seen
      → IsGoal links score n entry ef j
      → Same
          (visit_neighbor links score ef s j)
          (visit_neighbor links score ef s' j)
          (seen_after links score n entry ef seen (visit j s.workspace).0 j)
  visit_neighbor-Same s s' seen j h g =
      let flags : (visit j s'.workspace).0 ≡ (visit j s.workspace).0 = ground (
        arith,
        visit-is_seen j s.workspace,
        visit-is_seen j s'.workspace,
        h.left.marks j g.0,
        h.right.marks j g.0,
      ) in
      record {
        left = visit_neighbor-Walked links score n entry ef s seen j pos h.left g;
        right =
            subst
              (λ b.
                Walked links score n entry ef (visit_neighbor links score ef s' j)
                  (seen_after links score n entry ef seen b j))
              flags (visit_neighbor-Walked links score n entry ef s' seen j pos h.right g);
        frontiers = (alike s s' j h.frontiers h.outcomes flags).0;
        outcomes = (alike s s' j h.frontiers h.outcomes flags).1;
      }

  visit_neighbors-Same :
      (ns : List ℕ) (s s' : Walk) (seen : List ℕ)
      → Same s s' seen
      → All (IsGoal links score n entry ef) ns
      → (seen' : List ℕ) × Same
          (visit_neighbors links score ef s ns)
          (visit_neighbors links score ef s' ns)
          seen'
  unfolding visit_neighbors
  visit_neighbors-Same [] s s' seen h g = (seen, h)
  visit_neighbors-Same (j ∷ ns) s s' seen h g =
      visit_neighbors-Same ns _ _ _ (visit_neighbor-Same s s' seen j h g.0) g.1

  popped-Same :
      (s s' : Walk) (seen : List ℕ)
      → Same s s' seen
      → Same
          (record s { frontier = pop s.frontier })
          (record s' { frontier = pop s'.frontier })
          seen
  popped-Same s s' seen h = record {
    left = popped-Walked links score n entry ef pos closed s seen h.left;
    right = popped-Walked links score n entry ef pos closed s' seen h.right;
    frontiers = ap pop h.frontiers;
    outcomes = h.outcomes;
  }

  walk-Same :
      (fuel : ℕ) (s s' : Walk) (seen : List ℕ)
      → Same s s' seen
      → (walk links score fuel ef s).results ≡ (walk links score fuel ef s').results
  unfolding walk
  walk-Same zero s s' seen h = h.outcomes
  walk-Same (suc fuel) s s' seen h = elim (Option-cases (peek s.frontier)) [
    | inl e ↦
        let e' : peek s'.frontier ≡ none = sym (ap peek h.frontiers) ∙ e in
        rw (e, e', walk) h.outcomes
    | inr (c, e) ↦
        let e' : peek s'.frontier ≡ some c = sym (ap peek h.frontiers) ∙ e in
        let test : (leb ef (length s'.results) && below_worst c s'.results)
            ≡ (leb ef (length s.results) && below_worst c s.results) =
          ap (λ r. leb ef (length r) && below_worst c r) (sym h.outcomes) in
        elim (Bool-cases (leb ef (length s.results) && below_worst c s.results)) [
          | inl stop ↦ let stop' = test ∙ stop in rw (e, e', walk, stop, stop') h.outcomes
          | inr go ↦
              let go' = test ∙ go in
              let goal = (peek-All _ s.frontier h.left.ahead e).1 in
              let (seen', h') =
                visit_neighbors-Same (links c.index) _ _ seen (popped-Same s s' seen h)
                  (goals_of links score n entry ef pos closed c.index goal) in
              rw (e, e', walk, go, go') (walk-Same fuel _ _ seen' h')
        ]
  ]

  pub search_layer_workspace :
      (ids : ℕ → Str) (w w' : Workspace)
      → IsValid w
      → IsValid w'
      → entry < n
      → (search_layer links score ids n entry ef w).0
        ≡ (search_layer links score ids n entry ef w').0
  unfolding search_layer start
  search_layer_workspace ids w w' v v' l = ap (sort (by_scored_id links score ids)) (
      walk-Same (suc n) (start links score n entry w) (start links score n entry w') (entry ∷ [])
        (record {
          left = start-Walked links score n entry ef pos closed w v l;
          right = start-Walked links score n entry ef pos closed w' v' l;
          frontiers = refl;
          outcomes = refl;
        }))
