-- ===== src/Hnsw/Exact.antt =====
-- The search of one layer: what it returns in general, and that it is exact with room for every node.
use Prim.Native.Nat.{compare}
use mathlib.Core.List.Permᴰ
use mathlib.Core.List.{Perm, Permᴰ}
use mathlib.Core.HLevel.{prop→set}
use mathlib.Core.Logic.{∥∥₁_elim}
use package.text.Mathlib.TextEquality.{IsScalar-prop}
use focal_vector.Base.{
  ℕ, zero, suc, true, false, List, [], ◌∷◌, ◌≤◌, ◌<◌, ◌≡◌, refl, ap, sym, ◌∙◌, subst, ltb, All, map,
  length, arith, Bool-cases, inl, inr, take_all, length-map, ltb→lt,
}
use focal_vector.Order.{
  is_eq, compare-IsLawful, on-IsPreorder, IsPreorder, lexicographic-IsPreorder, flipped-IsPreorder,
}
use focal_vector.Str.{Str, str_cmp, str_cmp-IsPreorder}
use focal_vector.Float.{F32, total_cmp32, total_cmp32-IsPreorder}
use focal_vector.Map.{contains}
use focal_vector.Map.Distinct.{distinct, Perm-of_contains}
use focal_vector.Sort.{sort}
use focal_vector.Sort.Laws.{sort-Perm, length-sort}
use focal_vector.Sort.TopK.{best}
use focal_vector.Sort.Unique.{AllDiffer, map-Permᴰ, sort-Permᴰ}
use focal_vector.Hnsw.Workspace.{
  Workspace, IsValid, begin, visit, begin-IsValid, length-begin, is_seen-begin, visit-is_seen,
  is_seen-visit, length-visit, visit-IsValid,
}
use focal_vector.Hnsw.Unseen.{unseen_bound, unseen-visit}
use focal_vector.Hnsw.Walk.{
  HeapItem, item, best_first, start, search_layer, by_scored_id, compare_scored,
}
use focal_vector.Hnsw.Walked.{holds, Reaches, here, IsGoal, Walked}
use focal_vector.Hnsw.Layer.{IsClosed, Settled, walk-Walked, walk_complete}

abbrev pub below : ℕ → List ℕ
below zero = []
below (suc n) = n ∷ below n

pub holds-below : (n j : ℕ) → holds j (below n) ≡ ltb j n
unfolding contains
holds-below zero j = ground arith
holds-below (suc n) j = ground (arith, holds-below n j)

distinct-below : (n : ℕ) → distinct compare (below n) ≡ true
distinct-below zero = refl
distinct-below (suc n) = ground (arith, distinct-below n, holds-below n n)

pub compare_scored-IsPreorder : IsPreorder compare_scored
compare_scored-IsPreorder =
    lexicographic-IsPreorder _ _
      (flipped-IsPreorder _
        (on-IsPreorder total_cmp32 (λ (e : F32 × Str). e.0) total_cmp32-IsPreorder))
      (on-IsPreorder str_cmp (λ (e : F32 × Str). e.1) str_cmp-IsPreorder)

items_set : IsSet (List HeapItem)
items_set = hlevel (λ (n : ℕ). prop→set (IsScalar-prop n))

module _ (links : ℕ → List ℕ) (score : ℕ → F32) (n entry ef : ℕ) (pos : 0 < ef)
    (closed : IsClosed links n) where
  entry_new : (w : Workspace) → IsValid w → entry < n → (visit entry (begin n w)).0 ≡ true
  entry_new w v l = ground (arith, visit-is_seen entry (begin n w), is_seen-begin n w entry v l)

  one_best : item links score entry ∷ [] ≡ best best_first ef (item links score entry ∷ [])
  unfolding best sort
  one_best = sym (take_all ef (item links score entry ∷ []) (omega arith))

  pub start-Walked :
      (w : Workspace)
      → IsValid w
      → entry < n
      → Walked links score n entry ef (start links score n entry w) (entry ∷ [])
  unfolding start contains best sort
  start-Walked w v l = record {
    valid = visit-IsValid entry (begin n w) (begin-IsValid n w v);
    size = length-visit entry (begin n w) ∙ length-begin n w;
    marks = λ j h. ground (arith, is_seen-visit entry j (begin n w), is_seen-begin n w j v h);
    counted = omega (
      arith,
      unseen-visit entry (begin n w) (entry_new w v l),
      unseen_bound (begin n w),
      length-begin n w,
    );
    different = refl;
    goals = ((l, here), tt);
    found = one_best;
    ahead = ((refl, (l, here)), tt);
  }

  IsGoal-at :
      (seen : List ℕ) (j : ℕ)
      → All (IsGoal links score n entry ef) seen
      → holds j seen ≡ true
      → IsGoal links score n entry ef j
  unfolding contains
  IsGoal-at [] j g h = cc
  IsGoal-at (i ∷ seen) j g h = elim (Bool-cases (is_eq (compare j i))) [
    | inl e ↦ let same : i ≡ j = ground arith in subst (IsGoal links score n entry ef) same g.0
    | inr e ↦ IsGoal-at seen j g.1 (ground arith)
  ]

  start-Settled :
      (w : Workspace)
      → Settled links score n entry ef pos closed (start links score n entry w) (entry ∷ [])
  unfolding start contains
  start-Settled w i h = ground (arith, h)

  -- What a search of a layer returns: of the nodes that it has seen, all reached from the entry and in range, no
  -- node twice, and the entry among them, the ef best, by score and ID.
  pub record IsSearched (ids : ℕ → Str) (hits : List HeapItem) : Type 0 where
    pub seen : List ℕ
    pub different : distinct compare seen ≡ true
    pub goals : All (IsGoal links score n entry ef) seen
    pub begun : holds entry seen ≡ true
    pub best_seen :
        hits
        ≡ sort (by_scored_id links score ids) (best best_first ef (map (item links score) seen))

  module _ (ids : ℕ → Str) where
    pub search_layer-IsSearched :
        (w : Workspace)
        → IsValid w
        → entry < n
        → IsSearched ids (search_layer links score ids n entry ef w).0
    unfolding search_layer contains
    search_layer-IsSearched w v l =
        let (seen, walked, kept) =
          walk-Walked links score n entry ef pos closed (suc n) (start links score n entry w)
            (entry ∷ []) (start-Walked w v l) in
        record {
          seen = seen;
          different = walked.different;
          goals = walked.goals;
          begun = kept entry (ground (arith, compare-IsLawful.cmp_refl entry));
          best_seen = ap (sort (by_scored_id links score ids)) walked.found;
        }

    pub search_layer-IsValid :
        (w : Workspace)
        → IsValid w
        → entry < n
        → IsValid (search_layer links score ids n entry ef w).1
    unfolding search_layer
    search_layer-IsValid w v l =
        let (seen, walked, kept) =
          walk-Walked links score n entry ef pos closed (suc n) (start links score n entry w)
            (entry ∷ []) (start-Walked w v l) in
        walked.valid

    -- Two nodes do not share an ID.
    abbrev pub HasOwnIds : Type 0
    HasOwnIds = (i j : ℕ) → i < n → j < n → is_eq (str_cmp (ids i) (ids j)) ≡ true → i ≡ j

    items_differ :
        HasOwnIds
        → (m : ℕ) → m ≤ n
        → AllDiffer (by_scored_id links score ids) (map (item links score) (below m))
    items_differ own zero l = tt
    items_differ own (suc m) l = (others m (omega arith), items_differ own m (omega arith))
      where
        others :
            (k : ℕ)
            → k ≤ m
            → All
                (λ b. is_eq (by_scored_id links score ids (item links score m) b) ≡ false)
                (map (item links score) (below k))
        others zero h = tt
        others (suc k) h = (ground (arith, own m k), others k (omega arith))

    by_scored_id-IsPreorder : IsPreorder (by_scored_id links score ids)
    by_scored_id-IsPreorder =
        on-IsPreorder compare_scored (λ (a : HeapItem). (a.score, ids a.index))
          compare_scored-IsPreorder

    count : (seen : List ℕ) → length (sort best_first (map (item links score) seen)) ≡ length seen
    count seen =
        length-sort best_first (map (item links score) seen) ∙ length-map (item links score) seen

    same_nodes :
        (seen : List ℕ)
        → All (IsGoal links score n entry ef) seen
        → ((j : ℕ) → IsGoal links score n entry ef j → holds j seen ≡ true)
        → ((j : ℕ) → j < n → Reaches links entry j)
        → (j : ℕ) → holds j seen ≡ holds j (below n)
    same_nodes seen goals got all j = elim (Bool-cases (ltb j n)) [
      | inl b ↦
          let inside : j < n = ltb→lt j n b in
          ground (arith, got j (inside, all j inside), holds-below n j)
      | inr b ↦ elim (Bool-cases (holds j seen)) [
        | inl h ↦ let inside = (IsGoal-at seen j goals h).0 in absurd (ground (arith, inside))
        | inr h ↦ ground (arith, holds-below n j)
      ]
    ]

    pub search_layer-eq-scan :
        (w : Workspace)
        → IsValid w
        → entry < n
        → n ≤ ef
        → ((j : ℕ) → j < n → Reaches links entry j)
        → HasOwnIds
        → (search_layer links score ids n entry ef w).0
          ≡ sort (by_scored_id links score ids) (map (item links score) (below n))
    unfolding search_layer contains best
    search_layer-eq-scan w v l few all own =
        let s = start links score n entry w in
        let (seen, walked, got) =
          walk_complete links score n entry ef pos closed (suc n) s (entry ∷ []) few
            (start-Walked w v l) (start-Settled w) (ground (arith, compare-IsLawful.cmp_refl entry))
            (omega (arith, (start-Walked w v l).counted)) in
        let same : Perm seen (below n) =
          Perm-of_contains compare-IsLawful seen (below n) walked.different (distinct-below n)
            (same_nodes seen walked.goals got all) in
        ap (sort (by_scored_id links score ids))
          (walked.found ∙ take_all ef _ (omega (arith, count seen, walked.counted)))
        ∙ ∥∥₁_elim same (items_set _ _) λ r.
          ∥∥₁_elim (sort-Perm best_first (map (item links score) seen)) (items_set _ _) λ q. sym (
            sort-Permᴰ (by_scored_id-IsPreorder)
              (Permᴰ.symm (Permᴰ.trans q (map-Permᴰ (item links score) r)))
              (items_differ own n (omega arith)))
