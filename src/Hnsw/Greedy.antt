-- ===== src/Hnsw/Greedy.antt =====
-- The greedy descent over one layer: it ends, at a node that none of its neighbors betters.
use Prim.Native.Nat.{compare, Ordering}
use Prim.Native.Nat.Ordering.{lt}
use focal_vector.Base.{
  ℕ, zero, suc, Bool, true, false, List, [], ◌∷◌, ◌+◌, ◌≤◌, ◌<◌, ◌≡◌, refl, ap, sym, ◌∙◌, subst,
  ◌==◌, if◌then◌else◌, keep, length, arith, Bool-cases, inl, inr, ◌⊎◌,
}
use focal_vector.Order.{is_eq, is_lt, on-IsPreorder, IsPreorder, compare-IsLawful}
use focal_vector.Str.{Str}
use focal_vector.Float.{F32}
use focal_vector.Map.{contains}
use focal_vector.Hnsw.Walk.{HeapItem, item, by_scored_id, compare_scored, closest, greedy_closest}
use focal_vector.Hnsw.Walked.{holds}
use focal_vector.Hnsw.Layer.{IsClosed}
use focal_vector.Hnsw.Exact.{below, holds-below, compare_scored-IsPreorder}

keep_fewer :
    (p q : ℕ → Bool) (xs : List ℕ)
    → ((j : ℕ) → p j ≡ true → q j ≡ true)
    → length (keep p xs) ≤ length (keep q xs)
keep_fewer p q [] h = omega arith
keep_fewer p q (x ∷ xs) h = ground (arith, keep_fewer p q xs h, h x)

-- One of the elements is counted by the second test only.
keep_strictly :
    (p q : ℕ → Bool) (xs : List ℕ) (i : ℕ)
    → ((j : ℕ) → p j ≡ true → q j ≡ true)
    → holds i xs ≡ true
    → p i ≡ false
    → q i ≡ true
    → length (keep p xs) < length (keep q xs)
unfolding contains
keep_strictly p q [] i h m a b = cc
keep_strictly p q (x ∷ xs) i h m a b = elim (Bool-cases (is_eq (compare i x))) [
  | inl e ↦
      let same : i ≡ x = ground arith in
      let a' : p x ≡ false = subst (λ k. p k ≡ false) same a in
      let b' : q x ≡ true = subst (λ k. q k ≡ true) same b in
      ground (arith, keep_fewer p q xs h, a', b')
  | inr e ↦ ground (arith, keep_strictly p q xs i h, h x, m, a, b)
]

module _ (links : ℕ → List ℕ) (score : ℕ → F32) (ids : ℕ → Str) where
  abbrev pub betters : HeapItem → HeapItem → Bool
  betters a b = is_lt (by_scored_id links score ids a b)

  by_scored_id-IsPreorder : IsPreorder (by_scored_id links score ids)
  by_scored_id-IsPreorder =
      on-IsPreorder compare_scored (λ (a : HeapItem). (a.score, ids a.index))
        compare_scored-IsPreorder

  betters_trans : (a b c : HeapItem) → betters a b ≡ true → betters b c ≡ true → betters a c ≡ true
  betters_trans a b c h k =
      ap is_lt (by_scored_id-IsPreorder.trans_lt a b c (is_lt-true _ h) (is_lt-true _ k))
    where
      is_lt-true : (o : Ordering) → is_lt o ≡ true → o ≡ lt
      is_lt-true o h = ground arith

  betters_itself : (a : HeapItem) → betters a a ≡ false
  betters_itself a = ground (arith, by_scored_id-IsPreorder.swap a a)

  -- What one round chooses: the node itself, or a neighbor that betters it.
  closest_choice :
      (best : HeapItem) (ns : List ℕ)
      → (closest links score ids best ns ≡ best)
        ⊎ ((j : ℕ) × (holds j ns ≡ true)
            × (closest links score ids best ns ≡ item links score j)
            × (betters (item links score j) best ≡ true))
  unfolding closest contains
  closest_choice best [] = inl refl
  closest_choice best (n ∷ ns) = elim (Bool-cases (betters (item links score n) best)) [
    | inr worse ↦ elim (closest_choice best ns) [
      | inl same ↦ inl (rw (worse, closest) same)
      | inr (j, h, e, b) ↦ inr (j, ground (arith, h), rw (worse, closest) e, b)
    ]
    | inl better ↦ elim (closest_choice (item links score n) ns) [
      | inl same ↦
          inr (n, ground (arith, compare-IsLawful.cmp_refl n), rw (better, closest) same, better)
      | inr (j, h, e, b) ↦
          inr (j, ground (arith, h), rw (better, closest) e, betters_trans _ _ _ b better)
    ]
  ]

  -- What does not better the start does not better the choice.
  not_better :
      (x best : HeapItem) (ns : List ℕ)
      → betters x best ≡ false
      → betters x (closest links score ids best ns) ≡ false
  not_better x best ns h = elim (closest_choice best ns) [
    | inl same ↦ rw same h
    | inr (j, m, e, b) ↦ rw e (ground (arith, h, b, betters_trans x (item links score j) best))
  ]

  -- No neighbor betters the choice.
  closest_best :
      (best : HeapItem) (ns : List ℕ) (i : ℕ)
      → holds i ns ≡ true
      → betters (item links score i) (closest links score ids best ns) ≡ false
  unfolding closest contains
  closest_best best [] i h = cc
  closest_best best (n ∷ ns) i h = elim (Bool-cases (is_eq (compare i n))) [
    | inr other ↦
        closest_best (if betters (item links score n) best then item links score n else best) ns i
          (ground arith)
    | inl e ↦
        let same : n ≡ i = ground arith in
        subst (λ k. betters (item links score k) (closest links score ids best (n ∷ ns)) ≡ false)
          same
          (not_better (item links score n)
            (if betters (item links score n) best then item links score n else best) ns
            (first n best))
  ]
    where
      first :
          (k : ℕ) (b : HeapItem)
          → betters
              (item links score k)
              (if betters (item links score k) b then item links score k else b)
            ≡ false
      first k b = elim (Bool-cases (betters (item links score k) b)) [
        | inl y ↦ rw y (betters_itself (item links score k))
        | inr y ↦ rw (y, y) refl
      ]

  abbrev next : ℕ → ℕ
  next current = (closest links score ids (item links score current) (links current)).index

  module _ (n : ℕ) (closed : IsClosed links n) where
    -- The number of nodes that better a node.
    abbrev pub rank : ℕ → ℕ
    rank i = length (keep (λ j. betters (item links score j) (item links score i)) (below n))

    length-below : (m : ℕ) → length (keep (λ j. true) (below m)) ≡ m
    length-below zero = refl
    length-below (suc m) = ap suc (length-below m)

    pub rank_bound : (i : ℕ) → i < n → rank i < n
    rank_bound i l = omega (
      arith,
      length-below n,
      keep_strictly (λ k. betters (item links score k) (item links score i)) (λ k. true) (below n) i
          (λ k h. refl) (ground (arith, holds-below n i)) (betters_itself _) refl,
    )

    rank_falls :
        (i j : ℕ)
        → j < n
        → betters (item links score j) (item links score i) ≡ true
        → rank j < rank i
    rank_falls i j l b =
        keep_strictly (λ k. betters (item links score k) (item links score j))
          (λ k. betters (item links score k) (item links score i)) (below n) j
          (λ k h. betters_trans _ _ _ h b) (ground (arith, holds-below n j)) (betters_itself _) b

    -- A round stays, or moves to a node of lower rank.
    round_choice :
        (current : ℕ)
        → current < n
        → (next current ≡ current) ⊎ ((next current < n) × (rank (next current) < rank current))
    round_choice current l = elim (closest_choice (item links score current) (links current)) [
      | inl same ↦ inl (ap (λ (a : HeapItem). a.index) same)
      | inr (j, h, e, b) ↦
          let to : next current ≡ j = ap (λ (a : HeapItem). a.index) e in
          let inside = closed current j l h in
          inr (
            subst (λ k. k < n) (sym to) inside,
            subst (λ k. rank k < rank current) (sym to) (rank_falls current j inside b),
          )
    ]

    stays :
        (current : ℕ)
        → (next current == current) ≡ true
        → (i : ℕ) → holds i (links current) ≡ true
        → betters (item links score i) (item links score current) ≡ false
    stays current e i h = elim (closest_choice (item links score current) (links current)) [
      | inl same ↦
          subst (λ x. betters (item links score i) x ≡ false) same
            (closest_best (item links score current) (links current) i h)
      | inr (j, m, f, b) ↦
          let to : next current ≡ j = ap (λ (a : HeapItem). a.index) f in
          let same : j ≡ current = ground (arith, to) in
          let itself =
            subst (λ k. betters (item links score k) (item links score current) ≡ true) same b in
          absurd (ground (arith, itself, betters_itself (item links score current)))
    ]

    moves :
        (current : ℕ)
        → current < n
        → (next current == current) ≡ false
        → (next current < n) × (rank (next current) < rank current)
    moves current l e = elim (round_choice current l) [
      | inl same ↦ absurd (ground (arith, same))
      | inr m ↦ m
    ]

    -- With fuel above its rank the descent from a node ends by itself: more fuel changes nothing.
    pub greedy_enough :
        (fuel extra current : ℕ)
        → current < n
        → rank current < fuel
        → greedy_closest links score ids (fuel + extra) current
          ≡ greedy_closest links score ids fuel current
    unfolding greedy_closest
    greedy_enough zero extra current l r = absurd (omega arith)
    greedy_enough (suc fuel) extra current l r =
        ap (λ m. greedy_closest links score ids m current) (suc_plus fuel extra)
        ∙ (elim (Bool-cases (next current == current)) [
          | inl e ↦ rw (e, greedy_closest) refl
          | inr e ↦
              let m = moves current l e in
              rw (e, greedy_closest)
                (greedy_enough fuel extra (next current) m.0 (omega (arith, m.1)))
        ])
      where
        suc_plus : (a b : ℕ) → suc a + b ≡ suc (a + b)
        suc_plus a b = omega arith

    -- It ends at a node in range that no neighbor betters, of no higher rank.
    pub greedy_closest-IsLocal :
        (fuel current : ℕ)
        → current < n
        → rank current < fuel
        → (let end = greedy_closest links score ids fuel current in
            (end < n)
            × (rank end ≤ rank current)
            × ((i : ℕ)
                → holds i (links end) ≡ true
                → betters (item links score i) (item links score end) ≡ false))
    unfolding greedy_closest
    greedy_closest-IsLocal zero current l r = absurd (omega arith)
    greedy_closest-IsLocal (suc fuel) current l r = elim (Bool-cases (next current == current)) [
      | inl e ↦ rw (e, greedy_closest) (l, omega arith, stays current e)
      | inr e ↦
          let m = moves current l e in
          let later = greedy_closest-IsLocal fuel (next current) m.0 (omega (arith, m.1)) in
          rw (e, greedy_closest) (later.0, omega (arith, later.1, m.1), later.2)
    ]

    -- With links in range, the descent from a node in range ends by itself within a round for each node, at
    -- a node in range that no neighbor betters.
    pub greedy_closest_ends :
        (current extra : ℕ)
        → current < n
        → (let end = greedy_closest links score ids n current in
            (greedy_closest links score ids (n + extra) current ≡ end)
            × (end < n)
            × ((i : ℕ)
                → holds i (links end) ≡ true
                → betters (item links score i) (item links score end) ≡ false))
    greedy_closest_ends current extra l =
        let local = greedy_closest-IsLocal n current l (rank_bound current l) in
        (greedy_enough n extra current l (rank_bound current l), local.0, local.2)

  -- What the links keep, the descent keeps.
  pub greedy_closest_keeps {κ} :
      (P : ℕ → Type κ)
      → ((i j : ℕ) → P i → holds j (links i) ≡ true → P j)
      → (fuel current : ℕ) → P current
      → P (greedy_closest links score ids fuel current)
  unfolding greedy_closest
  greedy_closest_keeps P along' zero current p = p
  greedy_closest_keeps P along' (suc fuel) current p = elim (Bool-cases (next current == current)) [
    | inl e ↦ rw (e, greedy_closest) p
    | inr e ↦
        rw (e, greedy_closest)
          (greedy_closest_keeps P along' fuel (next current)
            (elim (closest_choice (item links score current) (links current)) [
              | inl same ↦ subst P (sym (ap (λ (a : HeapItem). a.index) same)) p
              | inr (j, h, f, b) ↦
                  subst P (sym (ap (λ (a : HeapItem). a.index) f)) (along' current j p h)
            ]))
  ]
