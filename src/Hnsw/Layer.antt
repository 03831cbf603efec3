-- ===== src/Hnsw/Layer.antt =====
-- The walk over a layer as a whole: it ends within one round for each node, and with room for every node
-- it visits all that the entry reaches.
use Prim.Native.Nat.{compare}
use focal_vector.Base.{
  ℕ, zero, suc, Bool, true, false, List, [], ◌∷◌, ◌+◌, ◌≤◌, ◌<◌, ◌≡◌, refl, ap, sym, ◌∙◌, subst,
  ◌||◌, ◌&&◌, leb, none, some, All, all, length, arith, Option-cases, Bool-cases, inl, inr,
}
use focal_vector.Order.{is_eq}
use focal_vector.Float.{F32}
use focal_vector.Map.{contains}
use focal_vector.Sort.{peek, pop}
use focal_vector.Hnsw.Unseen.{unseen, unseen_zero}
use focal_vector.Hnsw.Walk.{HeapItem, Walk, below_worst, visit_neighbors, walk}
use focal_vector.Hnsw.Walked.{holds, indices, Reaches, here, along, IsGoal, Walked, length_results}
use focal_vector.Hnsw.Visits.{Further, visit_neighbors-Further}

-- The greatest item of a heap and the others.
length-pop {ℓ} :
    {A : Type ℓ} (xs : List A) {x : A} → peek xs ≡ some x → suc (length (pop xs)) ≡ length xs
unfolding peek pop
length-pop [] e = cc
length-pop (y ∷ []) e = refl
length-pop (y ∷ z ∷ ys) e = ap suc (length-pop (z ∷ ys) e)

All-pop {ℓ κ} : {A : Type ℓ} (P : A → Type κ) (xs : List A) → All P xs → All P (pop xs)
unfolding pop
All-pop P [] a = tt
All-pop P (y ∷ []) a = tt
All-pop P (y ∷ z ∷ ys) a = (a.0, All-pop P (z ∷ ys) a.1)

pub peek-All {ℓ κ} :
    {A : Type ℓ} (P : A → Type κ) (xs : List A) {x : A} → All P xs → peek xs ≡ some x → P x
unfolding peek
peek-All P [] a e = cc
peek-All P (y ∷ []) {x} a e = let same : y ≡ x = cc in subst P same a.0
peek-All P (y ∷ z ∷ ys) a e = peek-All P (z ∷ ys) a.1 e

holds-pop :
    (i : ℕ) (xs : List HeapItem) {x : HeapItem}
    → peek xs ≡ some x
    → holds i (indices xs) ≡ is_eq (compare i x.index) || holds i (indices (pop xs))
unfolding peek pop contains
holds-pop i [] e = cc
holds-pop i (y ∷ []) {x} e =
    let same : y ≡ x = cc in ap (λ (a : HeapItem). is_eq (compare i a.index) || false) same
holds-pop i (y ∷ z ∷ ys) e = ground (arith, holds-pop i (z ∷ ys) e)

All-of_holds {κ} : (P : ℕ → Type κ) (xs : List ℕ) → ((j : ℕ) → holds j xs ≡ true → P j) → All P xs
unfolding contains
All-of_holds P [] h = tt
All-of_holds P (x ∷ xs) h = (h x (ground arith), All-of_holds P xs (λ j e. h j (ground (arith, e))))

all_of_holds :
    (p : ℕ → Bool) (xs : List ℕ) → ((j : ℕ) → holds j xs ≡ true → p j ≡ true) → all p xs ≡ true
unfolding contains
all_of_holds p [] h = refl
all_of_holds p (x ∷ xs) h =
    let first = h x (ground arith) in
    let rest = all_of_holds p xs (λ j e. h j (ground (arith, e))) in ground arith

all_at : (p : ℕ → Bool) (xs : List ℕ) (j : ℕ) → all p xs ≡ true → holds j xs ≡ true → p j ≡ true
unfolding contains
all_at p [] j a h = cc
all_at p (x ∷ xs) j a h = elim (Bool-cases (is_eq (compare j x))) [
  | inl e ↦ let same : j ≡ x = ground arith in subst (λ k. p k ≡ true) (sym same) (ground arith)
  | inr e ↦ all_at p xs j (ground arith) (ground arith)
]

all_mono :
    (seen seen' : List ℕ)
    → ((i : ℕ) → holds i seen ≡ true → holds i seen' ≡ true)
    → (xs : List ℕ) → all (λ j. holds j seen) xs ≡ true
    → all (λ j. holds j seen') xs ≡ true
all_mono seen seen' kept [] a = refl
all_mono seen seen' kept (x ∷ xs) a = ground (arith, kept x, all_mono seen seen' kept xs)

peek_nil : (xs : List HeapItem) → peek xs ≡ none → xs ≡ []
unfolding peek
peek_nil [] e = refl
peek_nil (x ∷ []) e = cc
peek_nil (x ∷ y ∷ xs) e = let rest = peek_nil (y ∷ xs) e in absurd (cc)

abbrev pub IsClosed : (ℕ → List ℕ) → ℕ → Type 0
IsClosed links n = (i j : ℕ) → i < n → holds j (links i) ≡ true → j < n

module _ (links : ℕ → List ℕ) (score : ℕ → F32) (n entry ef : ℕ) (pos : 0 < ef)
    (closed : IsClosed links n) where
  abbrev pub work : Walk → ℕ
  work s = length s.frontier + unseen s.workspace

  -- One round of the loop.
  abbrev round : Walk → HeapItem → Walk
  round s c =
      visit_neighbors links score ef (record s { frontier = pop s.frontier }) (links c.index)

  pub goals_of :
      (i : ℕ) → IsGoal links score n entry ef i → All (IsGoal links score n entry ef) (links i)
  goals_of i g = All-of_holds _ (links i) (λ j h. (closed i j g.0 h, along g.1 h))

  pub popped-Walked :
      (s : Walk) (seen : List ℕ)
      → Walked links score n entry ef s seen
      → Walked links score n entry ef (record s { frontier = pop s.frontier }) seen
  popped-Walked s seen w = record {
    valid = w.valid;
    size = w.size;
    marks = w.marks;
    counted = w.counted;
    different = w.different;
    goals = w.goals;
    found = w.found;
    ahead = All-pop _ s.frontier w.ahead;
  }

  round-Further :
      (s : Walk) (seen : List ℕ) (c : HeapItem)
      → Walked links score n entry ef s seen
      → peek s.frontier ≡ some c
      → Further links score n entry ef
          (record s { frontier = pop s.frontier })
          seen
          (round s c)
          (links c.index)
  round-Further s seen c w e =
      visit_neighbors-Further links score n entry ef (links c.index) _ seen pos
        (popped-Walked s seen w) (goals_of c.index (peek-All _ s.frontier w.ahead e).1)

  -- The walk ends in a state that has visited at least as much.
  pub walk-Walked :
      (fuel : ℕ) (s : Walk) (seen : List ℕ)
      → Walked links score n entry ef s seen
      → (seen' : List ℕ) × Walked links score n entry ef (walk links score fuel ef s) seen'
        × ((i : ℕ) → holds i seen ≡ true → holds i seen' ≡ true)
  unfolding walk
  walk-Walked zero s seen w = (seen, w, λ i h. h)
  walk-Walked (suc fuel) s seen w = elim (Option-cases (peek s.frontier)) [
    | inl e ↦ rw (e, walk) (seen, w, λ i h. h)
    | inr (c, e) ↦ elim (Bool-cases (leb ef (length s.results) && below_worst c s.results)) [
      | inl stop ↦ rw (e, walk, stop) (seen, w, λ i h. h)
      | inr go ↦
          let o = round-Further s seen c w e in
          let later = walk-Walked fuel (round s c) o.seen' o.walked in
          rw (e, walk, go) (later.0, later.1, λ i h. later.2 i (o.kept i h))
    ]
  ]

  -- With fuel above the work that is left, more fuel changes nothing.
  pub walk_enough :
      (fuel extra : ℕ) (s : Walk) (seen : List ℕ)
      → Walked links score n entry ef s seen
      → work s < fuel
      → walk links score (fuel + extra) ef s ≡ walk links score fuel ef s
  unfolding walk
  walk_enough zero extra s seen w l = absurd (omega arith)
  walk_enough (suc fuel) extra s seen w l =
      ap (λ m. walk links score m ef s) (suc_plus fuel extra)
      ∙ (elim (Option-cases (peek s.frontier)) [
        | inl e ↦ rw (e, walk) refl
        | inr (c, e) ↦ elim (Bool-cases (leb ef (length s.results) && below_worst c s.results)) [
          | inl stop ↦ rw (e, walk, stop) refl
          | inr go ↦
              let o = round-Further s seen c w e in
              rw (e, walk, go)
                (walk_enough fuel extra (round s c) o.seen' o.walked
                  (omega (arith, o.work, length-pop s.frontier e)))
        ]
      ])
    where
      suc_plus : (a b : ℕ) → suc a + b ≡ suc (a + b)
      suc_plus a b = omega arith

  -- Each seen node is in the frontier still, or has its links seen.
  abbrev pub Settled : Walk → List ℕ → Type 0
  Settled s seen =
      (i : ℕ)
      → holds i seen ≡ true
      → holds i (indices s.frontier) || all (λ j. holds j seen) (links i) ≡ true

  round-Settled :
      (s : Walk) (seen : List ℕ) (c : HeapItem)
      → n ≤ ef
      → (w : Walked links score n entry ef s seen) → (e : peek s.frontier ≡ some c)
      → (o : Further links score n entry ef
          (record s { frontier = pop s.frontier })
          seen
          (round s c)
          (links c.index))
      → Settled s seen
      → Settled (round s c) o.seen'
  round-Settled s seen c few w e o settled i h = elim (Bool-cases (is_eq (compare i c.index))) [
    | inl same ↦
        let here' : i ≡ c.index = ground arith in
        let done : all (λ j. holds j o.seen') (links i) ≡ true =
          subst (λ k. all (λ j. holds j o.seen') (links k) ≡ true) (sym here')
            (all_of_holds (λ j. holds j o.seen') (links c.index) o.has) in
        ground arith
    | inr other ↦ ground (
      arith,
      o.queued few i h,
      settled i,
      holds-pop i s.frontier e,
      o.grown i,
      all_mono seen o.seen' o.kept (links i),
    )
  ]

  all_reached :
      (s : Walk) (seen : List ℕ)
      → Settled s seen
      → holds entry seen ≡ true
      → peek s.frontier ≡ none
      → (j : ℕ) → Reaches links entry j
      → holds j seen ≡ true
  unfolding contains
  all_reached s seen settled begun e j here = begun
  all_reached s seen settled begun e j (along {i} r h) =
      let before = all_reached s seen settled begun e i r in
      all_at (λ k. holds k seen) (links i) j
        (ground (arith, settled i before, peek_nil s.frontier e)) h

  all_seen :
      (s : Walk) (seen : List ℕ)
      → Walked links score n entry ef s seen
      → n ≤ ef
      → ef ≤ length s.results
      → (j : ℕ) → j < n
      → holds j seen ≡ true
  all_seen s seen w few full j l =
      ground (arith, sym (w.marks j l), unseen_zero s.workspace j (omega (arith, w.counted, count)))
    where
      count : length s.results ≤ length seen
      count = omega (arith, length_results links score n entry ef s seen w)

  -- With room for every node and enough fuel, the walk has seen all that the entry reaches.
  pub walk_complete :
      (fuel : ℕ) (s : Walk) (seen : List ℕ)
      → n ≤ ef
      → Walked links score n entry ef s seen
      → Settled s seen
      → holds entry seen ≡ true
      → work s < fuel
      → (seen' : List ℕ) × Walked links score n entry ef (walk links score fuel ef s) seen'
        × ((j : ℕ) → IsGoal links score n entry ef j → holds j seen' ≡ true)
  unfolding walk
  walk_complete zero s seen few w settled begun l = absurd (omega arith)
  walk_complete (suc fuel) s seen few w settled begun l = elim (Option-cases (peek s.frontier)) [
    | inl e ↦ rw (e, walk) (seen, w, λ j g. all_reached s seen settled begun e j g.1)
    | inr (c, e) ↦ elim (Bool-cases (leb ef (length s.results) && below_worst c s.results)) [
      | inl stop ↦ rw (e, walk, stop) (seen, w, λ j g. all_seen s seen w few (ground arith) j g.0)
      | inr go ↦
          let o = round-Further s seen c w e in
          rw (e, walk, go)
            (walk_complete fuel (round s c) o.seen' few o.walked
              (round-Settled s seen c few w e o settled) (o.kept entry begun)
              (omega (arith, o.work, length-pop s.frontier e)))
    ]
  ]
