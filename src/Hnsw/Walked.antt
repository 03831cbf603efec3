-- ===== src/Hnsw/Walked.antt =====
-- What a walk over a layer has done so far: the results are the best of the nodes that it has visited.
use Prim.Native.Nat.{compare, Ordering}
use focal_vector.Base.{
  ℕ, Bool, true, false, List, [], ◌∷◌, ◌++◌, ◌+◌, ◌≤◌, ◌<◌, ◌≡◌, refl, ap, sym, ◌∙◌, ◌==◌, ◌||◌,
  min, length-take, length-map, if◌then◌else◌, All, All-append, map, length, length-append, arith,
  Bool-cases, inl, inr,
}
use focal_vector.Order.{is_eq, is_lt, compare-IsLawful}
use focal_vector.Float.{F32}
use focal_vector.Map.{contains}
use focal_vector.Map.Sets.{contains-append}
use focal_vector.Map.Distinct.{distinct, distinct-append}
use focal_vector.Sort.{sort, insert_behind}
use focal_vector.Sort.Laws.{length-sort}
use focal_vector.Sort.TopK.{best}
use focal_vector.Hnsw.Workspace.{
  IsValid, visit, is_seen, visit-is_seen, is_seen-visit, length-visit, visit-IsValid,
}
use focal_vector.Hnsw.Unseen.{unseen, unseen-visit, visit_old}
use focal_vector.Hnsw.Walk.{HeapItem, Walk, item, item_cmp, best_first, qualifies, visit_neighbor}
use focal_vector.Hnsw.Heap.{admit, admit-best}

abbrev pub holds : ℕ → List ℕ → Bool
holds j xs = contains compare j xs

-- The nodes that the links lead to from an entry.
pub data Reaches (links : ℕ → List ℕ) (entry : ℕ) : ℕ → Type 0 where
  here : Reaches links entry entry
  along : {i j : ℕ} → Reaches links entry i → holds j (links i) ≡ true → Reaches links entry j

abbrev pub indices : List HeapItem → List ℕ
indices items = map (λ (a : HeapItem). a.index) items

pub holds-insert_behind :
    (i : ℕ) (x : HeapItem) (xs : List HeapItem)
    → holds i (indices (insert_behind item_cmp x xs))
      ≡ is_eq (compare i x.index) || holds i (indices xs)
unfolding insert_behind contains
holds-insert_behind i x [] = refl
holds-insert_behind i x (y ∷ ys) = ground (arith, holds-insert_behind i x ys)

pub map-append {ℓ κ} :
    {A : Type ℓ} {B : Type κ} (f : A → B) (xs ys : List A) → map f (xs ++ ys) ≡ map f xs ++ map f ys
map-append f [] ys = refl
map-append f (x ∷ xs) ys = ap (λ r. f x ∷ r) (map-append f xs ys)

All-insert_behind {ℓ κ} :
    {A : Type ℓ} (P : A → Type κ) (cmp : A → A → Ordering) (x : A) (xs : List A)
    → P x
    → All P xs
    → All P (insert_behind cmp x xs)
unfolding insert_behind
All-insert_behind P cmp x [] p a = (p, tt)
All-insert_behind P cmp x (y ∷ ys) p a = elim (Bool-cases (is_lt (cmp x y))) [
  | inl e ↦ rw e (p, a)
  | inr e ↦ rw e (a.0, All-insert_behind P cmp x ys p a.1)
]

pub holds-snoc : (seen : List ℕ) (i j : ℕ) → holds i (seen ++ j ∷ []) ≡ holds i seen || j == i
unfolding contains
holds-snoc seen i j = ground (arith, contains-append compare-IsLawful i seen (j ∷ []))

distinct_snoc :
    (seen : List ℕ) (j : ℕ)
    → distinct compare seen ≡ true
    → holds j seen ≡ false
    → distinct compare (seen ++ j ∷ []) ≡ true
unfolding contains
distinct_snoc seen j d u = distinct-append compare-IsLawful seen (j ∷ []) d refl (λ k h. apart k h)
  where
    apart : (k : ℕ) → holds k seen ≡ true → holds k (j ∷ []) ≡ false
    apart k h = elim (Bool-cases (is_eq (compare k j))) [
      | inl e ↦
          let same : k ≡ j = ground arith in
          let both : holds k seen ≡ holds j seen = ap (λ i. holds i seen) same in
          absurd (ground arith)
      | inr e ↦ ground arith
    ]

module _ (links : ℕ → List ℕ) (score : ℕ → F32) (n entry ef : ℕ) where
  -- A node in range that the entry reaches.
  abbrev pub IsGoal : ℕ → Type 0
  IsGoal j = (j < n) × Reaches links entry j

  pub record Walked (s : Walk) (seen : List ℕ) : Type 0 where
    pub valid : IsValid s.workspace
    pub size : length s.workspace.visited ≡ n
    pub marks : (j : ℕ) → j < n → is_seen s.workspace j ≡ holds j seen
    pub counted : length seen + unseen s.workspace ≤ n
    pub different : distinct compare seen ≡ true
    pub goals : All IsGoal seen
    pub found : s.results ≡ best best_first ef (map (item links score) seen)
    pub ahead : All (λ (f : HeapItem). (f ≡ item links score f.index) × IsGoal f.index) s.frontier

  abbrev pub seen_after : List ℕ → Bool → ℕ → List ℕ
  seen_after seen is_new j = if is_new then seen ++ j ∷ [] else seen

  pub visit_neighbor_old :
      (s : Walk) (j : ℕ) → (visit j s.workspace).0 ≡ false → visit_neighbor links score ef s j ≡ s
  unfolding visit_neighbor
  visit_neighbor_old s j old =
      rw old (ap (λ w. record s { workspace = w }) (visit_old j s.workspace old))

  unfoldable pub ahead_after : Walk → ℕ → List HeapItem
  ahead_after s j =
      let x = item links score j in
      if qualifies ef x s.results then insert_behind item_cmp x s.frontier else s.frontier

  pub visit_neighbor_new :
      (s : Walk) (j : ℕ)
      → (visit j s.workspace).0 ≡ true
      → visit_neighbor links score ef s j ≡ record {
        frontier = ahead_after s j;
        results = admit ef (item links score j) s.results;
        workspace = (visit j s.workspace).1;
      }
  unfolding visit_neighbor ahead_after
  visit_neighbor_new s j new = elim (Bool-cases (qualifies ef (item links score j) s.results)) [
    | inl q ↦ rw (new, q) refl
    | inr q ↦ rw (new, q) refl
  ]

  ahead_after-All {κ} :
      (P : HeapItem → Type κ) (s : Walk) (j : ℕ)
      → P (item links score j)
      → All P s.frontier
      → All P (ahead_after s j)
  unfolding ahead_after
  ahead_after-All P s j p a = elim (Bool-cases (qualifies ef (item links score j) s.results)) [
    | inl q ↦ rw q (All-insert_behind P item_cmp (item links score j) s.frontier p a)
    | inr q ↦ rw q a
  ]

  unseen_before :
      (s : Walk) (seen : List ℕ) (j : ℕ)
      → Walked s seen
      → IsGoal j
      → (visit j s.workspace).0 ≡ true
      → holds j seen ≡ false
  unseen_before s seen j w g new = ground (arith, new, w.marks j g.0, visit-is_seen j s.workspace)

  pub visit_neighbor-Walked :
      (s : Walk) (seen : List ℕ) (j : ℕ)
      → 0 < ef
      → Walked s seen
      → IsGoal j
      → Walked (visit_neighbor links score ef s j) (seen_after seen (visit j s.workspace).0 j)
  visit_neighbor-Walked s seen j pos w g = elim (Bool-cases (visit j s.workspace).0) [
    | inr old ↦ rw (old, visit_neighbor_old s j old) w
    | inl new ↦
        rw (new, visit_neighbor_new s j new)
          (record {
            valid = visit-IsValid j s.workspace w.valid;
            size = length-visit j s.workspace ∙ w.size;
            marks = λ i l.
                ground (arith, is_seen-visit j i s.workspace, w.marks i l, holds-snoc seen i j);
            counted =
                omega
                  (arith, unseen-visit j s.workspace new, w.counted, length-append seen (j ∷ []));
            different = distinct_snoc seen j w.different (unseen_before s seen j w g new);
            goals = All-append IsGoal seen (j ∷ []) w.goals (g, tt);
            found =
                ap (admit ef (item links score j)) w.found
                ∙ admit-best ef (item links score j) (map (item links score) seen) pos
                ∙ ap (best best_first ef) (sym (map-append (item links score) seen (j ∷ [])));
            ahead = ahead_after-All _ s j (refl, g) w.ahead;
          })
  ]

  pub length_results :
      (s : Walk) (seen : List ℕ) → Walked s seen → length s.results ≡ min ef (length seen)
  unfolding best
  length_results s seen w =
      ap length w.found
      ∙ length-take ef (sort best_first (map (item links score) seen))
      ∙ ap (min ef) (
          length-sort best_first (map (item links score) seen) ∙ length-map (item links score) seen)
