-- ===== src/Hnsw/Heap.antt =====
-- The bounded heap of results keeps the best of the items that were offered to it.
use Prim.Native.Nat.{compare}
use focal_vector.Base.{
  ℕ, zero, suc, ◌≤◌, ◌<◌, true, false, ◌≡◌, refl, sym, ap, ◌∙◌, List, [], ◌∷◌, ◌++◌, if◌then◌else◌,
  arith, length, take, ltb, Bool-cases, Option-cases, inl, inr, take_all, take-append, ltb→lt,
  ltb→le,
}
use focal_vector.Order.{
  is_lt, IsPreorder, lexicographic-IsPreorder, flipped-IsPreorder, on-IsPreorder,
  compare-IsPreorder,
}
use focal_vector.Float.{total_cmp32, total_cmp32-IsPreorder}
use focal_vector.Sort.{insert_behind, peek, pop, IsSorted}
use focal_vector.Sort.TopK.{
  best, best-snoc, best-IsSorted, length-best, refuse, length-insert_behind, peek-ne-none,
}
use focal_vector.Hnsw.Walk.{HeapItem, item_cmp, best_first, qualifies, above_worst, push_result}

pub item_cmp-IsPreorder : IsPreorder item_cmp
item_cmp-IsPreorder =
    lexicographic-IsPreorder _ _
      (on-IsPreorder total_cmp32 (λ (a : HeapItem). a.score) total_cmp32-IsPreorder)
      (flipped-IsPreorder _ (on-IsPreorder compare (λ (a : HeapItem). a.index) compare-IsPreorder))

pub best_first-IsPreorder : IsPreorder best_first
best_first-IsPreorder = flipped-IsPreorder item_cmp item_cmp-IsPreorder

pop-eq-take {ℓ} : {A : Type ℓ} (x : A) (xs : List A) → pop (x ∷ xs) ≡ take (length xs) (x ∷ xs)
unfolding pop
pop-eq-take x [] = refl
pop-eq-take x (y ∷ xs) = ap (λ r. x ∷ r) (pop-eq-take y xs)

cut_last {ℓ} : {A : Type ℓ} (k : ℕ) (xs : List A) → length xs ≡ suc k → pop xs ≡ take k xs
cut_last k [] e = absurd (omega arith)
cut_last k (x ∷ xs) e =
    let same : length xs ≡ k = omega (arith, e) in pop-eq-take x xs ∙ ap (λ n. take n (x ∷ xs)) same

-- What becomes of the results when an item comes.
abbrev pub admit : ℕ → HeapItem → List HeapItem → List HeapItem
admit ef x results = if qualifies ef x results then push_result ef x results else results

admit-full :
    (ef : ℕ) (x y : HeapItem) (ys : List HeapItem)
    → IsSorted best_first (y ∷ ys)
    → length ys ≡ ef
    → admit (suc ef) x (y ∷ ys) ≡ take (suc ef) (insert_behind best_first x (y ∷ ys))
unfolding qualifies above_worst push_result
admit-full ef x y ys s e = elim (Option-cases (peek (y ∷ ys))) [
  | inl none_e ↦ absurd (peek-ne-none best_first-IsPreorder y ys none_e)
  | inr (w, we) ↦
      let full : ltb (length (y ∷ ys)) (suc ef) ≡ false = ground (arith, e) in
      elim (Bool-cases (is_lt (best_first x w))) [
        | inl b ↦
            let longer = length-insert_behind best_first-IsPreorder x (y ∷ ys) in
            let over : ltb (suc ef) (length (insert_behind best_first x (y ∷ ys))) ≡ true =
              ground (arith, longer, e) in
            rw (full, above_worst, we, b, push_result, over)
              (cut_last (suc ef) _ (omega (arith, longer, e)))
        | inr b ↦
            let same : length (y ∷ ys) ≡ suc ef = omega (arith, e) in
            rw (full, above_worst, we, b)
              (sym (take-append (y ∷ ys) (x ∷ []))
                ∙ ap (take (length (y ∷ ys)))
                    (sym (refuse best_first-IsPreorder x w (y ∷ ys) s we b))
                ∙ ap (λ n. take n (insert_behind best_first x (y ∷ ys))) same)
      ]
]

admit-eq-take :
    (ef : ℕ) (x : HeapItem) (h : List HeapItem)
    → 0 < ef
    → IsSorted best_first h
    → length h ≤ ef
    → admit ef x h ≡ take ef (insert_behind best_first x h)
unfolding qualifies push_result
admit-eq-take zero x h pos s l = absurd (omega arith)
admit-eq-take (suc ef) x h pos s l = elim (Bool-cases (ltb (length h) (suc ef))) [
  | inl b ↦
      let longer = length-insert_behind best_first-IsPreorder x h in
      let fits : ltb (suc ef) (length (insert_behind best_first x h)) ≡ false =
        ground (arith, longer, b) in
      rw (b, fits) (sym (take_all (suc ef) _ (omega (arith, longer, ltb→lt _ _ b))))
  | inr b ↦ full h s (omega (arith, ltb→le _ _ b))
]
  where
    full :
        (h' : List HeapItem)
        → IsSorted best_first h'
        → length h' ≡ suc ef
        → admit (suc ef) x h' ≡ take (suc ef) (insert_behind best_first x h')
    full [] s' e = absurd (omega arith)
    full (y ∷ ys) s' e = admit-full ef x y ys s' (omega (arith, e))

-- The heap that holds the best of some items holds, after one more, the best of them all.
pub admit-best :
    (ef : ℕ) (x : HeapItem) (seen : List HeapItem)
    → 0 < ef
    → admit ef x (best best_first ef seen) ≡ best best_first ef (seen ++ x ∷ [])
admit-best ef x seen pos =
    admit-eq-take ef x (best best_first ef seen) pos (best-IsSorted best_first-IsPreorder ef seen)
      (length-best best_first-IsPreorder ef seen)
    ∙ sym (best-snoc best_first-IsPreorder ef seen x)
