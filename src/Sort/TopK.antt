-- ===== src/Sort/TopK.antt =====
-- The first k of a sorted list: as a bounded heap finds them, and as partial results merge.
use Prim.Native.Nat.{Ordering}
use focal_vector.Base.{
  ℕ, zero, suc, ◌≤◌, ◌<◌, true, false, ◌≡◌, ◌≢◌, refl, sym, subst, ap, ◌∙◌, none, some, List, [],
  ◌∷◌, ◌++◌, All, arith, if◌then◌else◌, length, take, Bool-cases, Option-cases, inl, inr, ltb,
  append_assoc, append-nil, take_all, take-append, length-take, ltb→lt, ltb→le, le→ltb,
}
use focal_vector.Order.{is_le, is_lt, IsPreorder}
use focal_vector.Sort.{insert_before, insert_behind, sort, IsSorted, peek, pop}
use focal_vector.Sort.Laws.{
  sort-IsSorted, sort-of_sorted, sort-snoc, take-insert_behind, take-insert_before,
}

module _ {ℓ} {A : Type ℓ} (cmp : A → A → Ordering) where
  -- `sort` and `truncate(k)`
  unfoldable pub best : ℕ → List A → List A
  best k xs = take k (sort cmp xs)

  -- A heap of at most k elements, whose worst gives way to a better one.
  unfoldable pub offer : ℕ → List A → A → List A
  offer k heap x = if ltb (length heap) k then insert_behind cmp x heap else (elim (peek heap) [
    | none ↦ heap
    | some worst ↦ if is_lt (cmp x worst) then insert_behind cmp x (pop heap) else heap
  ])

  unfoldable pub offer_all : ℕ → List A → List A → List A
  offer_all k heap [] = heap
  offer_all k heap (x ∷ xs) = offer_all k (offer k heap x) xs

module _ {ℓ} {A : Type ℓ} {cmp : A → A → Ordering} (p : IsPreorder cmp) where
  All-take {κ} : (P : A → Type κ) (k : ℕ) (xs : List A) → All P xs → All P (take k xs)
  All-take P zero xs h = tt
  All-take P (suc k) [] h = tt
  All-take P (suc k) (x ∷ xs) h = (h.0, All-take P k xs h.1)

  pub take-IsSorted : (k : ℕ) (xs : List A) → IsSorted cmp xs → IsSorted cmp (take k xs)
  take-IsSorted zero xs s = tt
  take-IsSorted (suc k) [] s = tt
  take-IsSorted (suc k) (x ∷ xs) s = (All-take _ k xs s.0, take-IsSorted k xs s.1)

  take-take : (k : ℕ) (xs : List A) → take k (take k xs) ≡ take k xs
  take-take zero xs = refl
  take-take (suc k) [] = refl
  take-take (suc k) (x ∷ xs) = ap (λ ys. x ∷ ys) (take-take k xs)

  best-best : (k : ℕ) (xs : List A) → best cmp k (best cmp k xs) ≡ best cmp k xs
  unfolding best
  best-best k xs =
      ap (take k) (sort-of_sorted p _ (take-IsSorted k _ (sort-IsSorted p xs)))
      ∙ take-take k (sort cmp xs)

  best-cons :
      (k : ℕ) (x : A) (xs : List A)
      → best cmp k (x ∷ xs) ≡ take k (insert_before cmp x (best cmp k xs))
  unfolding best sort
  best-cons k x xs = take-insert_before cmp k x (sort cmp xs)

  pub best-snoc :
      (k : ℕ) (xs : List A) (x : A)
      → best cmp k (xs ++ x ∷ []) ≡ take k (insert_behind cmp x (best cmp k xs))
  unfolding best
  best-snoc k xs x = ap (take k) (sort-snoc p xs x) ∙ take-insert_behind cmp k x (sort cmp xs)

  -- A part of the list may be cut down to its best k first: on the right ...
  pub best-append_best :
      (k : ℕ) (xs ys : List A) → best cmp k (xs ++ best cmp k ys) ≡ best cmp k (xs ++ ys)
  best-append_best k [] ys = best-best k ys
  best-append_best k (x ∷ xs) ys =
      best-cons k x (xs ++ best cmp k ys)
      ∙ ap (λ zs. take k (insert_before cmp x zs)) (best-append_best k xs ys)
      ∙ sym (best-cons k x (xs ++ ys))

  -- ... and on the left.
  append_snoc : (xs ys : List A) (y : A) → xs ++ y ∷ ys ≡ (xs ++ y ∷ []) ++ ys
  append_snoc xs ys y = sym (append_assoc xs (y ∷ []) ys)

  same_best :
      (k : ℕ) (ys xs zs : List A)
      → best cmp k xs ≡ best cmp k zs
      → best cmp k (xs ++ ys) ≡ best cmp k (zs ++ ys)
  same_best k [] xs zs h = rw append-nil (rw append-nil h)
  same_best k (y ∷ ys) xs zs h =
      ap (best cmp k) (append_snoc xs ys y)
      ∙ same_best k ys (xs ++ y ∷ []) (zs ++ y ∷ [])
          (best-snoc k xs y ∙ ap (λ r. take k (insert_behind cmp y r)) h ∙ sym (best-snoc k zs y))
      ∙ sym (ap (best cmp k) (append_snoc zs ys y))

  pub best_append :
      (k : ℕ) (xs ys : List A) → best cmp k (best cmp k xs ++ ys) ≡ best cmp k (xs ++ ys)
  best_append k xs ys = same_best k ys (best cmp k xs) xs (best-best k xs)

  -- the heap's elements in order, with a place for each element that the heap refuses
  take-length_cons : (y : A) (ys : List A) → take (length ys) (y ∷ ys) ≡ pop (y ∷ ys)
  unfolding pop
  take-length_cons y [] = refl
  take-length_cons y (z ∷ ys) = ap (λ r. y ∷ r) (take-length_cons z ys)

  displace :
      (x w y : A) (ys : List A)
      → peek (y ∷ ys) ≡ some w
      → is_lt (cmp x w) ≡ true
      → insert_behind cmp x (pop (y ∷ ys)) ≡ take (length (y ∷ ys)) (insert_behind cmp x (y ∷ ys))
  unfolding insert_behind pop peek
  displace x w y [] e l = ground arith
  displace x w y (z ∷ ys) e l = elim (Bool-cases (is_lt (cmp x y))) [
    | inl b ↦ rw b (ap (λ r. x ∷ y ∷ r) (sym (take-length_cons z ys)))
    | inr b ↦ rw b (ap (λ r. y ∷ r) (displace x w z ys e l))
  ]

  All-peek {κ} : (P : A → Type κ) (h : List A) {w : A} → All P h → peek h ≡ some w → P w
  unfolding peek
  All-peek P [] a e = cc
  All-peek P (x ∷ []) {w} a e = let same : x ≡ w = cc in subst P same a.0
  All-peek P (x ∷ y ∷ ys) a e = All-peek P (y ∷ ys) a.1 e

  not_before :
      (x y w : A) → is_le (cmp y w) ≡ true → is_lt (cmp x w) ≡ false → is_lt (cmp x y) ≡ false
  not_before x y w le l = ground (
    arith,
    p.trans_lt x y w,
    p.trans_eq y w x,
    p.trans_eq w y x,
    p.swap y w,
    p.swap x w,
    p.swap x y,
  )

  pub refuse :
      (x w : A) (h : List A)
      → IsSorted cmp h
      → peek h ≡ some w
      → is_lt (cmp x w) ≡ false
      → insert_behind cmp x h ≡ h ++ x ∷ []
  unfolding insert_behind peek
  refuse x w [] s e l = refl
  refuse x w (y ∷ []) s e l = ground arith
  refuse x w (y ∷ z ∷ ys) s e l =
      rw (not_before x y w (All-peek _ (z ∷ ys) s.0 e) l)
        (ap (λ r. y ∷ r) (refuse x w (z ∷ ys) s.1 e l))

  pub length-insert_behind : (x : A) (h : List A) → length (insert_behind cmp x h) ≡ suc (length h)
  unfolding insert_behind
  length-insert_behind x [] = refl
  length-insert_behind x (y ∷ ys) = ground (arith, length-insert_behind x ys)

  pub peek-ne-none : (y : A) (ys : List A) → peek (y ∷ ys) ≢ none
  unfolding peek
  peek-ne-none y [] = cc
  peek-ne-none y (z ∷ ys) = peek-ne-none z ys

  full_offer :
      (k : ℕ) (h : List A) (x : A)
      → IsSorted cmp h
      → length h ≡ suc k
      → offer cmp (suc k) h x ≡ take (suc k) (insert_behind cmp x h)
  unfolding offer
  full_offer k [] x s e = absurd (omega arith)
  full_offer k (y ∷ ys) x s e = elim (Option-cases (peek (y ∷ ys))) [
    | inl none_e ↦ absurd (peek-ne-none y ys none_e)
    | inr (w, we) ↦ elim (Bool-cases (is_lt (cmp x w))) [
      | inl b ↦
          rw (le→ltb (length (y ∷ ys)) (suc k) (omega arith), we, b)
            (displace x w y ys we b ∙ ap (λ n. take n (insert_behind cmp x (y ∷ ys))) e)
      | inr b ↦
          rw (le→ltb (length (y ∷ ys)) (suc k) (omega arith), we, b)
            (sym (take-append (y ∷ ys) (x ∷ []))
              ∙ ap (λ r. take (length (y ∷ ys)) r) (sym (refuse x w (y ∷ ys) s we b))
              ∙ ap (λ n. take n (insert_behind cmp x (y ∷ ys))) e)
    ]
  ]

  -- One offer to a sorted heap that holds at most k elements.
  offer-eq-take :
      (k : ℕ) (h : List A) (x : A)
      → 0 < k
      → IsSorted cmp h
      → length h ≤ k
      → offer cmp k h x ≡ take k (insert_behind cmp x h)
  offer-eq-take zero h x pos s l = absurd (omega arith)
  offer-eq-take (suc k) h x pos s l = elim (Bool-cases (ltb (length h) (suc k))) [
    | inl b ↦
        unfold offer in
        rw b (sym (take_all (suc k) _ (omega (arith, length-insert_behind x h, ltb→lt _ _ b))))
    | inr b ↦ full_offer k h x s (omega (arith, ltb→le _ _ b))
  ]

  pub length-best : (k : ℕ) (xs : List A) → length (best cmp k xs) ≤ k
  unfolding best
  length-best k xs = omega (arith, length-take k (sort cmp xs))

  pub best-IsSorted : (k : ℕ) (xs : List A) → IsSorted cmp (best cmp k xs)
  unfolding best
  best-IsSorted k xs = take-IsSorted k _ (sort-IsSorted p xs)

  offer_all-from :
      (k : ℕ) (seen xs : List A)
      → 0 < k
      → offer_all cmp k (best cmp k seen) xs ≡ best cmp k (seen ++ xs)
  unfolding offer_all
  offer_all-from k seen [] pos = ap (best cmp k) (sym (append-nil seen))
  offer_all-from k seen (x ∷ xs) pos =
      ap (λ h. offer_all cmp k h xs)
        (offer-eq-take k _ x pos (best-IsSorted k seen) (length-best k seen)
          ∙ sym (best-snoc k seen x))
      ∙ offer_all-from k (seen ++ x ∷ []) xs pos
      ∙ ap (best cmp k) (append_assoc seen (x ∷ []) xs)

  pub best-nil : (k : ℕ) → best cmp k [] ≡ []
  unfolding best sort
  best-nil zero = refl
  best-nil (suc k) = refl

  -- The bounded heap ends with the first k of the sorted list.
  pub offer_all-eq-best : (k : ℕ) (xs : List A) → 0 < k → offer_all cmp k [] xs ≡ best cmp k xs
  offer_all-eq-best k xs pos =
      ap (λ h. offer_all cmp k h xs) (sym (best-nil k)) ∙ offer_all-from k [] xs pos
