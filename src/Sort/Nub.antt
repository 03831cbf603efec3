-- ===== src/Sort/Nub.antt =====
-- Sorting and dropping what compares as equal.
use Prim.Native.Nat.{Ordering}
use focal_vector.Base.{
  Bool, true, false, not, ◌≡◌, refl, sym, ap, ◌∙◌, List, [], ◌∷◌, All, All-imp, keep, arith,
  Bool-cases, inl, inr,
}
use focal_vector.Order.{is_eq, is_le, IsPreorder}
use focal_vector.Sort.{insert_before, sort, IsSorted}
use focal_vector.Sort.Laws.{le_trans, sort-IsSorted}
use focal_vector.Sort.Unique.{All-keep}

module _ {ℓ} {A : Type ℓ} where
  -- The first of the elements that are told apart by no test stays.
  unfoldable pub nub : (A → A → Bool) → List A → List A
  nub same [] = []
  nub same (x ∷ xs) = x ∷ keep (λ y. not (same x y)) (nub same xs)

  pub keep_all : (f : A → Bool) (xs : List A) → All (λ x. f x ≡ true) xs → keep f xs ≡ xs
  keep_all f [] a = refl
  keep_all f (x ∷ xs) a = rw a.0 (ap (λ ys. x ∷ ys) (keep_all f xs a.1))

  -- A filter after one that implies it.
  pub keep-keep :
      (f g : A → Bool)
      → ((x : A) → g x ≡ true → f x ≡ true)
      → (xs : List A) → keep f (keep g xs) ≡ keep g xs
  keep-keep f g h [] = refl
  keep-keep f g h (x ∷ xs) = elim (Bool-cases (g x)) [
    | inl e ↦ rw (e, h x e) (ap (λ ys. x ∷ ys) (keep-keep f g h xs))
    | inr e ↦ rw e (keep-keep f g h xs)
  ]

  pub keep_same : (f g : A → Bool) (xs : List A) → All (λ x. f x ≡ g x) xs → keep f xs ≡ keep g xs
  keep_same f g [] a = refl
  keep_same f g (x ∷ xs) a = elim (Bool-cases (g x)) [
    | inl e ↦ rw (a.0 ∙ e, e) (ap (λ ys. x ∷ ys) (keep_same f g xs a.1))
    | inr e ↦ rw (a.0 ∙ e, e) (keep_same f g xs a.1)
  ]

  pub All-nub {κ} :
      (P : A → Type κ) (same : A → A → Bool) (xs : List A) → All P xs → All P (nub same xs)
  unfolding nub
  All-nub P same [] a = tt
  All-nub P same (x ∷ xs) a = (a.0, All-keep P _ (nub same xs) (All-nub P same xs a.1))

  keep_swap : (f g : A → Bool) (xs : List A) → keep f (keep g xs) ≡ keep g (keep f xs)
  keep_swap f g [] = refl
  keep_swap f g (x ∷ xs) = elim (Bool-cases (f x)) [
    | inl d ↦ elim (Bool-cases (g x)) [
      | inl e ↦ rw (d, e, d) (ap (λ ys. x ∷ ys) (keep_swap f g xs))
      | inr e ↦ rw (d, e) (keep_swap f g xs)
    ]
    | inr d ↦ elim (Bool-cases (g x)) [
      | inl e ↦ rw (d, e, d) (keep_swap f g xs)
      | inr e ↦ rw (d, e) (keep_swap f g xs)
    ]
  ]

module _ {ℓ} {A : Type ℓ} {cmp : A → A → Ordering} (p : IsPreorder cmp) where
  -- elements that compare as equal
  abbrev pub equals : A → A → Bool
  equals x y = is_eq (cmp x y)

  abbrev apart : A → A → Bool
  apart x y = not (is_eq (cmp x y))

  insert_first :
      (x : A) (ys : List A) → All (λ y. is_le (cmp x y) ≡ true) ys → insert_before cmp x ys ≡ x ∷ ys
  unfolding insert_before
  insert_first x [] a = refl
  insert_first x (y ∷ ys) a = rw a.0 refl

  keep-IsSorted : (f : A → Bool) (xs : List A) → IsSorted cmp xs → IsSorted cmp (keep f xs)
  keep-IsSorted f [] s = tt
  keep-IsSorted f (x ∷ xs) s = elim (Bool-cases (f x)) [
    | inl e ↦ rw e (All-keep _ f xs s.0, keep-IsSorted f xs s.1)
    | inr e ↦ rw e (keep-IsSorted f xs s.1)
  ]

  nub-IsSorted : (xs : List A) → IsSorted cmp xs → IsSorted cmp (nub equals xs)
  unfolding nub
  nub-IsSorted [] s = tt
  nub-IsSorted (x ∷ xs) s = (
    All-keep _ _ (nub equals xs) (All-nub _ equals xs s.0),
    keep-IsSorted _ (nub equals xs) (nub-IsSorted xs s.1),
  )

  keep-insert_true :
      (f : A → Bool) (x : A) (xs : List A)
      → f x ≡ true
      → IsSorted cmp xs
      → keep f (insert_before cmp x xs) ≡ insert_before cmp x (keep f xs)
  unfolding insert_before
  keep-insert_true f x [] t s = rw t refl
  keep-insert_true f x (y ∷ ys) t s = elim (Bool-cases (is_le (cmp x y))) [
    | inl e ↦
        let later = All-imp (λ z h. le_trans p x y z e h) ys s.0 in
        rw (insert_before, e, t)
          (sym (insert_first x (keep f (y ∷ ys)) (All-keep _ f (y ∷ ys) (e, later))))
    | inr e ↦ elim (Bool-cases (f y)) [
      | inl d ↦ rw (insert_before, e, d, e) (ap (λ zs. y ∷ zs) (keep-insert_true f x ys t s.1))
      | inr d ↦ rw (insert_before, e, d) (keep-insert_true f x ys t s.1)
    ]
  ]

  keep-insert_false :
      (f : A → Bool) (x : A) (xs : List A)
      → f x ≡ false
      → keep f (insert_before cmp x xs) ≡ keep f xs
  unfolding insert_before
  keep-insert_false f x [] t = rw t refl
  keep-insert_false f x (y ∷ ys) t = elim (Bool-cases (is_le (cmp x y))) [
    | inl e ↦ rw (insert_before, e, t) refl
    | inr e ↦ elim (Bool-cases (f y)) [
      | inl d ↦ rw (insert_before, e, d) (ap (λ zs. y ∷ zs) (keep-insert_false f x ys t))
      | inr d ↦ rw (insert_before, e, d) (keep-insert_false f x ys t)
    ]
  ]

  -- A filter before sorting or after it.
  pub keep-sort : (f : A → Bool) (xs : List A) → keep f (sort cmp xs) ≡ sort cmp (keep f xs)
  unfolding sort
  keep-sort f [] = refl
  keep-sort f (x ∷ xs) = elim (Bool-cases (f x)) [
    | inl e ↦
        keep-insert_true f x (sort cmp xs) e (sort-IsSorted p xs)
        ∙ ap (insert_before cmp x) (keep-sort f xs)
        ∙ rw e refl
    | inr e ↦ keep-insert_false f x (sort cmp xs) e ∙ keep-sort f xs ∙ rw e refl
  ]

  nub-insert_before :
      (x : A) (xs : List A)
      → IsSorted cmp xs
      → nub equals (insert_before cmp x xs) ≡ insert_before cmp x (keep (apart x) (nub equals xs))
  unfolding nub insert_before
  nub-insert_before x [] s = refl
  nub-insert_before x (y ∷ ys) s = elim (Bool-cases (is_le (cmp x y))) [
    | inl e ↦
        let later = All-imp (λ z h. le_trans p x y z e h) ys s.0 in
        rw (insert_before, e)
          (sym (
            insert_first x (keep (apart x) (nub equals (y ∷ ys)))
              (All-keep _ (apart x) (nub equals (y ∷ ys)) (All-nub _ equals (y ∷ ys) (e, later)))))
    | inr e ↦
        let there : apart x y ≡ true = ground (arith, e) in
        let back : apart y x ≡ true = ground (arith, e, p.swap x y) in
        let rest = keep (apart x) (nub equals ys) in
        let inner : nub equals (insert_before cmp x ys) ≡ insert_before cmp x rest =
          nub-insert_before x ys s.1 in
        let sorted : IsSorted cmp rest =
          keep-IsSorted (apart x) (nub equals ys) (nub-IsSorted ys s.1) in
        rw (insert_before, e, there, insert_before, e)
          (ap (λ zs. y ∷ zs)
            (ap (keep (apart y)) inner
              ∙ keep-insert_true (apart y) x rest back sorted
              ∙ ap (insert_before cmp x) (keep_swap (apart y) (apart x) (nub equals ys))))
  ]

  -- Dropping equal elements before sorting or after it.
  pub nub-sort : (xs : List A) → nub equals (sort cmp xs) ≡ sort cmp (nub equals xs)
  unfolding nub sort
  nub-sort [] = refl
  nub-sort (x ∷ xs) =
      nub-insert_before x (sort cmp xs) (sort-IsSorted p xs)
      ∙ ap (λ ys. insert_before cmp x (keep (apart x) ys)) (nub-sort xs)
      ∙ ap (insert_before cmp x) (keep-sort (apart x) (nub equals xs))
