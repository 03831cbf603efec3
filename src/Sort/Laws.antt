-- ===== src/Sort/Laws.antt =====
-- Sorting gives a sorted permutation, and leaves a sorted list as it is.
use Prim.Native.Nat.{Ordering}
use mathlib.Core.List.{Perm}
use mathlib.Core.List.Perm
use focal_vector.Base.{
  ℕ, zero, suc, true, false, ◌≡◌, refl, ap, ◌∙◌, List, [], ◌∷◌, ◌++◌, All, All-imp, arith, length,
  take, Bool-cases, inl, inr,
}
use focal_vector.Order.{is_le, is_lt, IsPreorder}
use focal_vector.Sort.{insert_before, insert_behind, sort, IsSorted}

module _ {ℓ} {A : Type ℓ} {cmp : A → A → Ordering} (p : IsPreorder cmp) where
  pub le_trans :
      (a b c : A) → is_le (cmp a b) ≡ true → is_le (cmp b c) ≡ true → is_le (cmp a c) ≡ true
  le_trans a b c h k = ground (
    arith,
    p.trans_lt a b c,
    p.trans_eq a b c,
    p.trans_eq c b a,
    p.swap a b,
    p.swap b c,
    p.swap a c,
  )

  pub le_total : (a b : A) → is_le (cmp a b) ≡ false → is_le (cmp b a) ≡ true
  le_total a b h = ground (arith, p.swap a b)

  All-insert_before {κ} :
      (P : A → Type κ) (x : A) (ys : List A) → P x → All P ys → All P (insert_before cmp x ys)
  unfolding insert_before
  All-insert_before P x [] px h = (px, tt)
  All-insert_before P x (y ∷ ys) px h = elim (Bool-cases (is_le (cmp x y))) [
    | inl e ↦ rw e (px, h)
    | inr e ↦ rw e (h.0, All-insert_before P x ys px h.1)
  ]

  insert_before-IsSorted :
      (x : A) (ys : List A) → IsSorted cmp ys → IsSorted cmp (insert_before cmp x ys)
  unfolding insert_before
  insert_before-IsSorted x [] s = (tt, tt)
  insert_before-IsSorted x (y ∷ ys) s = elim (Bool-cases (is_le (cmp x y))) [
    | inl e ↦ rw e ((e, All-imp (λ z h. le_trans x y z e h) ys s.0), s)
    | inr e ↦ rw e (All-insert_before _ x ys (le_total x y e) s.0, insert_before-IsSorted x ys s.1)
  ]

  -- sorting sorts
  pub sort-IsSorted : (xs : List A) → IsSorted cmp (sort cmp xs)
  unfolding sort
  sort-IsSorted [] = tt
  sort-IsSorted (x ∷ xs) = insert_before-IsSorted x (sort cmp xs) (sort-IsSorted xs)

  pub sort-of_sorted : (xs : List A) → IsSorted cmp xs → sort cmp xs ≡ xs
  unfolding sort
  sort-of_sorted [] s = refl
  sort-of_sorted (x ∷ []) s = refl
  sort-of_sorted (x ∷ y ∷ ys) s = ap (insert_before cmp x) (sort-of_sorted (y ∷ ys) s.1) ∙ first
    where
      first : insert_before cmp x (y ∷ ys) ≡ x ∷ y ∷ ys
      first = rw s.0.0

  insert_before-behind :
      (x y : A) (s : List A)
      → insert_before cmp y (insert_behind cmp x s) ≡ insert_behind cmp x (insert_before cmp y s)
  unfolding insert_before insert_behind
  insert_before-behind x y [] = ground (arith, p.swap x y)
  insert_before-behind x y (z ∷ s) = ground (
    arith,
    insert_before-behind x y s,
    p.swap x y,
    p.swap x z,
    p.swap y z,
    p.trans_lt y x z,
    p.trans_lt x z y,
    p.trans_lt x y z,
    p.trans_eq z x y,
    p.trans_eq z y x,
  )

  -- the element that stands last goes behind those that compare as equal
  pub sort-snoc :
      (xs : List A) (x : A) → sort cmp (xs ++ x ∷ []) ≡ insert_behind cmp x (sort cmp xs)
  unfolding sort insert_behind
  sort-snoc [] x = refl
  sort-snoc (y ∷ ys) x =
      ap (insert_before cmp y) (sort-snoc ys x) ∙ insert_before-behind x y (sort cmp ys)

module _ {ℓ} {A : Type ℓ} (cmp : A → A → Ordering) where
  insert_before-Perm : (x : A) (ys : List A) → Perm (insert_before cmp x ys) (x ∷ ys)
  unfolding insert_before
  insert_before-Perm x [] = Perm.refl (x ∷ [])
  insert_before-Perm x (y ∷ ys) = elim (Bool-cases (is_le (cmp x y))) [
    | inl e ↦ rw e (Perm.refl (x ∷ y ∷ ys))
    | inr e ↦ rw e (Perm.trans (Perm.cons y (insert_before-Perm x ys)) (Perm.swap x y ys))
  ]

  -- ... and only reorders
  pub sort-Perm : (xs : List A) → Perm (sort cmp xs) xs
  unfolding sort
  sort-Perm [] = Perm.refl []
  sort-Perm (x ∷ xs) = Perm.trans (insert_before-Perm x (sort cmp xs)) (Perm.cons x (sort-Perm xs))

  length-insert_before : (x : A) (ys : List A) → length (insert_before cmp x ys) ≡ suc (length ys)
  unfolding insert_before
  length-insert_before x [] = refl
  length-insert_before x (y ∷ ys) = ground (arith, length-insert_before x ys)

  pub length-sort : (xs : List A) → length (sort cmp xs) ≡ length xs
  unfolding sort
  length-sort [] = refl
  length-sort (x ∷ xs) = length-insert_before x (sort cmp xs) ∙ ap suc (length-sort xs)

  take_again : (n : ℕ) (r : List A) → take n r ≡ take n (take (suc n) r)
  take_again zero r = refl
  take_again (suc n) [] = refl
  take_again (suc n) (z ∷ r) = ap (λ q. z ∷ q) (take_again n r)

  -- the first k of the result come from the first k of the list
  pub take-insert_behind :
      (k : ℕ) (x : A) (s : List A)
      → take k (insert_behind cmp x s) ≡ take k (insert_behind cmp x (take k s))
  unfolding insert_behind
  take-insert_behind zero x s = refl
  take-insert_behind (suc k) x [] = refl
  take-insert_behind (suc k) x (y ∷ s) = elim (Bool-cases (is_lt (cmp x y))) [
    | inl e ↦ rw e (ap (λ r. x ∷ r) (take_again k (y ∷ s)))
    | inr e ↦ rw e (ap (λ r. y ∷ r) (take-insert_behind k x s))
  ]

  pub take-insert_before :
      (k : ℕ) (x : A) (s : List A)
      → take k (insert_before cmp x s) ≡ take k (insert_before cmp x (take k s))
  unfolding insert_before
  take-insert_before zero x s = refl
  take-insert_before (suc k) x [] = refl
  take-insert_before (suc k) x (y ∷ s) = elim (Bool-cases (is_le (cmp x y))) [
    | inl e ↦ rw e (ap (λ r. x ∷ r) (take_again k (y ∷ s)))
    | inr e ↦ rw e (ap (λ r. y ∷ r) (take-insert_before k x s))
  ]
