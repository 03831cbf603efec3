-- ===== src/Sort/Unique.antt =====
-- Sorting does not depend on the order of the input, if no two elements compare as equal.
use Prim.Native.Nat.{Ordering}
use mathlib.Core.List.{Permᴰ}
use mathlib.Core.List.Permᴰ as PermD
use focal_vector.Base.{
  ℕ, true, false, Bool, ◌≡◌, refl, sym, ap, ◌∙◌, subst, List, [], ◌∷◌, All, arith, Bool-cases, inl,
  inr, keep, map, take,
}
use focal_vector.Order.{is_eq, is_le, IsPreorder, on}
use focal_vector.Sort.{insert_before, sort}
use focal_vector.Sort.TopK.{best}

module _ {ℓ} {A : Type ℓ} where
  pub All-Permᴰ {κ} : (P : A → Type κ) {xs ys : List A} → Permᴰ xs ys → All P xs → All P ys
  All-Permᴰ P Permᴰ.nil a = tt
  All-Permᴰ P (Permᴰ.cons e r) a = (subst P e a.0, All-Permᴰ P r a.1)
  All-Permᴰ P (Permᴰ.swap e f) a = (subst P f a.1.0, (subst P e a.0, a.1.1))
  All-Permᴰ P (Permᴰ.trans r s) a = All-Permᴰ P s (All-Permᴰ P r a)

module _ {ℓ} {A : Type ℓ} (cmp : A → A → Ordering) where
  -- No two elements of the list compare as equal.
  abbrev pub AllDiffer : List A → Type 0
  AllDiffer [] = Unit
  AllDiffer (x ∷ xs) = All (λ y. is_eq (cmp x y) ≡ false) xs × AllDiffer xs

module _ {ℓ} {A : Type ℓ} {cmp : A → A → Ordering} (p : IsPreorder cmp) where
  insert_before_comm :
      (x y : A) (s : List A)
      → is_eq (cmp x y) ≡ false
      → insert_before cmp x (insert_before cmp y s) ≡ insert_before cmp y (insert_before cmp x s)
  unfolding insert_before
  insert_before_comm x y [] d = ground (arith, p.swap x y)
  insert_before_comm x y (z ∷ s) d = ground (
    arith,
    insert_before_comm x y s d,
    p.swap x y,
    p.swap x z,
    p.swap y z,
    p.trans_lt x y z,
    p.trans_lt y x z,
    p.trans_lt x z y,
    p.trans_lt y z x,
    p.trans_eq x z y,
    p.trans_eq y z x,
    p.trans_eq z x y,
    p.trans_eq z y x,
  )

  swap_differ : (x y : A) → is_eq (cmp x y) ≡ false → is_eq (cmp y x) ≡ false
  swap_differ x y d = ground (arith, p.swap x y)

  pub AllDiffer-Permᴰ : {xs ys : List A} → Permᴰ xs ys → AllDiffer cmp xs → AllDiffer cmp ys
  AllDiffer-Permᴰ Permᴰ.nil d = tt
  AllDiffer-Permᴰ (Permᴰ.cons {a} {b} {l₂} e r) d = (
    subst (λ x. All (λ y. is_eq (cmp x y) ≡ false) l₂) e (All-Permᴰ _ r d.0),
    AllDiffer-Permᴰ r d.1,
  )
  AllDiffer-Permᴰ (Permᴰ.swap {a} {b} {a'} {b'} {l} e f) d =
      subst (λ y. All (λ z. is_eq (cmp a' z) ≡ false) (y ∷ l) × AllDiffer cmp (y ∷ l)) e
        (subst (λ x. All (λ z. is_eq (cmp x z) ≡ false) (a ∷ l) × AllDiffer cmp (a ∷ l)) f
          ((swap_differ a b d.0.0, d.1.0), (d.0.1, d.1.1)))
  AllDiffer-Permᴰ (Permᴰ.trans r s) d = AllDiffer-Permᴰ s (AllDiffer-Permᴰ r d)

  pub sort-Permᴰ : {xs ys : List A} → Permᴰ xs ys → AllDiffer cmp xs → sort cmp xs ≡ sort cmp ys
  unfolding sort
  sort-Permᴰ Permᴰ.nil d = refl
  sort-Permᴰ (Permᴰ.cons {l₂} e r) d = λ i. insert_before cmp (e i) (sort-Permᴰ r d.1 i)
  sort-Permᴰ (Permᴰ.swap {a} {b} {a'} {b'} {l} e f) d =
      insert_before_comm a b (sort cmp l) d.0.0
      ∙ (λ i. insert_before cmp (f i) (insert_before cmp (e i) (sort cmp l)))
  sort-Permᴰ (Permᴰ.trans r s) d = sort-Permᴰ r d ∙ sort-Permᴰ s (AllDiffer-Permᴰ r d)

  pub best-Permᴰ :
      (k : ℕ) {xs ys : List A} → Permᴰ xs ys → AllDiffer cmp xs → best cmp k xs ≡ best cmp k ys
  unfolding best
  best-Permᴰ k r d = ap (take k) (sort-Permᴰ r d)

-- What survives a filter or a map.
module _ {ℓ} {A : Type ℓ} where
  keep-cons_true :
      (f : A → Bool) (x : A) (xs : List A) → f x ≡ true → keep f (x ∷ xs) ≡ x ∷ keep f xs
  keep-cons_true f x xs e = rw e

  keep-cons_false : (f : A → Bool) (x : A) (xs : List A) → f x ≡ false → keep f (x ∷ xs) ≡ keep f xs
  keep-cons_false f x xs e = rw e

  keep_two : (f : A → Bool) (a b : A) (l : List A) → Permᴰ (keep f (a ∷ b ∷ l)) (keep f (b ∷ a ∷ l))
  keep_two f a b l = elim (Bool-cases (f a)) [
    | inl u ↦ elim (Bool-cases (f b)) [
      | inl v ↦ rw (u, v) (Permᴰ.swap refl refl)
      | inr v ↦ rw (u, v) (PermD.refl _)
    ]
    | inr u ↦ elim (Bool-cases (f b)) [
      | inl v ↦ rw (u, v) (PermD.refl _)
      | inr v ↦ rw (u, v) (PermD.refl _)
    ]
  ]

  pub keep-Permᴰ : (f : A → Bool) {xs ys : List A} → Permᴰ xs ys → Permᴰ (keep f xs) (keep f ys)
  keep-Permᴰ f Permᴰ.nil = Permᴰ.nil
  keep-Permᴰ f (Permᴰ.cons {a} {b} {l₁} {l₂} e r) = elim (Bool-cases (f a)) [
    | inl u ↦ rw (u, ap f (sym e) ∙ u) (Permᴰ.cons e (keep-Permᴰ f r))
    | inr u ↦ rw (u, ap f (sym e) ∙ u) (keep-Permᴰ f r)
  ]
  keep-Permᴰ f (Permᴰ.swap {a} {b} {a'} {b'} {l} e g) =
      subst (λ y. Permᴰ (keep f (a ∷ b ∷ l)) (keep f (a' ∷ y ∷ l))) e
        (subst (λ x. Permᴰ (keep f (a ∷ b ∷ l)) (keep f (x ∷ a ∷ l))) g (keep_two f a b l))
  keep-Permᴰ f (Permᴰ.trans r s) = Permᴰ.trans (keep-Permᴰ f r) (keep-Permᴰ f s)

pub map-Permᴰ {ℓ κ} :
    {A : Type ℓ} {B : Type κ} (f : A → B) {xs ys : List A}
    → Permᴰ xs ys
    → Permᴰ (map f xs) (map f ys)
map-Permᴰ f Permᴰ.nil = Permᴰ.nil
map-Permᴰ f (Permᴰ.cons e r) = Permᴰ.cons (ap f e) (map-Permᴰ f r)
map-Permᴰ f (Permᴰ.swap e g) = Permᴰ.swap (ap f e) (ap f g)
map-Permᴰ f (Permᴰ.trans r s) = Permᴰ.trans (map-Permᴰ f r) (map-Permᴰ f s)

-- A filter keeps differing elements different, and what held of each.
module _ {ℓ} {A : Type ℓ} where
  pub All-keep {κ} : (P : A → Type κ) (f : A → Bool) (xs : List A) → All P xs → All P (keep f xs)
  All-keep P f [] a = tt
  All-keep P f (x ∷ xs) a = elim (Bool-cases (f x)) [
    | inl u ↦ rw u (a.0, All-keep P f xs a.1)
    | inr u ↦ rw u (All-keep P f xs a.1)
  ]

  pub keep-AllDiffer :
      (cmp : A → A → Ordering) (f : A → Bool) (xs : List A)
      → AllDiffer cmp xs
      → AllDiffer cmp (keep f xs)
  keep-AllDiffer cmp f [] d = tt
  keep-AllDiffer cmp f (x ∷ xs) d = elim (Bool-cases (f x)) [
    | inl u ↦ rw u (All-keep _ f xs d.0, keep-AllDiffer cmp f xs d.1)
    | inr u ↦ rw u (keep-AllDiffer cmp f xs d.1)
  ]

-- Sorting commutes with a map that carries one order to the other.
module _ {ℓ κ} {A : Type ℓ} {B : Type κ} (cmp : B → B → Ordering) (f : A → B) where
  insert_before-map :
      (x : A) (xs : List A)
      → insert_before cmp (f x) (map f xs) ≡ map f (insert_before (on cmp f) x xs)
  unfolding insert_before
  insert_before-map x [] = refl
  insert_before-map x (y ∷ ys) = elim (Bool-cases (is_le (cmp (f x) (f y)))) [
    | inl u ↦ rw u
    | inr u ↦ rw u (ap (λ zs. f y ∷ zs) (insert_before-map x ys))
  ]

  sort-map : (xs : List A) → sort cmp (map f xs) ≡ map f (sort (on cmp f) xs)
  unfolding sort
  sort-map [] = refl
  sort-map (x ∷ xs) = ap (insert_before cmp (f x)) (sort-map xs) ∙ insert_before-map x _

  take-map : (k : ℕ) (xs : List A) → take k (map f xs) ≡ map f (take k xs)
  take-map ℕ.zero xs = refl
  take-map (ℕ.suc k) [] = refl
  take-map (ℕ.suc k) (x ∷ xs) = ap (λ zs. f x ∷ zs) (take-map k xs)

  pub best-map : (k : ℕ) (xs : List A) → best cmp k (map f xs) ≡ map f (best (on cmp f) k xs)
  unfolding best
  best-map k xs = ap (take k) (sort-map xs) ∙ take-map k _
