-- ===== src/Hnsw/Select.antt =====
-- What `select_neighbors` returns: some of the candidates, and no more than the limit.
use Prim.Native.Nat.{Ordering}
use focal_vector.Base.{
  ℕ, zero, suc, List, [], ◌∷◌, ◌++◌, ◌-◌, ◌≤◌, ◌==◌, All, All-append, length, length-append,
  length-take, take, arith, Bool-cases, inl, inr,
}
use focal_vector.Order.{is_le}
use focal_vector.Float.{F32}
use focal_vector.Sort.{insert_before, sort}
use focal_vector.Hnsw.Walk.{HeapItem, select, select_neighbors, is_diverse}

module _ {ℓ κ} {A : Type ℓ} (P : A → Type κ) where
  All-insert_before :
      (cmp : A → A → Ordering) (x : A) (xs : List A)
      → P x
      → All P xs
      → All P (insert_before cmp x xs)
  unfolding insert_before
  All-insert_before cmp x [] p a = (p, tt)
  All-insert_before cmp x (y ∷ ys) p a = elim (Bool-cases (is_le (cmp x y))) [
    | inl e ↦ rw e (p, a)
    | inr e ↦ rw e (a.0, All-insert_before cmp x ys p a.1)
  ]

  pub All-sort : (cmp : A → A → Ordering) (xs : List A) → All P xs → All P (sort cmp xs)
  unfolding sort
  All-sort cmp [] a = tt
  All-sort cmp (x ∷ xs) a = All-insert_before cmp x (sort cmp xs) a.0 (All-sort cmp xs a.1)

  pub All-take : (n : ℕ) (xs : List A) → All P xs → All P (take n xs)
  All-take zero xs a = tt
  All-take (suc n) [] a = tt
  All-take (suc n) (x ∷ xs) a = (a.0, All-take n xs a.1)

module _ (near : ℕ → ℕ → F32) where
  select-All {κ} :
      (P : HeapItem → Type κ) (limit : ℕ) (cs selected rejected : List HeapItem)
      → All P cs
      → All P selected
      → All P rejected
      → All P (select near limit selected rejected cs).0
        × All P (select near limit selected rejected cs).1
  unfolding select
  select-All P limit [] selected rejected c s r = (s, r)
  select-All P limit (x ∷ cs) selected rejected c s r =
      elim (Bool-cases (length selected == limit)) [
        | inl full ↦ rw full (s, r)
        | inr room ↦ elim (Bool-cases (is_diverse near x selected)) [
          | inl d ↦
              rw (room, d)
                (select-All P limit cs (selected ++ x ∷ []) rejected c.1
                  (All-append P selected (x ∷ []) s (c.0, tt)) r)
          | inr d ↦
              rw (room, d)
                (select-All P limit cs selected (rejected ++ x ∷ []) c.1 s
                  (All-append P rejected (x ∷ []) r (c.0, tt)))
        ]
      ]

  length-select :
      (limit : ℕ) (cs selected rejected : List HeapItem)
      → length selected ≤ limit
      → length (select near limit selected rejected cs).0 ≤ limit
  unfolding select
  length-select limit [] selected rejected l = l
  length-select limit (x ∷ cs) selected rejected l = elim (Bool-cases (length selected == limit)) [
    | inl full ↦ rw full l
    | inr room ↦ elim (Bool-cases (is_diverse near x selected)) [
      | inl d ↦
          rw (room, d)
            (length-select limit cs (selected ++ x ∷ []) rejected
              (ground (arith, l, room, length-append selected (x ∷ []))))
      | inr d ↦ rw (room, d) (length-select limit cs selected (rejected ++ x ∷ []) l)
    ]
  ]

  pub select_neighbors-All {κ} :
      (P : HeapItem → Type κ) (candidates : List HeapItem) (limit : ℕ)
      → All P candidates
      → All P (select_neighbors near candidates limit)
  unfolding select_neighbors
  select_neighbors-All P candidates limit a =
      let (s, r) = select-All P limit candidates [] [] a tt tt in
      All-append P _ _ s (All-take P _ _ r)

  pub length-select_neighbors :
      (candidates : List HeapItem) (limit : ℕ)
      → length (select_neighbors near candidates limit) ≤ limit
  unfolding select_neighbors
  length-select_neighbors candidates limit =
      let s = length-select limit candidates [] [] (omega arith) in
      omega (
        arith,
        s,
        length-append (select near limit [] [] candidates).0 (
            take (limit - length (select near limit [] [] candidates).0)
              (select near limit [] [] candidates).1),
        length-take (limit - length (select near limit [] [] candidates).0)
            (select near limit [] [] candidates).1,
      )
