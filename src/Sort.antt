-- ===== src/Sort.antt =====
-- Sorting by a comparison function: `sort_unstable_by`, and `BinaryHeap` with `push`, `pop`, `peek`.
-- A stable insertion sort stands for the library's sort, and a sorted list for its heap. They agree
-- with the library's up to the order of elements that compare as equal.
pub mod Laws
pub mod TopK
pub mod Unique
pub mod Nub
pub mod Top
use Prim.Native.Nat.{Ordering}
use focal_vector.Base.{Bool, true, ◌≡◌, Option, none, some, List, [], ◌∷◌, All, if◌then◌else◌}
use focal_vector.Order.{is_le, is_lt}

module _ {ℓ} {A : Type ℓ} (cmp : A → A → Ordering) where
  -- before the elements that it does not exceed
  unfoldable pub insert_before : A → List A → List A
  insert_before x [] = x ∷ []
  insert_before x (y ∷ ys) = if is_le (cmp x y) then x ∷ y ∷ ys else y ∷ insert_before x ys

  -- behind the elements that do not exceed it
  unfoldable pub insert_behind : A → List A → List A
  insert_behind x [] = x ∷ []
  insert_behind x (y ∷ ys) = if is_lt (cmp x y) then x ∷ y ∷ ys else y ∷ insert_behind x ys

  unfoldable pub sort : List A → List A
  unfolding insert_before
  sort [] = []
  sort (x ∷ xs) = insert_before x (sort xs)

  abbrev pub IsSorted : List A → Type 0
  IsSorted [] = Unit
  IsSorted (x ∷ xs) = All (λ y. is_le (cmp x y) ≡ true) xs × IsSorted xs

-- The heap's elements from the least to the greatest; `peek` and `pop` act on the greatest.
module _ {ℓ} {A : Type ℓ} where
  unfoldable pub peek : List A → Option A
  peek [] = none
  peek (x ∷ []) = some x
  peek (x ∷ y ∷ ys) = peek (y ∷ ys)

  unfoldable pub pop : List A → List A
  pop [] = []
  pop (x ∷ []) = []
  pop (x ∷ y ∷ ys) = x ∷ pop (y ∷ ys)
