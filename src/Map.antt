-- ===== src/Map.antt =====
-- The library's maps as association lists. A `HashMap` keeps its entries in no promised order: here
-- in the order of their first insertion. A `BTreeMap` keeps them in the order of the keys.
pub mod Laws
pub mod Sets
pub mod Distinct
use Prim.Native.Nat.{Ordering}
use Prim.Native.Nat.Ordering.{lt, eq, gt}
use focal_vector.Base.{
  Bool, true, Option, none, some, List, [], ◌∷◌, ◌≡◌, All, not, keep, if◌then◌else◌, ◌||◌,
}
use focal_vector.Order.{is_eq, is_lt}

abbrev pub Map {ℓ κ} : Type ℓ → Type κ → Type (ℓ ⊔ κ)
Map K V = List (K × V)

module _ {ℓ κ} {K : Type ℓ} {V : Type κ} (cmp : K → K → Ordering) where
  -- `get`, of either map
  unfoldable pub lookup : K → Map K V → Option V
  lookup k [] = none
  lookup k ((j, v) ∷ m) = if is_eq (cmp k j) then some v else lookup k m

  -- `HashMap::insert`
  unfoldable pub hash_insert : K → V → Map K V → Map K V
  hash_insert k v [] = (k, v) ∷ []
  hash_insert k v ((j, w) ∷ m) = if is_eq (cmp k j) then (k, v) ∷ m else (j, w) ∷ hash_insert k v m

  -- `remove`, of either map
  unfoldable pub remove : K → Map K V → Map K V
  remove k [] = []
  remove k ((j, w) ∷ m) = if is_eq (cmp k j) then remove k m else (j, w) ∷ remove k m

  -- `BTreeMap::insert`
  unfoldable pub tree_insert : K → V → Map K V → Map K V
  tree_insert k v [] = (k, v) ∷ []
  tree_insert k v ((j, w) ∷ m) = elim (cmp k j) [
    | lt ↦ (k, v) ∷ (j, w) ∷ m
    | eq ↦ (k, v) ∷ m
    | gt ↦ (j, w) ∷ tree_insert k v m
  ]

  -- The keys strictly rise.
  abbrev pub IsOrdered : Map K V → Type 0
  IsOrdered [] = Unit
  IsOrdered ((k, v) ∷ m) = All (λ e. cmp k e.0 ≡ lt) m × IsOrdered m

-- A `HashSet`, as the list of its elements.
module _ {ℓ} {K : Type ℓ} (cmp : K → K → Ordering) where
  unfoldable pub contains : K → List K → Bool
  contains k [] = Bool.false
  contains k (j ∷ s) = is_eq (cmp k j) || contains k s

  unfoldable pub set_insert : K → List K → List K
  unfolding contains
  set_insert k s = if contains k s then s else k ∷ s

  unfoldable pub set_extend : List K → List K → List K
  unfolding set_insert
  set_extend s [] = s
  set_extend s (k ∷ ks) = set_extend (set_insert k s) ks
