-- ===== src/Map/Laws.antt =====
-- How reads see the writes of a map.
use Prim.Native.Nat.{Ordering}
use focal_vector.Base.{◌≡◌, refl, none, some, [], ◌∷◌, arith, if◌then◌else◌}
use focal_vector.Order.{is_eq, IsLawful}
use focal_vector.Map.{Map, lookup, hash_insert, remove, tree_insert}

module _ {ℓ κ} {K : Type ℓ} {V : Type κ} {cmp : K → K → Ordering} (l : IsLawful cmp) where
  pub lookup-hash_insert :
      (k j : K) (v : V) (m : Map K V)
      → lookup cmp j (hash_insert cmp k v m) ≡ (if is_eq (cmp j k) then some v else lookup cmp j m)
  unfolding lookup hash_insert
  lookup-hash_insert k j v [] = refl
  lookup-hash_insert k j v ((i, w) ∷ m) = ground (
    arith,
    lookup-hash_insert k j v m,
    l.preorder.trans_eq k i j,
    l.preorder.swap j k,
    l.preorder.swap j i,
    l.preorder.swap k i,
    l.preorder.trans_eq j k i,
    l.preorder.trans_eq j i k,
  )

  pub lookup-remove :
      (k j : K) (m : Map K V)
      → lookup cmp j (remove cmp k m) ≡ (if is_eq (cmp j k) then none else lookup cmp j m)
  unfolding lookup remove
  lookup-remove k j [] = ground arith
  lookup-remove k j ((i, w) ∷ m) = ground (
    arith,
    lookup-remove k j m,
    l.preorder.swap j k,
    l.preorder.swap j i,
    l.preorder.swap k i,
    l.preorder.trans_eq j k i,
    l.preorder.trans_eq j i k,
    l.preorder.trans_eq k i j,
  )

  pub lookup-tree_insert :
      (k j : K) (v : V) (m : Map K V)
      → lookup cmp j (tree_insert cmp k v m) ≡ (if is_eq (cmp j k) then some v else lookup cmp j m)
  unfolding lookup tree_insert
  lookup-tree_insert k j v [] = refl
  lookup-tree_insert k j v ((i, w) ∷ m) = ground (
    arith,
    lookup-tree_insert k j v m,
    l.preorder.swap j k,
    l.preorder.swap j i,
    l.preorder.swap k i,
    l.preorder.trans_eq k i j,
    l.preorder.trans_eq j k i,
    l.preorder.trans_eq j i k,
  )
