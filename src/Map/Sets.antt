-- ===== src/Map/Sets.antt =====
-- Membership in a set after each of its operations.
use Prim.Native.Nat.{Ordering}
use focal_vector.Base.{
  Bool, true, ◌≡◌, ap, List, [], ◌∷◌, ◌++◌, ◌||◌, ◌&&◌, keep, arith, Bool-cases, inl, inr,
}
use focal_vector.Order.{is_eq, IsLawful}
use focal_vector.Map.{contains, set_insert, set_extend}

module _ {ℓ} {K : Type ℓ} {cmp : K → K → Ordering} (l : IsLawful cmp) where
  -- Equal keys are in the same sets.
  pub contains_eq :
      (a b : K) (s : List K) → is_eq (cmp a b) ≡ true → contains cmp a s ≡ contains cmp b s
  contains_eq a b s e = ap (λ x. contains cmp x s) (l.eq_of_cmp a b (ground arith))

  pub contains-set_insert :
      (a k : K) (s : List K)
      → contains cmp a (set_insert cmp k s) ≡ is_eq (cmp a k) || contains cmp a s
  unfolding set_insert contains
  contains-set_insert a k s = ground (arith, contains_eq a k s)

  pub contains-set_extend :
      (a : K) (ks s : List K)
      → contains cmp a (set_extend cmp s ks) ≡ contains cmp a s || contains cmp a ks
  unfolding set_extend contains
  contains-set_extend a [] s = ground arith
  contains-set_extend a (k ∷ ks) s =
      ground (arith, contains-set_extend a ks (set_insert cmp k s), contains-set_insert a k s)

  pub contains-keep :
      (a : K) (p : K → Bool) (s : List K) → contains cmp a (keep p s) ≡ contains cmp a s && p a
  unfolding contains
  contains-keep a p [] = ground arith
  contains-keep a p (k ∷ s) = elim (Bool-cases (is_eq (cmp a k))) [
    | inl e ↦
        let same : p a ≡ p k = ap p (l.eq_of_cmp a k (ground arith)) in
        ground (arith, contains-keep a p s, same)
    | inr e ↦ ground (arith, contains-keep a p s)
  ]

  pub contains-append :
      (a : K) (s t : List K) → contains cmp a (s ++ t) ≡ contains cmp a s || contains cmp a t
  unfolding contains
  contains-append a [] t = ground arith
  contains-append a (k ∷ s) t = ground (arith, contains-append a s t)
