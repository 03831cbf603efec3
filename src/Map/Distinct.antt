-- ===== src/Map/Distinct.antt =====
-- Sets as lists without repetition, and when two such lists hold the same.
use Prim.Native.Nat.{Ordering}
use mathlib.Core.List.{
  Mem, Memᴰ, Pairwise, Nodup, mem-cons_of_mem, Nodup-cons, Perm, perm_ext_iff_of_Nodup, mem-cons,
}
use mathlib.Core.Logic.{∥∥₁_elim}
use mathlib.Core.Bool.{Bool-set}
use focal_vector.Base.{
  Bool, true, false, ◌≡◌, refl, ◌∙◌, List, [], ◌∷◌, ◌++◌, ◌&&◌, not, keep, arith, sym, subst, inl,
  inr, Bool-cases,
}
use focal_vector.Order.{is_eq, IsLawful}
use focal_vector.Map.{contains, set_insert, set_extend}
use focal_vector.Map.Sets.{contains-keep, contains-append}

module _ {ℓ} {K : Type ℓ} (cmp : K → K → Ordering) where
  abbrev pub distinct : List K → Bool
  distinct [] = true
  distinct (k ∷ s) = not (contains cmp k s) && distinct s

module _ {ℓ} {K : Type ℓ} {cmp : K → K → Ordering} (l : IsLawful cmp) where
  pub distinct-set_insert :
      (k : K) (s : List K) → distinct cmp s ≡ true → distinct cmp (set_insert cmp k s) ≡ true
  unfolding set_insert
  distinct-set_insert k s d = ground arith

  pub distinct-set_extend :
      (ks s : List K) → distinct cmp s ≡ true → distinct cmp (set_extend cmp s ks) ≡ true
  unfolding set_extend
  distinct-set_extend [] s d = d
  distinct-set_extend (k ∷ ks) s d =
      distinct-set_extend ks (set_insert cmp k s) (distinct-set_insert k s d)

  pub distinct-keep :
      (p : K → Bool) (s : List K) → distinct cmp s ≡ true → distinct cmp (keep p s) ≡ true
  distinct-keep p [] d = refl
  distinct-keep p (k ∷ s) d = ground (arith, distinct-keep p s, contains-keep l k p s)

  pub distinct-append :
      (s t : List K)
      → distinct cmp s ≡ true
      → distinct cmp t ≡ true
      → ((k : K) → contains cmp k s ≡ true → contains cmp k t ≡ false)
      → distinct cmp (s ++ t) ≡ true
  unfolding contains
  distinct-append [] t d e apart = e
  distinct-append (k ∷ s) t d e apart = ground (
    arith,
    contains-append l k s t,
    apart k,
    l.cmp_refl k,
    d,
    distinct-append s t (ground arith) e (λ j h. apart j (ground (arith, h))),
  )

  Mem-of_contains : (a : K) (s : List K) → contains cmp a s ≡ true → Mem a s
  unfolding contains
  Mem-of_contains a [] h = cc
  Mem-of_contains a (k ∷ s) h = elim (Bool-cases (is_eq (cmp a k))) [
    | inl e ↦ mem-cons.1 ∣ inl (l.eq_of_cmp a k (ground arith)) ∣₁
    | inr e ↦ mem-cons_of_mem k (Mem-of_contains a s (ground arith))
  ]

  contains-of_Memᴰ : (a : K) {s : List K} → Memᴰ a s → contains cmp a s ≡ true
  unfolding contains
  contains-of_Memᴰ a (Memᴰ.head {x} e) =
      let here : cmp a x ≡ Ordering.eq = subst (λ y. cmp a y ≡ Ordering.eq) e (l.cmp_refl a) in
      ground arith
  contains-of_Memᴰ a (Memᴰ.tail m) = ground (arith, contains-of_Memᴰ a m)

  contains-of_Mem : (a : K) (s : List K) → Mem a s → contains cmp a s ≡ true
  contains-of_Mem a s m = ∥∥₁_elim m (Bool-set _ _) (contains-of_Memᴰ a)

  distinct-Nodup : (s : List K) → distinct cmp s ≡ true → Nodup s
  distinct-Nodup [] d = Pairwise.nil
  distinct-Nodup (k ∷ s) d =
      Nodup-cons.1
        (λ m. let here = contains-of_Mem k s m in ground arith, distinct-Nodup s (ground arith))

  pub Perm-of_contains :
      (s t : List K)
      → distinct cmp s ≡ true
      → distinct cmp t ≡ true
      → ((a : K) → contains cmp a s ≡ contains cmp a t)
      → Perm s t
  Perm-of_contains s t d e same =
      (perm_ext_iff_of_Nodup (distinct-Nodup s d) (distinct-Nodup t e)).1 λ a. (
        λ m. Mem-of_contains a t (sym (same a) ∙ contains-of_Mem a s m),
        λ m. Mem-of_contains a s (same a ∙ contains-of_Mem a t m),
      )
