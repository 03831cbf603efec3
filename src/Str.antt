-- ===== src/Str.antt =====
-- Rust's `str` and `String`: the UTF-8 bytes. Comparison, equality and `String::from_utf8`.
mod Utf8
unfoldable pub use Utf8.{is_utf8}
use Prim.Native.Nat.{compare, Ordering}
use Prim.Native.Nat.Ordering.{lt, eq, gt}
use focal_vector.Base.{ℕ, Bool, true, false, ◌≡◌, refl, ap, subst, List, [], ◌∷◌, ◌↔◌, arith}
use focal_vector.Order.{
  reverse, then_with, is_eq, IsPreorder, IsLawful, compare-IsPreorder, compare-IsLawful,
}

abbrev pub Str : Type 0
Str = List ℕ

-- `str::cmp`: lexicographic on the bytes.
unfoldable pub str_cmp : Str → Str → Ordering
str_cmp [] [] = eq
str_cmp [] (b ∷ t) = lt
str_cmp (a ∷ s) [] = gt
str_cmp (a ∷ s) (b ∷ t) = then_with (compare a b) (str_cmp s t)

str_cmp_swap : (s t : Str) → str_cmp t s ≡ reverse (str_cmp s t)
unfolding str_cmp
str_cmp_swap [] [] = refl
str_cmp_swap [] (b ∷ t) = refl
str_cmp_swap (a ∷ s) [] = refl
str_cmp_swap (a ∷ s) (b ∷ t) = ground (arith, str_cmp_swap s t)

str_cmp_trans_eq : (s t u : Str) → str_cmp s t ≡ eq → str_cmp t u ≡ str_cmp s u
unfolding str_cmp
str_cmp_trans_eq [] [] u h = refl
str_cmp_trans_eq [] (b ∷ t) u h = cc
str_cmp_trans_eq (a ∷ s) [] u h = cc
str_cmp_trans_eq (a ∷ s) (b ∷ t) [] h = refl
str_cmp_trans_eq (a ∷ s) (b ∷ t) (c ∷ u) h = ground (arith, str_cmp_trans_eq s t u)

str_cmp_trans_lt : (s t u : Str) → str_cmp s t ≡ lt → str_cmp t u ≡ lt → str_cmp s u ≡ lt
unfolding str_cmp
str_cmp_trans_lt [] [] u h k = cc
str_cmp_trans_lt [] (b ∷ t) [] h k = cc
str_cmp_trans_lt [] (b ∷ t) (c ∷ u) h k = refl
str_cmp_trans_lt (a ∷ s) [] u h k = cc
str_cmp_trans_lt (a ∷ s) (b ∷ t) [] h k = cc
str_cmp_trans_lt (a ∷ s) (b ∷ t) (c ∷ u) h k = ground (arith, str_cmp_trans_lt s t u)

str_cmp-eq : (s t : Str) → str_cmp s t ≡ eq → s ≡ t
unfolding str_cmp
str_cmp-eq [] [] h = refl
str_cmp-eq [] (b ∷ t) h = cc
str_cmp-eq (a ∷ s) [] h = cc
str_cmp-eq (a ∷ s) (b ∷ t) h = ground (arith, str_cmp-eq s t)

str_cmp_refl : (s : Str) → str_cmp s s ≡ eq
unfolding str_cmp
str_cmp_refl [] = refl
str_cmp_refl (a ∷ s) = ground (arith, str_cmp_refl s)

pub str_cmp-IsPreorder : IsPreorder str_cmp
str_cmp-IsPreorder = record {
  swap = str_cmp_swap;
  trans_lt = str_cmp_trans_lt;
  trans_eq = str_cmp_trans_eq;
}

pub str_cmp-IsLawful : IsLawful str_cmp
str_cmp-IsLawful = record {
  preorder = str_cmp-IsPreorder;
  eq_of_cmp = str_cmp-eq;
  cmp_refl = str_cmp_refl;
}

-- `str == str`
unfoldable pub str_eq : Str → Str → Bool
unfolding str_cmp
str_eq s t = is_eq (str_cmp s t)

pub str_eq_iff : (s t : Str) → (str_eq s t ≡ true) ↔ (s ≡ t)
unfolding str_eq
str_eq_iff s t = (λ h. str_cmp-eq s t (is_eq-true (str_cmp s t) h), λ e. back e)
  where
    is_eq-true : (o : Ordering) → is_eq o ≡ true → o ≡ eq
    is_eq-true lt h = cc
    is_eq-true eq h = refl
    is_eq-true gt h = cc

    back : s ≡ t → is_eq (str_cmp s t) ≡ true
    back e = subst (λ x. is_eq (str_cmp s x) ≡ true) e (ap is_eq (str_cmp_refl s))
