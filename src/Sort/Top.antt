-- ===== src/Sort/Top.antt =====
-- What it means to be the k best of a list, whatever computes them.
use Prim.Native.Nat.{Ordering}
use mathlib.Core.List.{Perm}
use focal_vector.Base.{
  ℕ, zero, suc, true, ◌≡◌, ◌∙◌, ap, List, [], ◌∷◌, ◌++◌, All, length, take, drop, min, subst, sym,
  take-append-drop, length-take,
}
use focal_vector.Order.{is_le, IsPreorder}
use focal_vector.Sort.{sort, IsSorted}
use focal_vector.Sort.Laws.{sort-IsSorted, sort-Perm, length-sort}
use focal_vector.Sort.TopK.{best, take-IsSorted}

-- `hits` are the k best of `all`, or all of them if there are fewer: in order, and none of the elements
-- left out goes before one of them.
pub record IsTop {ℓ} {A : Type ℓ} (cmp : A → A → Ordering) (k : ℕ) (all hits : List A)
    : Type ℓ where
  pub sorted : IsSorted cmp hits
  pub count : length hits ≡ min k (length all)
  pub rest : List A
  pub whole : Perm (hits ++ rest) all
  pub better : All (λ h. All (λ r. is_le (cmp h r) ≡ true) rest) hits

module _ {ℓ} {A : Type ℓ} {cmp : A → A → Ordering} (p : IsPreorder cmp) where
  All-drop {κ} : (P : A → Type κ) (k : ℕ) (xs : List A) → All P xs → All P (drop k xs)
  All-drop P zero xs a = a
  All-drop P (suc k) [] a = tt
  All-drop P (suc k) (x ∷ xs) a = All-drop P k xs a.1

  first_better :
      (k : ℕ) (xs : List A)
      → IsSorted cmp xs
      → All (λ h. All (λ r. is_le (cmp h r) ≡ true) (drop k xs)) (take k xs)
  first_better zero xs s = tt
  first_better (suc k) [] s = tt
  first_better (suc k) (x ∷ xs) s = (All-drop _ k xs s.0, first_better k xs s.1)

  pub best-IsTop : (k : ℕ) (xs : List A) → IsTop cmp k xs (best cmp k xs)
  unfolding best
  best-IsTop k xs = record {
    sorted = take-IsSorted p k _ (sort-IsSorted p xs);
    count = length-take k (sort cmp xs) ∙ ap (min k) (length-sort cmp xs);
    rest = drop k (sort cmp xs);
    whole = subst (λ ys. Perm ys xs) (sym (take-append-drop k (sort cmp xs))) (sort-Perm cmp xs);
    better = first_better k _ (sort-IsSorted p xs);
  }
