-- ===== src/Hnsw/Unseen.antt =====
-- How many nodes of a workspace a search has not visited yet.
use focal_vector.Base.{
  ℕ, zero, suc, true, false, not, List, [], ◌∷◌, ◌≤◌, ◌≡◌, refl, ◌==◌, none, some, keep, length,
  get_elem?, arith, Option-cases, Bool-cases, inl, inr,
}
use focal_vector.Hnsw.Workspace.{Workspace, is_seen, set_at, visit}

abbrev unstamped : ℕ → List ℕ → ℕ
unstamped g xs = length (keep (λ stamp. not (stamp == g)) xs)

abbrev pub unseen : Workspace → ℕ
unseen w = unstamped w.generation w.visited

pub unseen_bound : (w : Workspace) → unseen w ≤ length w.visited
unseen_bound w = few w.visited
  where
    few : (xs : List ℕ) → unstamped w.generation xs ≤ length xs
    few [] = omega arith
    few (x ∷ xs) = ground (arith, few xs)

unstamped-set_at :
    (g i stamp : ℕ) (xs : List ℕ)
    → get_elem? xs i ≡ some stamp
    → (stamp == g) ≡ false
    → suc (unstamped g (set_at i g xs)) ≡ unstamped g xs
unfolding set_at
unstamped-set_at g i stamp [] e d = cc
unstamped-set_at g zero stamp (x ∷ xs) e d = ground arith
unstamped-set_at g (suc i) stamp (x ∷ xs) e d = ground (arith, unstamped-set_at g i stamp xs e d)

-- Visiting a new node leaves one fewer, and visiting another leaves the workspace as it is.
pub unseen-visit :
    (i : ℕ) (w : Workspace) → (visit i w).0 ≡ true → suc (unseen (visit i w).1) ≡ unseen w
unfolding visit
unseen-visit i w h = elim (Option-cases (get_elem? w.visited i)) [
  | inl e ↦ absurd (ground (arith, e))
  | inr (stamp, e) ↦ elim (Bool-cases (stamp == w.generation)) [
    | inl s ↦ absurd (ground (arith, e, s))
    | inr s ↦ rw (e, visit, s) (unstamped-set_at w.generation i stamp w.visited e s)
  ]
]

pub visit_old : (i : ℕ) (w : Workspace) → (visit i w).0 ≡ false → (visit i w).1 ≡ w
unfolding visit
visit_old i w h = elim (Option-cases (get_elem? w.visited i)) [
  | inl e ↦ rw (e, visit) refl
  | inr (stamp, e) ↦ ground (arith, e)
]

pub unseen_zero : (w : Workspace) (j : ℕ) → unseen w ≡ 0 → is_seen w j ≡ true
unfolding is_seen
unseen_zero w j h = every w.visited j h
  where
    every :
        (xs : List ℕ) (i : ℕ)
        → unstamped w.generation xs ≡ 0
        → (elim (get_elem? xs i) [ none ↦ true | some stamp ↦ stamp == w.generation ]) ≡ true
    every [] i e = refl
    every (x ∷ xs) zero e = ground arith
    every (x ∷ xs) (suc i) e = ground (arith, every xs i)
