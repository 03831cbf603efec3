-- ===== src/Hnsw/Workspace.antt =====
-- src/hnsw.rs, `BuildWorkspace`: which nodes a search has visited, by a stamp for each node, so that the
-- next search need not clear them.
use focal_vector.Base.{
  ℕ, zero, suc, Bool, true, false, not, List, [], ◌∷◌, ◌+◌, ◌-◌, ◌^◌, ◌≤◌, ◌<◌, ◌≡◌, refl, ap, ◌==◌,
  ◌||◌, none, some, if◌then◌else◌, All, map, length, get_elem?, arith, ◌∙◌, Bool-cases,
  Option-cases, inl, inr,
}

pub record Workspace : Type 0 where
  pub visited : List ℕ
  pub generation : ℕ

-- `Vec::resize(count, 0)`
unfoldable pub resize : ℕ → List ℕ → List ℕ
resize zero xs = []
resize (suc n) [] = 0 ∷ resize n []
resize (suc n) (x ∷ xs) = x ∷ resize n xs

-- `fill(0)`
abbrev zeros : List ℕ → List ℕ
zeros xs = map (λ x. 0) xs

unfoldable pub begin : ℕ → Workspace → Workspace
unfolding resize
begin node_count w =
    let visited = resize node_count w.visited in
    if w.generation == 2 ^ 32 - 1
    then record { visited = zeros visited; generation = 1 }
    else record { visited = visited; generation = w.generation + 1 }

unfoldable pub set_at : ℕ → ℕ → List ℕ → List ℕ
set_at i y [] = []
set_at zero y (x ∷ xs) = y ∷ xs
set_at (suc i) y (x ∷ xs) = x ∷ set_at i y xs

-- Whether the node is new. A node out of range would panic; here it is not new.
unfoldable pub visit : ℕ → Workspace → Bool × Workspace
unfolding set_at
visit node w = elim (get_elem? w.visited node) [
  | none ↦ (false, w)
  | some stamp ↦
      if stamp == w.generation
      then (false, w)
      else (true, record w { visited = set_at node w.generation w.visited })
]

-- The workspace has a stamp for each node, none of them ahead of the generation.
pub record IsValid (w : Workspace) : Type 0 where
  pub behind : All (λ stamp. stamp ≤ w.generation) w.visited
  pub fits : w.generation < 2 ^ 32

-- Whether the node has been visited, or is out of range.
unfoldable pub is_seen : Workspace → ℕ → Bool
is_seen w node = elim (get_elem? w.visited node) [
  | none ↦ true
  | some stamp ↦ stamp == w.generation
]

resize-behind : (g n : ℕ) (xs : List ℕ) → All (λ x. x ≤ g) xs → All (λ x. x ≤ g) (resize n xs)
unfolding resize
resize-behind g zero xs a = tt
resize-behind g (suc n) [] a = (omega arith, resize-behind g n [] tt)
resize-behind g (suc n) (x ∷ xs) a = (a.0, resize-behind g n xs a.1)

zeros-behind : (g : ℕ) (xs : List ℕ) → All (λ x. x ≤ g) (zeros xs)
zeros-behind g [] = tt
zeros-behind g (x ∷ xs) = (omega arith, zeros-behind g xs)

length-resize : (n : ℕ) (xs : List ℕ) → length (resize n xs) ≡ n
unfolding resize
length-resize zero xs = refl
length-resize (suc n) [] = ap suc (length-resize n [])
length-resize (suc n) (x ∷ xs) = ap suc (length-resize n xs)

unseen_behind :
    (g : ℕ) (xs : List ℕ) (i : ℕ)
    → All (λ x. x ≤ g) xs
    → i < length xs
    → (elim (get_elem? xs i) [ none ↦ true | some stamp ↦ stamp == g + 1 ]) ≡ false
unseen_behind g [] i a l = absurd (omega arith)
unseen_behind g (x ∷ xs) zero a l = ground (arith, a.0)
unseen_behind g (x ∷ xs) (suc i) a l = unseen_behind g xs i a.1 (omega arith)

one_behind : (xs : List ℕ) → All (λ x. x ≤ 1) (zeros xs)
one_behind xs = zeros-behind 1 xs

length-zeros : (xs : List ℕ) → length (zeros xs) ≡ length xs
length-zeros [] = refl
length-zeros (x ∷ xs) = ap suc (length-zeros xs)

-- A new search may start from any workspace: it finds a stamp for each node, and none of them seen.
pub begin-IsValid : (n : ℕ) (w : Workspace) → IsValid w → IsValid (begin n w)
unfolding begin
begin-IsValid n w v = elim (Bool-cases (w.generation == 2 ^ 32 - 1)) [
  | inl e ↦ rw e (record { behind = one_behind (resize n w.visited); fits = omega arith })
  | inr e ↦ rw e (record {
    behind =
        later w.generation (resize n w.visited) (resize-behind w.generation n w.visited v.behind);
    fits = ground (arith, v.fits);
  })
]
  where
    later : (g : ℕ) (xs : List ℕ) → All (λ x. x ≤ g) xs → All (λ x. x ≤ g + 1) xs
    later g [] a = tt
    later g (x ∷ xs) a = (omega (arith, a.0), later g xs a.1)

pub length-begin : (n : ℕ) (w : Workspace) → length (begin n w).visited ≡ n
unfolding begin
length-begin n w = ground (arith, length-resize n w.visited, length-zeros (resize n w.visited))

begin_reset :
    (n : ℕ) (w : Workspace)
    → (w.generation == 2 ^ 32 - 1) ≡ true
    → begin n w ≡ record { visited = zeros (resize n w.visited); generation = 1 }
unfolding begin
begin_reset n w e = rw e refl

begin_next :
    (n : ℕ) (w : Workspace)
    → (w.generation == 2 ^ 32 - 1) ≡ false
    → begin n w ≡ record { visited = resize n w.visited; generation = w.generation + 1 }
unfolding begin
begin_next n w e = rw e refl

pub is_seen-begin :
    (n : ℕ) (w : Workspace) (i : ℕ) → IsValid w → i < n → is_seen (begin n w) i ≡ false
unfolding is_seen
is_seen-begin n w i v l = elim (Bool-cases (w.generation == 2 ^ 32 - 1)) [
  | inl e ↦
      ap (λ u. is_seen u i) (begin_reset n w e)
      ∙ unseen_behind 0 (zeros (resize n w.visited)) i (zeros-behind 0 (resize n w.visited))
          (omega (arith, length-resize n w.visited, length-zeros (resize n w.visited)))
  | inr e ↦
      ap (λ u. is_seen u i) (begin_next n w e)
      ∙ unseen_behind w.generation (resize n w.visited) i
          (resize-behind w.generation n w.visited v.behind)
          (omega (arith, length-resize n w.visited))
]

-- Setting a stamp, on what is read afterwards.
get-set_at :
    (i j y : ℕ) (xs : List ℕ)
    → get_elem? (set_at i y xs) j ≡ (
        if i == j
        then (elim (get_elem? xs i) [ none ↦ none | some x ↦ some y ])
        else get_elem? xs j)
unfolding set_at
get-set_at i j y [] = ground arith
get-set_at zero zero y (x ∷ xs) = ground arith
get-set_at zero (suc j) y (x ∷ xs) = ground arith
get-set_at (suc i) zero y (x ∷ xs) = ground arith
get-set_at (suc i) (suc j) y (x ∷ xs) = ground (arith, get-set_at i j y xs)

length-set_at : (i y : ℕ) (xs : List ℕ) → length (set_at i y xs) ≡ length xs
unfolding set_at
length-set_at i y [] = refl
length-set_at zero y (x ∷ xs) = refl
length-set_at (suc i) y (x ∷ xs) = ap suc (length-set_at i y xs)

pub visit-is_seen : (i : ℕ) (w : Workspace) → (visit i w).0 ≡ not (is_seen w i)
unfolding visit is_seen
visit-is_seen i w = ground arith

pub is_seen-visit : (i j : ℕ) (w : Workspace) → is_seen (visit i w).1 j ≡ is_seen w j || i == j
unfolding visit is_seen
is_seen-visit i j w = ground (arith, get-set_at i j w.generation w.visited)

pub length-visit : (i : ℕ) (w : Workspace) → length (visit i w).1.visited ≡ length w.visited
unfolding visit
length-visit i w = ground (arith, length-set_at i w.generation w.visited)

set_at-behind : (g i : ℕ) (xs : List ℕ) → All (λ x. x ≤ g) xs → All (λ x. x ≤ g) (set_at i g xs)
unfolding set_at
set_at-behind g i [] a = tt
set_at-behind g zero (x ∷ xs) a = (omega arith, a.1)
set_at-behind g (suc i) (x ∷ xs) a = (a.0, set_at-behind g i xs a.1)

pub visit-IsValid : (i : ℕ) (w : Workspace) → IsValid w → IsValid (visit i w).1
unfolding visit
visit-IsValid i w v = elim (Option-cases (get_elem? w.visited i)) [
  | inl e ↦ rw (e, visit) v
  | inr (stamp, e) ↦ elim (Bool-cases (stamp == w.generation)) [
    | inl s ↦ rw (e, visit, s) v
    | inr s ↦
        rw (e, visit, s)
          (record { behind = set_at-behind w.generation i w.visited v.behind; fits = v.fits })
  ]
]
