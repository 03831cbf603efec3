-- ===== src/Hnsw/LinksRead.antt =====
-- What the decoder's checks of the links and of the entry let through.
use Prim.Native.Nat.{compare}
use mathlib.Core.Path.{ap₂}
use focal_vector.Base.{
  ℕ, zero, suc, ◌+◌, ◌<◌, ◌≡◌, refl, sym, ◌∙◌, subst, Bool, true, false, ◌||◌, List, [], ◌∷◌,
  Option, none, some, length, leb, ltb, ◌==◌, any, get_elem?, arith, Bool-cases, Option-cases, inl,
  inr,
}
use focal_vector.Order.{is_eq}
use focal_vector.Outcome.{Error, text, ok, err}
use focal_vector.Map.{contains}
use focal_vector.Codec.Decoder.{Decoder, fail}
use focal_vector.Hnsw.Walked.{holds}
use focal_vector.Hnsw.Graph.{HnswIndex, Node, neighbors, node_links, layer_at}
use focal_vector.Hnsw.Encoder.{enumerate}
use focal_vector.Hnsw.Decoder.{check_entry, has_bad_link}

-- Links that pass the check stay in range.
any_at :
    {A : Type 0} (p : A → Bool) (xs : List A) (i : ℕ) {x : A}
    → any p xs ≡ false
    → get_elem? xs i ≡ some x
    → p x ≡ false
any_at p [] i a e = cc
any_at p (y ∷ ys) zero {x} a e =
    let same : y ≡ x = cc in subst (λ z. p z ≡ false) same (ground arith)
any_at p (y ∷ ys) (suc i) a e = any_at p ys i (ground arith) e

any_held : (p : ℕ → Bool) (xs : List ℕ) (j : ℕ) → any p xs ≡ false → holds j xs ≡ true → p j ≡ false
unfolding contains
any_held p [] j a h = cc
any_held p (x ∷ xs) j a h = elim (Bool-cases (is_eq (compare j x))) [
  | inl e ↦ let same : x ≡ j = ground arith in subst (λ k. p k ≡ false) same (ground arith)
  | inr e ↦ any_held p xs j (ground arith) (ground arith)
]

get-enumerate :
    (k : ℕ) (ns : List Node) (i : ℕ) {n : Node}
    → get_elem? ns i ≡ some n
    → get_elem? (enumerate k ns) i ≡ some (k + i, n)
get-enumerate k [] i e = cc
get-enumerate k (m ∷ ns) zero {n} e =
    let same : m ≡ n = cc in
    let here : k ≡ k + 0 = omega arith in ap₂ (λ x y. some (x, y)) here same
get-enumerate k (m ∷ ns) (suc i) {n} e =
    let next : suc k + i ≡ k + suc i = omega arith in
    subst (λ x. get_elem? (enumerate (suc k) ns) i ≡ some (x, n)) next
      (get-enumerate (suc k) ns i e)

layer_closed :
    (count i j layer : ℕ) (layers : List (List ℕ))
    → any (λ l. any (λ x. leb count x || x == i) l) layers ≡ false
    → holds j (layer_at layers layer) ≡ true
    → j < count
unfolding contains
layer_closed count i j layer layers good h = elim (Option-cases (get_elem? layers layer)) [
  | inl missing ↦
      let gone : layer_at layers layer ≡ [] = rw (layer_at, missing) refl in
      let none_held : holds j [] ≡ true = subst (λ xs. holds j xs ≡ true) gone h in absurd cc
  | inr (links, found) ↦
      let here : layer_at layers layer ≡ links = rw (layer_at, found) refl in
      let fits =
        any_held (λ x. leb count x || x == i) links j
          (any_at (λ l. any (λ x. leb count x || x == i) l) layers layer good found)
          (subst (λ xs. holds j xs ≡ true) here h) in
      ground (arith, fits)
]

node_closed :
    (count i j layer : ℕ) (n : Node)
    → has_bad_link count (i, n) ≡ false
    → holds j (node_links none n layer) ≡ true
    → j < count
unfolding has_bad_link node_links contains
node_closed count i j layer n good h = elim (Bool-cases (ltb n.level layer)) [
  | inl e ↦
      let gone : node_links none n layer ≡ [] = rw (node_links, e) refl in
      let none_held : holds j [] ≡ true = subst (λ xs. holds j xs ≡ true) gone h in absurd cc
  | inr e ↦
      let here : node_links none n layer ≡ layer_at n.neighbors layer = rw (node_links, e) refl in
      layer_closed count i j layer n.neighbors good (subst (λ xs. holds j xs ≡ true) here h)
]

pub bad_links_closed :
    (index : HnswIndex) (count layer i j : ℕ)
    → index.compact_graph ≡ none
    → any (has_bad_link count) (enumerate 0 index.nodes) ≡ false
    → holds j (neighbors index layer i) ≡ true
    → j < count
unfolding neighbors contains
bad_links_closed index count layer i j unpacked good h =
    elim (Option-cases (get_elem? index.nodes i)) [
      | inl missing ↦
          let gone : neighbors index layer i ≡ [] = rw (neighbors, missing) refl in
          let none_held : holds j [] ≡ true = subst (λ xs. holds j xs ≡ true) gone h in absurd cc
      | inr (n, found) ↦
          let here : neighbors index layer i ≡ node_links none n layer =
            simp (neighbors, found, unpacked) in
          let zero_first : 0 + i ≡ i = omega arith in
          node_closed count i j layer n
            (any_at (has_bad_link count) (enumerate 0 index.nodes) i good (
              subst (λ x. get_elem? (enumerate 0 index.nodes) i ≡ some (x, n)) zero_first
                (get-enumerate 0 index.nodes i found)))
            (subst (λ xs. holds j xs ≡ true) here h)
    ]

get_range {ℓ} : {A : Type ℓ} {x : A} (xs : List A) (i : ℕ) → get_elem? xs i ≡ some x → i < length xs
get_range [] i e = cc
get_range (x ∷ xs) zero e = omega arith
get_range (x ∷ xs) (suc i) e = omega (arith, get_range xs i e)

-- An entry that passes is a node, and only an empty graph has none.
pub record IsEntry (nodes : List Node) (entry : Option ℕ) : Type 0 where
  pub inside : (e : ℕ) → entry ≡ some e → e < length nodes
  pub missing : entry ≡ none → nodes ≡ []

pub check_entry-IsEntry :
    (nodes : List Node) (entry : Option ℕ) (top : ℕ) (d d' : Decoder)
    → check_entry nodes entry top d ≡ ok (tt, d')
    → IsEntry nodes entry
unfolding check_entry fail
check_entry-IsEntry [] none top d d' h = record { inside = λ e w. cc; missing = λ w. refl }
check_entry-IsEntry [] (some entry) top d d' h = cc
check_entry-IsEntry (n ∷ ns) none top d d' h = cc
check_entry-IsEntry (n ∷ ns) (some entry) top d d' h =
    elim (Option-cases (get_elem? (n ∷ ns) entry)) [
      | inl out ↦
          let refused : check_entry (n ∷ ns) (some entry) top d
              ≡ fail (text "invalid HNSW entry point") d =
            rw (check_entry, out) refl in
          absurd (ok_or (sym refused ∙ h))
      | inr (m, found) ↦ record {
        inside = λ e w.
            let same : entry ≡ e = cc in
            subst (λ x. x < length (n ∷ ns)) same (get_range (n ∷ ns) entry found);
        missing = λ w. cc;
      }
    ]
  where
    ok_or : {e : Error} {x : Unit {0} × Decoder} → err e ≡ ok x → ⊥
    ok_or h = cc
