-- ===== src/Hnsw/Sound.antt =====
-- What a graph under construction keeps to: a link of a layer leads to a node that has the layer.
use focal_vector.Base.{
  ℕ, zero, suc, Bool, true, false, List, [], ◌∷◌, ◌<◌, ◌≡◌, refl, ap, sym, ◌∙◌, subst, ◌==◌, ◌&&◌,
  leb, Option, none, some, if◌then◌else◌, length, get_elem?, arith, Option-cases, Bool-cases, inl,
  inr,
}
use focal_vector.Hnsw.Walked.{holds}
use focal_vector.Hnsw.Graph.{HnswIndex, Node, neighbors, node_links, len}
use focal_vector.Hnsw.Insert.{update, update_links, links_at}

module _ {ℓ} {A : Type ℓ} where
  abbrev pub is_some : Option A → Bool
  is_some none = false
  is_some (some a) = true

  abbrev map_some : (A → A) → Option A → Option A
  map_some f none = none
  map_some f (some a) = some (f a)

  pub get-update :
      (i j : ℕ) (f : A → A) (xs : List A)
      → get_elem? (update i f xs) j
        ≡ (if i == j then map_some f (get_elem? xs j) else get_elem? xs j)
  unfolding update
  get-update i j f [] = ground arith
  get-update zero zero f (x ∷ xs) = ground arith
  get-update zero (suc j) f (x ∷ xs) = ground arith
  get-update (suc i) zero f (x ∷ xs) = ground arith
  get-update (suc i) (suc j) f (x ∷ xs) = ground (arith, get-update i j f xs)

  pub length-update : (i : ℕ) (f : A → A) (xs : List A) → length (update i f xs) ≡ length xs
  unfolding update
  length-update i f [] = refl
  length-update zero f (x ∷ xs) = refl
  length-update (suc i) f (x ∷ xs) = ap suc (length-update i f xs)

-- Whether the node exists and its level is at least the layer, and whether it has a list of links there.
unfoldable pub has_layer : HnswIndex → ℕ → ℕ → Bool
has_layer index node layer = elim (get_elem? index.nodes node) [
  | none ↦ false
  | some n ↦ leb layer n.level
]

unfoldable pub has_links : HnswIndex → ℕ → ℕ → Bool
has_links index node layer = elim (get_elem? index.nodes node) [
  | none ↦ false
  | some n ↦ is_some (get_elem? n.neighbors layer)
]

pub record IsSound (index : HnswIndex) : Type 0 where
  pub links_ok :
      (node layer j : ℕ)
      → holds j (links_at index node layer) ≡ true
      → has_layer index j layer ≡ true
  pub lists_ok : (node layer : ℕ) → has_links index node layer ≡ has_layer index node layer

pub has_layer-update_links :
    (node layer : ℕ) (f : List ℕ → List ℕ) (index : HnswIndex) (i l : ℕ)
    → has_layer (update_links node layer f index) i l ≡ has_layer index i l
unfolding has_layer update_links
has_layer-update_links node layer f index i l = ground (
  arith,
  get-update node i (λ (n : Node). record n { neighbors = update layer f n.neighbors }) index.nodes,
)

has_links-update_links :
    (node layer : ℕ) (f : List ℕ → List ℕ) (index : HnswIndex) (i l : ℕ)
    → has_links (update_links node layer f index) i l ≡ has_links index i l
unfolding has_links update_links
has_links-update_links node layer f index i l =
    let step =
      get-update node i (λ (n : Node). record n { neighbors = update layer f n.neighbors })
        index.nodes in
    elim (Option-cases (get_elem? index.nodes i)) [
      | inl e ↦ ground (arith, e, step)
      | inr (n, e) ↦ ground (arith, e, step, get-update layer l f n.neighbors)
    ]

links_at-update_links :
    (node layer : ℕ) (f : List ℕ → List ℕ) (index : HnswIndex) (i l : ℕ)
    → links_at (update_links node layer f index) i l ≡ (
        if node == i && (layer == l && has_links index i l)
        then f (links_at index i l)
        else links_at index i l)
unfolding links_at has_links update_links
links_at-update_links node layer f index i l =
    let step =
      get-update node i (λ (n : Node). record n { neighbors = update layer f n.neighbors })
        index.nodes in
    elim (Option-cases (get_elem? index.nodes i)) [
      | inl e ↦ ground (arith, e, step)
      | inr (n, e) ↦ ground (arith, e, step, get-update layer l f n.neighbors)
    ]

-- A change of one list keeps the graph sound when each link of the new list is fit for its layer.
pub update_links-IsSound :
    (node layer : ℕ) (f : List ℕ → List ℕ) (index : HnswIndex)
    → IsSound index
    → ((j : ℕ) → holds j (f (links_at index node layer)) ≡ true → has_layer index j layer ≡ true)
    → IsSound (update_links node layer f index)
update_links-IsSound node layer f index s fit = record {
  links_ok = λ i l j h.
      has_layer-update_links node layer f index j l
      ∙ (elim (Bool-cases (node == i && (layer == l && has_links index i l))) [
        | inr other ↦ s.links_ok i l j (
            subst (λ xs. holds j xs ≡ true)
              (links_at-update_links node layer f index i l ∙ rw other refl) h)
        | inl here ↦
            let at_node : i ≡ node = ground arith in
            let at_layer : l ≡ layer = ground arith in
            let now : holds j (f (links_at index i l)) ≡ true =
              subst (λ xs. holds j xs ≡ true)
                (links_at-update_links node layer f index i l ∙ rw here refl) h in
            subst (λ m. has_layer index j m ≡ true) (sym at_layer)
              (fit j (
                subst (λ k. holds j (f (links_at index k layer)) ≡ true) at_node
                  (subst (λ m. holds j (f (links_at index i m)) ≡ true) at_layer now)))
      ]);
  lists_ok = λ i l.
      has_links-update_links node layer f index i l
      ∙ s.lists_ok i l
      ∙ sym (has_layer-update_links node layer f index i l);
}

-- Reading by the search is reading the lists, as long as nothing is packed.
pub neighbors-links_at :
    (index : HnswIndex) (layer i : ℕ)
    → index.compact_graph ≡ none
    → IsSound index
    → neighbors index layer i ≡ links_at index i layer
unfolding neighbors node_links links_at has_layer has_links
neighbors-links_at index layer i e s = ground (arith, e, s.lists_ok i layer)

pub has_layer_range :
    (index : HnswIndex) (i layer : ℕ) → has_layer index i layer ≡ true → i < len index
unfolding has_layer
has_layer_range index i layer h = below_length index.nodes i h
  where
    below_length :
        (ns : List Node) (i : ℕ)
        → (elim (get_elem? ns i) [ none ↦ false | some n ↦ leb layer n.level ]) ≡ true
        → i < length ns
    below_length [] i h = cc
    below_length (n ∷ ns) zero h = omega arith
    below_length (n ∷ ns) (suc i) h = omega (arith, below_length ns i h)
