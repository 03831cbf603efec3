-- ===== src/Hnsw/Linked.antt =====
-- Linking a new node in keeps the graph sound.
use Prim.Native.Nat.{compare}
use focal_vector.Base.{
  ℕ, suc, Bool, true, false, List, [], ◌∷◌, ◌++◌, ◌+◌, ◌^◌, ◌≤◌, ◌<◌, ◌≡◌, refl, sym, ◌∙◌, subst,
  leb, if◌then◌else◌, All, length, map, arith, Bool-cases, inl, inr,
}
use focal_vector.Order.{is_eq, compare-IsLawful}
use focal_vector.Float.{FloatOps}
use focal_vector.Map.{contains}
use focal_vector.Map.Sets.{contains-append}
use focal_vector.Hnsw.{max_connections}
use focal_vector.Hnsw.Vectors.{QuantOps}
use focal_vector.Hnsw.Walk.{HeapItem, item}
use focal_vector.Hnsw.Walked.{holds}
use focal_vector.Hnsw.Graph.{HnswIndex, neighbors, len}
use focal_vector.Hnsw.Compact.{as_u32}
use focal_vector.Hnsw.Select.{All-sort, select_neighbors-All}
use focal_vector.Hnsw.Insert.{
  Plan, update_links, links_at, indices32, near, pruned, prune, link_back, link_back_all,
  link_layers,
}
use focal_vector.Hnsw.Sound.{
  has_layer, IsSound, update_links-IsSound, has_layer-update_links, has_layer_range, length-update,
}

-- An index that differs in its links only, and is sound.
pub record IsLinkedFrom (before index : HnswIndex) : Type 0 where
  pub sound : IsSound index
  pub layers : (i l : ℕ) → has_layer index i l ≡ has_layer before i l
  pub count : len index ≡ len before
  pub unpacked : index.compact_graph ≡ before.compact_graph
  pub same_ids : index.ids ≡ before.ids
  pub same_entry : index.entry_point ≡ before.entry_point
  pub same_level : index.max_level ≡ before.max_level
  pub same_config : index.config ≡ before.config

pub IsLinkedFrom-refl : (index : HnswIndex) → IsSound index → IsLinkedFrom index index
IsLinkedFrom-refl index s = record {
  sound = s;
  layers = λ i l. refl;
  count = refl;
  unpacked = refl;
  same_ids = refl;
  same_entry = refl;
  same_level = refl;
  same_config = refl;
}

pub IsLinkedFrom-trans :
    (a b c : HnswIndex) → IsLinkedFrom a b → IsLinkedFrom b c → IsLinkedFrom a c
IsLinkedFrom-trans a b c p q = record {
  sound = q.sound;
  layers = λ i l. q.layers i l ∙ p.layers i l;
  count = q.count ∙ p.count;
  unpacked = q.unpacked ∙ p.unpacked;
  same_ids = q.same_ids ∙ p.same_ids;
  same_entry = q.same_entry ∙ p.same_entry;
  same_level = q.same_level ∙ p.same_level;
  same_config = q.same_config ∙ p.same_config;
}

either_IsLinkedFrom :
    (test : Bool) (before a b : HnswIndex)
    → IsLinkedFrom before a
    → IsLinkedFrom before b
    → IsLinkedFrom before (if test then a else b)
either_IsLinkedFrom true before a b p q = p
either_IsLinkedFrom false before a b p q = q

update_links-IsLinkedFrom :
    (node layer : ℕ) (f : List ℕ → List ℕ) (index : HnswIndex)
    → IsSound index
    → ((j : ℕ) → holds j (f (links_at index node layer)) ≡ true → has_layer index j layer ≡ true)
    → IsLinkedFrom index (update_links node layer f index)
unfolding update_links
update_links-IsLinkedFrom node layer f index s fit = record {
  sound = update_links-IsSound node layer f index s fit;
  layers = has_layer-update_links node layer f index;
  count = length-update node _ index.nodes;
  unpacked = refl;
  same_ids = refl;
  same_entry = refl;
  same_level = refl;
  same_config = refl;
}

-- Every listed node passes, so each node held does.
holds-All :
    (p : ℕ → Bool) (xs : List ℕ) (j : ℕ) → All (λ i. p i ≡ true) xs → holds j xs ≡ true → p j ≡ true
unfolding contains
holds-All p [] j a h = cc
holds-All p (x ∷ xs) j a h = elim (Bool-cases (is_eq (compare j x))) [
  | inl e ↦ let same : x ≡ j = ground arith in subst (λ k. p k ≡ true) same a.0
  | inr e ↦ holds-All p xs j a.1 (ground arith)
]

All-holds :
    (p : ℕ → Bool) (xs : List ℕ)
    → ((j : ℕ) → holds j xs ≡ true → p j ≡ true)
    → All (λ i. p i ≡ true) xs
unfolding contains
All-holds p [] h = tt
All-holds p (x ∷ xs) h = (
  h x (ground (arith, compare-IsLawful.cmp_refl x)),
  All-holds p xs (λ j e. h j (ground (arith, e))),
)

-- An item that may stand in the links of a layer.
abbrev pub Fits : HnswIndex → ℕ → HeapItem → Type 0
Fits index layer a = (has_layer index a.index layer ≡ true) × (a.index < 2 ^ 32)

All-indices32 :
    (index : HnswIndex) (layer : ℕ) (items : List HeapItem)
    → All (Fits index layer) items
    → All (λ i. has_layer index i layer ≡ true) (indices32 items)
All-indices32 index layer [] a = tt
All-indices32 index layer (x ∷ items) a =
    let same : x.index ≡ as_u32 x.index = omega (arith, a.0.1) in
    (subst (λ i. has_layer index i layer ≡ true) same a.0.0, All-indices32 index layer items a.1)

module _ (fl : FloatOps) (qo : QuantOps) where
  pruned-fits :
      (index : HnswIndex) (node layer : ℕ) (links : List ℕ)
      → len index ≤ 2 ^ 32
      → All (λ i. has_layer index i layer ≡ true) links
      → All (λ i. has_layer index i layer ≡ true) (pruned fl qo index node layer links)
  unfolding pruned
  pruned-fits index node layer links small a = All-indices32 index layer _ (
      select_neighbors-All (near fl qo index) (Fits index layer) _ _
        (All-sort (Fits index layer) _ _ (items links a)))
    where
      items :
          (xs : List ℕ)
          → All (λ i. has_layer index i layer ≡ true) xs
          → All (Fits index layer) (map (item (neighbors index layer) (near fl qo index node)) xs)
      items [] b = tt
      items (x ∷ xs) b =
          ((b.0, omega (arith, has_layer_range index x layer b.0, small)), items xs b.1)

  pub prune-IsLinkedFrom :
      (node layer : ℕ) (index : HnswIndex)
      → len index ≤ 2 ^ 32
      → IsSound index
      → IsLinkedFrom index (prune fl qo node layer index)
  unfolding prune
  prune-IsLinkedFrom node layer index small s =
      elim (Bool-cases
        (leb (length (links_at index node layer)) (max_connections index.config layer))) [
          | inl few ↦ rw few (IsLinkedFrom-refl index s)
          | inr many ↦ rw many (
              update_links-IsLinkedFrom node layer _ index s (λ j h.
                holds-All (λ i. has_layer index i layer) _ j
                  (pruned-fits index node layer (links_at index node layer) small
                    (All-holds (λ i. has_layer index i layer) _ (s.links_ok node layer)))
                  h))
        ]

  -- A list with fit nodes added still holds only fit nodes.
  appended_fits :
      (index : HnswIndex) (node layer : ℕ) (more : List ℕ)
      → IsSound index
      → All (λ i. has_layer index i layer ≡ true) more
      → (j : ℕ) → holds j (links_at index node layer ++ more) ≡ true
      → has_layer index j layer ≡ true
  appended_fits index node layer more s a j h =
      elim (Bool-cases (holds j (links_at index node layer))) [
        | inl old ↦ s.links_ok node layer j old
        | inr new ↦
            holds-All (λ i. has_layer index i layer) more j a
              (ground (
                arith,
                h,
                new,
                contains-append compare-IsLawful j (links_at index node layer) more,
              ))
      ]

  -- The new node, whose number fits in 32 bits and which has the layer.
  abbrev CanLink : HnswIndex → ℕ → ℕ → Type 0
  CanLink index new_index layer =
      (len index ≤ 2 ^ 32) × (new_index < 2 ^ 32) × (has_layer index new_index layer ≡ true)

  later_CanLink :
      (before index : HnswIndex) (new_index layer : ℕ)
      → IsLinkedFrom before index
      → CanLink before new_index layer
      → CanLink index new_index layer
  later_CanLink before index new_index layer k c =
      (subst (λ m. m ≤ 2 ^ 32) (sym k.count) c.0, c.1, k.layers new_index layer ∙ c.2)

  link_back-IsLinkedFrom :
      (new_index layer : ℕ) (index : HnswIndex) (neighbor : ℕ)
      → CanLink index new_index layer
      → IsSound index
      → IsLinkedFrom index (link_back fl qo new_index layer index neighbor)
  unfolding link_back
  link_back-IsLinkedFrom new_index layer index neighbor c s =
      let linked = update_links neighbor layer (λ links. links ++ as_u32 new_index ∷ []) index in
      let same : new_index ≡ as_u32 new_index = omega (arith, c.1) in
      let k =
        update_links-IsLinkedFrom neighbor layer (λ links. links ++ as_u32 new_index ∷ []) index s
          (appended_fits index neighbor layer (as_u32 new_index ∷ []) s
            (subst (λ i. has_layer index i layer ≡ true) same c.2, tt)) in
      let p =
        prune-IsLinkedFrom neighbor layer linked (later_CanLink index linked new_index layer k c).0
          k.sound in
      either_IsLinkedFrom _ index _ linked (IsLinkedFrom-trans index linked _ k p) k

  link_back_all-IsLinkedFrom :
      (items : List HeapItem) (new_index layer : ℕ) (index : HnswIndex)
      → CanLink index new_index layer
      → IsSound index
      → IsLinkedFrom index (link_back_all fl qo new_index layer index items)
  unfolding link_back_all
  link_back_all-IsLinkedFrom [] new_index layer index c s = IsLinkedFrom-refl index s
  link_back_all-IsLinkedFrom (a ∷ items) new_index layer index c s =
      let next = link_back fl qo new_index layer index a.index in
      let k = link_back-IsLinkedFrom new_index layer index a.index c s in
      IsLinkedFrom-trans index next _ k (
        link_back_all-IsLinkedFrom items new_index layer next
          (later_CanLink index next new_index layer k c) k.sound)

  -- A plan whose items are fit for their layers, counted from the given one.
  abbrev pub IsPlanned : HnswIndex → ℕ → Plan → Type 0
  IsPlanned index layer [] = Unit
  IsPlanned index layer (items ∷ plan) =
      All (Fits index layer) items × IsPlanned index (suc layer) plan

  later_Fits :
      (before index : HnswIndex) (layer : ℕ) (items : List HeapItem)
      → IsLinkedFrom before index
      → All (Fits before layer) items
      → All (Fits index layer) items
  later_Fits before index layer [] k a = tt
  later_Fits before index layer (x ∷ items) k a =
      ((k.layers x.index layer ∙ a.0.0, a.0.1), later_Fits before index layer items k a.1)

  later_IsPlanned :
      (plan : Plan) (before index : HnswIndex) (layer : ℕ)
      → IsLinkedFrom before index
      → IsPlanned before layer plan
      → IsPlanned index layer plan
  later_IsPlanned [] before index layer k a = tt
  later_IsPlanned (items ∷ plan) before index layer k a = (
    later_Fits before index layer items k a.0,
    later_IsPlanned plan before index (suc layer) k a.1,
  )

  pub lower_layer :
      (index : HnswIndex) (i l m : ℕ)
      → l ≤ m
      → has_layer index i m ≡ true
      → has_layer index i l ≡ true
  unfolding has_layer
  lower_layer index i l m le h = ground (arith, h)

  pub link_layers-IsLinkedFrom :
      (plan : Plan) (new_index layer : ℕ) (index : HnswIndex)
      → len index ≤ 2 ^ 32
      → new_index < 2 ^ 32
      → ((l : ℕ) → l < layer + length plan → has_layer index new_index l ≡ true)
      → IsPlanned index layer plan
      → IsSound index
      → IsLinkedFrom index (link_layers fl qo new_index layer index plan)
  unfolding link_layers
  link_layers-IsLinkedFrom [] new_index layer index small fits own p s = IsLinkedFrom-refl index s
  link_layers-IsLinkedFrom (items ∷ plan) new_index layer index small fits own p s =
      let linked = update_links new_index layer (λ links. links ++ indices32 items) index in
      let k =
        update_links-IsLinkedFrom new_index layer (λ links. links ++ indices32 items) index s
          (appended_fits index new_index layer (indices32 items) s
            (All-indices32 index layer items p.0)) in
      let can =
        later_CanLink index linked new_index layer k (small, fits, own layer (omega arith)) in
      let next = link_back_all fl qo new_index layer linked items in
      let k' =
        IsLinkedFrom-trans index linked next k
          (link_back_all-IsLinkedFrom items new_index layer linked can k.sound) in
      IsLinkedFrom-trans index next _ k' (
        link_layers-IsLinkedFrom plan new_index (suc layer) next
          (subst (λ m. m ≤ 2 ^ 32) (sym k'.count) small) fits
          (λ l h. k'.layers new_index l ∙ own l (omega (arith, h)))
          (later_IsPlanned plan index next (suc layer) k' p.1) k'.sound)
