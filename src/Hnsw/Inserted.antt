-- ===== src/Hnsw/Inserted.antt =====
-- Applying a plan keeps the whole index in shape: links, IDs and entry.
use focal_vector.Base.{
  ℕ, zero, suc, true, false, List, [], ◌∷◌, ◌++◌, ◌^◌, ◌%◌, ◌≤◌, ◌<◌, ◌≡◌, refl, ap, sym, ◌∙◌,
  subst, ◌==◌, ltb, leb, none, some, if◌then◌else◌, All, length, length-append, get_elem?, arith,
  Option-cases, Bool-cases, inl, inr,
}
use focal_vector.Float.{FloatOps}
use focal_vector.Map.{contains}
use focal_vector.Hnsw.Vectors.{QuantOps}
use focal_vector.Hnsw.Walk.{HeapItem}
use focal_vector.Hnsw.Walked.{holds}
use focal_vector.Hnsw.Graph.{HnswIndex, Node, len}
use focal_vector.Hnsw.Insert.{
  PreparedPoint, Plan, links_at, empty_layers, add_node, link_layers, raise_entry, apply_insertion,
}
use focal_vector.Hnsw.Sound.{has_layer, has_links, IsSound, has_layer_range, is_some}
use focal_vector.Hnsw.Linked.{IsLinkedFrom, Fits, IsPlanned, link_layers-IsLinkedFrom}

get-snoc {ℓ} :
    {A : Type ℓ} (xs : List A) (y : A) (i : ℕ)
    → get_elem? (xs ++ y ∷ []) i ≡ (if i == length xs then some y else get_elem? xs i)
get-snoc [] y zero = ground arith
get-snoc [] y (suc i) = ground arith
get-snoc (x ∷ xs) y zero = ground arith
get-snoc (x ∷ xs) y (suc i) = ground (arith, get-snoc xs y i)

get-empty_layers :
    (n i : ℕ) → get_elem? (empty_layers {A = ℕ} n) i ≡ (if ltb i n then some [] else none)
unfolding empty_layers
get-empty_layers zero i = ground arith
get-empty_layers (suc n) zero = ground arith
get-empty_layers (suc n) (suc i) = ground (arith, get-empty_layers n i)

abbrev new_node : PreparedPoint → Node
new_node point = record {
  level = point.level % 256;
  range_start = 0;
  neighbors = empty_layers (suc point.level);
}

has_layer-add_node :
    (point : PreparedPoint) (index : HnswIndex) (i l : ℕ)
    → point.level < 256
    → has_layer (add_node point index) i l
      ≡ (if i == len index then leb l point.level else has_layer index i l)
unfolding has_layer add_node
has_layer-add_node point index i l small = ground (arith, get-snoc index.nodes (new_node point) i)

has_links-add_node :
    (point : PreparedPoint) (index : HnswIndex) (i l : ℕ)
    → has_links (add_node point index) i l
      ≡ (if i == len index then leb l point.level else has_links index i l)
unfolding has_links add_node
has_links-add_node point index i l =
    ground (arith, get-snoc index.nodes (new_node point) i, get-empty_layers (suc point.level) l)

links_at-add_node :
    (point : PreparedPoint) (index : HnswIndex) (i l : ℕ)
    → links_at (add_node point index) i l ≡ (if i == len index then [] else links_at index i l)
unfolding links_at add_node
links_at-add_node point index i l =
    ground (arith, get-snoc index.nodes (new_node point) i, get-empty_layers (suc point.level) l)

old_link :
    (point : PreparedPoint) (index : HnswIndex) (i l j : ℕ)
    → IsSound index
    → holds j (links_at (add_node point index) i l) ≡ true
    → has_layer index j l ≡ true
unfolding contains
old_link point index i l j s h =
    ground (arith, h, links_at-add_node point index i l, s.links_ok i l j)

pub add_node-IsSound :
    (point : PreparedPoint) (index : HnswIndex)
    → point.level < 256
    → IsSound index
    → IsSound (add_node point index)
add_node-IsSound point index small s = record {
  links_ok = λ i l j h.
      let old = old_link point index i l j s h in
      ground (arith, has_layer-add_node point index j l small, old, has_layer_range index j l old);
  lists_ok = λ i l. ground (
    arith,
    has_links-add_node point index i l,
    has_layer-add_node point index i l small,
    s.lists_ok i l,
  );
}

-- An index under construction: sound links, an ID for each node, and an entry on the top layer as soon as
-- there is a node.
pub record IsGraph (index : HnswIndex) : Type 0 where
  pub sound : IsSound index
  pub unpacked : index.compact_graph ≡ none
  pub ids_count : length index.ids ≡ len index
  pub entry_ok :
      (entry : ℕ) → index.entry_point ≡ some entry → has_layer index entry index.max_level ≡ true
  pub no_entry : index.entry_point ≡ none → index.nodes ≡ []

pub added_layer :
    (point : PreparedPoint) (index : HnswIndex) (i l : ℕ)
    → point.level < 256
    → has_layer index i l ≡ true
    → has_layer (add_node point index) i l ≡ true
added_layer point index i l small h =
    ground (arith, h, has_layer-add_node point index i l small, has_layer_range index i l h)

pub new_layer :
    (point : PreparedPoint) (index : HnswIndex) (l : ℕ)
    → point.level < 256
    → l ≤ point.level
    → has_layer (add_node point index) (len index) l ≡ true
new_layer point index l small le =
    ground (arith, has_layer-add_node point index (len index) l small)

-- Soundness is a matter of the nodes alone.
pub has_layer_nodes :
    (a b : HnswIndex) (i l : ℕ) → a.nodes ≡ b.nodes → has_layer a i l ≡ has_layer b i l
unfolding has_layer
has_layer_nodes a b i l e =
    ap (λ (ns : List Node). elim (get_elem? ns i) [ none ↦ false | some n ↦ leb l n.level ]) e

has_links_nodes :
    (a b : HnswIndex) (i l : ℕ) → a.nodes ≡ b.nodes → has_links a i l ≡ has_links b i l
unfolding has_links
has_links_nodes a b i l e =
    ap
      (λ (ns : List Node). elim (get_elem? ns i) [
        | none ↦ false
        | some n ↦ is_some (get_elem? n.neighbors l)
      ])
      e

links_at_nodes : (a b : HnswIndex) (i l : ℕ) → a.nodes ≡ b.nodes → links_at a i l ≡ links_at b i l
unfolding links_at
links_at_nodes a b i l e =
    ap
      (λ (ns : List Node). elim (get_elem? ns i) [
        | none ↦ []
        | some n ↦ elim (get_elem? n.neighbors l) [ none ↦ [] | some links ↦ links ]
      ])
      e

pub IsSound-nodes : (a b : HnswIndex) → a.nodes ≡ b.nodes → IsSound a → IsSound b
IsSound-nodes a b e s = record {
  links_ok = λ i l j h.
      sym (has_layer_nodes a b j l e)
      ∙ s.links_ok i l j (subst (λ xs. holds j xs ≡ true) (sym (links_at_nodes a b i l e)) h);
  lists_ok = λ i l. sym (has_links_nodes a b i l e) ∙ s.lists_ok i l ∙ has_layer_nodes a b i l e;
}

pub len-add_node :
    (point : PreparedPoint) (index : HnswIndex) → len (add_node point index) ≡ suc (len index)
unfolding add_node
len-add_node point index = length-append index.nodes _ ∙ omega arith

open_add_node :
    (point : PreparedPoint) (index : HnswIndex)
    → (add_node point index).compact_graph ≡ index.compact_graph
unfolding add_node
open_add_node point index = refl

entry_add_node :
    (point : PreparedPoint) (index : HnswIndex)
    → (add_node point index).entry_point ≡ index.entry_point
unfolding add_node
entry_add_node point index = refl

level_add_node :
    (point : PreparedPoint) (index : HnswIndex) → (add_node point index).max_level ≡ index.max_level
unfolding add_node
level_add_node point index = refl

pub ids-add_node :
    (point : PreparedPoint) (index : HnswIndex)
    → length (add_node point index).ids ≡ suc (length index.ids)
unfolding add_node
ids-add_node point index = length-append index.ids _ ∙ omega arith

-- The linked index, with the entry raised when the new node is higher.
raised :
    (point : PreparedPoint) (index linked : HnswIndex)
    → IsGraph index
    → point.level < 256
    → (entry : ℕ) → index.entry_point ≡ some entry
    → IsLinkedFrom (add_node point index) linked
    → IsGraph (raise_entry (len index) point.level linked)
unfolding raise_entry
raised point index linked g small entry e k = elim (Bool-cases (ltb linked.max_level point.level)) [
  | inl higher ↦ rw higher (record {
    sound = IsSound-nodes linked _ refl k.sound;
    unpacked = k.unpacked ∙ open_add_node point index ∙ g.unpacked;
    ids_count = counted;
    entry_ok = λ n h.
        let same : len index ≡ n = cc in
        subst
          (λ i.
            has_layer (record linked { entry_point = some (len index); max_level = point.level }) i
              point.level
            ≡ true)
          same
          (has_layer_nodes _ linked (len index) point.level refl
            ∙ k.layers (len index) point.level
            ∙ new_layer point index point.level small (omega arith));
    no_entry = λ h. cc;
  })
  | inr lower ↦ rw lower (record {
    sound = k.sound;
    unpacked = k.unpacked ∙ open_add_node point index ∙ g.unpacked;
    ids_count = counted;
    entry_ok = λ n h.
        let same_entry : index.entry_point ≡ some n =
          sym (entry_add_node point index) ∙ sym k.same_entry ∙ h in
        ap (has_layer linked n) (k.same_level ∙ level_add_node point index)
        ∙ k.layers n index.max_level
        ∙ added_layer point index n index.max_level small (g.entry_ok n same_entry);
    no_entry = λ h.
        let gone : some entry ≡ none =
          sym e ∙ sym (entry_add_node point index) ∙ sym k.same_entry ∙ h in
        cc;
  })
]
  where
    counted : length linked.ids ≡ len linked
    counted =
        ap length k.same_ids
        ∙ ids-add_node point index
        ∙ ap suc g.ids_count
        ∙ sym (len-add_node point index)
        ∙ sym k.count

module _ (fl : FloatOps) (qo : QuantOps) where
  pub added_IsPlanned :
      (plan : Plan) (point : PreparedPoint) (index : HnswIndex) (layer : ℕ)
      → point.level < 256
      → IsPlanned fl qo index layer plan
      → IsPlanned fl qo (add_node point index) layer plan
  added_IsPlanned [] point index layer small p = tt
  added_IsPlanned (items ∷ plan) point index layer small p =
      (fit items p.0, added_IsPlanned plan point index (suc layer) small p.1)
    where
      fit :
          (xs : List HeapItem)
          → All (Fits index layer) xs
          → All (Fits (add_node point index) layer) xs
      fit [] a = tt
      fit (x ∷ xs) a = ((added_layer point index x.index layer small a.0.0, a.0.1), fit xs a.1)

  pub apply_insertion-IsGraph :
      (point : PreparedPoint) (plan : Plan) (index : HnswIndex)
      → IsGraph index
      → point.level < 256
      → len index < 2 ^ 32
      → length plan ≡ suc point.level
      → IsPlanned fl qo index 0 plan
      → IsGraph (apply_insertion fl qo point plan index)
  unfolding apply_insertion
  apply_insertion-IsGraph point plan index g small room full p =
      elim (Option-cases index.entry_point) [
        | inl e ↦
            rw (e, apply_insertion)
              (record {
                sound =
                    IsSound-nodes (add_node point index) _ refl
                      (add_node-IsSound point index small g.sound);
                unpacked = open_add_node point index ∙ g.unpacked;
                ids_count =
                    omega (arith, ids-add_node point index, len-add_node point index, g.ids_count);
                entry_ok = λ n h.
                    let same : len index ≡ n = cc in
                    subst
                      (λ i.
                        has_layer
                          (record (add_node point index) {
                            entry_point = some (len index);
                            max_level = point.level;
                          })
                          i point.level
                        ≡ true)
                      same
                      (has_layer_nodes _ _ (len index) point.level refl
                        ∙ new_layer point index point.level small (omega arith));
                no_entry = λ h. cc;
              })
        | inr (entry, e) ↦
            let added = add_node point index in
            let k =
              link_layers-IsLinkedFrom fl qo plan (len index) 0 added
                (omega (arith, len-add_node point index)) room
                (λ l h. new_layer point index l small (omega (arith, full, h)))
                (added_IsPlanned plan point index 0 small p)
                (add_node-IsSound point index small g.sound) in
            rw (e, apply_insertion)
              (raised point index (link_layers fl qo (len index) 0 added plan) g small entry e k)
      ]
