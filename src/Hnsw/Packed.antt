-- ===== src/Hnsw/Packed.antt =====
-- A packed graph read back: the links of each node and layer are those of the lists.
use focal_vector.Base.{
  ℕ, zero, suc, List, [], ◌∷◌, ◌++◌, ◌+◌, ◌-◌, ◌^◌, ◌≤◌, ◌<◌, ◌≡◌, refl, ap, sym, ◌∙◌, subst, none,
  some, ltb, length, take, drop, get_elem?, All, All-append, All-imp, arith, length-append,
  drop-append, append_assoc, append-nil, take_all, Bool-cases, Option-cases, inl, inr, ltb→le,
}
use focal_vector.Outcome.{ok}
use focal_vector.Hnsw.Graph.{
  HnswIndex, Node, LinkRange, CompactGraph, layer_at, packed, node_links, neighbors, sum_lengths,
}
use focal_vector.Hnsw.Compact.{
  as_u32, pack_layers, pack_nodes, range_count, link_count, finalize_compact_graph,
}

module _ {ℓ} {A : Type ℓ} where
  get-append_left :
      (xs ys : List A) (i : ℕ) → i < length xs → get_elem? (xs ++ ys) i ≡ get_elem? xs i
  get-append_left [] ys i l = absurd (omega arith)
  get-append_left (x ∷ xs) ys zero l = refl
  get-append_left (x ∷ xs) ys (suc i) l = get-append_left xs ys i (omega arith)

  get-append_here :
      (xs : List A) (y : A) (ys : List A) → get_elem? (xs ++ y ∷ ys) (length xs) ≡ some y
  get-append_here [] y ys = refl
  get-append_here (x ∷ xs) y ys = get-append_here xs y ys

  take-append_left : (n : ℕ) (xs ys : List A) → n ≤ length xs → take n (xs ++ ys) ≡ take n xs
  take-append_left zero xs ys l = refl
  take-append_left (suc n) [] ys l = absurd (omega arith)
  take-append_left (suc n) (x ∷ xs) ys l = ap (λ r. x ∷ r) (take-append_left n xs ys (omega arith))

  slice_append :
      (from to : ℕ) (xs ys : List A)
      → to ≤ length xs
      → take (to - from) (drop from (xs ++ ys)) ≡ take (to - from) (drop from xs)
  slice_append zero to xs ys l = take-append_left (to - 0) xs ys (omega arith)
  slice_append (suc from) to [] ys l =
      let none_left : to - suc from ≡ 0 = omega arith in rw none_left refl
  slice_append (suc from) zero (x ∷ xs) ys l =
      let none_left : zero - suc from ≡ 0 = omega arith in rw none_left refl
  slice_append (suc from) (suc to) (x ∷ xs) ys l =
      let same : suc to - suc from ≡ to - from = omega arith in
      rw same (slice_append from to xs ys (omega arith))

All-get {ℓ κ} :
    {A : Type ℓ} (P : A → Type κ) (xs : List A) (i : ℕ) {x : A}
    → All P xs
    → get_elem? xs i ≡ some x
    → P x
All-get P [] i a e = cc
All-get P (y ∷ ys) zero {x} a e = let same : y ≡ x = cc in subst P same a.0
All-get P (y ∷ ys) (suc i) a e = All-get P ys i a.1 e

-- The ranges end within the links.
abbrev Good : CompactGraph → Type 0
Good graph = All (λ (r : LinkRange). r.to ≤ length graph.links) graph.ranges

-- A graph grows at its ends only.
record Extends (graph later : CompactGraph) : Type 0 where
  more_ranges : List LinkRange
  more_links : List ℕ
  ranges : later.ranges ≡ graph.ranges ++ more_ranges
  links : later.links ≡ graph.links ++ more_links

Extends-refl : (graph : CompactGraph) → Extends graph graph
Extends-refl graph = record {
  more_ranges = [];
  more_links = [];
  ranges = sym (append-nil graph.ranges);
  links = sym (append-nil graph.links);
}

Extends-trans : (a b c : CompactGraph) → Extends a b → Extends b c → Extends a c
Extends-trans a b c p q = record {
  more_ranges = p.more_ranges ++ q.more_ranges;
  more_links = p.more_links ++ q.more_links;
  ranges =
      q.ranges
      ∙ ap (λ r. r ++ q.more_ranges) p.ranges
      ∙ append_assoc a.ranges p.more_ranges q.more_ranges;
  links =
      q.links
      ∙ ap (λ r. r ++ q.more_links) p.links
      ∙ append_assoc a.links p.more_links q.more_links;
}

packed-Extends :
    (graph later : CompactGraph) (at : ℕ)
    → Good graph
    → Extends graph later
    → at < length graph.ranges
    → packed later at ≡ packed graph at
unfolding packed
packed-Extends graph later at good e l =
    let same : get_elem? later.ranges at ≡ get_elem? graph.ranges at =
      ap (λ r. get_elem? r at) e.ranges ∙ get-append_left graph.ranges e.more_ranges at l in
    elim (Option-cases (get_elem? graph.ranges at)) [
      | inl missing ↦ rw (packed, same, missing) refl
      | inr (r, found) ↦
          rw (packed, same, found)
            (ap (λ xs. take (r.to - r.from) (drop r.from xs)) e.links
              ∙ slice_append r.from r.to graph.links e.more_links (
                  All-get (λ (x : LinkRange). x.to ≤ length graph.links) graph.ranges at good
                    found))
    ]

-- One layer more.
abbrev add_layer : List ℕ → CompactGraph → CompactGraph
add_layer layer graph = record {
  ranges =
      graph.ranges
      ++ record { from = as_u32 (length graph.links); to = as_u32 (length (graph.links ++ layer)) }
        ∷ [];
  links = graph.links ++ layer;
}

add_layer-Good :
    (layer : List ℕ) (graph : CompactGraph)
    → length graph.links + length layer < 2 ^ 32
    → Good graph
    → Good (add_layer layer graph)
add_layer-Good layer graph l good =
    All-append _ graph.ranges _
      (All-imp (λ r h. omega (arith, h, length-append graph.links layer)) graph.ranges good)
      (omega (arith, length-append graph.links layer), tt)

packed-add_layer :
    (layer : List ℕ) (graph : CompactGraph)
    → length graph.links + length layer < 2 ^ 32
    → packed (add_layer layer graph) (length graph.ranges) ≡ layer
unfolding packed
packed-add_layer layer graph l =
    let from : as_u32 (length graph.links) ≡ length graph.links = omega arith in
    let size : as_u32 (length (graph.links ++ layer)) - length graph.links ≡ length layer =
      omega (arith, length-append graph.links layer) in
    rw
      (
        packed,
        get-append_here graph.ranges
            (record {
              from = as_u32 (length graph.links);
              to = as_u32 (length (graph.links ++ layer));
            })
            [],
        from,
        size,
        drop-append graph.links layer,
      )
      (take_all (length layer) layer (omega arith))

add_layer-Extends : (layer : List ℕ) (graph : CompactGraph) → Extends graph (add_layer layer graph)
add_layer-Extends layer graph = record {
  more_ranges =
      record { from = as_u32 (length graph.links); to = as_u32 (length (graph.links ++ layer)) }
      ∷ [];
  more_links = layer;
  ranges = refl;
  links = refl;
}

-- What packing the layers of a node does to the graph.
record IsPacked (layers : List (List ℕ)) (graph later : CompactGraph) : Type 0 where
  extends : Extends graph later
  good : Good later
  range_total : length later.ranges ≡ length graph.ranges + length layers
  link_total : length later.links ≡ length graph.links + sum_lengths layers
  reads : (i : ℕ) → i < length layers → packed later (length graph.ranges + i) ≡ layer_at layers i

pack_layers-IsPacked :
    (layers : List (List ℕ)) (graph : CompactGraph)
    → Good graph
    → length graph.links + sum_lengths layers < 2 ^ 32
    → IsPacked layers graph (pack_layers layers graph)
unfolding pack_layers
pack_layers-IsPacked [] graph good l = record {
  extends = Extends-refl graph;
  good = good;
  range_total = omega arith;
  link_total = omega arith;
  reads = λ i h. absurd (omega arith);
}
pack_layers-IsPacked (layer ∷ layers) graph good l =
    let next = add_layer layer graph in
    let next_good = add_layer-Good layer graph (omega arith) good in
    let p =
      pack_layers-IsPacked layers next next_good (omega (arith, length-append graph.links layer)) in
    let more : length next.ranges ≡ suc (length graph.ranges) =
      length-append graph.ranges _ ∙ omega arith in
    record {
      extends = Extends-trans graph next _ (add_layer-Extends layer graph) p.extends;
      good = p.good;
      range_total = omega (arith, p.range_total, more);
      link_total = omega (arith, p.link_total, length-append graph.links layer);
      reads = read p more;
    }
  where
    read :
        IsPacked layers (add_layer layer graph) (pack_layers layers (add_layer layer graph))
        → length (add_layer layer graph).ranges ≡ suc (length graph.ranges)
        → (i : ℕ) → i < length (layer ∷ layers)
        → packed (pack_layers layers (add_layer layer graph)) (length graph.ranges + i)
          ≡ layer_at (layer ∷ layers) i
    read p more zero h =
        let at : length graph.ranges + 0 ≡ length graph.ranges = omega arith in
        let later = pack_layers layers (add_layer layer graph) in
        ap (packed later) at
        ∙ packed-Extends (add_layer layer graph) later (length graph.ranges)
            (add_layer-Good layer graph (omega arith) good) p.extends (omega (arith, more))
        ∙ packed-add_layer layer graph (omega arith)
    read p more (suc i) h =
        let at : length graph.ranges + suc i ≡ length (add_layer layer graph).ranges + i =
          omega (arith, more) in
        ap (packed (pack_layers layers (add_layer layer graph))) at ∙ p.reads i (omega arith)

-- The packed form of a node, whose links the later graph holds.
record IsNode (later : CompactGraph) (node packed_node : Node) : Type 0 where
  level : packed_node.level ≡ node.level
  links :
      (i : ℕ)
      → i < length node.neighbors
      → packed later (packed_node.range_start + i) ≡ layer_at node.neighbors i

-- What packing nodes does to the graph.
record ArePacked (nodes : List Node) (graph : CompactGraph) (out : List Node × CompactGraph)
    : Type 0 where
  extends : Extends graph out.1
  count : length out.0 ≡ length nodes
  each :
      (i : ℕ) (node : Node)
      → get_elem? nodes i ≡ some node
      → (packed_node : Node) × (get_elem? out.0 i ≡ some packed_node)
        × IsNode out.1 node packed_node

pack_nodes-ArePacked :
    (nodes : List Node) (graph : CompactGraph)
    → Good graph
    → length graph.ranges + range_count nodes < 2 ^ 32
    → length graph.links + link_count nodes < 2 ^ 32
    → ArePacked nodes graph (pack_nodes nodes graph)
unfolding pack_nodes
pack_nodes-ArePacked [] graph good a b = record {
  extends = Extends-refl graph;
  count = refl;
  each = λ i node e. cc;
}
pack_nodes-ArePacked (n ∷ ns) graph good a b =
    let next = pack_layers n.neighbors graph in
    let p = pack_layers-IsPacked n.neighbors graph good (omega arith) in
    let q =
      pack_nodes-ArePacked ns next p.good (omega (arith, p.range_total))
        (omega (arith, p.link_total)) in
    record {
      extends = Extends-trans graph next _ p.extends q.extends;
      count = ap suc q.count;
      each = each p q;
    }
  where
    each :
        IsPacked n.neighbors graph (pack_layers n.neighbors graph)
        → ArePacked ns
            (pack_layers n.neighbors graph)
            (pack_nodes ns (pack_layers n.neighbors graph))
        → (i : ℕ) (node : Node) → get_elem? (n ∷ ns) i ≡ some node
        → (packed_node : Node) × (get_elem? (pack_nodes (n ∷ ns) graph).0 i ≡ some packed_node)
          × IsNode (pack_nodes (n ∷ ns) graph).1 node packed_node
    each p q zero node e =
        let same : n ≡ node = cc in
        let whole = (pack_nodes ns (pack_layers n.neighbors graph)).1 in
        (
          record n { range_start = as_u32 (length graph.ranges); neighbors = [] },
          refl,
          subst
              (λ m.
                IsNode whole m
                  (record n { range_start = as_u32 (length graph.ranges); neighbors = [] }))
              same
              (record {
                level = refl;
                links = λ i l.
                    let at : as_u32 (length graph.ranges) + i ≡ length graph.ranges + i =
                      omega arith in
                    ap (packed whole) at
                    ∙ packed-Extends (pack_layers n.neighbors graph) whole (length graph.ranges + i)
                        p.good q.extends (omega (arith, p.range_total))
                    ∙ p.reads i l;
              }),
        )
    each p q (suc i) node e = q.each i node e

-- Each node has a list of links for each layer up to its level.
abbrev pub HasLayers : List Node → Type 0
HasLayers nodes = All (λ (n : Node). length n.neighbors ≡ suc n.level) nodes

IsNode-links :
    (later : CompactGraph) (node packed_node : Node) (layer : ℕ)
    → length node.neighbors ≡ suc node.level
    → IsNode later node packed_node
    → node_links (some later) packed_node layer ≡ node_links none node layer
unfolding node_links
IsNode-links later node packed_node layer h p = elim (Bool-cases (ltb node.level layer)) [
  | inl above ↦ rw (p.level, above) refl
  | inr within ↦ rw (p.level, within) (p.links layer (omega (arith, h, ltb→le _ _ within)))
]

get_missing {ℓ} : {A : Type ℓ} (xs : List A) (i : ℕ) → get_elem? xs i ≡ none → length xs ≤ i
get_missing [] i e = omega arith
get_missing (x ∷ xs) zero e = cc
get_missing (x ∷ xs) (suc i) e = omega (arith, get_missing xs i e)

get_beyond {ℓ} : {A : Type ℓ} (xs : List A) (i : ℕ) → length xs ≤ i → get_elem? xs i ≡ none
get_beyond [] i l = refl
get_beyond (x ∷ xs) zero l = absurd (omega arith)
get_beyond (x ∷ xs) (suc i) l = get_beyond xs i (omega arith)

abbrev packing : HnswIndex → List Node × CompactGraph
packing index = pack_nodes index.nodes (record { ranges = []; links = [] })

finalize-ok :
    (index out : HnswIndex)
    → index.compact_graph ≡ none
    → finalize_compact_graph index ≡ ok out
    → (range_count index.nodes < 2 ^ 32)
      × (link_count index.nodes < 2 ^ 32)
      × (record index { nodes = (packing index).0; compact_graph = some (packing index).1 } ≡ out)
unfolding finalize_compact_graph
finalize-ok index out e done = ground (arith, e, done)

-- Packing an index whose nodes have a list of links for each layer up to their level, when it succeeds,
-- leaves the links of every node and layer as they were.
pub neighbors-finalize :
    (index out : HnswIndex)
    → HasLayers index.nodes
    → index.compact_graph ≡ none
    → finalize_compact_graph index ≡ ok out
    → (layer node : ℕ) → neighbors out layer node ≡ neighbors index layer node
unfolding neighbors
neighbors-finalize index out h e done layer node =
    let (ranges_fit, links_fit, same) = finalize-ok index out e done in
    let p =
      pack_nodes-ArePacked index.nodes (record { ranges = []; links = [] }) tt (omega arith)
        (omega arith) in
    ap (λ x. neighbors x layer node) (sym same)
    ∙ (elim (Option-cases (get_elem? index.nodes node)) [
      | inl missing ↦
          let beyond : length index.nodes ≤ node = get_missing index.nodes node missing in
          let gone = get_beyond (packing index).0 node (omega (arith, p.count)) in
          rw (neighbors, gone, missing) refl
      | inr (n, found) ↦
          let (m, there, is_node) = p.each node n found in
          rw (neighbors, there, found, e)
            (IsNode-links (packing index).1 n m layer
              (All-get (λ (x : Node). length x.neighbors ≡ suc x.level) index.nodes node h found)
              is_node)
    ])

-- What packing leaves as it is.
pub record SameBut (index out : HnswIndex) : Type 0 where
  pub count : length out.nodes ≡ length index.nodes
  pub same_ids : out.ids ≡ index.ids
  pub same_entry : out.entry_point ≡ index.entry_point

pub finalize-SameBut :
    (index out : HnswIndex)
    → index.compact_graph ≡ none
    → finalize_compact_graph index ≡ ok out
    → SameBut index out
finalize-SameBut index out e done =
    let (ranges_fit, links_fit, same) = finalize-ok index out e done in
    let p =
      pack_nodes-ArePacked index.nodes (record { ranges = []; links = [] }) tt (omega arith)
        (omega arith) in
    subst (SameBut index) same (record { count = p.count; same_ids = refl; same_entry = refl })
