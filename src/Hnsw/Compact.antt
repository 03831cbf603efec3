-- ===== src/Hnsw/Compact.antt =====
-- src/hnsw.rs, `finalize_compact_graph`: the links of all nodes and layers in one list, with a range of
-- it for each. The packed graph has the links that the lists had.
use focal_vector.Base.{
  ℕ, List, [], ◌∷◌, ◌++◌, ◌+◌, ◌-◌, ◌^◌, ◌%◌, none, some, ltb, if◌then◌else◌, ◌||◌, length,
}
use focal_vector.Outcome.{text, resource_exhausted, Result, ok, err}
use focal_vector.Hnsw.Graph.{HnswIndex, Node, CompactGraph, sum_lengths}

-- `as u32`
abbrev pub as_u32 : ℕ → ℕ
as_u32 n = n % 2 ^ 32

unfoldable pub pack_layers : List (List ℕ) → CompactGraph → CompactGraph
pack_layers [] graph = graph
pack_layers (layer ∷ layers) graph =
    let links = graph.links ++ layer in
    pack_layers layers (record {
      ranges =
          graph.ranges
          ++ record { from = as_u32 (length graph.links); to = as_u32 (length links) } ∷ [];
      links = links;
    })

unfoldable pub pack_nodes : List Node → CompactGraph → List Node × CompactGraph
unfolding pack_layers
pack_nodes [] graph = ([], graph)
pack_nodes (node ∷ nodes) graph =
    let (rest, whole) = pack_nodes nodes (pack_layers node.neighbors graph) in
    (record node { range_start = as_u32 (length graph.ranges); neighbors = [] } ∷ rest, whole)

abbrev pub range_count : List Node → ℕ
range_count [] = 0
range_count (n ∷ ns) = length n.neighbors + range_count ns

abbrev pub link_count : List Node → ℕ
link_count [] = 0
link_count (n ∷ ns) = sum_lengths n.neighbors + link_count ns

abbrev usize_max : ℕ
usize_max = 2 ^ 64 - 1

abbrev u32_max : ℕ
u32_max = 2 ^ 32 - 1

unfoldable pub finalize_compact_graph : HnswIndex → Result HnswIndex
unfolding pack_nodes
finalize_compact_graph index = elim index.compact_graph [
  | some graph ↦ ok index
  | none ↦
      if ltb usize_max (range_count index.nodes)
      then err (resource_exhausted (text "HNSW layer count overflows memory"))
      else if ltb usize_max (link_count index.nodes)
      then err (resource_exhausted (text "HNSW link count overflows memory"))
      else if ltb u32_max (range_count index.nodes) || ltb u32_max (link_count index.nodes)
      then err (resource_exhausted (text "HNSW compact graph exceeds u32 address space"))
      else (let (nodes, graph) = pack_nodes index.nodes (record { ranges = []; links = [] }) in
          ok (record index { nodes = nodes; compact_graph = some graph }))
]
