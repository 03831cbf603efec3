-- ===== src/Hnsw/Encoder.antt =====
-- src/hnsw.rs: the bytes of an index. The writes of the output, which may fail, are taken to succeed.
use focal_vector.Base.{
  ℕ, zero, suc, ◌+◌, ◌-◌, ◌*◌, ◌^◌, List, [], ◌∷◌, Option, none, some, length, map, leb, ltb,
  if◌then◌else◌,
}
use focal_vector.Outcome.{text, invalid_query, resource_exhausted, Result, ok, err}
use focal_vector.Bytes.{to_le_bytes}
use focal_vector.Metric.{Metric, cosine, dot_product, euclidean}
use focal_vector.Codec.Encoder.{Writer, ◌then_write◌, put_bytes, put_each}
use focal_vector.Hnsw.Vectors.{
  VectorStorage, full, scalar_int8, PreparedVector, plain, quantized, storage,
}
use focal_vector.Hnsw.Graph.{HnswIndex, Node, len, id_at, vector, neighbors}

-- b"FVHG"
abbrev pub graph_magic : List ℕ
graph_magic = 0x46 ∷ 0x56 ∷ 0x48 ∷ 0x47 ∷ []

abbrev pub graph_version : ℕ
graph_version = 2

abbrev pub legacy_graph_version : ℕ
legacy_graph_version = 1

unfoldable pub metric_tag : Metric → ℕ
metric_tag cosine = 1
metric_tag dot_product = 2
metric_tag euclidean = 3

unfoldable pub storage_tag : VectorStorage → ℕ
storage_tag full = 1
storage_tag scalar_int8 = 2

-- `put_u32_writer` and `put_bytes_writer`
unfoldable pub put_u32 : ℕ → Writer
unfolding put_bytes
put_u32 n out =
    if leb n (2 ^ 32 - 1)
    then put_bytes (to_le_bytes 4 n) out
    else err (invalid_query (text "HNSW graph value exceeds format limit"))

unfoldable pub put_sized : List ℕ → Writer
unfolding put_u32 ◌then_write◌
put_sized bytes = put_u32 (length bytes) then_write put_bytes bytes

unfoldable pub put_vector : PreparedVector → Writer
unfolding put_each ◌then_write◌ put_bytes
put_vector (plain vector) = put_each (λ v. put_bytes (to_le_bytes 4 v)) vector
put_vector (quantized v) = put_bytes (to_le_bytes 4 v.scale) then_write put_bytes v.codes

-- The numbers from `first` on, as many as `count`.
abbrev pub from : ℕ → ℕ → List ℕ
from first zero = []
from first (suc count) = first ∷ from (suc first) count

unfoldable pub put_layer : HnswIndex → ℕ → ℕ → Writer
unfolding put_u32 put_each neighbors ◌then_write◌
put_layer index node layer =
    put_u32 (length (neighbors index layer node))
    then_write put_each put_u32 (neighbors index layer node)

unfoldable pub put_node : HnswIndex → ℕ × Node → Writer
unfolding put_sized put_vector put_layer
put_node index (node, n) =
    put_sized (id_at index node)
    then_write put_vector (vector index node)
    then_write put_u32 (n.level + 1)
    then_write put_each (put_layer index node) (from 0 (suc n.level))

abbrev pub enumerate {ℓ} : {A : Type ℓ} → ℕ → List A → List (ℕ × A)
enumerate i [] = []
enumerate i (x ∷ xs) = (i, x) ∷ enumerate (suc i) xs

abbrev entry_raw : Option ℕ → ℕ
entry_raw none = 2 ^ 64 - 1
entry_raw (some entry) = entry

unfoldable pub encode_into : HnswIndex → Writer
unfolding metric_tag storage_tag put_u32 put_node
encode_into index =
    put_bytes graph_magic
    then_write put_bytes (graph_version ∷ [])
    then_write put_bytes (to_le_bytes 8 index.dimension)
    then_write put_bytes (metric_tag index.metric ∷ [])
    then_write put_bytes (storage_tag (storage index.vectors) ∷ [])
    then_write put_u32 index.config.m
    then_write put_u32 index.config.ef_construction
    then_write put_u32 (len index)
    then_write put_bytes (to_le_bytes 8 (entry_raw index.entry_point))
    then_write put_u32 index.max_level
    then_write put_each (put_node index) (enumerate 0 index.nodes)

abbrev vector_bytes : VectorStorage → ℕ → ℕ
vector_bytes full dimension = dimension * 4
vector_bytes scalar_int8 dimension = dimension + 4

abbrev sum : List ℕ → ℕ
sum [] = 0
sum (x ∷ xs) = x + sum xs

unfoldable pub node_len : HnswIndex → ℕ × Node → ℕ
unfolding neighbors
node_len index (node, n) =
    4
    + length (id_at index node)
    + vector_bytes (storage index.vectors) index.dimension
    + 4
    + sum (map (λ layer. 4 + length (neighbors index layer node) * 4) (from 0 (suc n.level)))

-- The nodes are as many as the IDs. The sum is checked at its end: the checked additions overflow when it does, with one error.
unfoldable pub encoded_len : HnswIndex → Result ℕ
unfolding node_len
encoded_len index =
    let overflow = resource_exhausted (text "HNSW encoded size overflows") in
    let total = 39 + sum (map (node_len index) (enumerate 0 index.nodes)) in
    if ltb (2 ^ 64 - 1) (vector_bytes (storage index.vectors) index.dimension)
    then err overflow
    else if ltb (2 ^ 64 - 1) total
    then err overflow
    else ok total
