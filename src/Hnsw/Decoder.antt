-- ===== src/Hnsw/Decoder.antt =====
-- src/hnsw.rs, `GraphDecoder` and `decode_inner` without a mapping: an index read back from its bytes, with
-- every check of what is read.
use focal_vector.Base.{
  ℕ, zero, suc, ◌+◌, ◌-◌, ◌*◌, ◌^◌, Bool, true, false, not, ◌&&◌, ◌||◌, List, [], ◌∷◌, ◌++◌, Option,
  none, some, length, take, drop, leb, ltb, ◌==◌, if◌then◌else◌, any, is_empty, get_elem?,
}
use focal_vector.Outcome.{Error, Message, text, numbers, corrupt_storage, Result, ok, err}
use focal_vector.Bytes.{from_le_bytes}
use focal_vector.Str.{Str, str_cmp, str_eq, is_utf8}
use focal_vector.Float.{F32, FloatOps, is_finite32}
use focal_vector.Map.{contains}
use focal_vector.Metric.{Metric, cosine, dot_product, euclidean}
use focal_vector.Codec.Decoder.{Reader, pure, fail, ◌>>=◌, repeated}
use focal_vector.Hnsw.{HnswConfig, validate_config, max_connections, max_level}
use focal_vector.Hnsw.Vectors.{
  QuantOps, VectorStorage, full, scalar_int8, PreparedVector, plain, quantized, VectorArena,
  empty_arena, push, quantized_squared_norm, is_positive32,
}
use focal_vector.Hnsw.Graph.{HnswIndex, Node}
use focal_vector.Hnsw.Compact.{finalize_compact_graph}
use focal_vector.Hnsw.Encoder.{graph_magic, graph_version, legacy_graph_version, enumerate}

unfoldable pub take_bytes : ℕ → Reader (List ℕ)
take_bytes n d =
    let end = d.position + n in
    if ltb (2 ^ 64 - 1) end
    then err (corrupt_storage (text "HNSW graph length overflow"))
    else if leb end (length d.bytes)
    then ok (take n (drop d.position d.bytes), record d { position = end })
    else err (corrupt_storage (text "truncated HNSW graph"))

unfoldable pub byte : Reader ℕ
byte = do bytes ← take_bytes 1; pure (from_le_bytes bytes)

unfoldable pub u64 : Reader ℕ
u64 = do bytes ← take_bytes 8; pure (from_le_bytes bytes)

-- `usize`, which reads 32 bits
unfoldable pub usize : Reader ℕ
usize = do bytes ← take_bytes 4; pure (from_le_bytes bytes)

unfoldable pub f32 : Reader F32
f32 = do bytes ← take_bytes 4; pure (from_le_bytes bytes)

-- A check between two reads.
unfoldable pub refuse_if : Bool → Message → Reader (Unit {0})
refuse_if true m = fail m
refuse_if false m = pure tt

unfoldable pub string : Reader Str
string = do
  length ← usize
  bytes ← take_bytes length
  _ ← refuse_if (not (is_utf8 bytes)) (text "HNSW graph contains invalid UTF-8")
  pure bytes

unfoldable pub finish : Reader (Unit {0})
finish d =
    if d.position == length d.bytes
    then ok (tt, d)
    else err (corrupt_storage (text "trailing bytes in HNSW graph"))

unfoldable pub parse_metric : ℕ → Reader Metric
parse_metric tag =
    if tag == 1
    then pure cosine
    else if tag == 2
    then pure dot_product
    else if tag == 3
    then pure euclidean
    else fail (numbers "unknown HNSW metric tag {tag}" (tag ∷ []))

unfoldable pub parse_storage : ℕ → Reader VectorStorage
parse_storage tag =
    if tag == 1
    then pure full
    else if tag == 2
    then pure scalar_int8
    else fail (numbers "unknown HNSW vector storage tag {tag}" (tag ∷ []))

unfoldable pub component : Reader F32
component = do
  value ← f32
  _ ← refuse_if (not (is_finite32 value)) (text "HNSW graph contains a non-finite vector")
  pure value

module _ (fl : FloatOps) (qo : QuantOps) where
  -- `scale <= 0.0` of a finite scale
  unfoldable pub decode_vector : VectorStorage → ℕ → Reader PreparedVector
  unfolding quantized_squared_norm
  decode_vector full dimension = do vector ← repeated dimension component; pure (plain vector)
  decode_vector scalar_int8 dimension = do
    scale ← f32
    _ ←
        refuse_if (not (is_finite32 scale) || not (is_positive32 scale))
          (text "HNSW graph contains invalid quantization parameters")
    codes ← take_bytes dimension
    pure (
        quantized (record {
          codes = codes;
          scale = scale;
          squared_norm = quantized_squared_norm fl qo codes scale;
        }))

  unfoldable pub decode_layer : HnswConfig → ℕ → Reader (List ℕ)
  decode_layer config layer = do
    count ← usize
    _ ←
        refuse_if (ltb (max_connections config layer) count)
          (text "HNSW neighbor list exceeds its configured layer limit")
    repeated count usize

  -- The layers from the given one up.
  unfoldable pub decode_layers : HnswConfig → ℕ → ℕ → Reader (List (List ℕ))
  unfolding decode_layer
  decode_layers config layer zero = pure []
  decode_layers config layer (suc left) = do
    links ← decode_layer config layer
    rest ← decode_layers config (suc layer) left
    pure (links ∷ rest)

  unfoldable pub decode_node :
      HnswConfig → VectorStorage → ℕ → List Str → Reader (Str × PreparedVector × Node)
  unfolding decode_vector decode_layers
  decode_node config storage dimension seen = do
    id ← string
    _ ←
        refuse_if (is_empty id || contains str_cmp id seen)
          (text "HNSW graph contains an empty or duplicate ID")
    vector ← decode_vector storage dimension
    layer_count ← usize
    _ ←
        refuse_if (layer_count == 0 || ltb (max_level + 1) layer_count)
          (text "HNSW node has an invalid layer count")
    neighbors ← decode_layers config 0 layer_count
    pure (id, vector, record { level = layer_count - 1; range_start = 0; neighbors = neighbors })

  -- The loop over the nodes, on the number of nodes that are left.
  unfoldable pub decode_nodes :
      HnswConfig
      → VectorStorage
      → ℕ
      → ℕ
      → List Node × List Str × VectorArena
      → Reader (List Node × List Str × VectorArena)
  unfolding decode_node push
  decode_nodes config storage dimension zero s = pure s
  decode_nodes config storage dimension (suc left) (nodes, ids, vectors) = do
    (id, vector, node) ← decode_node config storage dimension ids
    decode_nodes config storage dimension left
        (nodes ++ node ∷ [], ids ++ id ∷ [], push vectors vector)

-- The entry against the nodes.
unfoldable pub check_entry : List Node → Option ℕ → ℕ → Reader (Unit {0})
check_entry [] none top = refuse_if (not (top == 0)) (text "empty HNSW graph has an entry point")
check_entry [] (some entry) top = fail (text "empty HNSW graph has an entry point")
check_entry (n ∷ ns) none top = fail (text "non-empty HNSW graph has no entry point")
check_entry (n ∷ ns) (some entry) top = elim (get_elem? (n ∷ ns) entry) [
  | none ↦ fail (text "invalid HNSW entry point")
  | some node ↦ refuse_if (ltb node.level top) (text "invalid HNSW entry point")
]

-- A link out of range or to the node itself.
unfoldable pub has_bad_link : ℕ → ℕ × Node → Bool
has_bad_link count (index, node) =
    any (λ layer. any (λ j. leb count j || j == index) layer) node.neighbors

-- The text of a refused configuration, which `to_string` prints behind the name of its error.
abbrev pub config_message : Error → Message
config_message (Error.invalid_config m) = m
config_message e = text ""

-- A result in the midst of reading, its error turned into one of corruption.
unfoldable pub lift_config : Result (Unit {0}) → Reader (Unit {0})
lift_config (ok done) = pure done
lift_config (err e) = fail (config_message e)

abbrev pub decode_entry : ℕ → Option ℕ
decode_entry raw = if raw == 2 ^ 64 - 1 then none else some raw

module _ (fl : FloatOps) (qo : QuantOps) where
  -- What `decode_inner` reads, before the links are packed.
  unfoldable pub decode_graph : Reader HnswIndex
  unfolding take_bytes byte u64 usize refuse_if finish parse_metric parse_storage decode_nodes
      check_entry has_bad_link lift_config validate_config str_eq
  decode_graph = do
    magic ← take_bytes 4
    _ ← refuse_if (not (str_eq magic graph_magic)) (text "invalid HNSW graph header")
    version ← byte
    _ ←
        refuse_if (not (version == legacy_graph_version) && not (version == graph_version))
          (text "invalid HNSW graph header")
    dimension ← u64
    metric_byte ← byte
    metric ← parse_metric metric_byte
    storage ←
        (if version == legacy_graph_version then pure full else (do tag ← byte; parse_storage tag))
    m ← usize
    ef_construction ← usize
    let config : HnswConfig = record { m = m; ef_construction = ef_construction }
    _ ← lift_config (validate_config dimension config)
    node_count ← usize
    _ ← refuse_if (ltb 100_000_000 node_count) (text "HNSW node count exceeds limit")
    entry ← u64
    top ← usize
    _ ← refuse_if (ltb max_level top) (text "HNSW level exceeds limit")
    _ ←
        refuse_if (ltb (2 ^ 64 - 1) (node_count * dimension))
          (text "HNSW vector storage size overflows address space")
    (nodes, ids, vectors) ←
        decode_nodes fl qo config storage dimension node_count ([], [], empty_arena storage)
    _ ← finish
    _ ← check_entry nodes (decode_entry entry) top
    _ ←
        refuse_if (any (has_bad_link node_count) (enumerate 0 nodes))
          (text "HNSW graph contains an invalid neighbor")
    pure (record {
      dimension = dimension;
      metric = metric;
      config = config;
      nodes = nodes;
      ids = ids;
      vectors = vectors;
      entry_point = decode_entry entry;
      max_level = top;
      compact_graph = none;
    })

  -- `decode`
  unfoldable pub decode : List ℕ → Result HnswIndex
  unfolding decode_graph finalize_compact_graph
  decode bytes = elim (decode_graph (record { bytes = bytes; position = 0 })) [
    | err e ↦ err e
    | ok (index, d) ↦ elim (finalize_compact_graph index) [
      | ok packed ↦ ok packed
      | err e ↦ err (corrupt_storage (text "could not compact decoded HNSW graph: {error}"))
    ]
  ]
