-- ===== src/Tests/GraphBytes.antt =====
-- The bytes of an index.
use focal_vector.Base.{ℕ, ◌≡◌, refl, List, [], ◌∷◌}
use focal_vector.Outcome.{ok}
use focal_vector.Bytes.{to_le_bytes, from_le_bytes}
use focal_vector.Str.{str_cmp, str_eq, is_utf8}
use focal_vector.Float.{is_finite32}
use focal_vector.Map.{contains}
use focal_vector.Hnsw.{validate_config, max_connections}
use focal_vector.Hnsw.Vectors.{push, get, storage}
use focal_vector.Hnsw.Graph.{neighbors, node_links, packed, vector}
use focal_vector.Hnsw.Compact.{finalize_compact_graph, pack_nodes, pack_layers}
use focal_vector.Codec.Encoder.{◌then_write◌, put_bytes, put_each}
use focal_vector.Codec.Decoder.{pure, fail, ◌>>=◌, repeated}
use focal_vector.Hnsw.Encoder.{
  metric_tag, storage_tag, put_u32, put_sized, put_vector, put_layer, put_node, encode_into,
}
use focal_vector.Hnsw.Decoder.{
  take_bytes, byte, u64, usize, f32, refuse_if, string, finish, parse_metric, parse_storage,
  component, decode_vector, decode_layer, decode_layers, decode_node, decode_nodes, check_entry,
  has_bad_link, lift_config, decode_graph, decode,
}
use focal_vector.Hnsw.Decoded.{decode-IsSearchable}
use focal_vector.Hnsw.Search.{IsSearchable}
use focal_vector.Tests.{arithmetic}
use focal_vector.Tests.Graphs.{graph, conversions}

abbrev graph_bytes : List ℕ
graph_bytes =
    70 ∷ 86 ∷ 72 ∷ 71 ∷ 2 ∷ 1 ∷ 0 ∷ 0 ∷ 0 ∷ 0 ∷ 0 ∷ 0 ∷ 0 ∷ 2 ∷ 1 ∷ 2 ∷ 0 ∷ 0 ∷ 0 ∷ 2 ∷ 0 ∷ 0 ∷ 0
    ∷ 2 ∷ 0 ∷ 0 ∷ 0 ∷ 0 ∷ 0 ∷ 0 ∷ 0 ∷ 0 ∷ 0 ∷ 0 ∷ 0 ∷ 0 ∷ 0 ∷ 0 ∷ 0 ∷ 1 ∷ 0 ∷ 0 ∷ 0 ∷ 97 ∷ 0 ∷ 0
    ∷ 128 ∷ 63 ∷ 1 ∷ 0 ∷ 0 ∷ 0 ∷ 1 ∷ 0 ∷ 0 ∷ 0 ∷ 1 ∷ 0 ∷ 0 ∷ 0 ∷ 1 ∷ 0 ∷ 0 ∷ 0 ∷ 98 ∷ 0 ∷ 0 ∷ 128
    ∷ 63 ∷ 1 ∷ 0 ∷ 0 ∷ 0 ∷ 1 ∷ 0 ∷ 0 ∷ 0 ∷ 0 ∷ 0 ∷ 0 ∷ 0 ∷ []

graph_encodes : encode_into graph [] ≡ ok graph_bytes
unfolding encode_into metric_tag storage_tag put_u32 put_sized put_vector put_layer put_node
    put_bytes put_each ◌then_write◌ to_le_bytes neighbors node_links packed vector get storage
graph_encodes = refl

graph_decodes : decode arithmetic conversions graph_bytes ≡ ok graph
unfolding decode decode_graph take_bytes byte u64 usize f32 refuse_if string finish parse_metric
    parse_storage component decode_vector decode_layer decode_layers decode_node decode_nodes
    check_entry has_bad_link lift_config validate_config str_eq pure fail ◌>>=◌ repeated push
    contains str_cmp to_le_bytes from_le_bytes max_connections is_finite32 is_utf8
    finalize_compact_graph pack_nodes pack_layers
graph_decodes = refl

decode-IsSearchable_example : IsSearchable graph
decode-IsSearchable_example =
    decode-IsSearchable arithmetic conversions graph_bytes graph graph_decodes
