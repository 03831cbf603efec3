-- ===== src/Tests/Files.antt =====
-- Runs of the files beside the log.
use focal_vector.Base.{
  ℕ, max, ◌/◌, ◌⊎◌, ◌≢◌, ◌≡◌, refl, true, some, List, [], ◌∷◌, ◌++◌, length-append, arith,
}
use focal_vector.Outcome.{invalid_config, text, ok, err}
use focal_vector.Bytes.{to_le_bytes, length-to_le_bytes}
use focal_vector.Str.{Str, str_cmp, str_eq, is_utf8}
use focal_vector.Map.{contains}
use focal_vector.Metric.{euclidean}
use focal_vector.Point.{CollectionConfig, SearchHit}
use focal_vector.Codec.Encoder.{put_bytes, put_count, put_string, put_each, ◌then_write◌}
use focal_vector.Codec.RoundTrip.{IsText}
use focal_vector.Crc.{crc32c}
use focal_vector.Persistent.Header.{
  encode_metadata, decode_metadata, ensure_metadata, decode-encode_metadata, ensure_metadata_twice,
}
use focal_vector.Persistent.Manifest.{publish_manifest, read_manifest, names_allowed}
use focal_vector.Persistent.Published.{IsPublishable, read-publish_manifest}
use focal_vector.Hnsw.{deterministic_level, IsClimb, deterministic_level-IsClimb}
use focal_vector.Collection.{u64_max}
use focal_vector.Sharding.{stable_hash}
use focal_vector.Tests.{config}

decode-encode_metadata_example : decode_metadata (encode_metadata config) ≡ ok config
decode-encode_metadata_example = decode-encode_metadata config (omega arith) (omega arith)

abbrev other : CollectionConfig
other = record { dimension = 2; metric = euclidean }

ensure_metadata_twice_example :
    ((config ≡ other)
      × (ensure_metadata (some (encode_metadata config)) other ≡ ok (encode_metadata config)))
    ⊎ ((config ≢ other)
        × (ensure_metadata (some (encode_metadata config)) other
            ≡ err (
                invalid_config (text "requested configuration differs from persisted collection"))))
ensure_metadata_twice_example = ensure_metadata_twice config other (omega arith) (omega arith)

-- "segment-"
abbrev segment : Str
segment = 115 ∷ 101 ∷ 103 ∷ 109 ∷ 101 ∷ 110 ∷ 116 ∷ 45 ∷ []

IsText-segment : IsText segment
unfolding is_utf8
IsText-segment = (refl, omega arith)

allowed : names_allowed [] (segment ∷ []) ≡ true
unfolding names_allowed str_eq str_cmp contains
allowed = refl

publishable : IsPublishable 1 (segment ∷ [])
publishable = record {
  small = omega arith;
  some_names = omega arith;
  few = omega arith;
  texts = (IsText-segment, tt);
  allowed = allowed;
}

abbrev written : List ℕ
written =
    0x46 ∷ 0x56 ∷ 0x4d ∷ 0x46 ∷ 2 ∷ 1 ∷ 0 ∷ 0 ∷ 0 ∷ 0 ∷ 0 ∷ 0 ∷ 0 ∷ 1 ∷ 0 ∷ 0 ∷ 0 ∷ 8 ∷ 0 ∷ 0 ∷ 0
    ∷ 115 ∷ 101 ∷ 103 ∷ 109 ∷ 101 ∷ 110 ∷ 116 ∷ 45 ∷ []

abbrev published : List ℕ
published = written ++ to_le_bytes 4 (crc32c written)

published_bytes : publish_manifest 1 (segment ∷ []) ≡ ok published
unfolding publish_manifest put_bytes put_count put_string put_each ◌then_write◌ to_le_bytes
published_bytes = refl

read-publish_manifest_example :
    read_manifest (some published) ≡ ok (some (record { sequence = 1; segments = segment ∷ [] }))
read-publish_manifest_example =
    read-publish_manifest 1 (segment ∷ []) publishable published published_bytes (
      omega (
        arith,
        length-append written (to_le_bytes 4 (crc32c written)),
        length-to_le_bytes 4 (crc32c written),
      ))

deterministic_level-IsClimb_example :
    IsClimb (max (u64_max / 16) 1) 0 (stable_hash segment) (deterministic_level segment 16)
deterministic_level-IsClimb_example = deterministic_level-IsClimb segment 16

abbrev hit_a : SearchHit
hit_a = record { id = 97 ∷ []; score = 1; metadata = []; sequence = 1 }

abbrev hit_b : SearchHit
hit_b = record { id = 98 ∷ []; score = 2; metadata = []; sequence = 1 }
