-- ===== src/Persistent/Manifest.antt =====
-- src/persistence.rs: the file MANIFEST, which names the segments of a collection.
use focal_vector.Base.{
  ℕ, ◌+◌, ◌-◌, Bool, true, not, ◌&&◌, ◌||◌, Option, none, some, List, [], ◌∷◌, ◌++◌, length, take,
  drop, any, ltb, ◌==◌, if◌then◌else◌,
}
use focal_vector.Outcome.{text, corrupt_storage, Result, ok, ◌>>=◌, ◌>>◌, reject_if}
use focal_vector.Bytes.{to_le_bytes, from_le_bytes}
use focal_vector.Crc.{crc32c}
use focal_vector.Str.{Str, str_eq, str_cmp}
use focal_vector.Map.{contains}
use focal_vector.Codec.Decoder
use focal_vector.Codec.Decoder.{
  Decoder, start, max_items, usize_max, Reader, pure, fail, u64, count, string, repeated, finish,
}
use focal_vector.Codec.Encoder.{◌then_write◌, put_bytes, put_count, put_string, put_each}
use focal_vector.Persistent.Header.{format_version}

-- b"FVMF", and the version of a manifest that lists several segments
abbrev pub manifest_magic : List ℕ
manifest_magic = 0x46 ∷ 0x56 ∷ 0x4d ∷ 0x46 ∷ []

abbrev pub manifest_list_version : ℕ
manifest_list_version = 2

abbrev pub max_index_segments : ℕ
max_index_segments = 8

pub record Manifest : Type 0 where
  pub sequence : ℕ
  pub segments : List Str

-- The bytes that `publish_manifest` writes.
unfoldable pub publish_manifest : ℕ → List Str → Result (List ℕ)
publish_manifest sequence names = do
  bytes ←
      (put_bytes (manifest_magic ++ manifest_list_version ∷ [])
          then_write put_bytes (to_le_bytes 8 sequence)
          then_write put_count (length names)
          then_write put_each put_string names)
        []
  ok (bytes ++ to_le_bytes 4 (crc32c bytes))

-- "segment-"
abbrev segment_prefix : Str
segment_prefix = 115 ∷ 101 ∷ 103 ∷ 109 ∷ 101 ∷ 110 ∷ 116 ∷ 45 ∷ []

-- No slash, the prefix, and no name twice.
unfoldable pub names_allowed : List Str → List Str → Bool
names_allowed seen [] = true
names_allowed seen (name ∷ names) =
    not (any (λ b. b == 47) name)
    && (str_eq (take 8 name) segment_prefix
        && (not (contains str_cmp name seen) && names_allowed (name ∷ seen) names))

unfoldable pub listed : ℕ → Reader (List Str)
listed n =
    if n == 0 || ltb (max_index_segments + 1) n
    then fail (text "invalid segment count in manifest")
    else repeated n string

unfoldable pub segment_names : ℕ → Reader (List Str)
unfolding listed
segment_names version =
    if version == format_version
    then Decoder.◌>>=◌ string (λ name. pure (name ∷ []))
    else Decoder.◌>>=◌ count listed

unfoldable pub decode_manifest : ℕ → List ℕ → Result Manifest
unfolding segment_names names_allowed
decode_manifest version payload = do
  (sequence, d) ← u64 (start payload)
  (names, d') ← segment_names version d
  finish d'
  reject_if (not (names_allowed [] names))
      (corrupt_storage (text "invalid segment name in manifest"))
  ok (record { sequence = sequence; segments = names })

unfoldable pub read_manifest : Option (List ℕ) → Result (Option Manifest)
unfolding decode_manifest
read_manifest none = ok none
read_manifest (some bytes) =
    let version = from_le_bytes (take 1 (drop 4 bytes)) in
    let payload_length = length bytes - 4 in
    do
      reject_if
          (ltb (length bytes) 21
            || (not (str_eq (take 4 bytes) manifest_magic)
                || not (version == format_version || version == manifest_list_version)))
          (corrupt_storage (text "invalid manifest header"))
      reject_if
          (not (crc32c (take payload_length bytes) == from_le_bytes (drop payload_length bytes)))
          (corrupt_storage (text "manifest checksum mismatch"))
      manifest ← decode_manifest version (drop 5 (take payload_length bytes))
      ok (some manifest)
