-- ===== src/Persistent/Published.antt =====
-- A manifest that was published is read back.
use focal_vector.Base.{
  ℕ, ◌+◌, ◌-◌, ◌^◌, ◌<◌, ◌≤◌, true, ◌≡◌, refl, ap, ◌∙◌, sym, subst, some, List, [], ◌∷◌, ◌++◌,
  length, take, drop, All, arith, append_assoc, append-nil, length-append, le→ltb, le→leb, ==_refl,
}
use focal_vector.Outcome.{ok}
use focal_vector.Bytes.{to_le_bytes, length-to_le_bytes, from_le-to_le}
use focal_vector.Crc.{crc32c, crc32c_range}
use focal_vector.Str.{Str, str_eq_iff}
use focal_vector.Codec.Decoder.{start, max_items, usize_max, string, repeated}
use focal_vector.Codec.Encoder.{◌then_write◌, put_bytes, put_count, put_string, put_each}
use focal_vector.Codec.Reads.{At, Reads, Reads-u64, Reads-bind, Reads-count}
use focal_vector.Codec.RoundTrip.{Encodes, IsText, Encodes-string, Encodes-each}
use focal_vector.Wal.Applied.{finish-At, ok_injective}
use focal_vector.Persistent.Header.{from_le_one, take_first, drop_first}
use focal_vector.Persistent.Manifest.{
  manifest_magic, manifest_list_version, max_index_segments, publish_manifest, names_allowed,
  listed, segment_names, decode_manifest, read_manifest,
}

-- What a manifest may hold.
pub record IsPublishable (sequence : ℕ) (names : List Str) : Type 0 where
  pub small : sequence < 2 ^ 64
  pub some_names : 0 < length names
  pub few : length names ≤ max_index_segments + 1
  pub texts : All IsText names
  pub allowed : names_allowed [] names ≡ true

put_count_bytes :
    (n : ℕ) → n ≤ max_items → (out : List ℕ) → put_count n out ≡ ok (out ++ to_le_bytes 4 n)
unfolding put_count put_bytes
put_count_bytes n h out = rw (le→leb n (2 ^ 32 - 1) (omega arith))

abbrev start_bytes : List ℕ
start_bytes = manifest_magic ++ manifest_list_version ∷ []

module _ (sequence : ℕ) (names : List Str) (h : IsPublishable sequence names) where
  encoded_names : Encodes (put_each put_string names) (repeated (length names) string) names
  encoded_names = Encodes-each IsText put_string string Encodes-string names h.texts

  abbrev payload : List ℕ
  payload = to_le_bytes 8 sequence ++ (to_le_bytes 4 (length names) ++ encoded_names.bytes)

  abbrev contents : List ℕ
  contents = manifest_magic ++ manifest_list_version ∷ payload

  abbrev file : List ℕ
  file = contents ++ to_le_bytes 4 (crc32c contents)

  publish_manifest-ok : publish_manifest sequence names ≡ ok file
  unfolding publish_manifest ◌then_write◌ put_bytes
  publish_manifest-ok =
      rw
        (
          put_count_bytes (length names) (omega (arith, h.few))
              (start_bytes ++ to_le_bytes 8 sequence),
          encoded_names.writes
              ((start_bytes ++ to_le_bytes 8 sequence) ++ to_le_bytes 4 (length names)),
        )
        (ap (λ bytes. ok (bytes ++ to_le_bytes 4 (crc32c bytes)))
          (append_assoc (start_bytes ++ to_le_bytes 8 sequence) (to_le_bytes 4 (length names))
              encoded_names.bytes
            ∙ append_assoc start_bytes (to_le_bytes 8 sequence)
                (to_le_bytes 4 (length names) ++ encoded_names.bytes)))

  listed-names : listed (length names) ≡ repeated (length names) string
  unfolding listed
  listed-names = ground (arith, h.some_names, h.few)

  Reads-names :
      Reads
        (segment_names manifest_list_version)
        (to_le_bytes 4 (length names) ++ encoded_names.bytes)
        names
  unfolding segment_names
  Reads-names =
      Reads-bind listed (Reads-count (length names) (omega (arith, h.few)))
        (subst (λ r. Reads r encoded_names.bytes names) (sym listed-names) encoded_names.reads)

  -- The decoder's run over the payload.
  decode_payload :
      length payload ≤ usize_max
      → decode_manifest manifest_list_version payload
        ≡ ok (record { sequence = sequence; segments = names })
  unfolding decode_manifest
  decode_payload small =
      let rest = to_le_bytes 4 (length names) ++ encoded_names.bytes in
      let first =
        (Reads-u64 sequence h.small).at (start payload) rest
          (record { ahead = refl; inside = omega arith; small = small }) in
      let second = Reads-names.at first.0 [] (subst (At first.0) (sym (append-nil rest)) first.2) in
      rw (first.1, second.1, finish-At second.0 second.2, h.allowed)

  length-contents : length contents ≡ 5 + (8 + (4 + length encoded_names.bytes))
  length-contents = omega (
    arith,
    length-append (to_le_bytes 8 sequence) (to_le_bytes 4 (length names) ++ encoded_names.bytes),
    length-append (to_le_bytes 4 (length names)) encoded_names.bytes,
    length-to_le_bytes 8 sequence,
    length-to_le_bytes 4 (length names),
  )

  checked_prefix : take (length file - 4) file ≡ contents
  checked_prefix = take_first (length file - 4) contents (to_le_bytes 4 (crc32c contents)) (
      omega (
        arith,
        length-append contents (to_le_bytes 4 (crc32c contents)),
        length-to_le_bytes 4 (crc32c contents),
      ))

  checksum_behind : drop (length file - 4) file ≡ to_le_bytes 4 (crc32c contents)
  checksum_behind = drop_first (length file - 4) contents (to_le_bytes 4 (crc32c contents)) (
      omega (
        arith,
        length-append contents (to_le_bytes 4 (crc32c contents)),
        length-to_le_bytes 4 (crc32c contents),
      ))

  length-file : length file ≡ 9 + (8 + (4 + length encoded_names.bytes))
  length-file =
      length-append contents (to_le_bytes 4 (crc32c contents))
      ∙ omega (arith, length-contents, length-to_le_bytes 4 (crc32c contents))

  read_file :
      length file ≤ usize_max
      → read_manifest (some file) ≡ ok (some (record { sequence = sequence; segments = names }))
  unfolding read_manifest
  read_file small = rw (
    checked_prefix,
    checksum_behind,
    from_le-to_le 4 (crc32c contents) (crc32c_range contents),
    ==_refl (crc32c contents),
    le→ltb (length file) 21 (omega (arith, length-file)),
    (str_eq_iff manifest_magic manifest_magic).1 refl,
    from_le_one manifest_list_version,
    decode_payload (omega (arith, small, length-file, length-contents)),
  )

  -- A manifest of at least one segment and at most nine, with allowed names and a sequence of 64 bits, is
  -- read back from the bytes that publishing it writes, if their number is a `usize`.
  pub read-publish_manifest :
      (bytes : List ℕ)
      → publish_manifest sequence names ≡ ok bytes
      → length bytes ≤ usize_max
      → read_manifest (some bytes) ≡ ok (some (record { sequence = sequence; segments = names }))
  read-publish_manifest bytes written small =
      let both = sym publish_manifest-ok ∙ written in
      let same : file ≡ bytes = ok_injective both in
      subst
        (λ b. read_manifest (some b) ≡ ok (some (record { sequence = sequence; segments = names })))
        same (read_file (omega (arith, ap length same, small)))
