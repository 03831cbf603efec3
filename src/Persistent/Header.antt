-- ===== src/Persistent/Header.antt =====
-- src/persistence.rs: the file collection.meta, which holds the configuration of a collection.
use mathlib.Core.Path.{ap₂}
use focal_vector.Base.{
  ℕ, ◌^◌, ◌<◌, ◌⊎◌, ◌≢◌, inl, inr, Bool-cases, true, Bool, not, ◌&&◌, ◌||◌, ◌≡◌, refl, ap, ◌∙◌, sym,
  Option, none, some, List, [], ◌∷◌, ◌++◌, length, take, drop, ◌==◌, if◌then◌else◌, arith,
  take-append, drop-append, length-append, subst, take_all,
}
use focal_vector.Outcome.{
  text, numbers, invalid_config, corrupt_storage, Result, ok, err, ◌>>=◌, ◌>>◌, reject_if,
}
use focal_vector.Bytes.{to_le_bytes, from_le_bytes, length-to_le_bytes, from_le-to_le}
use focal_vector.Crc.{crc32c, crc32c_range}
use focal_vector.Str.{str_eq, str_eq_iff}
use focal_vector.Metric.{Metric, cosine, dot_product, euclidean}
use focal_vector.Point.{CollectionConfig}

abbrev pub format_version : ℕ
format_version = 1

-- b"FVMT"
abbrev pub meta_magic : List ℕ
meta_magic = 0x46 ∷ 0x56 ∷ 0x4d ∷ 0x54 ∷ []

unfoldable pub metric_tag : Metric → ℕ
metric_tag cosine = 1
metric_tag dot_product = 2
metric_tag euclidean = 3

unfoldable pub parse_metric : ℕ → Result Metric
parse_metric tag =
    if tag == 1
    then ok cosine
    else if tag == 2
    then ok dot_product
    else if tag == 3
    then ok euclidean
    else err (corrupt_storage (numbers "unknown metric tag {tag}" (tag ∷ [])))

-- the bytes in front of the checksum
unfoldable pub metadata_body : CollectionConfig → List ℕ
unfolding metric_tag
metadata_body config =
    meta_magic ++ format_version ∷ metric_tag config.metric ∷ to_le_bytes 8 config.dimension

unfoldable pub encode_metadata : CollectionConfig → List ℕ
unfolding metadata_body
encode_metadata config = metadata_body config ++ to_le_bytes 4 (crc32c (metadata_body config))

-- `bytes[from..from + n]`, as a number
abbrev pub field : ℕ → ℕ → List ℕ → ℕ
field from n bytes = from_le_bytes (take n (drop from bytes))

-- A `usize` has 64 bits, and so the dimension always fits.
unfoldable pub decode_metadata : List ℕ → Result CollectionConfig
unfolding parse_metric
decode_metadata bytes = do
  reject_if
      (not (length bytes == 18)
        || not (str_eq (take 4 bytes) meta_magic)
        || not (field 4 1 bytes == format_version))
      (corrupt_storage (text "invalid collection metadata header"))
  reject_if (not (crc32c (take 14 bytes) == field 14 4 bytes))
      (corrupt_storage (text "collection metadata checksum mismatch"))
  metric ← parse_metric (field 5 1 bytes)
  reject_if (field 6 8 bytes == 0) (corrupt_storage (text "collection dimension must be non-zero"))
  ok (record { dimension = field 6 8 bytes; metric = metric })

-- `actual != config`
unfoldable pub same_config : CollectionConfig → CollectionConfig → Bool
unfolding metric_tag
same_config a b = (a.dimension == b.dimension) && (metric_tag a.metric == metric_tag b.metric)

-- The file, if there is one, and the file that is left.
unfoldable pub ensure_metadata : Option (List ℕ) → CollectionConfig → Result (List ℕ)
unfolding decode_metadata encode_metadata same_config
ensure_metadata none config = ok (encode_metadata config)
ensure_metadata (some bytes) config = do
  actual ← decode_metadata bytes
  reject_if (not (same_config actual config))
      (invalid_config (text "requested configuration differs from persisted collection"))
  ok bytes

parse-metric_tag : (metric : Metric) → parse_metric (metric_tag metric) ≡ ok metric
unfolding parse_metric metric_tag
parse-metric_tag cosine = refl
parse-metric_tag dot_product = refl
parse-metric_tag euclidean = refl

length-metadata_body : (config : CollectionConfig) → length (metadata_body config) ≡ 14
unfolding metadata_body
length-metadata_body config = omega (arith, length-to_le_bytes 8 config.dimension)

pub take_first : (n : ℕ) (xs ys : List ℕ) → length xs ≡ n → take n (xs ++ ys) ≡ xs
take_first n xs ys e = subst (λ k. take k (xs ++ ys) ≡ xs) e (take-append xs ys)

pub drop_first : (n : ℕ) (xs ys : List ℕ) → length xs ≡ n → drop n (xs ++ ys) ≡ ys
drop_first n xs ys e = subst (λ k. drop k (xs ++ ys) ≡ ys) e (drop-append xs ys)

pub from_le_one : (b : ℕ) → from_le_bytes (b ∷ []) ≡ b
unfolding from_le_bytes
from_le_one b = omega arith

-- Each field of the file, where the reader looks for it.
record IsLaidOut (config : CollectionConfig) (bytes : List ℕ) : Type 0 where
  whole : length bytes ≡ 18
  magic : take 4 bytes ≡ meta_magic
  version : field 4 1 bytes ≡ format_version
  checked : crc32c (take 14 bytes) ≡ field 14 4 bytes
  metric : field 5 1 bytes ≡ metric_tag config.metric
  dimension : field 6 8 bytes ≡ config.dimension

encode_metadata-IsLaidOut :
    (config : CollectionConfig)
    → config.dimension < 2 ^ 64
    → IsLaidOut config (encode_metadata config)
unfolding encode_metadata
encode_metadata-IsLaidOut config fits =
    let body = metadata_body config in
    let sum = to_le_bytes 4 (crc32c body) in
    record {
      whole =
          length-append body sum
          ∙ omega (arith, length-metadata_body config, length-to_le_bytes 4 (crc32c body));
      magic = unfold metadata_body in refl;
      version = unfold metadata_body in from_le_one format_version;
      checked =
          ap crc32c (take_first 14 body sum (length-metadata_body config))
          ∙ sym (from_le-to_le 4 (crc32c body) (crc32c_range body))
          ∙ ap from_le_bytes (
              sym (take_all 4 sum (omega (arith, length-to_le_bytes 4 (crc32c body))))
              ∙ ap (take 4) (sym (drop_first 14 body sum (length-metadata_body config))));
      metric = unfold metadata_body in from_le_one (metric_tag config.metric);
      dimension =
          unfold metadata_body in
          ap from_le_bytes (
            take_first 8 (to_le_bytes 8 config.dimension) sum
              (length-to_le_bytes 8 config.dimension))
          ∙ from_le-to_le 8 config.dimension (omega (arith, fits));
    }

decode-laid_out :
    (config : CollectionConfig) (bytes : List ℕ)
    → 0 < config.dimension
    → IsLaidOut config bytes
    → decode_metadata bytes ≡ ok config
unfolding decode_metadata
decode-laid_out config bytes pos h = ground (
  arith,
  h.whole,
  h.version,
  h.checked,
  h.dimension,
  (str_eq_iff (take 4 bytes) meta_magic).1 h.magic,
  ap parse_metric h.metric ∙ parse-metric_tag config.metric,
)

-- A configuration with a positive dimension of 64 bits is read back from the file that is written for
-- it.
pub decode-encode_metadata :
    (config : CollectionConfig)
    → 0 < config.dimension
    → config.dimension < 2 ^ 64
    → decode_metadata (encode_metadata config) ≡ ok config
decode-encode_metadata config pos fits =
    decode-laid_out config (encode_metadata config) pos (encode_metadata-IsLaidOut config fits)

metric_tag_injective : (a b : Metric) → metric_tag a ≡ metric_tag b → a ≡ b
unfolding metric_tag
metric_tag_injective cosine cosine e = refl
metric_tag_injective cosine dot_product e = absurd (omega (arith, e))
metric_tag_injective cosine euclidean e = absurd (omega (arith, e))
metric_tag_injective dot_product cosine e = absurd (omega (arith, e))
metric_tag_injective dot_product dot_product e = refl
metric_tag_injective dot_product euclidean e = absurd (omega (arith, e))
metric_tag_injective euclidean cosine e = absurd (omega (arith, e))
metric_tag_injective euclidean dot_product e = absurd (omega (arith, e))
metric_tag_injective euclidean euclidean e = refl

same_config_true : (a b : CollectionConfig) → same_config a b ≡ true → a ≡ b
unfolding same_config
same_config_true a b e =
    let metric = metric_tag_injective a.metric b.metric (ground (arith, e)) in
    let dimension : a.dimension ≡ b.dimension = ground (arith, e) in
    ap₂ (λ d m. record { dimension = d; metric = m }) dimension metric

same_config_refl : (a : CollectionConfig) → same_config a a ≡ true
unfolding same_config
same_config_refl a = ground arith

-- Opening a directory a second time keeps the file if the configuration is the one it was created
-- with, of a positive dimension of 64 bits, and is refused with any other.
pub ensure_metadata_twice :
    (config again : CollectionConfig)
    → 0 < config.dimension
    → config.dimension < 2 ^ 64
    → ((config ≡ again)
        × (ensure_metadata (some (encode_metadata config)) again ≡ ok (encode_metadata config)))
      ⊎ ((config ≢ again)
          × (ensure_metadata (some (encode_metadata config)) again
              ≡ err (
                  invalid_config
                    (text "requested configuration differs from persisted collection"))))
unfolding ensure_metadata
ensure_metadata_twice config again pos fits = elim (Bool-cases (same_config config again)) [
  | inl e ↦ inl (
    same_config_true config again e,
    rw (ensure_metadata, decode-encode_metadata config pos fits, e) refl,
  )
  | inr e ↦ inr (
    λ same.
        let kept = subst (λ x. same_config config x ≡ true) same (same_config_refl config) in
        absurd cc,
    rw (ensure_metadata, decode-encode_metadata config pos fits, e) refl,
  )
]
