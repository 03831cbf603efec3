-- ===== src/Codec/Decoder.antt =====
-- src/persistence.rs, `Decoder`: a cursor over a payload, and the readers on it.
use focal_vector.Base.{
  ℕ, zero, suc, ◌+◌, ◌-◌, ◌^◌, Bool, true, false, List, [], ◌∷◌, length, take, drop, ltb, leb, ◌==◌,
  if◌then◌else◌,
}
use focal_vector.Outcome.{Message, text, numbers, corrupt_storage, Result, ok, err}
use focal_vector.Bytes.{from_le_bytes}
use focal_vector.Str.{Str, str_cmp, is_utf8}
use focal_vector.Float.{F32, is_finite32, is_finite64}
use focal_vector.Map.{tree_insert}
use focal_vector.Filter.{Value, keyword, integer, float, boolean, Metadata}
use focal_vector.Point.{UpsertPoint}

pub record Decoder : Type 0 where
  pub bytes : List ℕ
  pub position : ℕ

abbrev pub start : List ℕ → Decoder
start bytes = record { bytes = bytes; position = 0 }

abbrev pub usize_max : ℕ
usize_max = 2 ^ 64 - 1

abbrev pub max_items : ℕ
max_items = 1_000_000

-- A method of the decoder moves its cursor; after an error the decoder is dropped.
abbrev pub Reader {ℓ} : Type ℓ → Type ℓ
Reader A = Decoder → Result (A × Decoder)

module _ {ℓ} {A : Type ℓ} where
  unfoldable pub pure : A → Reader A
  pure a d = ok (a, d)

  unfoldable pub fail : Message → Reader A
  fail m d = err (corrupt_storage m)

module _ {ℓ} {A B : Type ℓ} where
  infixl 5 ◌>>=◌
  unfoldable pub ◌>>=◌ : Reader A → (A → Reader B) → Reader B
  ◌>>=◌ m f d = elim (m d) [ ok (a, d') ↦ f a d' | err e ↦ err e ]

unfoldable pub take_bytes : ℕ → Reader (List ℕ)
take_bytes n d =
    let end = d.position + n in
    if ltb usize_max end
    then err (corrupt_storage (text "WAL length overflow"))
    else if leb end (length d.bytes)
    then ok (take n (drop d.position d.bytes), record d { position = end })
    else err (corrupt_storage (text "truncated WAL payload"))

-- `self.take(1)?[0]`
unfoldable pub byte : Reader ℕ
byte = do bytes ← take_bytes 1; pure (from_le_bytes bytes)

unfoldable pub u32 : Reader ℕ
u32 = do bytes ← take_bytes 4; pure (from_le_bytes bytes)

unfoldable pub u64 : Reader ℕ
u64 = do bytes ← take_bytes 8; pure (from_le_bytes bytes)

unfoldable pub checked {ℓ} : {A : Type ℓ} → Bool → Message → A → Reader A
checked true m a = pure a
checked false m a = fail m

unfoldable pub f32 : Reader F32
f32 = do bits ← u32; checked (is_finite32 bits) (text "non-finite vector component") bits

unfoldable pub count : Reader ℕ
count = do n ← u32; checked (leb n max_items) (text "WAL item count exceeds limit") n

unfoldable pub string : Reader Str
string = do
  length ← count
  bytes ← take_bytes length
  checked (is_utf8 bytes) (text "WAL contains invalid UTF-8") bytes

bool_of : ℕ → Reader Value
bool_of tag =
    if tag == 0
    then pure (boolean false)
    else if tag == 1
    then pure (boolean true)
    else fail (text "invalid boolean encoding")

unfoldable pub value_of : ℕ → Reader Value
unfolding bool_of
value_of tag =
    if tag == 1
    then (do s ← string; pure (keyword s))
    else if tag == 2
    then (do n ← u64; pure (integer n))
    else if tag == 3
    then (do bits ← u64; checked (is_finite64 bits) (text "non-finite metadata float") (float bits))
    else if tag == 4
    then (do b ← byte; bool_of b)
    else fail (numbers "unknown metadata value tag {tag}" (tag ∷ []))

unfoldable pub value : Reader Value
value = do tag ← byte; value_of tag

unfoldable pub finish : Decoder → Result (Unit {0})
finish d =
    if d.position == length d.bytes
    then ok tt
    else err (corrupt_storage (text "trailing bytes in WAL payload"))

-- The loops of `apply_payload`, each on the number of rounds left.
unfoldable pub repeated {ℓ} : {A : Type ℓ} → ℕ → Reader A → Reader (List A)
repeated zero p = pure []
repeated (suc n) p = do x ← p; xs ← repeated n p; pure (x ∷ xs)

unfoldable pub entries : ℕ → Metadata → Reader Metadata
entries zero m = pure m
entries (suc n) m = do key ← string; v ← value; entries n (tree_insert str_cmp key v m)

unfoldable pub point : ℕ → Reader UpsertPoint
point collection_dimension = do
  id ← string
  dimension ← count
  fits ←
      checked (dimension == collection_dimension)
        (numbers "stored vector dimension {} differs from collection dimension {}"
          (dimension ∷ collection_dimension ∷ []))
        dimension
  vector ← repeated fits f32
  metadata_count ← count
  metadata ← entries metadata_count []
  pure (record { id = id; vector = vector; metadata = metadata })

-- The fields in front of the operation's own, and the items of either operation.
unfoldable pub payload_header : Reader (ℕ × ℕ)
payload_header = do operation ← byte; sequence ← u64; pure (operation, sequence)

unfoldable pub payload_points : ℕ → Reader (List UpsertPoint)
payload_points dimension = do n ← count; repeated n (point dimension)

unfoldable pub some_ids : ℕ → Reader (List Str)
some_ids n = if n == 0 then fail (text "empty delete WAL record") else repeated n string

unfoldable pub payload_ids : Reader (List Str)
unfolding some_ids
payload_ids = do n ← count; some_ids n
