-- ===== src/Codec/Encoder.antt =====
-- src/persistence.rs: the writers of WAL payloads. Each appends to its output.
use focal_vector.Base.{
  ℕ, ◌-◌, ◌^◌, Bool, true, false, List, [], ◌∷◌, ◌++◌, length, leb, if◌then◌else◌,
}
use focal_vector.Outcome.{text, invalid_query, Result, ok, err, ◌>>=◌}
use focal_vector.Bytes.{to_le_bytes}
use focal_vector.Str.{Str}
use focal_vector.Float.{is_finite64}
use focal_vector.Filter.{Value, keyword, integer, float, boolean}
use focal_vector.Point.{StoredPoint}

abbrev pub Writer : Type 0
Writer = List ℕ → Result (List ℕ)

-- one writer after another
infixr 6 ◌then_write◌
unfoldable pub ◌then_write◌ : Writer → Writer → Writer
◌then_write◌ f g out = f out >>= g

unfoldable pub put_bytes : List ℕ → Writer
put_bytes bytes out = ok (out ++ bytes)

-- `u32::try_from(count)`
unfoldable pub put_count : ℕ → Writer
unfolding put_bytes
put_count n out =
    if leb n (2 ^ 32 - 1)
    then put_bytes (to_le_bytes 4 n) out
    else err (invalid_query (text "batch is too large"))

unfoldable pub put_string : Str → Writer
unfolding ◌then_write◌ put_count
put_string s = put_count (length s) then_write put_bytes s

abbrev pub bool_byte : Bool → ℕ
bool_byte true = 1
bool_byte false = 0

unfoldable pub encode_value : Value → Writer
unfolding put_string
encode_value (keyword s) = put_bytes (1 ∷ []) then_write put_string s
encode_value (integer n) = put_bytes (2 ∷ []) then_write put_bytes (to_le_bytes 8 n)
encode_value (float bits) =
    if is_finite64 bits
    then put_bytes (3 ∷ []) then_write put_bytes (to_le_bytes 8 bits)
    else (λ out. err (invalid_query (text "metadata floats must be finite")))
encode_value (boolean b) = put_bytes (4 ∷ []) then_write put_bytes (bool_byte b ∷ [])

-- a loop over the items
unfoldable pub put_each {ℓ} : {A : Type ℓ} → (A → Writer) → List A → Writer
put_each f [] out = ok out
put_each f (x ∷ xs) out = f x out >>= put_each f xs

unfoldable pub put_entry : Str × Value → Writer
unfolding encode_value
put_entry (key, v) = put_string key then_write encode_value v

unfoldable pub put_point : StoredPoint → Writer
unfolding put_entry put_each
put_point p =
    put_string p.id
    then_write put_count (length p.vector)
    then_write put_each (λ v. put_bytes (to_le_bytes 4 v)) p.vector
    then_write put_count (length p.metadata)
    then_write put_each put_entry p.metadata

unfoldable pub encode_upsert : ℕ → List StoredPoint → Result (List ℕ)
unfolding put_point
encode_upsert sequence points =
    (put_bytes (1 ∷ [])
        then_write put_bytes (to_le_bytes 8 sequence)
        then_write put_count (length points)
        then_write put_each put_point points)
      []

unfoldable pub encode_delete : ℕ → List Str → Result (List ℕ)
unfolding put_string put_each
encode_delete sequence ids =
    (put_bytes (2 ∷ [])
        then_write put_bytes (to_le_bytes 8 sequence)
        then_write put_count (length ids)
        then_write put_each put_string ids)
      []
