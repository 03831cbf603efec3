-- ===== src/Hnsw/Vectors.antt =====
-- src/hnsw.rs: vectors as numbers or as codes of eight bits with a scale, the arena that keeps them by
-- node, and the score of two of them. An integer of the machine is its bits, in two's complement.
use focal_vector.Base.{
  ℕ, Bool, List, [], ◌∷◌, ◌++◌, ◌+◌, ◌-◌, ◌*◌, ◌%◌, ◌^◌, ◌&&◌, none, some, ltb, leb, if◌then◌else◌,
  length, take, drop, map, get_elem?,
}
use focal_vector.Outcome.{text, corrupt_storage, Result, ok, err}
use focal_vector.Float.{F32, FloatOps}
use focal_vector.Metric.{
  Metric, cosine, dot_product, euclidean, chunk_loop, remainder4, zip_with, sums_list,
}
use focal_vector.Metric as Metric

abbrev pub I8 : Type 0
I8 = ℕ

abbrev pub I64 : Type 0
I64 = ℕ

-- Arithmetic on `f32` and conversions that only this file uses. A code is what `round`, `clamp` to ±127
-- and the cast to `i8` make of a number.
pub record QuantOps : Type 0 where
  pub div32 : F32 → F32 → F32
  pub max32 : F32 → F32 → F32
  pub sqrt32 : F32 → F32
  pub of_i64 : I64 → F32
  pub code : F32 → I8

-- `i64::from` of an `i8`
unfoldable pub widen_i8 : I8 → I64
widen_i8 b = if ltb b 128 then b else b + (2 ^ 64 - 256)

abbrev pub add_i64 : I64 → I64 → I64
add_i64 a b = (a + b) % 2 ^ 64

abbrev pub mul_i64 : I64 → I64 → I64
mul_i64 a b = (a * b) % 2 ^ 64

-- the product of two codes
unfoldable pub code_product : I8 → I8 → I64
unfolding widen_i8
code_product a b = mul_i64 (widen_i8 a) (widen_i8 b)

abbrev pub sum_i64 : List I64 → I64
sum_i64 [] = 0
sum_i64 (x ∷ xs) = add_i64 x (sum_i64 xs)

-- `quantized_integer_dot_portable`
unfoldable pub integer_dot : List I8 → List I8 → I64
unfolding code_product chunk_loop zip_with remainder4
integer_dot left right =
    add_i64
      (sum_i64 (
        sums_list (
          chunk_loop (λ s a b. add_i64 s (code_product a b))
            (record { s0 = 0; s1 = 0; s2 = 0; s3 = 0 }) left right)))
      (sum_i64 (zip_with code_product (remainder4 left) (remainder4 right)))

-- the plain loop over one list of codes
unfoldable pub square_sum : I64 → List I8 → I64
unfolding code_product
square_sum sum [] = sum
square_sum sum (b ∷ bs) = square_sum (add_i64 sum (code_product b b)) bs

-- `value.abs()`: without the sign's bit
abbrev pub abs32 : F32 → F32
abs32 b = b % 2 ^ 31

-- `value > 0.0`: up to the pattern of infinity
abbrev pub is_positive32 : F32 → Bool
is_positive32 b = ltb 0 b && leb b 0x7f800000

pub data VectorStorage : Type 0 where
  full scalar_int8 : VectorStorage

pub record QuantizedVector : Type 0 where
  pub codes : List I8
  pub scale : F32
  pub squared_norm : F32

-- `PreparedVector`, and `VectorRef`, which borrows the same fields
pub data PreparedVector : Type 0 where
  plain : List F32 → PreparedVector
  quantized : QuantizedVector → PreparedVector

-- `VectorArena`. The mapped codes are read from the bytes of the mapping at each node's offset.
pub data VectorArena : Type 0 where
  plain_arena : List F32 → VectorArena
  code_arena : List I8 → List F32 → List F32 → VectorArena
  mapped_arena : List I8 → List ℕ → List F32 → List F32 → VectorArena

abbrev pub empty_arena : VectorStorage → VectorArena
empty_arena full = plain_arena []
empty_arena scalar_int8 = code_arena [] [] []

unfoldable pub storage : VectorArena → VectorStorage
storage (plain_arena vectors) = full
storage (code_arena codes scales norms) = scalar_int8
storage (mapped_arena bytes offsets scales norms) = scalar_int8

-- A vector of the other storage would panic; here it leaves the arena as it is.
unfoldable pub push : VectorArena → PreparedVector → VectorArena
push (plain_arena vectors) (plain vector) = plain_arena (vectors ++ vector)
push (code_arena codes scales norms) (quantized v) =
    code_arena (codes ++ v.codes) (scales ++ v.scale ∷ []) (norms ++ v.squared_norm ∷ [])
push arena v = arena

unfoldable pub push_mapped : VectorArena → ℕ → F32 → F32 → Result VectorArena
push_mapped (mapped_arena bytes offsets scales norms) offset scale squared_norm = ok (
    mapped_arena bytes (offsets ++ offset ∷ []) (scales ++ scale ∷ []) (norms ++ squared_norm ∷ []))
push_mapped (plain_arena vectors) offset scale squared_norm =
    err (corrupt_storage (text "mapped vector was decoded into an owned arena"))
push_mapped (code_arena codes scales norms) offset scale squared_norm =
    err (corrupt_storage (text "mapped vector was decoded into an owned arena"))

-- `values[index]`, which would panic out of range
abbrev pub at_or_zero : List ℕ → ℕ → ℕ
at_or_zero xs i = elim (get_elem? xs i) [ none ↦ 0 | some x ↦ x ]

abbrev slice : ℕ → ℕ → List ℕ → List ℕ
slice start size xs = take size (drop start xs)

unfoldable pub get : VectorArena → ℕ → ℕ → PreparedVector
get (plain_arena vectors) node dimension = plain (slice (node * dimension) dimension vectors)
get (code_arena codes scales norms) node dimension = quantized (record {
  codes = slice (node * dimension) dimension codes;
  scale = at_or_zero scales node;
  squared_norm = at_or_zero norms node;
})
get (mapped_arena bytes offsets scales norms) node dimension = quantized (record {
  codes = slice (at_or_zero offsets node) dimension bytes;
  scale = at_or_zero scales node;
  squared_norm = at_or_zero norms node;
})

unfoldable pub component_bytes : VectorArena → ℕ
component_bytes (plain_arena vectors) = length vectors * 4
component_bytes (code_arena codes scales norms) =
    length codes + length scales * 4 + length norms * 4
component_bytes (mapped_arena bytes offsets scales norms) =
    length offsets * 8 + length scales * 4 + length norms * 4

module _ (fl : FloatOps) (qo : QuantOps) where
  unfoldable pub quantized_dot : List I8 → F32 → List I8 → F32 → F32
  unfolding integer_dot
  quantized_dot left left_scale right right_scale =
      fl.mul32 (fl.mul32 (qo.of_i64 (integer_dot left right)) left_scale) right_scale

  unfoldable pub quantized_squared_norm : List I8 → F32 → F32
  unfolding quantized_dot
  quantized_squared_norm codes scale = quantized_dot codes scale codes scale

  -- The same of bytes, by a plain loop.
  unfoldable pub quantized_squared_norm_bytes : List ℕ → F32 → F32
  unfolding square_sum
  quantized_squared_norm_bytes bytes scale =
      fl.mul32 (fl.mul32 (qo.of_i64 (square_sum 0 bytes)) scale) scale

  unfoldable pub max_abs : F32 → List F32 → F32
  max_abs maximum [] = maximum
  max_abs maximum (v ∷ vs) = max_abs (qo.max32 maximum (abs32 v)) vs

  -- `QuantizedVector::new`; 127.0 and 1.0 are 0x42fe0000 and 0x3f800000.
  unfoldable pub quantize : List F32 → QuantizedVector
  unfolding max_abs quantized_squared_norm
  quantize vector =
      let maximum = max_abs 0 vector in
      let scale = if is_positive32 maximum then qo.div32 maximum 0x42fe0000 else 0x3f800000 in
      let codes = map (λ v. qo.code (qo.div32 v scale)) vector in
      record { codes = codes; scale = scale; squared_norm = quantized_squared_norm codes scale }

  -- `PreparedVector::new`
  unfoldable pub prepared_vector : VectorStorage → List F32 → PreparedVector
  unfolding quantize
  prepared_vector full vector = plain vector
  prepared_vector scalar_int8 vector = quantized (quantize vector)

  unfoldable pub metric_score : Metric → F32 → F32 → F32 → F32
  metric_score cosine dot left_norm right_norm =
      let denominator = qo.sqrt32 (fl.mul32 left_norm right_norm) in
      if is_positive32 denominator then qo.div32 dot denominator else 0
  metric_score dot_product dot left_norm right_norm = dot
  metric_score euclidean dot left_norm right_norm =
      fl.neg32 (qo.max32 (fl.sub32 (fl.add32 left_norm right_norm) (fl.mul32 0x40000000 dot)) 0)

  -- Two representations would panic; here they score zero.
  unfoldable pub score_vectors : Metric → PreparedVector → PreparedVector → F32
  unfolding quantized_dot metric_score Metric.score
  score_vectors metric (plain left) (plain right) = Metric.score fl metric left right
  score_vectors metric (quantized left) (quantized right) =
      metric_score metric (quantized_dot left.codes left.scale right.codes right.scale)
        left.squared_norm right.squared_norm
  score_vectors metric left right = 0
