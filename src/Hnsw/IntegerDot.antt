-- ===== src/Hnsw/IntegerDot.antt =====
-- The product of codes in chunks of four against the plain sum of products.
use focal_vector.Base.{List, [], ◌∷◌, ◌^◌, ◌≡◌, refl, ap, ◌∙◌, sym, length, arith, ◌<◌}
use focal_vector.Metric.{Sums, chunk_loop, remainder4, zip_with, sums_list}
use focal_vector.Float.{F32, FloatOps}
use focal_vector.Hnsw.Vectors.{
  QuantOps, I8, I64, add_i64, sum_i64, code_product, integer_dot, square_sum, quantized_dot,
  quantized_squared_norm, quantized_squared_norm_bytes,
}

-- Each product counts once, in the order of the components.
unfoldable pub plain_dot : List I8 → List I8 → I64
unfolding zip_with
plain_dot left right = sum_i64 (zip_with code_product left right)

abbrev rest_sum : List I8 → List I8 → I64
rest_sum left right = sum_i64 (zip_with code_product (remainder4 left) (remainder4 right))

abbrev chunk_sum : Sums I64 → List I8 → List I8 → I64
chunk_sum s left right =
    sum_i64 (sums_list (chunk_loop (λ s a b. add_i64 s (code_product a b)) s left right))

sum_i64_range : (xs : List I64) → sum_i64 xs < 2 ^ 64
sum_i64_range [] = omega arith
sum_i64_range (x ∷ xs) = omega arith

plain_dot_range : (left right : List I8) → plain_dot left right < 2 ^ 64
unfolding plain_dot
plain_dot_range left right = sum_i64_range (zip_with code_product left right)

-- From any four sums that are in range.
chunk_sum_from :
    (left right : List I8) (s : Sums I64)
    → length left ≡ length right
    → add_i64 (chunk_sum s left right) (rest_sum left right)
      ≡ add_i64 (sum_i64 (sums_list s)) (plain_dot left right)
unfolding plain_dot zip_with chunk_loop remainder4
chunk_sum_from (a ∷ b ∷ c ∷ d ∷ left) (e ∷ f ∷ g ∷ h ∷ right) s l =
    let next : Sums I64 = record {
      s0 = add_i64 s.s0 (code_product a e);
      s1 = add_i64 s.s1 (code_product b f);
      s2 = add_i64 s.s2 (code_product c g);
      s3 = add_i64 s.s3 (code_product d h);
    } in
    chunk_sum_from left right next (omega arith) ∙ omega arith
chunk_sum_from [] [] s l = refl
chunk_sum_from left right s l = ground arith

-- The four accumulators and the remainder give, for lists of one length, the sum of all the products, in
-- the arithmetic of 64 bits.
pub integer_dot-eq-plain_dot :
    (left right : List I8)
    → length left ≡ length right
    → integer_dot left right ≡ plain_dot left right
unfolding integer_dot
integer_dot-eq-plain_dot left right l =
    chunk_sum_from left right (record { s0 = 0; s1 = 0; s2 = 0; s3 = 0 }) l
    ∙ omega (arith, plain_dot_range left right)

square_sum_from :
    (sum : I64) (bytes : List I8)
    → sum < 2 ^ 64
    → square_sum sum bytes ≡ add_i64 sum (plain_dot bytes bytes)
unfolding square_sum plain_dot zip_with
square_sum_from sum [] r = omega arith
square_sum_from sum (b ∷ bs) r =
    square_sum_from (add_i64 sum (code_product b b)) bs (omega arith) ∙ omega arith

module _ (fl : FloatOps) (qo : QuantOps) where
  -- The norm of codes that stay in the mapping is that of codes that are copied.
  pub quantized_squared_norm_bytes-eq :
      (codes : List I8) (scale : F32)
      → quantized_squared_norm_bytes fl qo codes scale ≡ quantized_squared_norm fl qo codes scale
  unfolding quantized_squared_norm_bytes quantized_squared_norm quantized_dot
  quantized_squared_norm_bytes-eq codes scale =
      ap (λ n. fl.mul32 (fl.mul32 (qo.of_i64 n) scale) scale)
        (square_sum_from 0 codes (omega arith)
          ∙ omega (arith, plain_dot_range codes codes)
          ∙ sym (integer_dot-eq-plain_dot codes codes refl))
