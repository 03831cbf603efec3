-- ===== src/Metric.antt =====
-- src/metric.rs: preparing a vector for a metric, and the score of two vectors.
use focal_vector.Base.{
  Bool, true, false, not, ◌||◌, ◌≡◌, List, [], ◌∷◌, map, length, length-map, any, if◌then◌else◌,
  arith,
}
use focal_vector.Outcome.{text, invalid_vector, Result, ok, ◌>>◌, reject_if}
use focal_vector.Float.{F32, F64, is_finite32, is_finite64, is_zero64, FloatOps}

pub data Metric : Type 0 where
  cosine dot_product euclidean : Metric

-- `self == Self::Cosine`
abbrev pub is_cosine : Metric → Bool
is_cosine cosine = true
is_cosine dot_product = false
is_cosine euclidean = false

-- `slice::chunks_exact(4).remainder()`
unfoldable pub remainder4 {ℓ} : {A : Type ℓ} → List A → List A
remainder4 (a ∷ b ∷ c ∷ d ∷ rest) = remainder4 rest
remainder4 short = short

pub record Sums {ℓ} (A : Type ℓ) : Type ℓ where
  pub s0 : A
  pub s1 : A
  pub s2 : A
  pub s3 : A

-- The loop over two lists of chunks of four, with four accumulators.
unfoldable pub chunk_loop {ℓ κ} :
    {A : Type ℓ} {S : Type κ} → (S → A → A → S) → Sums S → List A → List A → Sums S
chunk_loop step sums (a ∷ b ∷ c ∷ d ∷ left) (e ∷ f ∷ g ∷ h ∷ right) =
    chunk_loop step
      (record {
        s0 = step sums.s0 a e;
        s1 = step sums.s1 b f;
        s2 = step sums.s2 c g;
        s3 = step sums.s3 d h;
      })
      left right
chunk_loop step sums left right = sums

abbrev pub sums_list {ℓ} : {A : Type ℓ} → Sums A → List A
sums_list s = s.s0 ∷ s.s1 ∷ s.s2 ∷ s.s3 ∷ []

-- `zip` and `map` with a function of two arguments
unfoldable pub zip_with {ℓ κ} : {A : Type ℓ} {B : Type κ} → (A → A → B) → List A → List A → List B
zip_with f [] ys = []
zip_with f (x ∷ xs) [] = []
zip_with f (x ∷ xs) (y ∷ ys) = f x y ∷ zip_with f xs ys

module _ (fl : FloatOps) where
  squared_norm : List F32 → F64
  squared_norm vector = fl.sum64 (map (λ v. fl.mul64 (fl.widen v) (fl.widen v)) vector)

  -- the squared norm is checked before the vector is scaled
  normalize : List F32 → Result (List F32)
  unfolding squared_norm
  normalize vector = do
    reject_if (is_zero64 (squared_norm vector) || not (is_finite64 (squared_norm vector)))
        (invalid_vector (text "cosine similarity requires a finite, non-zero norm"))
    let inverse_norm = fl.narrow (fl.recip64 (fl.sqrt64 (squared_norm vector)))
    ok (map (λ v. fl.mul32 v inverse_norm) vector)

  unfoldable pub prepare : Metric → List F32 → Result (List F32)
  unfolding normalize
  prepare metric vector = do
    reject_if (any (λ v. not (is_finite32 v)) vector)
        (invalid_vector (text "components must be finite"))
    if is_cosine metric then normalize vector else ok vector

  pub dot : List F32 → List F32 → F32
  dot left right =
      fl.add32
        (fl.sum32 (
          sums_list (
            chunk_loop (λ s a b. fl.add32 s (fl.mul32 a b))
              (record { s0 = 0; s1 = 0; s2 = 0; s3 = 0 }) left right)))
        (fl.sum32 (zip_with fl.mul32 (remainder4 left) (remainder4 right)))

  pub squared_distance : List F32 → List F32 → F32
  squared_distance left right =
      let square = λ (a b : F32). fl.mul32 (fl.sub32 a b) (fl.sub32 a b) in
      fl.add32
        (fl.sum32 (
          sums_list (
            chunk_loop (λ s a b. fl.add32 s (square a b))
              (record { s0 = 0; s1 = 0; s2 = 0; s3 = 0 }) left right)))
        (fl.sum32 (zip_with square (remainder4 left) (remainder4 right)))

  unfoldable pub score : Metric → List F32 → List F32 → F32
  unfolding dot squared_distance
  score cosine query candidate = dot query candidate
  score dot_product query candidate = dot query candidate
  score euclidean query candidate = fl.neg32 (squared_distance query candidate)

  -- Preparing keeps the number of components.
  pub length-prepare :
      (metric : Metric) (vector : List F32) {out : List F32}
      → prepare metric vector ≡ ok out
      → length out ≡ length vector
  unfolding prepare
  length-prepare metric vector h = ground (
    arith,
    length-map (λ v. fl.mul32 v (fl.narrow (fl.recip64 (fl.sqrt64 (squared_norm vector))))) vector,
  )
