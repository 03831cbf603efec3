-- ===== src/Sharding/Routing.antt =====
-- Which shard a request's items go to.
use focal_vector.Base.{
  ℕ, zero, suc, Bool, true, false, not, ◌||◌, any, is_empty, length, subst, ◌<◌, ◌≡◌, refl, ap, ◌∙◌,
  sym, Option, some, List, [], ◌∷◌, ◌++◌, arith, ◌==◌, keep, get_elem?, append_assoc, append-nil,
  if◌then◌else◌, Bool-cases, inl, inr,
}
use focal_vector.Outcome.{Error, ok, err, >>=-ok, Result-cases}
use focal_vector.Str.{Str}
use focal_vector.Float.{F32, is_finite32, FloatOps}
use focal_vector.Metric.{Metric, prepare}
use focal_vector.Collection
use focal_vector.Collection.{Collection}
use focal_vector.Collection.Batch.{ArePrepared, none_left, next, upsert-ok, prepare_upsert-ok}
use focal_vector.Point.{CollectionConfig, UpsertPoint, StoredPoint}
use focal_vector.Wal.{WriteFault}
use focal_vector.Persistent.{PersistentCollection}
use focal_vector.Sharding.{shard_index, push_at, distribute, no_batches, validate_points, upsert}

-- Every ID has a shard.
pub shard_index_range : (id : Str) (n : ℕ) → shard_index id (suc n) < suc n
unfolding shard_index
shard_index_range id n = omega arith

module _ {ℓ} {A : Type ℓ} where
  get-push_at :
      (i j : ℕ) (x : A) (batches : List (List A)) (b : List A)
      → get_elem? batches j ≡ some b
      → get_elem? (push_at i x batches) j ≡ some (if i == j then b ++ x ∷ [] else b)
  unfolding push_at
  get-push_at i j x [] b h = cc
  get-push_at zero zero x (c ∷ bs) b h = ground arith
  get-push_at zero (suc j) x (c ∷ bs) b h = ground arith
  get-push_at (suc i) zero x (c ∷ bs) b h = ground arith
  get-push_at (suc i) (suc j) x (c ∷ bs) b h = ground (arith, get-push_at i j x bs b)

  get-distribute :
      (shard : A → ℕ) (xs : List A) (batches : List (List A)) (j : ℕ) (b : List A)
      → get_elem? batches j ≡ some b
      → get_elem? (distribute shard xs batches) j ≡ some (b ++ keep (λ x. shard x == j) xs)
  unfolding distribute
  get-distribute shard [] batches j b h = h ∙ ap some (sym (append-nil b))
  get-distribute shard (x ∷ xs) batches j b h =
      let pushed = get-push_at (shard x) j x batches b h in
      let more = get-distribute shard xs (push_at (shard x) x batches) j in
      elim (Bool-cases (shard x == j)) [
        | inl e ↦
            more (b ++ x ∷ []) (pushed ∙ rw e)
            ∙ rw e (ap some (append_assoc b (x ∷ []) (keep (λ y. shard y == j) xs)))
        | inr e ↦ more b (pushed ∙ rw e) ∙ rw e
      ]

  get-no_batches : (n j : ℕ) → j < n → get_elem? (no_batches {A = A} n) j ≡ some []
  unfolding no_batches
  get-no_batches zero j h = ground (arith, h)
  get-no_batches (suc n) zero h = refl
  get-no_batches (suc n) (suc j) h = get-no_batches n j (omega (arith, h))

  -- Each shard gets the items whose hash picks it, all of them and in the order of the request.
  pub distribute_routes :
      (shard : A → ℕ) (xs : List A) (n j : ℕ)
      → j < n
      → get_elem? (distribute shard xs (no_batches n)) j ≡ some (keep (λ x. shard x == j) xs)
  distribute_routes shard xs n j h =
      get-distribute shard xs (no_batches n) j [] (get-no_batches n j h)

-- A point that the collection must not take: a wrong number of components, no ID, or a component that is
-- not finite.
abbrev pub is_malformed : CollectionConfig → UpsertPoint → Bool
is_malformed config p =
    not (length p.vector == config.dimension)
    || (is_empty p.id || any (λ v. not (is_finite32 v)) p.vector)

new-config :
    (config : CollectionConfig) (c : Collection) → Collection.new config ≡ ok c → c.config ≡ config
unfolding Collection.new
new-config config c h = ground (arith, h)

module _ (fl : FloatOps) where
  prepare-finite :
      (metric : Metric) (vector out : List F32)
      → prepare fl metric vector ≡ ok out
      → any (λ v. not (is_finite32 v)) vector ≡ false
  unfolding prepare
  prepare-finite metric vector out h = ground (arith, h)

  prepared_well :
      (config : CollectionConfig) (n : ℕ) (ps : List UpsertPoint) (qs : List StoredPoint)
      → ArePrepared fl config n ps qs
      → any (is_malformed config) ps ≡ false
  prepared_well config n _ _ none_left = refl
  prepared_well config n _ _ (next {p} {q} {ps} {qs} h r) = ground (
    arith,
    h.dimension,
    h.named,
    prepare-finite config.metric p.vector q.vector h.prepared,
    prepared_well config n ps qs r,
  )

  -- What the validator lets through has no malformed point.
  validate_points-ok :
      (config : CollectionConfig) (points : List UpsertPoint) (u : Unit {0})
      → validate_points fl config points ≡ ok u
      → any (is_malformed config) points ≡ false
  unfolding validate_points
  validate_points-ok config points u h =
      let (c, made, h') = >>=-ok (Collection.new config) _ h in
      let (n, done, h'') = >>=-ok (Collection.upsert fl c points).1 _ h' in
      let (qs, e, f, g) =
        upsert-ok fl c (Collection.upsert fl c points).0 points n
          (ap (λ r. ((Collection.upsert fl c points).0, r)) done) in
      subst (λ k. any (is_malformed k) points ≡ false) (new-config config c made)
        (prepared_well c.config n points qs (prepare_upsert-ok fl c.config n points qs f))

  -- A batch with a malformed point anywhere is refused as a whole: no shard changes.
  pub upsert_validates :
      (config : CollectionConfig) (faults : ℕ → Option WriteFault)
      (shards : List PersistentCollection) (points : List UpsertPoint)
      → any (is_malformed config) points ≡ true
      → (e : Error) × (upsert fl config faults shards points ≡ (shards, err e))
  unfolding upsert
  upsert_validates config faults shards [] bad = cc
  upsert_validates config faults shards (p ∷ ps) bad =
      elim (Result-cases (validate_points fl config (p ∷ ps))) [
        | inr (e, h) ↦ (e, rw (h, upsert))
        | inl (u, h) ↦ let good = validate_points-ok config (p ∷ ps) u h in absurd cc
      ]
