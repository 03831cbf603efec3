-- ===== src/Sharding.antt =====
-- src/sharding.rs: a collection spread over shards by a hash of the ID. A shard is a persistent
-- collection that has no index segments yet, as before its first flush; the fault of each shard's write
-- is an argument. The threads of a search share nothing that they change, and run in turn here.
pub mod Routing
pub mod Merge
use Prim.Native.Nat.{bit_xor}
use focal_vector.Base.{
  ℕ, zero, suc, ◌+◌, ◌*◌, ◌%◌, ◌^◌, Bool, true, false, not, Option, none, some, List, [], ◌∷◌, ◌++◌,
  length, map, take, any, is_empty, ltb, ◌==◌, if◌then◌else◌,
}
use focal_vector.Outcome.{
  text, Error, invalid_query, invalid_dimension, Result, ok, err, ◌>>=◌, ◌>>◌, reject_if,
}
use focal_vector.Str.{Str}
use focal_vector.Float.{F32, FloatOps}
use focal_vector.Filter.{Filter}
use focal_vector.Sort.TopK.{best}
use focal_vector.Point.{CollectionConfig, UpsertPoint, SearchHit, compare_hits}
use focal_vector.Collection
use focal_vector.Collection.{Collection}
use focal_vector.Wal.{WriteFault}
use focal_vector.Persistent
use focal_vector.Persistent.{PersistentCollection}

unfoldable pub hash_step : ℕ → ℕ → ℕ
hash_step hash byte = (bit_xor hash byte * 0x100000001b3) % 2 ^ 64

unfoldable pub hash_from : ℕ → List ℕ → ℕ
unfolding hash_step
hash_from hash [] = hash
hash_from hash (byte ∷ bytes) = hash_from (hash_step hash byte) bytes

unfoldable pub stable_hash : List ℕ → ℕ
unfolding hash_from
stable_hash bytes = hash_from 0xcbf29ce484222325 bytes

-- The shard count is positive, as the assertion says.
unfoldable pub shard_index : Str → ℕ → ℕ
unfolding stable_hash
shard_index id zero = 0
shard_index id (suc n) = stable_hash id % suc n

module _ {ℓ} {A : Type ℓ} where
  -- `batches[i].push(x)`
  unfoldable pub push_at : ℕ → A → List (List A) → List (List A)
  push_at i x [] = []
  push_at zero x (b ∷ bs) = (b ++ x ∷ []) ∷ bs
  push_at (suc i) x (b ∷ bs) = b ∷ push_at i x bs

  unfoldable pub distribute : (A → ℕ) → List A → List (List A) → List (List A)
  unfolding push_at
  distribute shard [] batches = batches
  distribute shard (x ∷ xs) batches = distribute shard xs (push_at (shard x) x batches)

  -- `vec![Vec::new(); n]`
  unfoldable pub no_batches : ℕ → List (List A)
  no_batches zero = []
  no_batches (suc n) = [] ∷ no_batches n

pub record ShardCommit : Type 0 where
  pub shard : ℕ
  pub sequence : ℕ
  pub affected_points : ℕ

-- The loop over the batches: the first failure ends it, and the shards before it are changed.
unfoldable pub commit_batches {ℓ} :
    {A : Type ℓ} (step : ℕ → PersistentCollection → List A → PersistentCollection × Result ℕ)
    (i : ℕ)
    → List PersistentCollection
    → List (List A)
    → List PersistentCollection × Result (List ShardCommit)
commit_batches step i [] batches = ([], ok [])
commit_batches step i (s ∷ shards) [] = (s ∷ shards, ok [])
commit_batches step i (s ∷ shards) (batch ∷ batches) =
    let (rest, later) = commit_batches step (i + 1) shards batches in
    if is_empty batch
    then (s ∷ rest, later)
    else (let (s', result) = step i s batch in
        elim result [
          | err e ↦ (s' ∷ shards, err e)
          | ok sequence ↦ (
            s' ∷ rest,
            later >>= λ commits. ok (
                record { shard = i; sequence = sequence; affected_points = length batch }
                ∷ commits),
          )
        ])

module _ (fl : FloatOps) where
  unfoldable pub validate_points : CollectionConfig → List UpsertPoint → Result (Unit {0})
  validate_points config points = do
    validator ← Collection.new config
    (Collection.upsert fl validator points).1 >>= λ _. ok tt

  unfoldable pub upsert :
      CollectionConfig
      → (ℕ → Option WriteFault)
      → List PersistentCollection
      → List UpsertPoint
      → List PersistentCollection × Result (List ShardCommit)
  unfolding validate_points shard_index distribute no_batches commit_batches
  upsert config faults shards points =
      elim (reject_if (is_empty points) (invalid_query (text "upsert batch must not be empty"))
        >> validate_points config points) [
          | err e ↦ (shards, err e)
          | ok _ ↦
              commit_batches (λ i s batch. Persistent.upsert fl (faults i) s batch) 0 shards
                (distribute (λ (p : UpsertPoint). shard_index p.id (length shards)) points
                  (no_batches (length shards)))
        ]

  unfoldable pub delete :
      (ℕ → Option WriteFault)
      → List PersistentCollection
      → List Str
      → List PersistentCollection × Result (List ShardCommit)
  unfolding shard_index distribute no_batches commit_batches
  delete faults shards ids = elim (Persistent.check_ids ids) [
    | err e ↦ (shards, err e)
    | ok _ ↦
        commit_batches (λ i s batch. Persistent.delete (faults i) s batch) 0 shards
          (distribute (λ id. shard_index id (length shards)) ids (no_batches (length shards)))
  ]

  -- `search_with_ef` of a shard without segments
  unfoldable pub search_shard :
      PersistentCollection → List F32 → ℕ → Option Filter → ℕ → Result (List SearchHit)
  search_shard s query k filter ef_search = do
    reject_if (ltb ef_search k) (invalid_query (text "ef_search must be at least k"))
    Collection.search fl s.inner query k filter

  unfoldable pub search_each :
      List PersistentCollection → List F32 → ℕ → Option Filter → ℕ → Result (List SearchHit)
  unfolding search_shard
  search_each [] query k filter ef_search = ok []
  search_each (s ∷ shards) query k filter ef_search = do
    hits ← search_shard s query k filter ef_search
    rest ← search_each shards query k filter ef_search
    ok (hits ++ rest)

  unfoldable pub search :
      CollectionConfig
      → List PersistentCollection
      → List F32
      → ℕ
      → Option Filter
      → ℕ
      → Result (List SearchHit)
  unfolding search_each
  search config shards query k filter ef_search = do
    reject_if (k == 0) (invalid_query (text "k must be greater than zero"))
    reject_if (not (length query == config.dimension))
        (invalid_dimension config.dimension (length query))
    hits ← search_each shards query k filter ef_search
    ok (best compare_hits k hits)
