-- ===== src/Point.antt =====
-- src/collection.rs: the records of points and of search hits, and their order in a result.
-- `PointVector` is read through `as_slice`; `public_view`, a cache of `to_owned_point`, is not kept,
-- and so `Point` and `StoredPoint` are one type.
use Prim.Native.Nat.{Ordering}
use focal_vector.Base.{ℕ, List}
use focal_vector.Order.{
  IsPreorder, lexicographic, lexicographic-IsPreorder, flipped, flipped-IsPreorder, on,
  on-IsPreorder,
}
use focal_vector.Str.{Str, str_cmp, str_cmp-IsPreorder}
use focal_vector.Float.{F32, total_cmp32, total_cmp32-IsPreorder}
use focal_vector.Metric.{Metric}
use focal_vector.Filter.{Metadata}

pub record CollectionConfig : Type 0 where
  pub dimension : ℕ
  pub metric : Metric

pub record UpsertPoint : Type 0 where
  pub id : Str
  pub vector : List F32
  pub metadata : Metadata

pub record StoredPoint : Type 0 where
  pub id : Str
  pub vector : List F32
  pub metadata : Metadata
  pub sequence : ℕ

pub record SearchHit : Type 0 where
  pub id : Str
  pub score : F32
  pub metadata : Metadata
  pub sequence : ℕ

pub record RankedPoint : Type 0 where
  pub point : StoredPoint
  pub score : F32

abbrev score_and_id : F32 × Str → F32 × Str → Ordering
score_and_id = lexicographic (flipped (on total_cmp32 (λ e. e.0))) (on str_cmp (λ e. e.1))

score_and_id-IsPreorder : IsPreorder score_and_id
score_and_id-IsPreorder =
    lexicographic-IsPreorder _ _
      (flipped-IsPreorder _ (on-IsPreorder total_cmp32 (λ e. e.0) total_cmp32-IsPreorder))
      (on-IsPreorder str_cmp (λ e. e.1) str_cmp-IsPreorder)

-- `impl Ord for RankedPoint`: the higher score first, then the smaller ID.
unfoldable pub rank_cmp : RankedPoint → RankedPoint → Ordering
rank_cmp a b = score_and_id (a.score, a.point.id) (b.score, b.point.id)

-- `compare_hits` of src/sharding.rs, and the closure of each `merge_hits`.
unfoldable pub compare_hits : SearchHit → SearchHit → Ordering
compare_hits a b = score_and_id (a.score, a.id) (b.score, b.id)

pub rank_cmp-IsPreorder : IsPreorder rank_cmp
unfolding rank_cmp
rank_cmp-IsPreorder =
    on-IsPreorder score_and_id (λ (a : RankedPoint). (a.score, a.point.id)) score_and_id-IsPreorder

pub compare_hits-IsPreorder : IsPreorder compare_hits
unfolding compare_hits
compare_hits-IsPreorder =
    on-IsPreorder score_and_id (λ (a : SearchHit). (a.score, a.id)) score_and_id-IsPreorder
