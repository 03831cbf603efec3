-- ===== src/Tests/Memory.antt =====
-- Runs of the collection in memory.
use mathlib.Core.List.Perm
use focal_vector.Base.{◌+◌, ◌⊎◌, ◌<◌, ◌≡◌, refl, ap, subst, none, List, [], ◌∷◌, map, arith}
use focal_vector.Outcome.{sequence_overflow, invalid_query, text, ok, err}
use focal_vector.Metric.{dot_product, prepare}
use focal_vector.Float.{F32, is_finite32}
use focal_vector.Map.{hash_insert}
use focal_vector.Sort.TopK.{best}
use focal_vector.Point.{compare_hits}
use focal_vector.Collection
use focal_vector.Collection.{
  Collection, u64_max, next_sequence, prepare_upsert, prepare_each, prepare_point,
  apply_prepared_upsert, insert_all, upsert, get_stored, search,
}
use focal_vector.Collection.Batch.{
  ArePrepared, none_left, next, IsUpserted, upsert_commits, upsert_complete, upsert_atomic,
  IsDeleted, delete_commits,
}
use focal_vector.Collection.Validity.{IsValid, upsert-IsValid, delete-IsValid}
use focal_vector.Collection.Search.{scan, when_allowed, search-eq-scan, search-Perm}
use focal_vector.Codec.Payload.{sent}
use focal_vector.Persistent.{PersistentCollection}
use focal_vector.Persistent.Writes.{prepare_upsert_settled}
use focal_vector.Sharding
use focal_vector.Sharding.Merge.{scan_all, search-eq-scan_all}
use focal_vector.Tests.{arithmetic, one, config, name_a, point_a, stored_a, empty, one_point}

prepare_a : prepare arithmetic dot_product (one ∷ one ∷ []) ≡ ok (one ∷ one ∷ [])
unfolding prepare is_finite32
prepare_a = refl

upsert_a : upsert arithmetic empty (point_a ∷ []) ≡ (one_point, ok 1)
unfolding upsert next_sequence prepare_upsert prepare_each prepare_point prepare
    apply_prepared_upsert insert_all hash_insert is_finite32
upsert_a = refl

prepared_batch : prepare_upsert arithmetic config (point_a ∷ []) 1 ≡ ok (stored_a ∷ [])
unfolding prepare_upsert prepare_each prepare_point prepare is_finite32
prepared_batch = refl

-- An empty batch.
refused :
    upsert arithmetic empty []
    ≡ (empty, err (invalid_query (text "upsert batch must not be empty")))
unfolding upsert next_sequence prepare_upsert
refused = refl

are_prepared : ArePrepared arithmetic config 1 (point_a ∷ []) (stored_a ∷ [])
are_prepared =
    next
      (record {
        same_id = refl;
        same_metadata = refl;
        at_sequence = refl;
        dimension = refl;
        named = refl;
        prepared = prepare_a;
      })
      none_left

upsert_commits_example : IsUpserted arithmetic empty (point_a ∷ []) one_point 1
upsert_commits_example =
    upsert_commits arithmetic empty one_point (point_a ∷ []) 1 (omega arith) upsert_a

upsert_complete_example :
    upsert arithmetic empty (point_a ∷ []) ≡ (apply_prepared_upsert empty (stored_a ∷ []) 1, ok 1)
upsert_complete_example =
    upsert_complete arithmetic empty point_a [] (stored_a ∷ []) (omega arith) are_prepared

upsert_atomic_example : empty ≡ empty
upsert_atomic_example = upsert_atomic arithmetic empty empty [] _ refused

empty-IsValid : IsValid empty
empty-IsValid = record { bounded = omega arith; entries = tt; distinct = tt }

upsert-IsValid_example : IsValid (upsert arithmetic empty (point_a ∷ [])).0
upsert-IsValid_example = upsert-IsValid arithmetic empty (point_a ∷ []) empty-IsValid

one_point-IsValid : IsValid one_point
one_point-IsValid = subst IsValid (ap (λ e. e.0) upsert_a) upsert-IsValid_example

delete-IsValid_example : IsValid (Collection.delete one_point (name_a ∷ [])).0
delete-IsValid_example = delete-IsValid one_point (name_a ∷ []) one_point-IsValid

delete_commits_example :
    ((one_point.sequence ≡ u64_max)
      × (Collection.delete one_point (name_a ∷ []) ≡ (one_point, err sequence_overflow)))
    ⊎ ((c' : Collection) × (one_point.sequence < u64_max)
        × (Collection.delete one_point (name_a ∷ []) ≡ (c', ok (one_point.sequence + 1)))
        × IsDeleted one_point (name_a ∷ []) c')
delete_commits_example = delete_commits one_point (name_a ∷ []) (omega arith)

query : List F32
query = one ∷ one ∷ []

search-eq-scan_example :
    search arithmetic one_point query 1 none
    ≡ when_allowed arithmetic config query 1
        (λ prepared. best compare_hits 1 (scan arithmetic one_point prepared none))
search-eq-scan_example = search-eq-scan arithmetic one_point query 1 none

search-Perm_example :
    search arithmetic one_point query 1 none ≡ search arithmetic one_point query 1 none
search-Perm_example =
    search-Perm arithmetic one_point one_point query 1 none one_point-IsValid refl (Perm.refl _)

prepare_upsert_settled_example :
    prepare_upsert arithmetic config (map sent (stored_a ∷ [])) 1 ≡ ok (stored_a ∷ [])
prepare_upsert_settled_example =
    prepare_upsert_settled arithmetic config (point_a ∷ []) 1 (stored_a ∷ []) refl prepared_batch

abbrev store : PersistentCollection
store = record { inner = one_point; wal = []; dirty_ids = [] }

search-eq-scan_all_example :
    Sharding.search arithmetic config (store ∷ []) query 1 none 1
    ≡ when_allowed arithmetic config query 1
        (λ prepared. best compare_hits 1 (scan_all arithmetic (store ∷ []) prepared none))
search-eq-scan_all_example =
    search-eq-scan_all arithmetic config store [] query 1 1 none (refl, tt) (omega arith)
