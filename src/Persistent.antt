-- ===== src/Persistent.antt =====
-- src/persistence.rs, `PersistentCollection`: the collection in memory, its write-ahead log, and the
-- IDs that changed since the last flush. A write that fails is an argument of the operation.
pub mod Durable
pub mod Writes
pub mod History
pub mod Header
pub mod Manifest
pub mod Published
pub mod Flush
pub mod Merged
use focal_vector.Base.{ℕ, Option, List, [], ◌∷◌, Bool, if◌then◌else◌, is_empty, any, map}
use focal_vector.Outcome.{text, invalid_query, Result, ok, err, ◌>>◌, reject_if}
use focal_vector.Str.{Str, str_cmp}
use focal_vector.Float.{FloatOps}
use focal_vector.Map.{set_extend}
use focal_vector.Point.{UpsertPoint, StoredPoint}
use focal_vector.Collection.{
  Collection, next_sequence, prepare_upsert, apply_prepared_upsert, apply_delete_at,
}
use focal_vector.Codec.Encoder.{encode_upsert, encode_delete}
use focal_vector.Wal.{WriteFault, append_frame}

pub record PersistentCollection : Type 0 where
  pub inner : Collection
  pub wal : List ℕ
  pub dirty_ids : List Str

abbrev pub ids_of : List StoredPoint → List Str
ids_of points = map (λ (p : StoredPoint). p.id) points

-- The log first, and the collection in memory only after it.
unfoldable pub commit :
    Option WriteFault
    → PersistentCollection
    → ℕ
    → List ℕ
    → Collection
    → List Str
    → PersistentCollection × Result ℕ
unfolding append_frame
commit fault s sequence payload applied ids =
    let (wal, result) = append_frame fault payload s.wal in
    elim result [
      | err e ↦ (record s { wal = wal }, err e)
      | ok _ ↦ (
        record { inner = applied; wal = wal; dirty_ids = set_extend str_cmp s.dirty_ids ids },
        ok sequence,
      )
    ]

module _ (fl : FloatOps) where
  unfoldable pub upsert :
      Option WriteFault → PersistentCollection → List UpsertPoint → PersistentCollection × Result ℕ
  unfolding commit
  upsert fault s points = elim (next_sequence s.inner) [
    | err e ↦ (s, err e)
    | ok sequence ↦ elim (prepare_upsert fl s.inner.config points sequence) [
      | err e ↦ (s, err e)
      | ok prepared ↦ elim (encode_upsert sequence prepared) [
        | err e ↦ (s, err e)
        | ok payload ↦
            commit fault s sequence payload (apply_prepared_upsert s.inner prepared sequence)
              (ids_of prepared)
      ]
    ]
  ]

unfoldable pub check_ids : List Str → Result (Unit {0})
check_ids ids = do
  reject_if (is_empty ids) (invalid_query (text "delete batch must not be empty"))
  reject_if (any is_empty ids) (invalid_query (text "point ID must not be empty"))

unfoldable pub delete :
    Option WriteFault → PersistentCollection → List Str → PersistentCollection × Result ℕ
unfolding check_ids commit
delete fault s ids = elim (check_ids ids) [
  | err e ↦ (s, err e)
  | ok _ ↦ elim (next_sequence s.inner) [
    | err e ↦ (s, err e)
    | ok sequence ↦ elim (encode_delete sequence ids) [
      | err e ↦ (s, err e)
      | ok payload ↦ commit fault s sequence payload (apply_delete_at s.inner ids sequence) ids
    ]
  ]
]
