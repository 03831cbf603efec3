-- ===== src/Tests/Storage.antt =====
-- Runs of the write-ahead log and of the persistent collection.
use focal_vector.Base.{
  ℕ, ◌+◌, inl, true, ◌≡◌, ◌≢◌, refl, some, none, List, [], ◌∷◌, ◌++◌, take, map, arith,
}
use focal_vector.Outcome.{io, text, invalid_query, ok, err}
use focal_vector.Str.{is_utf8}
use focal_vector.Float.{is_finite32}
use focal_vector.Bytes.{to_le_bytes}
use focal_vector.Metric.{dot_product, prepare}
use focal_vector.Point.{UpsertPoint}
use focal_vector.Collection.{
  apply_prepared_upsert, apply_delete_at, prepare_upsert, prepare_each, prepare_point,
}
use focal_vector.Collection.Batch.{none_left, next}
use focal_vector.Codec.Encoder.{
  encode_upsert, encode_delete, put_bytes, put_count, put_string, put_each, put_point, put_entry,
  encode_value, ◌then_write◌,
}
use focal_vector.Codec.Decoder.{point}
use focal_vector.Codec.RoundTrip.{Encodes, IsText}
use focal_vector.Codec.Payload.{IsStorable, sent, Encodes-point}
use focal_vector.Wal.{frame, recover, apply_payload}
use focal_vector.Wal.Frames.{length-frame}
use focal_vector.Wal.Replay.{log_of, replay, recover-eq-replay, recover_total}
use focal_vector.Wal.Applied.{
  IsLoggedUpsert, IsLoggedDelete, apply_payload-encode_upsert, apply_payload-encode_delete,
}
use focal_vector.Persistent.{PersistentCollection, upsert, delete}
use focal_vector.Persistent.Durable.{IsDurable, IsUndone, fresh, recovered_as, fresh-IsDurable}
use focal_vector.Persistent.Writes.{
  IsWritable, Settles, upsert-IsDurable, upsert_fault, delete-IsDurable,
}
use focal_vector.Map.{hash_insert, set_extend, set_insert, contains}
use focal_vector.Collection.{next_sequence, insert_all}
use focal_vector.Wal.{append_frame, WriteFault}
use focal_vector.Persistent.{commit, check_ids}
use focal_vector.Persistent.History.{
  History, upserted, opened, upsert_failed, delete_failed, History-recovers, torn-History_recovers,
}
use focal_vector.Tests.{
  arithmetic, one, config, name_a, point_a, stored_a, empty, empty_store, one_point,
}

IsText-a : IsText name_a
unfolding is_utf8
IsText-a = (refl, omega arith)

finite_one : is_finite32 one ≡ true
unfolding is_finite32
finite_one = refl

IsStorable-a : IsStorable 2 stored_a
IsStorable-a = record {
  id = IsText-a;
  fits = refl;
  components = ((omega arith, finite_one), ((omega arith, finite_one), tt));
  few = omega arith;
  entries = tt;
  ordered = tt;
}

-- The point "a" at sequence 1, as the WAL holds it.
abbrev payload_a : List ℕ
payload_a =
    1 ∷ 1 ∷ 0 ∷ 0 ∷ 0 ∷ 0 ∷ 0 ∷ 0 ∷ 0 ∷ 1 ∷ 0 ∷ 0 ∷ 0 ∷ 1 ∷ 0 ∷ 0 ∷ 0 ∷ 97 ∷ 2 ∷ 0 ∷ 0 ∷ 0 ∷ 0 ∷ 0
    ∷ 128 ∷ 63 ∷ 0 ∷ 0 ∷ 128 ∷ 63 ∷ 0 ∷ 0 ∷ 0 ∷ 0 ∷ []

encoded_a : encode_upsert 1 (stored_a ∷ []) ≡ ok payload_a
unfolding encode_upsert put_bytes put_count put_string put_each put_point put_entry encode_value
    ◌then_write◌ to_le_bytes
encoded_a = refl

abbrev delete_a : List ℕ
delete_a = 2 ∷ 1 ∷ 0 ∷ 0 ∷ 0 ∷ 0 ∷ 0 ∷ 0 ∷ 0 ∷ 1 ∷ 0 ∷ 0 ∷ 0 ∷ 1 ∷ 0 ∷ 0 ∷ 0 ∷ 97 ∷ []

encoded_delete : encode_delete 1 (name_a ∷ []) ≡ ok delete_a
unfolding encode_delete put_bytes put_count put_string put_each ◌then_write◌ to_le_bytes
encoded_delete = refl

prepared_a : prepare_upsert arithmetic config (point_a ∷ []) 1 ≡ ok (stored_a ∷ [])
unfolding prepare_upsert prepare_each prepare_point prepare is_finite32
prepared_a = refl

prepare_vector : prepare arithmetic dot_product (one ∷ one ∷ []) ≡ ok (one ∷ one ∷ [])
unfolding prepare is_finite32
prepare_vector = refl

logged_a : IsLoggedUpsert arithmetic empty (stored_a ∷ []) payload_a
logged_a = record {
  room = omega arith;
  narrow = omega arith;
  few = omega arith;
  some_points = refl;
  storable = (IsStorable-a, tt);
  settled =
      next
        (record {
          same_id = refl;
          same_metadata = refl;
          at_sequence = refl;
          dimension = refl;
          named = refl;
          prepared = prepare_vector;
        })
        none_left;
  written = encoded_a;
  small = omega arith;
}

logged_delete : IsLoggedDelete arithmetic empty name_a [] delete_a
logged_delete = record {
  room = omega arith;
  few = omega arith;
  texts = (IsText-a, tt);
  written = encoded_delete;
  small = omega arith;
}

writable_a : IsWritable arithmetic empty_store (point_a ∷ [])
writable_a = record {
  stored = stored_a ∷ [];
  payload = payload_a;
  prepared = prepared_a;
  room = omega arith;
  narrow = omega arith;
  few = omega arith;
  some_points = refl;
  storable = (IsStorable-a, tt);
  written = encoded_a;
  small = omega arith;
}

-- The dot product does not scale.
Settles-a : Settles arithmetic empty (stored_a ∷ [])
Settles-a = inl refl

Encodes-point_example : Encodes (put_point stored_a) (point 2) (sent stored_a)
Encodes-point_example = Encodes-point 2 stored_a (omega arith) IsStorable-a

apply_payload-encode_upsert_example :
    apply_payload arithmetic empty payload_a
    ≡ ok (
      apply_prepared_upsert empty (stored_a ∷ []) 1,
      map (λ (p : UpsertPoint). p.id) (map sent (stored_a ∷ [])),
    )
apply_payload-encode_upsert_example =
    apply_payload-encode_upsert arithmetic empty (stored_a ∷ []) payload_a logged_a

apply_payload-encode_delete_example :
    apply_payload arithmetic empty delete_a
    ≡ ok (apply_delete_at empty (name_a ∷ []) 1, name_a ∷ [])
apply_payload-encode_delete_example =
    apply_payload-encode_delete arithmetic empty name_a [] delete_a logged_delete

-- A log of one upsert, and the first twenty bytes of a second frame.
recover-eq-replay_example :
    recover arithmetic empty (log_of (payload_a ∷ []) ++ take 20 (frame payload_a))
    ≡ some (replay arithmetic (fresh empty) (payload_a ∷ []))
recover-eq-replay_example =
    recover-eq-replay arithmetic empty (payload_a ∷ []) payload_a 20 (omega arith, tt) (omega arith)
      (omega (arith, length-frame payload_a))

recover_total_example : recover arithmetic empty (1 ∷ 2 ∷ 3 ∷ []) ≢ none
recover_total_example = recover_total arithmetic empty (1 ∷ 2 ∷ 3 ∷ [])

empty-IsDurable : IsDurable arithmetic empty empty_store
empty-IsDurable = fresh-IsDurable arithmetic empty

upsert-IsDurable_example :
    (s' : PersistentCollection) × (upsert arithmetic none empty_store (point_a ∷ [])
      ≡ (s', ok (empty.sequence + 1)))
    × (s'.inner ≡ apply_prepared_upsert empty (stored_a ∷ []) (empty.sequence + 1))
    × IsDurable arithmetic empty s'
unfolding writable_a
upsert-IsDurable_example =
    upsert-IsDurable arithmetic empty empty_store (point_a ∷ []) writable_a Settles-a
      empty-IsDurable

-- The whole frame is written, syncing it fails, and it is cut off again.
upsert_fault_example :
    (s' : PersistentCollection) × (upsert arithmetic
        (some (record { written = 47; undone = true }))
        empty_store
        (point_a ∷ [])
      ≡ (s', err (io (text "write failed"))))
    × IsUndone arithmetic empty empty_store s'
unfolding writable_a
upsert_fault_example =
    upsert_fault arithmetic empty empty_store (record { written = 47; undone = true })
      (point_a ∷ []) writable_a empty-IsDurable (inl refl)

delete-IsDurable_example :
    (s' : PersistentCollection) × (delete none empty_store (name_a ∷ [])
      ≡ (s', ok (empty.sequence + 1)))
    × (s'.inner ≡ apply_delete_at empty (name_a ∷ []) (empty.sequence + 1))
    × IsDurable arithmetic empty s'
delete-IsDurable_example =
    delete-IsDurable arithmetic empty empty_store name_a []
      (record { payload = delete_a; named = refl; loggable = logged_delete; small = omega arith })
      empty-IsDurable

abbrev stored_log : PersistentCollection
stored_log = record { inner = one_point; wal = frame payload_a; dirty_ids = name_a ∷ [] }

upserted_a : upsert arithmetic none empty_store (point_a ∷ []) ≡ (stored_log, ok 1)
unfolding upsert next_sequence prepare_upsert prepare_each prepare_point prepare is_finite32 commit
    append_frame encode_upsert put_bytes put_count put_string put_each put_point put_entry
    encode_value ◌then_write◌ to_le_bytes apply_prepared_upsert insert_all hash_insert set_extend
    set_insert contains
upserted_a = refl

-- An upsert that commits, a second one whose frame is cut off again, and a refused deletion.
abbrev cut_off : WriteFault
cut_off = record { written = 47; undone = true }

failed_a :
    upsert arithmetic (some cut_off) stored_log (point_a ∷ [])
    ≡ (stored_log, err (io (text "write failed")))
unfolding upsert next_sequence prepare_upsert prepare_each prepare_point prepare is_finite32 commit
    append_frame encode_upsert put_bytes put_count put_string put_each put_point put_entry
    encode_value ◌then_write◌ to_le_bytes apply_prepared_upsert insert_all hash_insert set_extend
    set_insert contains
failed_a = refl

refused_delete :
    delete none stored_log []
    ≡ (stored_log, err (invalid_query (text "delete batch must not be empty")))
unfolding delete check_ids
refused_delete = refl

stored_log-History : History arithmetic empty stored_log
unfolding writable_a
stored_log-History =
    delete_failed none []
      (upsert_failed (some cut_off) (point_a ∷ [])
        (upserted (point_a ∷ []) opened writable_a Settles-a upserted_a) refl failed_a)
      tt refused_delete

History-recovers_example :
    recover arithmetic empty (frame payload_a) ≡ some (ok (recovered_as stored_log))
History-recovers_example = History-recovers arithmetic empty stored_log stored_log-History

-- A half-written second frame.
torn-History_recovers_example :
    recover arithmetic empty (frame payload_a ++ take 20 (frame payload_a))
    ≡ some (ok (recovered_as stored_log))
torn-History_recovers_example =
    torn-History_recovers arithmetic empty stored_log payload_a 20 stored_log-History (omega arith)
      (omega (arith, length-frame payload_a))
