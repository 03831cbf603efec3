-- ===== src/Persistent/Writes.antt =====
-- `upsert` and `delete` of the persistent collection, and what reopening rebuilds after each.
use focal_vector.Base.{
  ℕ, ◌+◌, ◌≤◌, ◌<◌, ◌⊎◌, inl, inr, All, false, ◌≡◌, refl, ap, ◌∙◌, Option, none, some, List, [],
  ◌∷◌, length, map, arith, is_empty, any,
}
use focal_vector.Outcome.{Error, text, io, ok, err, Result-cases}
use focal_vector.Str.{Str}
use focal_vector.Float.{FloatOps}
use focal_vector.Point.{UpsertPoint, StoredPoint}
use focal_vector.Collection.{
  Collection, u64_max, next_sequence, prepare_upsert, apply_prepared_upsert, apply_delete_at,
}
use focal_vector.Codec.Payload.{IsStorable, sent}
use focal_vector.Codec.Decoder.{max_items}
use focal_vector.Codec.Encoder.{encode_upsert, encode_delete}
use focal_vector.Wal.{max_frame_bytes, WriteFault}
use focal_vector.Wal.Applied.{
  AreSettled, IsLoggedUpsert, IsLoggedDelete, apply_payload-encode_upsert,
  apply_payload-encode_delete,
}
use focal_vector.Persistent.{PersistentCollection, ids_of, commit, upsert, delete, check_ids}
use focal_vector.Persistent.Durable.{
  IsDurable, IsTorn, IsUndone, IsCutOff, commit_refused, commit-IsDurable, commit-IsUndone,
}
use focal_vector.Collection.Batch.{
  ArePrepared, none_left, next, prepare_upsert-ok, prepare_each_complete,
}
use focal_vector.Metric.{is_cosine, prepare, length-prepare}
use focal_vector.Point.{CollectionConfig}

module _ (fl : FloatOps) where
  map-sent_ids : (ps : List StoredPoint) → map (λ (p : UpsertPoint). p.id) (map sent ps) ≡ ids_of ps
  map-sent_ids [] = refl
  map-sent_ids (p ∷ ps) = ap (λ ids. p.id ∷ ids) (map-sent_ids ps)

  prepare_settled :
      (config : CollectionConfig) (v out : List ℕ)
      → is_cosine config.metric ≡ false
      → prepare fl config.metric v ≡ ok out
      → prepare fl config.metric out ≡ ok out
  unfolding prepare
  prepare_settled config v out plain h = ground arith

  settled_each :
      (config : CollectionConfig) (n : ℕ) (points : List UpsertPoint) (qs : List StoredPoint)
      → is_cosine config.metric ≡ false
      → ArePrepared fl config n points qs
      → ArePrepared fl config n (map sent qs) qs
  settled_each config n _ _ plain none_left = none_left
  settled_each config n _ _ plain (next {p} {q} {ps} {qs} h r) =
      next
        (record {
          same_id = refl;
          same_metadata = refl;
          at_sequence = h.at_sequence;
          dimension = length-prepare fl config.metric p.vector h.prepared ∙ h.dimension;
          named = ap is_empty h.same_id ∙ h.named;
          prepared = prepare_settled config p.vector q.vector plain h.prepared;
        })
        (settled_each config n ps qs plain r)

  -- What an upsert writes to the log, if the checks of the batch pass: points that the decoder's limits
  -- allow, at a sequence that has room.
  pub record IsWritable (s : PersistentCollection) (points : List UpsertPoint) : Type 0 where
    pub stored : List StoredPoint
    pub payload : List ℕ
    pub prepared : prepare_upsert fl s.inner.config points (s.inner.sequence + 1) ≡ ok stored
    pub room : s.inner.sequence < u64_max
    pub narrow : s.inner.config.dimension ≤ max_items
    pub few : length stored ≤ max_items
    pub some_points : is_empty stored ≡ false
    pub storable : All (IsStorable s.inner.config.dimension) stored
    pub written : encode_upsert (s.inner.sequence + 1) stored ≡ ok payload
    pub small : length payload ≤ max_frame_bytes

  -- Preparing the prepared points again changes nothing: the metric does not scale, or they come out the
  -- same.
  abbrev pub Settles : Collection → List StoredPoint → Type 0
  Settles c ps = (is_cosine c.config.metric ≡ false) ⊎ AreSettled fl c ps

  writable-IsLoggedUpsert :
      (s : PersistentCollection) (points : List UpsertPoint) (w : IsWritable s points)
      → Settles s.inner w.stored
      → IsLoggedUpsert fl s.inner w.stored w.payload
  unfolding prepare_upsert
  writable-IsLoggedUpsert s points w settles = record {
    room = w.room;
    narrow = w.narrow;
    few = w.few;
    some_points = w.some_points;
    storable = w.storable;
    settled = settled settles;
    written = w.written;
    small = omega (arith, w.small);
  }
    where
      settled : Settles s.inner w.stored → AreSettled fl s.inner w.stored
      settled (inr same) = same
      settled (inl plain) =
          settled_each s.inner.config (s.inner.sequence + 1) points w.stored plain
            (prepare_upsert-ok fl s.inner.config (s.inner.sequence + 1) points w.stored w.prepared)

  upsert-commit :
      (fault : Option WriteFault) (s : PersistentCollection) (points : List UpsertPoint)
      (w : IsWritable s points)
      → upsert fl fault s points
        ≡ commit fault s
            (s.inner.sequence + 1)
            w.payload
            (apply_prepared_upsert s.inner w.stored (s.inner.sequence + 1))
            (ids_of w.stored)
  unfolding upsert next_sequence
  upsert-commit fault s points w = ground (arith, w.room, w.prepared, w.written)

  -- An upsert whose batch passes the checks and fits the log within the decoder's limits (a million
  -- points, components or bytes of a text, and 256 MiB), with a metric other than cosine or points that
  -- preparing again leaves as they are, commits at the next sequence, leaves the prepared batch in
  -- memory, and keeps the log such that reopening rebuilds the collection.
  pub upsert-IsDurable :
      (base : Collection) (s : PersistentCollection) (points : List UpsertPoint)
      (w : IsWritable s points)
      → Settles s.inner w.stored
      → IsDurable fl base s
      → (s' : PersistentCollection) × (upsert fl none s points ≡ (s', ok (s.inner.sequence + 1)))
        × (s'.inner ≡ apply_prepared_upsert s.inner w.stored (s.inner.sequence + 1))
        × IsDurable fl base s'
  upsert-IsDurable base s points w settles d =
      let applied =
        apply_payload-encode_upsert fl s.inner w.stored w.payload
          (writable-IsLoggedUpsert s points w settles) in
      let (s', e, f, g) =
        commit-IsDurable fl base s (s.inner.sequence + 1) w.payload _ _ d w.small (
          applied
          ∙ ap (λ ids. ok (apply_prepared_upsert s.inner w.stored (s.inner.sequence + 1), ids))
              (map-sent_ids w.stored)) in
      (s', upsert-commit none s points w ∙ e, f, g)

  -- An upsert whose batch passes the checks and fits the log within the decoder's limits, and whose
  -- write to the log fails, its bytes cut off again, however many, or less than a whole frame, reports
  -- the failure, changes nothing in memory, and reopening gives the collection as it was.
  pub upsert_fault :
      (base : Collection) (s : PersistentCollection) (f : WriteFault) (points : List UpsertPoint)
      (w : IsWritable s points)
      → IsDurable fl base s
      → IsTorn fl f w.payload
      → (s' : PersistentCollection) × (upsert fl (some f) s points
          ≡ (s', err (io (text "write failed"))))
        × IsUndone fl base s s'
  upsert_fault base s f points w d torn =
      let (s', e, u) =
        commit-IsUndone fl base s f (s.inner.sequence + 1) w.payload _ _ d w.small torn in
      (s', upsert-commit (some f) s points w ∙ e, u)

  pub record IsDeletable (s : PersistentCollection) (id : Str) (ids : List Str) : Type 0 where
    pub payload : List ℕ
    pub named : any is_empty (id ∷ ids) ≡ false
    pub loggable : IsLoggedDelete fl s.inner id ids payload
    pub small : length payload ≤ max_frame_bytes

  delete-commit :
      (s : PersistentCollection) (id : Str) (ids : List Str) (w : IsDeletable s id ids)
      → delete none s (id ∷ ids)
        ≡ commit none s
            (s.inner.sequence + 1)
            w.payload
            (apply_delete_at s.inner (id ∷ ids) (s.inner.sequence + 1))
            (id ∷ ids)
  unfolding delete check_ids next_sequence
  delete-commit s id ids w = ground (arith, w.named, w.loggable.room, w.loggable.written)

  -- A deletion of named IDs whose record fits the log commits at the next sequence, removes the points
  -- in memory, and keeps the log such that reopening rebuilds the collection.
  pub delete-IsDurable :
      (base : Collection) (s : PersistentCollection) (id : Str) (ids : List Str)
      → IsDeletable s id ids
      → IsDurable fl base s
      → (s' : PersistentCollection) × (delete none s (id ∷ ids) ≡ (s', ok (s.inner.sequence + 1)))
        × (s'.inner ≡ apply_delete_at s.inner (id ∷ ids) (s.inner.sequence + 1))
        × IsDurable fl base s'
  delete-IsDurable base s id ids w d =
      let applied = apply_payload-encode_delete fl s.inner id ids w.payload w.loggable in
      let (s', e, f, g) =
        commit-IsDurable fl base s (s.inner.sequence + 1) w.payload _ (id ∷ ids) d w.small
          applied in
      (s', delete-commit s id ids w ∙ e, f, g)

  -- A refused or failed write, its bytes cut off again, changes nothing.
  pub upsert_refused :
      (fault : Option WriteFault) (s s' : PersistentCollection) (points : List UpsertPoint)
      (e : Error)
      → IsCutOff fault
      → upsert fl fault s points ≡ (s', err e)
      → s' ≡ s
  unfolding upsert
  upsert_refused fault s s' points e cut h = elim (Result-cases (next_sequence s.inner)) [
    | inr (x, f) ↦ let bad = rw (f, upsert) at h in cc
    | inl (n, f) ↦ elim (Result-cases (prepare_upsert fl s.inner.config points n)) [
      | inr (x, g) ↦ let bad = rw (f, upsert, g) at h in cc
      | inl (qs, g) ↦ elim (Result-cases (encode_upsert n qs)) [
        | inr (x, k) ↦ let bad = rw (f, upsert, g, k) at h in cc
        | inl (payload, k) ↦
            let good = rw (f, upsert, g, k) at h in
            commit_refused fault s s' n payload _ _ e cut good
      ]
    ]
  ]

  pub delete_refused :
      (fault : Option WriteFault) (s s' : PersistentCollection) (ids : List Str) (e : Error)
      → IsCutOff fault
      → delete fault s ids ≡ (s', err e)
      → s' ≡ s
  unfolding delete
  delete_refused fault s s' ids e cut h = elim (Result-cases (check_ids ids)) [
    | inr (x, f) ↦ let bad = rw (f, delete) at h in cc
    | inl (u, f) ↦ elim (Result-cases (next_sequence s.inner)) [
      | inr (x, g) ↦ let bad = rw (f, delete, g) at h in cc
      | inl (n, g) ↦ elim (Result-cases (encode_delete n ids)) [
        | inr (x, k) ↦ let bad = rw (f, delete, g, k) at h in cc
        | inl (payload, k) ↦
            let good = rw (f, delete, g, k) at h in
            commit_refused fault s s' n payload _ _ e cut good
      ]
    ]
  ]

  -- With the dot product or the Euclidean metric, preparing prepared points again, as recovery does,
  -- gives the same points.
  pub prepare_upsert_settled :
      (config : CollectionConfig) (points : List UpsertPoint) (n : ℕ) (qs : List StoredPoint)
      → is_cosine config.metric ≡ false
      → prepare_upsert fl config points n ≡ ok qs
      → prepare_upsert fl config (map sent qs) n ≡ ok qs
  unfolding prepare_upsert
  prepare_upsert_settled config points n qs plain h = ground (
    arith,
    prepare_each_complete fl config n (map sent qs) qs
        (settled_each config n points qs plain (prepare_upsert-ok fl config n points qs h)),
  )
