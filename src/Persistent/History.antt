-- ===== src/Persistent/History.antt =====
-- The states that a persistent collection reaches by writes, those that fail and are cut off again
-- included.
use focal_vector.Base.{
  ℕ, ◌≤◌, ◌<◌, ◌≡◌, ap, sym, ◌∙◌, subst, Option, some, none, List, [], ◌∷◌, ◌++◌, length, take,
}
use focal_vector.Outcome.{Error, ok, err}
use focal_vector.Str.{Str}
use focal_vector.Float.{FloatOps}
use focal_vector.Point.{UpsertPoint}
use focal_vector.Collection.{Collection}
use focal_vector.Wal.{WriteFault, max_frame_bytes, frame, recover}
use focal_vector.Persistent.{PersistentCollection, upsert, delete}
use focal_vector.Persistent.Durable.{
  IsDurable, IsCutOff, fresh-IsDurable, durable_recovers, durable_torn, recovered_as,
}
use focal_vector.Persistent.Writes.{
  IsWritable, Settles, IsDeletable, upsert-IsDurable, upsert_refused, delete-IsDurable,
  delete_refused,
}

module _ (fl : FloatOps) (base : Collection) where
  -- From what the segments hold, with an empty log.
  pub data History : PersistentCollection → Type 0 where
    opened : History (record { inner = base; wal = []; dirty_ids = [] })
    upserted :
        {s s' : PersistentCollection} {n : ℕ} (points : List UpsertPoint)
        → History s
        → (w : IsWritable fl s points) → Settles fl s.inner w.stored
        → upsert fl none s points ≡ (s', ok n)
        → History s'
    deleted :
        {s s' : PersistentCollection} {n : ℕ} (id : Str) (ids : List Str)
        → History s
        → IsDeletable fl s id ids
        → delete none s (id ∷ ids) ≡ (s', ok n)
        → History s'
    upsert_failed :
        {s s' : PersistentCollection} {e : Error} (fault : Option WriteFault)
        (points : List UpsertPoint)
        → History s
        → IsCutOff fault
        → upsert fl fault s points ≡ (s', err e)
        → History s'
    delete_failed :
        {s s' : PersistentCollection} {e : Error} (fault : Option WriteFault) (ids : List Str)
        → History s
        → IsCutOff fault
        → delete fault s ids ≡ (s', err e)
        → History s'

  History-IsDurable : (s : PersistentCollection) → History s → IsDurable fl base s
  History-IsDurable _ opened = fresh-IsDurable fl base
  History-IsDurable _ (upserted {s} {s'} points h w settles e) =
      let (t, f, same, d) = upsert-IsDurable fl base s points w settles (History-IsDurable s h) in
      subst (IsDurable fl base) (ap (λ r. r.0) (sym f ∙ e)) d
  History-IsDurable _ (deleted {s} {s'} id ids h w e) =
      let (t, f, same, d) = delete-IsDurable fl base s id ids w (History-IsDurable s h) in
      subst (IsDurable fl base) (ap (λ r. r.0) (sym f ∙ e)) d
  History-IsDurable _ (upsert_failed {s} {s'} {e} fault points h cut k) =
      subst (IsDurable fl base) (sym (upsert_refused fl fault s s' points e cut k))
        (History-IsDurable s h)
  History-IsDurable _ (delete_failed {s} {s'} {e} fault ids h cut k) =
      subst (IsDurable fl base) (sym (delete_refused fl fault s s' ids e cut k))
        (History-IsDurable s h)

  -- After any sequence of upserts and deletions, each of which commits a record within the decoder's
  -- limits, or fails with no byte left in the log, reopening the log rebuilds the collection in memory
  -- and the changed IDs, and keeps the whole log. The points of an upsert have a metric other than
  -- cosine, or are left as they are when they are prepared again.
  pub History-recovers :
      (s : PersistentCollection) → History s → recover fl base s.wal ≡ some (ok (recovered_as s))
  History-recovers s h = durable_recovers fl base s (History-IsDurable s h)

  -- After any sequence of upserts and deletions that each commit a record within the decoder's limits,
  -- or fail with no byte left in the log, the points of an upsert having a metric other than cosine or
  -- being left as they are when they are prepared again: if the process dies while it writes one more
  -- frame, of at most 256 MiB, and leaves less than the whole of it, reopening gives the collection as it
  -- was before, its changed IDs, and the length to which the log is cut.
  pub torn-History_recovers :
      (s : PersistentCollection) (last : List ℕ) (n : ℕ)
      → History s
      → length last ≤ max_frame_bytes
      → n < length (frame last)
      → recover fl base (s.wal ++ take n (frame last)) ≡ some (ok (recovered_as s))
  torn-History_recovers s last n h small few =
      durable_torn fl base s last n (History-IsDurable s h) small few
