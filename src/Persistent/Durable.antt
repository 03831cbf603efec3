-- ===== src/Persistent/Durable.antt =====
-- What reopening the log rebuilds after each write.
use focal_vector.Base.{
  ℕ, ◌+◌, ◌≤◌, ◌<◌, ◌^◌, ◌-◌, true, ◌≡◌, refl, sym, ap, ◌∙◌, Option, none, some, List, [], ◌∷◌,
  ◌++◌, length, take, arith, All, All-append, append_assoc, append-nil, length-append, le→leb,
  Bool-cases, ◌⊎◌, inl, inr, if◌then◌else◌,
}
use focal_vector.Outcome.{Error, text, io, ok, err, Result-cases}
use focal_vector.Str.{Str, str_cmp}
use focal_vector.Float.{FloatOps}
use focal_vector.Map.{set_extend}
use focal_vector.Collection.{Collection}
use focal_vector.Wal.{
  max_frame_bytes, frame, WriteFault, append_frame, apply_payload, Recovered, recover,
}
use focal_vector.Wal.Frames.{length-frame}
use focal_vector.Wal.Replay.{log_of, replay, recover-eq-replay}
use focal_vector.Persistent.{PersistentCollection, commit}

abbrev pub fresh : Collection → Recovered
fresh base = record { collection = base; dirty_ids = []; kept = 0 }

abbrev pub recovered_as : PersistentCollection → Recovered
recovered_as s = record { collection = s.inner; dirty_ids = s.dirty_ids; kept = length s.wal }

log_of-snoc : (ps : List (List ℕ)) (p : List ℕ) → log_of (ps ++ p ∷ []) ≡ log_of ps ++ frame p
unfolding log_of
log_of-snoc [] p = append-nil (frame p)
log_of-snoc (q ∷ ps) p =
    ap (λ xs. frame q ++ xs) (log_of-snoc ps p) ∙ sym (append_assoc (frame q) (log_of ps) (frame p))

append_frame-whole :
    (payload wal : List ℕ)
    → length payload ≤ max_frame_bytes
    → append_frame none payload wal ≡ (wal ++ frame payload, ok tt)
unfolding append_frame
append_frame-whole payload wal h = rw (le→leb (length payload) (2 ^ 32 - 1) (omega arith))

append_frame-fault :
    (f : WriteFault) (payload wal : List ℕ)
    → length payload ≤ max_frame_bytes
    → append_frame (some f) payload wal ≡ (
      (if f.undone then wal else wal ++ take f.written (frame payload)),
      err (io (text "write failed")),
    )
unfolding append_frame
append_frame-fault f payload wal h = rw (le→leb (length payload) (2 ^ 32 - 1) (omega arith))

module _ (fl : FloatOps) where
  -- The log is the frames of some payloads, and replaying them on what the segments hold gives the
  -- collection in memory.
  pub record IsDurable (base : Collection) (s : PersistentCollection) : Type 0 where
    pub payloads : List (List ℕ)
    pub small : All (λ p. length p ≤ max_frame_bytes) payloads
    pub logged : s.wal ≡ log_of payloads
    pub replayed : replay fl (fresh base) payloads ≡ ok (recovered_as s)

  replay-snoc :
      (ps : List (List ℕ)) (p : List ℕ) (state mid : Recovered) (c : Collection) (ids : List Str)
      → replay fl state ps ≡ ok mid
      → apply_payload fl mid.collection p ≡ ok (c, ids)
      → replay fl state (ps ++ p ∷ [])
        ≡ ok (record {
          collection = c;
          dirty_ids = set_extend str_cmp mid.dirty_ids ids;
          kept = mid.kept + (8 + (length p + 4));
        })
  unfolding replay
  replay-snoc [] p state mid c ids h k =
      let e : state ≡ mid = cc in ap (λ (x : Recovered). replay fl x (p ∷ [])) e ∙ rw (k, replay)
  replay-snoc (q ∷ ps) p state mid c ids h k =
      elim (Result-cases (apply_payload fl state.collection q)) [
        | inr (x, f) ↦ let bad = rw (f, replay) at h in cc
        | inl (r, f) ↦
            let good = rw (f, replay) at h in rw (f, replay) (replay-snoc ps p _ mid c ids good k)
      ]

  -- An empty log leaves what the segments hold.
  pub fresh-IsDurable :
      (base : Collection) → IsDurable base (record { inner = base; wal = []; dirty_ids = [] })
  unfolding log_of replay
  fresh-IsDurable base = record { payloads = []; small = tt; logged = refl; replayed = refl }

  -- Reopening a log with a torn frame at its end gives the collection in memory, the changed IDs, and
  -- the length that the log had before the torn write.
  pub durable_torn :
      (base : Collection) (s : PersistentCollection) (last : List ℕ) (n : ℕ)
      → IsDurable base s
      → length last ≤ max_frame_bytes
      → n < length (frame last)
      → recover fl base (s.wal ++ take n (frame last)) ≡ some (ok (recovered_as s))
  durable_torn base s last n d b h =
      ap (λ xs. recover fl base (xs ++ take n (frame last))) d.logged
      ∙ recover-eq-replay fl base d.payloads last n d.small b h
      ∙ ap some d.replayed

  -- Reopening after any sequence of writes gives back the collection in memory.
  pub durable_recovers :
      (base : Collection) (s : PersistentCollection)
      → IsDurable base s
      → recover fl base s.wal ≡ some (ok (recovered_as s))
  durable_recovers base s d =
      ap (recover fl base) (sym (append-nil s.wal))
      ∙ durable_torn base s [] 0 d (omega arith) (omega (arith, length-frame []))

  -- One more payload in the log, and what it does in memory.
  pub commit-IsDurable :
      (base : Collection) (s : PersistentCollection) (sequence : ℕ) (payload : List ℕ)
      (applied : Collection) (ids : List Str)
      → IsDurable base s
      → length payload ≤ max_frame_bytes
      → apply_payload fl s.inner payload ≡ ok (applied, ids)
      → (s' : PersistentCollection) × (commit none s sequence payload applied ids
          ≡ (s', ok sequence))
        × (s'.inner ≡ applied)
        × IsDurable base s'
  unfolding commit
  commit-IsDurable base s sequence payload applied ids d small h =
      let s' : PersistentCollection = record {
        inner = applied;
        wal = s.wal ++ frame payload;
        dirty_ids = set_extend str_cmp s.dirty_ids ids;
      } in
      (
        s',
        rw (append_frame-whole payload s.wal small, commit, append_frame-whole payload s.wal small),
        refl,
        record {
          payloads = d.payloads ++ payload ∷ [];
          small = All-append _ d.payloads (payload ∷ []) d.small (small, tt);
          logged = ap (λ xs. xs ++ frame payload) d.logged ∙ sym (log_of-snoc d.payloads payload);
          replayed =
              replay-snoc d.payloads payload (fresh base) (recovered_as s) applied ids d.replayed h
              ∙ ap
                  (λ n. ok (record {
                    collection = applied;
                    dirty_ids = set_extend str_cmp s.dirty_ids ids;
                    kept = n;
                  }))
                  (omega (arith, length-append s.wal (frame payload), length-frame payload));
        },
      )

  -- What a commit is asked to keep when the write to the log fails: nothing in memory changes, and
  -- reopening gives the collection as it was, whether or not the torn bytes were cut off.
  pub record IsUndone (base : Collection) (s s' : PersistentCollection) : Type 0 where
    pub same_inner : s'.inner ≡ s.inner
    pub same_dirty : s'.dirty_ids ≡ s.dirty_ids
    pub reopens : recover fl base s'.wal ≡ some (ok (recovered_as s))

  -- A fault whose bytes are cut off again, however many, or that leaves less than a whole frame.
  abbrev pub IsTorn : WriteFault → List ℕ → Type 0
  IsTorn f payload = (f.undone ≡ true) ⊎ (f.written < length (frame payload))

  pub commit-IsUndone :
      (base : Collection) (s : PersistentCollection) (f : WriteFault) (sequence : ℕ)
      (payload : List ℕ) (applied : Collection) (ids : List Str)
      → IsDurable base s
      → length payload ≤ max_frame_bytes
      → IsTorn f payload
      → (s' : PersistentCollection) × (commit (some f) s sequence payload applied ids
          ≡ (s', err (io (text "write failed"))))
        × IsUndone base s s'
  unfolding commit
  commit-IsUndone base s f sequence payload applied ids d small torn =
      let wal' = if f.undone then s.wal else s.wal ++ take f.written (frame payload) in
      (
        record s { wal = wal' },
        rw (
          append_frame-fault f payload s.wal small,
          commit,
          append_frame-fault f payload s.wal small,
        ),
        record { same_inner = refl; same_dirty = refl; reopens = cut torn },
      )
    where
      cut :
          IsTorn f payload
          → recover fl base (if f.undone then s.wal else s.wal ++ take f.written (frame payload))
            ≡ some (ok (recovered_as s))
      cut (inl e) = rw e (durable_recovers base s d)
      cut (inr few) = elim (Bool-cases f.undone) [
        | inl e ↦ rw e (durable_recovers base s d)
        | inr e ↦ rw e (durable_torn base s payload f.written d small few)
      ]

-- The fault of a write, if there is one, whose bytes are cut off again.
abbrev pub IsCutOff : Option WriteFault → Type 0
IsCutOff none = Unit
IsCutOff (some f) = f.undone ≡ true

-- Such a write that fails changes nothing.
pub commit_refused :
    (fault : Option WriteFault) (s s' : PersistentCollection) (sequence : ℕ) (payload : List ℕ)
    (applied : Collection) (ids : List Str) (e : Error)
    → IsCutOff fault
    → commit fault s sequence payload applied ids ≡ (s', err e)
    → s' ≡ s
unfolding commit append_frame
commit_refused none s s' sequence payload applied ids e cut h = ground (arith, h)
commit_refused (some f) s s' sequence payload applied ids e cut h = ground (arith, h, cut)
