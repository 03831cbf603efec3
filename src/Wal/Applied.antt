-- ===== src/Wal/Applied.antt =====
-- A payload that the collection wrote, applied during recovery.
use focal_vector.Base.{
  ℕ, suc, ◌+◌, ◌^◌, ◌≤◌, ◌<◌, false, ◌≡◌, sym, ap, ◌∙◌, subst, List, [], ◌∷◌, ◌++◌, length, map,
  arith, All, append-nil, ==_iff, is_empty, ◌==◌,
}
use focal_vector.Outcome
use focal_vector.Outcome.{Result, ok, err, >>=-ok}
use focal_vector.Str.{Str}
use focal_vector.Float.{FloatOps}
use focal_vector.Bytes.{to_le_bytes}
use focal_vector.Point.{UpsertPoint, StoredPoint}
use focal_vector.Collection.{
  Collection, u64_max, next_sequence, prepare_upsert, apply_prepared_upsert, apply_delete_at,
}
use focal_vector.Collection.Batch.{ArePrepared, prepare_each_complete}
use focal_vector.Codec.Decoder.{
  Decoder, start, usize_max, max_items, Reader, point, string, repeated, payload_header,
  payload_points, some_ids, payload_ids, finish,
}
use focal_vector.Codec.Encoder.{
  Writer, ◌then_write◌, put_count, put_string, put_each, put_point, encode_upsert, encode_delete,
}
use focal_vector.Codec.Reads.{At, Reads, Reads-pure, Reads-bind, Reads-end, Reads-byte, Reads-u64}
use focal_vector.Codec.RoundTrip.{
  Encodes, Encodes-then, Encodes-end, Encodes-count, Encodes-string, Encodes-each, IsText,
}
use focal_vector.Codec.Payload.{IsStorable, sent, Encodes-point}
use focal_vector.Wal.{apply_payload, replay_operation, replay_upsert, replay_delete}

-- The payload in its two parts: the operation with its sequence, and the items.
header_bytes : ℕ → ℕ → List ℕ
header_bytes operation sequence = operation ∷ to_le_bytes 8 sequence

Reads-header :
    (operation sequence : ℕ)
    → sequence < 2 ^ 64
    → Reads payload_header (header_bytes operation sequence) (operation, sequence)
unfolding payload_header header_bytes
Reads-header operation sequence h =
    Reads-bind _ (Reads-byte operation) (Reads-end _ (Reads-u64 sequence h) (Reads-pure _))

Encodes-points :
    (dimension : ℕ) (ps : List StoredPoint)
    → dimension ≤ max_items
    → All (IsStorable dimension) ps
    → Encodes (put_each put_point ps) (repeated (length ps) (point dimension)) (map sent ps)
unfolding put_each repeated ◌then_write◌
Encodes-points dimension [] small h = record {
  bytes = [];
  writes = λ out. ap ok (sym (append-nil out));
  reads = Reads-pure [];
}
Encodes-points dimension (p ∷ ps) small h =
    Encodes-then _ (Encodes-point dimension p small h.0)
      (Encodes-end _ (Encodes-points dimension ps small h.1) (Reads-pure (sent p ∷ map sent ps)))

Encodes-payload_points :
    (dimension : ℕ) (ps : List StoredPoint)
    → dimension ≤ max_items
    → length ps ≤ max_items
    → All (IsStorable dimension) ps
    → Encodes
        (put_count (length ps) then_write put_each put_point ps)
        (payload_points dimension)
        (map sent ps)
unfolding payload_points
Encodes-payload_points dimension ps small few h =
    Encodes-then _ (Encodes-count (length ps) few) (Encodes-points dimension ps small h)

some_ids-suc : (n : ℕ) → some_ids (suc n) ≡ repeated (suc n) string
unfolding some_ids
some_ids-suc n = let e : (suc n == 0) ≡ false = ground arith in rw e

Encodes-payload_ids :
    (id : Str) (ids : List Str)
    → length (id ∷ ids) ≤ max_items
    → All IsText (id ∷ ids)
    → Encodes
        (put_count (length (id ∷ ids)) then_write put_each put_string (id ∷ ids))
        payload_ids
        (id ∷ ids)
unfolding payload_ids
Encodes-payload_ids id ids few h = Encodes-then _ (Encodes-count (length (id ∷ ids)) few) (
    subst (λ r. Encodes (put_each put_string (id ∷ ids)) r (id ∷ ids))
      (sym (some_ids-suc (length ids)))
      (Encodes-each IsText put_string string Encodes-string (id ∷ ids) h))

pub ok_injective {ℓ} : {A : Type ℓ} {a b : A} → Outcome.ok a ≡ ok b → a ≡ b
ok_injective h = cc

-- A whole payload: where each part leaves the decoder.
record IsRead {ℓ} {A : Type ℓ} (payload : List ℕ) (fields : ℕ × ℕ) (items : Reader A) (a : A)
    : Type ℓ where
  after_header : Decoder
  after_items : Decoder
  header : payload_header (start payload) ≡ ok (fields, after_header)
  body : items after_header ≡ ok (a, after_items)
  whole : finish after_items ≡ ok tt

pub finish-At : (d : Decoder) → At d [] → finish d ≡ ok tt
unfolding finish
finish-At d h = rw ((==_iff d.position (length d.bytes)).1 (omega (arith, h.inside)))

payload-IsRead {ℓ} :
    {A : Type ℓ} (operation sequence : ℕ) (w : Writer) (items : Reader A) (a : A) (payload : List ℕ)
    → sequence < 2 ^ 64
    → length payload ≤ usize_max
    → Encodes w items a
    → w (header_bytes operation sequence) ≡ ok payload
    → IsRead payload (operation, sequence) items a
payload-IsRead operation sequence w items a payload h small e written =
    let both = sym (e.writes (header_bytes operation sequence)) ∙ written in
    let parts : header_bytes operation sequence ++ e.bytes ≡ payload = ok_injective both in
    let first =
      (Reads-header operation sequence h).at (start payload) e.bytes
        (record { ahead = sym parts; inside = omega (arith, ap length parts); small = small }) in
    let second = e.reads.at first.0 [] (subst (At first.0) (sym (append-nil e.bytes)) first.2) in
    record {
      after_header = first.0;
      after_items = second.0;
      header = first.1;
      body = second.1;
      whole = finish-At second.0 second.2;
    }

module _ (fl : FloatOps) where
  -- What recovery does with an operation that follows the collection's sequence.
  apply_payload_next :
      (c : Collection) (payload : List ℕ) (operation : ℕ) (d : Decoder)
      → c.sequence < u64_max
      → payload_header (start payload) ≡ ok ((operation, c.sequence + 1), d)
      → apply_payload fl c payload ≡ replay_operation fl c operation (c.sequence + 1) d
  unfolding apply_payload next_sequence
  apply_payload_next c payload operation d room h = rw (h, apply_payload) (ground arith)

  -- A payload of any operation that the collection already has, as a log that was not cut off after its
  -- segment was published holds it, is passed over.
  apply_payload_stale :
      (c : Collection) (payload : List ℕ) (operation sequence : ℕ) (d : Decoder)
      → sequence ≤ c.sequence
      → payload_header (start payload) ≡ ok ((operation, sequence), d)
      → apply_payload fl c payload ≡ ok (c, [])
  unfolding apply_payload
  apply_payload_stale c payload operation sequence d old h = rw (h, apply_payload) (ground arith)

  -- Prepared points are prepared to themselves, which for the cosine metric is a matter of rounding.
  abbrev pub AreSettled : Collection → List StoredPoint → Type 0
  AreSettled c ps = ArePrepared fl c.config (c.sequence + 1) (map sent ps) ps

  -- What the log can hold of an upsert.
  pub record IsLoggedUpsert (c : Collection) (ps : List StoredPoint) (payload : List ℕ)
      : Type 0 where
    pub room : c.sequence < u64_max
    pub narrow : c.config.dimension ≤ max_items
    pub few : length ps ≤ max_items
    pub some_points : is_empty ps ≡ false
    pub storable : All (IsStorable c.config.dimension) ps
    pub settled : AreSettled c ps
    pub written : encode_upsert (c.sequence + 1) ps ≡ ok payload
    pub small : length payload ≤ usize_max

  -- Recovery applies the record of an upsert as the upsert itself has, for storable points whose
  -- preparation settles: to the same points, at the same sequence.
  pub apply_payload-encode_upsert :
      (c : Collection) (ps : List StoredPoint) (payload : List ℕ)
      → IsLoggedUpsert c ps payload
      → apply_payload fl c payload
        ≡ ok (
          apply_prepared_upsert c ps (c.sequence + 1),
          map (λ (p : UpsertPoint). p.id) (map sent ps),
        )
  unfolding encode_upsert replay_operation header_bytes replay_upsert prepare_upsert
  apply_payload-encode_upsert c ps payload h =
      let read =
        payload-IsRead 1 (c.sequence + 1) _ _ _ payload (omega (arith, h.room)) h.small
          (Encodes-payload_points c.config.dimension ps h.narrow h.few h.storable) h.written in
      apply_payload_next c payload 1 read.after_header h.room read.header
      ∙ ground (
        arith,
        read.body,
        read.whole,
        h.some_points,
        prepare_each_complete fl c.config (c.sequence + 1) (map sent ps) ps h.settled,
      )

  -- What the log can hold of a deletion.
  pub record IsLoggedDelete (c : Collection) (id : Str) (ids : List Str) (payload : List ℕ)
      : Type 0 where
    pub room : c.sequence < u64_max
    pub few : length (id ∷ ids) ≤ max_items
    pub texts : All IsText (id ∷ ids)
    pub written : encode_delete (c.sequence + 1) (id ∷ ids) ≡ ok payload
    pub small : length payload ≤ usize_max

  -- Recovery applies the record of a deletion as the deletion itself has: of at most 1,000,000 IDs, each
  -- valid text of at most 1,000,000 bytes, at a sequence that has room.
  pub apply_payload-encode_delete :
      (c : Collection) (id : Str) (ids : List Str) (payload : List ℕ)
      → IsLoggedDelete c id ids payload
      → apply_payload fl c payload ≡ ok (apply_delete_at c (id ∷ ids) (c.sequence + 1), id ∷ ids)
  unfolding encode_delete replay_operation header_bytes replay_delete
  apply_payload-encode_delete c id ids payload h =
      let read =
        payload-IsRead 2 (c.sequence + 1) _ _ _ payload (omega (arith, h.room)) h.small
          (Encodes-payload_ids id ids h.few h.texts) h.written in
      apply_payload_next c payload 2 read.after_header h.room read.header
      ∙ ground (arith, read.body, read.whole)
