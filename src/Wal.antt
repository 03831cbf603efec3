-- ===== src/Wal.antt =====
-- src/persistence.rs: the write-ahead log. The file is the list of its bytes; what `set_len` cuts off
-- is gone. Errors of the operating system while the log is read are not modelled.
pub mod Frames
pub mod Replay
pub mod Applied
use focal_vector.Base.{
  ℕ, zero, suc, ◌+◌, ◌-◌, ◌*◌, ◌^◌, Bool, true, false, not, Option, none, some, List, [], ◌∷◌, ◌++◌,
  length, take, drop, map, ltb, leb, ◌==◌, is_empty, if◌then◌else◌,
}
use focal_vector.Outcome.{
  Message, text, numbers, Error, corrupt_storage, invalid_query, io, Result, ok, err, ◌>>=◌, ◌>>◌,
  reject_if,
}
use focal_vector.Bytes.{to_le_bytes, from_le_bytes}
use focal_vector.Crc.{crc32c}
use focal_vector.Str.{Str, str_cmp, str_eq}
use focal_vector.Float.{FloatOps}
use focal_vector.Map.{set_extend}
use focal_vector.Point.{UpsertPoint, StoredPoint}
use focal_vector.Collection.{
  Collection, next_sequence, prepare_upsert, apply_prepared_upsert, apply_delete_at,
}
use focal_vector.Codec.Decoder.{Decoder, start, payload_header, payload_points, payload_ids, finish}

-- b"FVWL"
abbrev pub wal_magic : List ℕ
wal_magic = 0x46 ∷ 0x56 ∷ 0x57 ∷ 0x4c ∷ []

abbrev pub max_frame_bytes : ℕ
max_frame_bytes = 256 * 1024 * 1024

-- the bytes that `append_frame` writes
unfoldable pub frame : List ℕ → List ℕ
frame payload =
    wal_magic ++ (to_le_bytes 4 (length payload) ++ (payload ++ to_le_bytes 4 (crc32c payload)))

-- A write that fails after some bytes, and whether cutting the file back succeeds.
pub record WriteFault : Type 0 where
  pub written : ℕ
  pub undone : Bool

unfoldable pub append_frame : Option WriteFault → List ℕ → List ℕ → List ℕ × Result (Unit {0})
append_frame fault payload wal =
    if leb (length payload) (2 ^ 32 - 1)
    then (elim fault [
      | none ↦ (wal ++ frame payload, ok tt)
      | some f ↦ (
        (if f.undone then wal else wal ++ take f.written (frame payload)),
        err (io (text "write failed")),
      )
    ])
    else (wal, err (invalid_query (text "WAL record is too large")))

module _ (fl : FloatOps) where
  unfoldable pub replay_upsert : Collection → ℕ → Decoder → Result (Collection × List Str)
  unfolding payload_points
  replay_upsert c sequence d = do
    (points, d') ← payload_points c.config.dimension d
    finish d'
    prepared ← prepare_upsert fl c.config points sequence
    ok (apply_prepared_upsert c prepared sequence, map (λ (p : UpsertPoint). p.id) points)

  unfoldable pub replay_delete : Collection → ℕ → Decoder → Result (Collection × List Str)
  unfolding payload_ids
  replay_delete c sequence d = do
    (ids, d') ← payload_ids d
    finish d'
    ok (apply_delete_at c ids sequence, ids)

  unfoldable pub replay_operation : Collection → ℕ → ℕ → Decoder → Result (Collection × List Str)
  unfolding replay_upsert replay_delete
  replay_operation c operation sequence d =
      if operation == 1
      then replay_upsert c sequence d
      else if operation == 2
      then replay_delete c sequence d
      else err (corrupt_storage (numbers "unknown WAL operation {tag}" (operation ∷ [])))

  -- An error leaves the collection as it was, and ends the recovery.
  unfoldable pub apply_payload : Collection → List ℕ → Result (Collection × List Str)
  unfolding payload_header replay_operation
  apply_payload c payload = do
    (fields, d) ← payload_header (start payload)
    if leb fields.1 c.sequence then ok (c, []) else do
      expected ← next_sequence c
      reject_if (not (fields.1 == expected)) (
          corrupt_storage (
            numbers "non-consecutive WAL sequence: expected {expected}, got {sequence}"
              (expected ∷ fields.1 ∷ [])))
      replay_operation c fields.0 fields.1 d

pub data ReadState : Type 0 where
  complete : List ℕ → List ℕ → ReadState
  eof : ReadState
  truncated : ReadState

-- the bytes read and the bytes behind them
unfoldable pub read_exact_or_eof : ℕ → List ℕ → ReadState
read_exact_or_eof n file =
    if leb n (length file)
    then complete (take n file) (drop n file)
    else if is_empty file
    then eof
    else truncated

-- One round of the loop in `recover`, up to the payload.
pub data Scanned : Type 0 where
  stop : Scanned
  refuse : Error → Scanned
  payload : List ℕ → List ℕ → Scanned

scan_body : ℕ → ℕ → List ℕ → Scanned
scan_body frame_start size rest = elim (read_exact_or_eof (size + 4) rest) [
  | eof ↦ stop
  | truncated ↦ stop
  | complete body rest' ↦
      if crc32c (take size body) == from_le_bytes (drop size body)
      then payload (take size body) rest'
      else refuse (corrupt_storage (numbers "WAL checksum mismatch at byte {}" (frame_start ∷ [])))
]

scan_header : ℕ → List ℕ → List ℕ → Scanned
unfolding scan_body
scan_header frame_start header rest =
    if str_eq (take 4 header) wal_magic
    then (let size = from_le_bytes (drop 4 header) in
        if ltb max_frame_bytes size
        then refuse (
            corrupt_storage
              (numbers "WAL frame at byte {} exceeds the size limit" (frame_start ∷ [])))
        else scan_body frame_start size rest)
    else refuse (corrupt_storage (numbers "invalid WAL magic at byte {}" (frame_start ∷ [])))

unfoldable pub scan_frame : ℕ → List ℕ → Scanned
unfolding read_exact_or_eof scan_header
scan_frame frame_start file = elim (read_exact_or_eof 8 file) [
  | eof ↦ stop
  | truncated ↦ stop
  | complete header rest ↦ scan_header frame_start header rest
]

-- What recovery has rebuilt, and the length of the log that it keeps (`valid_length`).
pub record Recovered : Type 0 where
  pub collection : Collection
  pub dirty_ids : List Str
  pub kept : ℕ

module _ (fl : FloatOps) where
  -- `none` means that the fuel ran out.
  unfoldable pub recover_frames : ℕ → Recovered → List ℕ → Option (Result Recovered)
  recover_frames zero state file = none
  recover_frames (suc fuel) state file = elim (scan_frame state.kept file) [
    | stop ↦ some (ok state)
    | refuse e ↦ some (err e)
    | payload bytes rest ↦ elim (apply_payload fl state.collection bytes) [
      | err e ↦ some (err e)
      | ok (c, ids) ↦
          recover_frames fuel
            (record {
              collection = c;
              dirty_ids = set_extend str_cmp state.dirty_ids ids;
              kept = state.kept + (8 + (length bytes + 4));
            })
            rest
    ]
  ]

  unfoldable pub recover : Collection → List ℕ → Option (Result Recovered)
  unfolding recover_frames
  recover c wal =
      recover_frames (suc (length wal)) (record { collection = c; dirty_ids = []; kept = 0 }) wal
