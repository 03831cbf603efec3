-- ===== src/Raft/Machine.antt =====
-- src/raft_state_machine.rs: applying log entries to a shard, and replaying the journal of what was
-- applied. The write of a record to the journal succeeds here; its bytes are not modelled.
use Prim.Native.Nat.{compare}
use focal_vector.Base.{
  ℕ, Bool, false, Option, none, some, List, [], ◌∷◌, map, any, is_empty, ◌||◌, leb, if◌then◌else◌,
}
use focal_vector.Outcome.{text, Result, ok, err, ◌>>=◌}
use focal_vector.Str.{Str, str_cmp}
use focal_vector.Float.{FloatOps}
use focal_vector.Map.{Map, lookup, tree_insert, set_extend}
use focal_vector.Point.{UpsertPoint}
use focal_vector.Collection.{
  Collection, next_sequence, prepare_upsert, apply_prepared_upsert, apply_delete_at,
}
use focal_vector.Raft.{
  OpenRaft, ShardCommand, upsert, delete, plain, printed, ShardResponse, applied, rejected,
  EntryPayload, blank, normal, membership, Entry,
}

abbrev pub Dedup : Type 0
Dedup = Map Str (Map ℕ ShardResponse)

unfoldable pub command_identity : ShardCommand → Str × ℕ
command_identity (upsert client request points) = (client, request)
command_identity (delete client request ids) = (client, request)

-- `dedup.get(client_id).and_then(|requests| requests.get(&request_id))`
unfoldable pub answered : Str × ℕ → Dedup → Option ShardResponse
answered id dedup = elim (lookup str_cmp id.0 dedup) [
  | none ↦ none
  | some requests ↦ lookup compare id.1 requests
]

abbrev pub requests_of : Option (Map ℕ ShardResponse) → Map ℕ ShardResponse
requests_of none = []
requests_of (some requests) = requests

-- `dedup.entry(client_id).or_default().insert(request_id, response)`
unfoldable pub remember : Str × ℕ → ShardResponse → Dedup → Dedup
remember id response dedup =
    tree_insert str_cmp id.0
      (tree_insert compare id.1 response (requests_of (lookup str_cmp id.0 dedup))) dedup

-- the IDs that the command marks as changed
unfoldable pub touched : ShardCommand → ShardResponse → List Str
touched cmd (rejected why) = []
touched (upsert client request points) (applied sequence) = map (λ (p : UpsertPoint). p.id) points
touched (delete client request ids) (applied sequence) = ids

module _ (fl : FloatOps) where
  -- The answer to a command that was not answered before.
  unfoldable pub respond : Collection → ShardCommand → ShardResponse
  respond c cmd = elim (next_sequence c) [
    | err e ↦ rejected (plain (text "collection sequence overflow"))
    | ok sequence ↦ elim cmd [
      | upsert client request points ↦ elim (prepare_upsert fl c.config points sequence) [
        | ok _ ↦ applied sequence
        | err e ↦ rejected (printed e)
      ]
      | delete client request ids ↦
          if is_empty ids || any is_empty ids
          then rejected (plain (text "delete IDs must be non-empty"))
          else applied sequence
    ]
  ]

  unfoldable pub execute : Collection → ShardCommand → ShardResponse → Result Collection
  execute c cmd (rejected why) = ok c
  execute c (upsert client request points) (applied sequence) = do
    prepared ← prepare_upsert fl c.config points sequence
    ok (apply_prepared_upsert c prepared sequence)
  execute c (delete client request ids) (applied sequence) = ok (apply_delete_at c ids sequence)

module _ (r : OpenRaft) where
  -- The state that entries change; the search indexes and the snapshot are rebuilt from it.
  pub record StateInner : Type 0 where
    pub collection : Collection
    pub dirty_ids : List Str
    pub last_applied : Option r.LogId
    pub members : r.StoredMembership
    pub dedup : Dedup

  pub data AppliedPayload : Type 0 where
    nothing : AppliedPayload
    command : ShardCommand → ShardResponse → AppliedPayload
    members_changed : r.Membership → AppliedPayload

  pub record AppliedRecord : Type 0 where
    pub log_id : r.LogId
    pub payload : AppliedPayload

  -- `last_applied.is_some_and(|applied| record.log_id.index <= applied.index)`
  unfoldable pub is_applied : Option r.LogId → r.LogId → Bool
  is_applied none log_id = false
  is_applied (some last) log_id = leb (r.index log_id) (r.index last)

  module _ (fl : FloatOps) where
    unfoldable pub answer : StateInner → ShardCommand → ShardResponse
    unfolding answered command_identity respond
    answer s cmd = elim (answered (command_identity cmd) s.dedup) [
      | some response ↦ response
      | none ↦ respond fl s.collection cmd
    ]

    unfoldable pub prepare_payload : StateInner → EntryPayload r → AppliedPayload × ShardResponse
    unfolding answer
    prepare_payload s blank = (nothing, applied s.collection.sequence)
    prepare_payload s (membership m) = (members_changed m, applied s.collection.sequence)
    prepare_payload s (normal c) = (command c (answer s c), answer s c)

    unfoldable pub replay_command : StateInner → ShardCommand → ShardResponse → Result StateInner
    unfolding answered command_identity remember execute touched
    replay_command s cmd response = elim (answered (command_identity cmd) s.dedup) [
      | some _ ↦ ok s
      | none ↦ execute fl s.collection cmd response >>= λ c. ok (record s {
        collection = c;
        dirty_ids = set_extend str_cmp s.dirty_ids (touched cmd response);
        dedup = remember (command_identity cmd) response s.dedup;
      })
    ]

    unfoldable pub replay_payload : StateInner → r.LogId → AppliedPayload → Result StateInner
    unfolding replay_command
    replay_payload s log_id nothing = ok s
    replay_payload s log_id (members_changed m) =
        ok (record s { members = r.stored (some log_id) m })
    replay_payload s log_id (command c response) = replay_command s c response

    unfoldable pub replay_record : StateInner → AppliedRecord → Result StateInner
    unfolding replay_payload
    replay_record s written = do
      s' ← replay_payload s written.log_id written.payload
      ok (record s' { last_applied = some written.log_id })

    -- One round of `apply`: the record that it writes, and its response.
    unfoldable pub apply_entry :
        StateInner → Entry r → Result (StateInner × (AppliedRecord × ShardResponse))
    unfolding prepare_payload replay_record
    apply_entry s entry = do
      let (payload, response) = prepare_payload s entry.payload
      let written : AppliedRecord = record { log_id = entry.log_id; payload = payload }
      s' ← replay_record s written
      ok (s', (written, response))

    -- The loop of `apply`, with the records that it has written to the journal.
    unfoldable pub apply :
        StateInner
        → List (Entry r)
        → Result (StateInner × (List AppliedRecord × List ShardResponse))
    unfolding apply_entry
    apply s [] = ok (s, ([], []))
    apply s (entry ∷ entries) = do
      (s₁, (written, response)) ← apply_entry s entry
      (s₂, (journal, responses)) ← apply s₁ entries
      ok (s₂, (written ∷ journal, response ∷ responses))

    -- The loop of `open` over the records of the journal: what the snapshot holds is passed over.
    unfoldable pub replay_journal : StateInner → List AppliedRecord → Result StateInner
    unfolding replay_record is_applied
    replay_journal s [] = ok s
    replay_journal s (written ∷ journal) =
        if is_applied s.last_applied written.log_id
        then replay_journal s journal
        else replay_record s written >>= λ s'. replay_journal s' journal
