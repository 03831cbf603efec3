-- ===== src/Tests/Replicas.antt =====
-- Runs of the replicated shard and of the sharded collection.
use focal_vector.Float.{is_finite32}
use focal_vector.Base.{ℕ, ◌≡◌, refl, some, none, List, [], ◌∷◌, arith, ◌==◌, keep, get_elem?}
use focal_vector.Outcome.{Error, ok, err}
use focal_vector.Raft
use focal_vector.Raft.{OpenRaft, ShardCommand, ShardResponse, normal, blank, Entry}
use focal_vector.Raft.Machine.{
  StateInner, AppliedRecord, command, command_identity, apply_entry, apply,
}
use focal_vector.Raft.ExactlyOnce.{AreApplied, apply_total, exactly_once}
use focal_vector.Raft.Log.{
  JournalRecord, append, purge, default, recover_journal, open_log, DurableRaftLog,
  after_checkpoint, write_record,
}
use focal_vector.Raft.Reopen.{ReadsSame, recover_twice}
use focal_vector.Raft.Crashes.{IsConsistent, expected, reopened, write_record_recovers}
use focal_vector.Point.{UpsertPoint}
use focal_vector.Sharding.{distribute, no_batches, upsert}
use focal_vector.Sharding.Routing.{distribute_routes, upsert_validates}
use focal_vector.Tests.{arithmetic, config, name_a, point_a, empty, empty_store}

-- Log positions are numbers.
abbrev numbered : OpenRaft
numbered = record {
  LogId = ℕ;
  index = λ i. i;
  Vote = ℕ;
  Membership = ℕ;
  StoredMembership = ℕ;
  stored = λ i m. m;
}

abbrev shard : StateInner numbered
shard = record { collection = empty; dirty_ids = []; last_applied = none; members = 0; dedup = [] }

abbrev first_command : ShardCommand
first_command = Raft.upsert name_a 7 (point_a ∷ [])

apply_total_example :
    (s' : StateInner numbered) × (journal : List (AppliedRecord numbered)) × (responses : List
      ShardResponse)
    × AreApplied numbered arithmetic shard s'
        (record { log_id = 1; payload = normal first_command } ∷ [])
        journal
        responses
apply_total_example =
    apply_total numbered arithmetic (record { log_id = 1; payload = normal first_command } ∷ [])
      shard

same_identity :
    command_identity (Raft.delete name_a 7 (name_a ∷ [])) ≡ command_identity first_command
unfolding command_identity
same_identity = refl

-- The retry asks for a deletion under the same identity.
exactly_once_example :
    (s₁ : StateInner numbered) × (written : AppliedRecord numbered) × (response : ShardResponse)
    × (s₂ : StateInner numbered) × (journal : List (AppliedRecord numbered)) × (responses : List
        ShardResponse)
    × (apply_entry numbered arithmetic shard (record { log_id = 1; payload = normal first_command })
        ≡ ok (s₁, (written, response)))
    × (apply numbered arithmetic s₁ (record { log_id = 2; payload = blank } ∷ [])
        ≡ ok (s₂, (journal, responses)))
    × (apply_entry numbered arithmetic s₂
          (record { log_id = 3; payload = normal (Raft.delete name_a 7 (name_a ∷ [])) })
        ≡ ok (
          record s₂ { last_applied = some 3 },
          (
            record { log_id = 3; payload = command (Raft.delete name_a 7 (name_a ∷ [])) response },
            response,
          ),
        ))
exactly_once_example =
    exactly_once numbered arithmetic shard 1 3 first_command (Raft.delete name_a 7 (name_a ∷ []))
      (record { log_id = 2; payload = blank } ∷ []) same_identity

abbrev journal : List (JournalRecord numbered)
journal =
    append (record { log_id = 1; payload = blank } ∷ record { log_id = 2; payload = blank } ∷ [])
    ∷ purge 1
    ∷ []

recover_twice_example :
    ReadsSame numbered
      (recover_journal numbered journal (recover_journal numbered journal (default numbered)))
      (recover_journal numbered journal (default numbered))
recover_twice_example = recover_twice numbered journal (default numbered)

abbrev new_log : DurableRaftLog numbered
new_log = record { checkpoint = none; journal = []; state = default numbered }

new_log-IsConsistent : IsConsistent numbered new_log
unfolding recover_journal open_log
new_log-IsConsistent = record { vote = refl; committed = refl; purged = refl; entry = λ k. refl }

write_record_recovers_example :
    ReadsSame numbered
      (reopened numbered (write_record numbered new_log (purge 1) after_checkpoint))
      (expected numbered new_log (purge 1) after_checkpoint)
write_record_recovers_example =
    write_record_recovers numbered new_log (purge 1) after_checkpoint new_log-IsConsistent

distribute_routes_example :
    get_elem? (distribute (λ n. n) (0 ∷ 1 ∷ 0 ∷ []) (no_batches 2)) 0
    ≡ some (keep (λ n. n == 0) (0 ∷ 1 ∷ 0 ∷ []))
distribute_routes_example = distribute_routes (λ n. n) (0 ∷ 1 ∷ 0 ∷ []) 2 0 (omega arith)

-- A point without components, behind a good one.
abbrev short_point : UpsertPoint
short_point = record { id = name_a; vector = []; metadata = [] }

upsert_validates_example :
    (e : Error) × (upsert arithmetic config
        (λ i. none)
        (empty_store ∷ empty_store ∷ [])
        (point_a ∷ short_point ∷ [])
      ≡ (empty_store ∷ empty_store ∷ [], err e))
unfolding is_finite32
upsert_validates_example =
    upsert_validates arithmetic config (λ i. none) (empty_store ∷ empty_store ∷ [])
      (point_a ∷ short_point ∷ []) refl
