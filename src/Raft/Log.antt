-- ===== src/Raft/Log.antt =====
-- src/raft_storage.rs: the durable log of Raft, its journal, and its checkpoint. The bytes of the
-- journal and of the checkpoint are not modelled: a record is written whole or not at all.
use Prim.Native.Nat.{compare}
use focal_vector.Base.{
  ℕ, ◌+◌, Bool, true, false, Option, none, some, List, [], ◌∷◌, ◌++◌, keep, ltb, leb, if◌then◌else◌,
}
use focal_vector.Map.{Map, tree_insert}
use focal_vector.Raft.{OpenRaft, Entry}

module _ (r : OpenRaft) where
  pub data JournalRecord : Type 0 where
    save_vote : r.Vote → JournalRecord
    save_committed : Option r.LogId → JournalRecord
    append : List (Entry r) → JournalRecord
    truncate : r.LogId → JournalRecord
    purge : r.LogId → JournalRecord

  pub record JournalState : Type 0 where
    pub vote : Option r.Vote
    pub committed : Option r.LogId
    pub last_purged : Option r.LogId
    pub entries : Map ℕ (Entry r)

  -- `JournalState::default`
  abbrev pub default : JournalState
  default = record { vote = none; committed = none; last_purged = none; entries = [] }

  unfoldable pub insert_entries : List (Entry r) → Map ℕ (Entry r) → Map ℕ (Entry r)
  insert_entries [] m = m
  insert_entries (e ∷ es) m = insert_entries es (tree_insert compare (r.index e.log_id) e m)

  -- `BTreeMap::split_off`: what stays, and what is split off
  unfoldable pub below : ℕ → Map ℕ (Entry r) → Map ℕ (Entry r)
  below k m = keep (λ e. ltb e.0 k) m

  unfoldable pub split_off : ℕ → Map ℕ (Entry r) → Map ℕ (Entry r)
  split_off k m = keep (λ e. leb k e.0) m

  unfoldable pub apply : JournalState → JournalRecord → JournalState
  unfolding insert_entries below split_off
  apply s (save_vote vote) = record s { vote = some vote }
  apply s (save_committed committed) = record s { committed = committed }
  apply s (append entries) = record s { entries = insert_entries entries s.entries }
  apply s (truncate log_id) = record s { entries = below (r.index log_id) s.entries }
  apply s (purge log_id) = record s {
    last_purged = some log_id;
    entries = split_off (r.index log_id + 1) s.entries;
  }

  -- The log's last entry is the last key of the map.
  last_value : Map ℕ (Entry r) → Option (Entry r)
  last_value [] = none
  last_value (e ∷ []) = some e.1
  last_value (e ∷ f ∷ m) = last_value (f ∷ m)

  pub record LogState : Type 0 where
    pub last_purged_log_id : Option r.LogId
    pub last_log_id : Option r.LogId

  unfoldable pub get_log_state : JournalState → LogState
  unfolding last_value
  get_log_state s = record {
    last_purged_log_id = s.last_purged;
    last_log_id = elim (last_value s.entries) [ some e ↦ some e.log_id | none ↦ s.last_purged ];
  }

  -- The loop of `recover_journal` over the records.
  unfoldable pub recover_journal : List JournalRecord → JournalState → JournalState
  unfolding apply
  recover_journal [] s = s
  recover_journal (record_ ∷ journal) s = recover_journal journal (apply s record_)

  -- The two files, and the state in memory.
  pub record DurableRaftLog : Type 0 where
    pub checkpoint : Option JournalState
    pub journal : List JournalRecord
    pub state : JournalState

  abbrev pub checkpointed : Option JournalState → JournalState
  checkpointed none = default
  checkpointed (some s) = s

  -- `open`
  unfoldable pub open_log : Option JournalState → List JournalRecord → JournalState
  unfolding recover_journal
  open_log checkpoint journal = recover_journal journal (checkpointed checkpoint)

  abbrev pub is_purge : JournalRecord → Bool
  is_purge (purge log_id) = true
  is_purge _ = false

  -- Where the process dies in `write_record`, if it does.
  pub data Crash : Type 0 where
    before_append after_append after_checkpoint : Crash
    no_crash : Crash

  unfoldable pub write_record : DurableRaftLog → JournalRecord → Crash → DurableRaftLog
  unfolding apply
  write_record log written before_append = log
  write_record log written after_append = record log { journal = log.journal ++ written ∷ [] }
  write_record log written after_checkpoint =
      let state = apply log.state written in
      record {
        checkpoint = if is_purge written then some state else log.checkpoint;
        journal = log.journal ++ written ∷ [];
        state = state;
      }
  write_record log written no_crash =
      let state = apply log.state written in
      record {
        checkpoint = if is_purge written then some state else log.checkpoint;
        journal = if is_purge written then [] else log.journal ++ written ∷ [];
        state = state;
      }
