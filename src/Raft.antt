-- ===== src/Raft.antt =====
-- src/raft_storage.rs: the commands of a replicated shard, its responses, and the entries of its log.
-- The types of the openraft library are a parameter.
pub mod Machine
pub mod Steps
pub mod ExactlyOnce
pub mod Log
pub mod Reopen
pub mod Crashes
use focal_vector.Base.{ℕ, Option, List}
use focal_vector.Outcome.{Message, Error}
use focal_vector.Str.{Str}
use focal_vector.Point.{UpsertPoint}

-- What the source uses of openraft.
pub record OpenRaft : Type 1 where
  pub LogId : Type 0
  pub index : LogId → ℕ
  pub Vote : Type 0
  pub Membership : Type 0
  pub StoredMembership : Type 0
  -- `StoredMembership::new`
  pub stored : Option LogId → Membership → StoredMembership

pub data ShardCommand : Type 0 where
  upsert : Str → ℕ → List UpsertPoint → ShardCommand
  delete : Str → ℕ → List Str → ShardCommand

-- The message of a response is a text, or the error that is printed into it.
pub data Rejection : Type 0 where
  plain : Message → Rejection
  printed : Error → Rejection

pub data ShardResponse : Type 0 where
  applied : ℕ → ShardResponse
  rejected : Rejection → ShardResponse

module _ (r : OpenRaft) where
  pub data EntryPayload : Type 0 where
    blank : EntryPayload
    normal : ShardCommand → EntryPayload
    membership : r.Membership → EntryPayload

  pub record Entry : Type 0 where
    pub log_id : r.LogId
    pub payload : EntryPayload
