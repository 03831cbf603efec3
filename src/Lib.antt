-- ===== src/Lib.antt =====
-- Focal Vector: a vector database. A collection holds points (an ID, a vector of 32-bit floats and
-- metadata) and answers exact nearest-neighbour searches; a persistent collection logs each write before
-- it changes memory, and replays the log when it is opened; a sharded collection spreads points over
-- persistent collections by a hash of their ID and merges their answers; a replicated shard applies the
-- entries of a Raft log, each command once.
--
-- Files, with the source they model (paths from the repository's root):
--   Base, Order, Sort      shared lists and tests, comparisons, sorting, the bounded heap of a search
--   Outcome                src/error.rs: Error, Result and the question mark
--   Str, Float, Bytes, Map what the source uses of Rust's str, f32 and f64, byte order, maps and sets
--   Crc                    crc32c of src/persistence.rs
--   Metric, Filter         src/metric.rs, src/filter.rs
--   Point, Collection      src/collection.rs; Batch, Validity and Search hold its theorems
--   Codec                  src/persistence.rs: the writers of payloads (Encoder), Decoder, round trips
--   Wal                    src/persistence.rs: append_frame, recover, apply_payload; Frames, Replay and
--                          Applied hold the theorems on frames, whole logs and single records
--   Persistent             src/persistence.rs: PersistentCollection::upsert and delete over the log; its
--                          Header and Manifest are the files collection.meta and MANIFEST, and its
--                          Flush is flush_snapshot and merge_hits, which Merged is about
--   Sharding               src/sharding.rs: routing, batches, the search over all shards
--   Raft                   src/raft_storage.rs (Log, Reopen, Crashes) and src/raft_state_machine.rs
--                          (Machine, Steps, ExactlyOnce)
--   MetadataIndex          src/metadata_index.rs: build and candidates; Equality, Ranges, Values and Build
--                          hold the lemmas on what is filed, Candidates the comparison with a scan
--   Hnsw                   src/hnsw.rs: the configuration and levels; Vectors (quantisation, the arena),
--                          Workspace (BuildWorkspace), Walk (search_layer, greedy_closest,
--                          select_neighbors), Graph (HnswIndex and search), Compact
--                          (finalize_compact_graph), Insert (plan_insert, apply_insertion, prune),
--                          Encoder (encode_into), Decoder (GraphDecoder, decode without a mapping) and
--                          Build are definitions; Heap, Unseen, Walked, Visits, Layer, Exact, Pool and
--                          Search are about searching, Greedy about the descent, Packed about packing,
--                          Decoded, NodesRead and LinksRead about what is decoded, and Select, Sound,
--                          Linked, Inserted, Growth, Planned, Built and Finished about the build
--   Tests                  the theorems at concrete inputs
--
-- How it is modelled. Strings are their UTF-8 bytes and floats their bit patterns; arithmetic on floats
-- is a record of operations (FloatOps) with two facts about their results. A HashMap is an association
-- list in the order of first insertion. A method with `&mut self` returns
-- the new state beside its result, so that what an error leaves behind is visible. Files are lists of
-- bytes; a write that fails is an argument that says how many bytes it left and whether they were cut
-- off. The loop of `recover` runs on fuel, one more than the length of the log, and every frame it reads
-- is at least twelve bytes long. The loop of `deterministic_level` has one round more than there are
-- levels, and its guard ends it before. The walk over a layer of
-- an index has a round for each node and one more, since no node is pushed twice, and the descent to the
-- closest node has a round for each node, since each round moves to a better one. An index reads nodes
-- by number; where the source would panic on one out of range, the model yields an empty list or zero.
-- The batches of a build are planned with one workspace, where the source has one for each worker. The
-- types of the openraft library are a parameter (OpenRaft).
--
-- Not modelled: the decoding of a mapped index and the AVX2 code (src/hnsw.rs; the portable integer
-- product stands for both), flushing to segments, Raft
-- snapshots, the catalogue of collections, and the servers and their networking. The bytes of Raft's
-- journal are not modelled: a record is in it or is not. Errors while a file is read are not modelled.
pub mod Base
pub mod Outcome
pub mod Order
pub mod Str
pub mod Sort
pub mod Float
pub mod Bytes
pub mod Crc
pub mod Map
pub mod Metric
pub mod Filter
pub mod Point
pub mod Collection
pub mod Codec
pub mod Wal
pub mod Persistent
pub mod Raft
pub mod Sharding
pub mod MetadataIndex
pub mod Hnsw
pub mod Tests
