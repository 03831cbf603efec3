-- ===== src/Persistent/Flush.antt =====
-- src/persistence.rs: what a flush takes of the collection, and how a search joins the hits of several
-- sources. (`merge_hits` of src/raft_state_machine.rs is the same function.)

use focal_vector.Base.{
  ℕ, Bool, true, ◌||◌, Option, none, some, List, [], ◌∷◌, false, take, keep, leb, ◌==◌,
  if◌then◌else◌,
}
use focal_vector.Str.{Str, str_cmp, str_eq}
use focal_vector.Map.{contains}
use focal_vector.Sort.{sort}
use focal_vector.Point.{CollectionConfig, StoredPoint, SearchHit, compare_hits}
use focal_vector.Collection.{get_stored, snapshot_points}
use focal_vector.Persistent.{PersistentCollection}
use focal_vector.Persistent.Manifest.{max_index_segments}

pub record FlushSnapshot : Type 0 where
  pub config : CollectionConfig
  pub sequence : ℕ
  pub points : List StoredPoint
  pub graph_points : List StoredPoint
  pub tombstones : List Str
  pub compact : Bool

abbrev is_absent : Option StoredPoint → Bool
is_absent none = true
is_absent (some p) = false

-- The number of index segments stands beside the collection.
unfoldable pub flush_snapshot : ℕ → PersistentCollection → FlushSnapshot
flush_snapshot indexes s =
    let points = snapshot_points s.inner in
    let compact = indexes == 0 || leb max_index_segments indexes in
    record {
      config = s.inner.config;
      sequence = s.inner.sequence;
      points = points;
      graph_points =
          if compact
          then points
          else keep (λ (p : StoredPoint). contains str_cmp p.id s.dirty_ids) points;
      tombstones =
          if compact then [] else keep (λ id. is_absent (get_stored s.inner id)) s.dirty_ids;
      compact = compact;
    }

-- `dedup_by(|left, right| left.id == right.id)`: the first of each run stays.
unfoldable pub dedup_from : SearchHit → List SearchHit → List SearchHit
dedup_from last [] = []
dedup_from last (hit ∷ hits) =
    let same = dedup_from last hits in
    let other = dedup_from hit hits in if str_eq hit.id last.id then same else hit ∷ other

unfoldable pub dedup : List SearchHit → List SearchHit
unfolding dedup_from
dedup [] = []
dedup (hit ∷ hits) = hit ∷ dedup_from hit hits

unfoldable pub merge_hits : List SearchHit → ℕ → List SearchHit
unfolding dedup
merge_hits hits k = take k (dedup (sort compare_hits hits))
