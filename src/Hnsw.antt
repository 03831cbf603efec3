-- ===== src/Hnsw.antt =====
-- src/hnsw.rs: the checks of the configuration, the degree of a layer, and the level of a node, which is
-- drawn from a hash of its ID.
pub mod Workspace
pub mod Walked
pub mod Encoder
pub mod Decoded
pub mod NodesRead
pub mod LinksRead
pub mod Decoder
pub mod Planned
pub mod Inserted
pub mod Finished
pub mod Built
pub mod Growth
pub mod Linked
pub mod Select
pub mod Sound
pub mod Build
pub mod Insert
pub mod Packed
pub mod Compact
pub mod Search
pub mod Pool
pub mod Graph
pub mod Greedy
pub mod Exact
pub mod Layer
pub mod Visits
pub mod Unseen
pub mod Heap
pub mod Walk
pub mod Vectors
pub mod IntegerDot
use focal_vector.Base.{
  ℕ, zero, suc, ◌&&◌, ◌⊎◌, inl, inr, Bool-cases, subst, ◌∙◌, ◌+◌, ◌*◌, ◌/◌, ◌%◌, ◌^◌, ◌-◌, ◌≤◌, ◌<◌,
  ◌≡◌, ltb, ◌==◌, if◌then◌else◌, arith, max, min,
}
use focal_vector.Outcome.{text, invalid_config, Result, ok, ◌>>◌, reject_if}
use focal_vector.Str.{Str}
use focal_vector.Collection.{u64_max}
use focal_vector.Sharding.{stable_hash}

abbrev pub max_level : ℕ
max_level = 32

pub record HnswConfig : Type 0 where
  pub m : ℕ
  pub ef_construction : ℕ

unfoldable pub validate_config : ℕ → HnswConfig → Result (Unit {0})
validate_config dimension config = do
  reject_if (dimension == 0) (invalid_config (text "dimension must be greater than zero"))
  reject_if (ltb config.m 2) (invalid_config (text "HNSW m must be at least 2"))
  reject_if (ltb config.ef_construction config.m)
      (invalid_config (text "HNSW ef_construction must be at least m"))
  ok tt

-- `saturating_mul`
unfoldable pub max_connections : HnswConfig → ℕ → ℕ
max_connections config layer = if layer == 0 then min (config.m * 2) (2 ^ 64 - 1) else config.m

-- `hash.rotate_left(17).wrapping_mul(0x9e37_79b9_7f4a_7c15)`
unfoldable pub next_hash : ℕ → ℕ
next_hash hash = ((hash * 2 ^ 17) % 2 ^ 64 + hash / 2 ^ 47) * 0x9e3779b97f4a7c15 % 2 ^ 64

-- The loop, on fuel.
unfoldable pub climb : ℕ → ℕ → ℕ → ℕ → ℕ
unfolding next_hash
climb zero threshold level hash = level
climb (suc fuel) threshold level hash =
    let higher = climb fuel threshold (level + 1) (next_hash hash) in
    if ltb level max_level && ltb hash threshold then higher else level

-- One round more than there are levels: the guard ends the loop before the fuel does.
unfoldable pub deterministic_level : Str → ℕ → ℕ
unfolding climb
deterministic_level id m = climb (suc max_level) (max (u64_max / m) 1) 0 (stable_hash id)

-- The hash after some rounds.
unfoldable pub nth_hash : ℕ → ℕ → ℕ
nth_hash zero hash = hash
nth_hash (suc i) hash = nth_hash i (next_hash hash)

-- Where a climb of some steps ends: every hash on the way is below the threshold, and the top level is
-- reached or the next hash is not below it.
pub record IsClimb (threshold level hash steps : ℕ) : Type 0 where
  pub bounded : level + steps ≤ max_level
  pub below : (i : ℕ) → i < steps → nth_hash i hash < threshold
  pub stopped : (level + steps ≡ max_level) ⊎ (threshold ≤ nth_hash steps hash)

climb-IsClimb :
    (fuel threshold level hash : ℕ)
    → level ≤ max_level
    → max_level < level + fuel
    → (steps : ℕ) × (climb fuel threshold level hash ≡ level + steps)
      × IsClimb threshold level hash steps
unfolding climb nth_hash
climb-IsClimb zero threshold level hash low fuel = absurd (omega arith)
climb-IsClimb (suc left) threshold level hash low fuel =
    elim (Bool-cases (ltb level max_level && ltb hash threshold)) [
      | inl e ↦
          let (steps, same, c) =
            climb-IsClimb left threshold (level + 1) (next_hash hash) (ground (arith, e))
              (omega arith) in
          (
            suc steps,
            rw (climb, e) (same ∙ omega arith),
            record {
              bounded = omega (arith, c.bounded);
              below = λ i h. step i h c.below (ground (arith, e));
              stopped = elim c.stopped [ inl top ↦ inl (omega (arith, top)) | inr high ↦ inr high ];
            },
          )
      | inr e ↦ (
        0,
        rw (climb, e) (omega arith),
        record {
          bounded = omega arith;
          below = λ i h. absurd (omega (arith, h));
          stopped = ground (arith, e);
        },
      )
    ]
  where
    step :
        {steps : ℕ} (i : ℕ)
        → i < suc steps
        → ((j : ℕ) → j < steps → nth_hash j (next_hash hash) < threshold)
        → hash < threshold
        → nth_hash i hash < threshold
    step zero h below first = first
    step (suc i) h below first = below i (omega (arith, h))

-- The level of a node is the number of hashes, from that of its ID on, that are below the threshold, up
-- to the top level.
pub deterministic_level-IsClimb :
    (id : Str) (m : ℕ) → IsClimb (max (u64_max / m) 1) 0 (stable_hash id) (deterministic_level id m)
unfolding deterministic_level
deterministic_level-IsClimb id m =
    let (steps, same, c) =
      climb-IsClimb (suc max_level) (max (u64_max / m) 1) 0 (stable_hash id) (omega arith)
        (omega arith) in
    let whole : steps ≡ climb (suc max_level) (max (u64_max / m) 1) 0 (stable_hash id) =
      omega (arith, same) in
    subst (IsClimb (max (u64_max / m) 1) 0 (stable_hash id)) whole c

pub deterministic_level_bound : (id : Str) (m : ℕ) → deterministic_level id m ≤ max_level
deterministic_level_bound id m = omega (arith, (deterministic_level-IsClimb id m).bounded)
