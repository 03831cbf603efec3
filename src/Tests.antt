-- ===== src/Tests.antt =====
-- Concrete runs: each theorem that has hypotheses, at an input where they hold.
mod Storage
mod Memory
mod Replicas
mod Files
mod Graphs
mod GraphBytes
use focal_vector.Base.{ℕ, ◌+◌, ◌%◌, ◌^◌, ◌<◌, true, ◌≡◌, refl, none, List, [], ◌∷◌, arith}
use focal_vector.Float.{FloatOps, is_finite64}
use focal_vector.Str.{Str}
use focal_vector.Metric.{dot_product}
use focal_vector.Point.{CollectionConfig, UpsertPoint, StoredPoint}
use focal_vector.Collection.{Collection}
use focal_vector.Persistent.{PersistentCollection}

pub finite_zero : is_finite64 0 ≡ true
unfolding is_finite64
finite_zero = refl

-- Some arithmetic on bit patterns, in the place of the hardware's.
abbrev pub arithmetic : FloatOps
arithmetic = record {
  add32 = λ a b. (a + b) % 2 ^ 32;
  sub32 = λ a b. (a + b) % 2 ^ 32;
  mul32 = λ a b. (a + b) % 2 ^ 32;
  neg32 = λ a. a;
  sum32 = λ xs. 0;
  widen = λ a. a;
  mul64 = λ a b. (a + b) % 2 ^ 64;
  sum64 = λ xs. 1;
  sqrt64 = λ a. a;
  recip64 = λ a. a;
  narrow = λ a. a % 2 ^ 32;
  from_i64 = λ n. 0;
  mul32_range = λ a b. omega arith;
  from_i64_finite = λ n. finite_zero;
}

-- The bits of 1.0.
abbrev pub one : ℕ
one = 0x3f800000

abbrev pub config : CollectionConfig
config = record { dimension = 2; metric = dot_product }

abbrev pub name_a : Str
name_a = 97 ∷ []

abbrev pub point_a : UpsertPoint
point_a = record { id = name_a; vector = one ∷ one ∷ []; metadata = [] }

abbrev pub stored_a : StoredPoint
stored_a = record { id = name_a; vector = one ∷ one ∷ []; metadata = []; sequence = 1 }

abbrev pub empty : Collection
empty = record { config = config; points = []; sequence = 0 }

abbrev pub one_point : Collection
one_point = record { config = config; points = (name_a, stored_a) ∷ []; sequence = 1 }

abbrev pub empty_store : PersistentCollection
empty_store = record { inner = empty; wal = []; dirty_ids = [] }
