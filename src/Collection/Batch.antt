-- ===== src/Collection/Batch.antt =====
-- What a batch leaves behind: reads after `upsert` and `delete`, and errors.
use focal_vector.Base.{
  ℕ, ◌+◌, ◌≤◌, ◌<◌, ◌⊎◌, Bool-cases, false, ◌≡◌, refl, ap, ◌∙◌, Option, none, some, List, [], ◌∷◌,
  length, arith, ◌==◌, if◌then◌else◌, is_empty, inl, inr, subst,
}
use focal_vector.Outcome.{Error, sequence_overflow, ok, err, >>=-ok, Result-cases}
use focal_vector.Order.{is_eq}
use focal_vector.Str.{Str, str_cmp, str_cmp-IsLawful}
use focal_vector.Float.{FloatOps}
use focal_vector.Map
use focal_vector.Map.{Map, lookup, contains}
use focal_vector.Map.Laws.{lookup-hash_insert, lookup-remove}
use focal_vector.Metric.{prepare}
use focal_vector.Point.{CollectionConfig, UpsertPoint, StoredPoint}
use focal_vector.Collection.{
  Collection, u64_max, next_sequence, get_stored, insert_all, remove_all, apply_prepared_upsert,
  apply_delete_at, delete, prepare_point, prepare_each, prepare_upsert, upsert,
}

abbrev pub or_else {ℓ} : {A : Type ℓ} → Option A → Option A → Option A
or_else none o = o
or_else (some a) o = some a

-- The last point of a batch with the given ID.
unfoldable pub find_last : Str → List StoredPoint → Option StoredPoint
find_last id [] = none
find_last id (p ∷ ps) = or_else (find_last id ps) (if is_eq (str_cmp id p.id) then some p else none)

pub lookup-insert_all :
    (id : Str) (ps : List StoredPoint) (m : Map Str StoredPoint)
    → lookup str_cmp id (insert_all ps m) ≡ or_else (find_last id ps) (lookup str_cmp id m)
unfolding insert_all find_last
lookup-insert_all id [] m = refl
lookup-insert_all id (p ∷ ps) m = ground (
  arith,
  lookup-insert_all id ps (Map.hash_insert str_cmp p.id p m),
  lookup-hash_insert str_cmp-IsLawful p.id id p m,
)

pub lookup-remove_all :
    (id : Str) (ids : List Str) (m : Map Str StoredPoint)
    → lookup str_cmp id (remove_all ids m)
      ≡ (if contains str_cmp id ids then none else lookup str_cmp id m)
unfolding remove_all contains
lookup-remove_all id [] m = refl
lookup-remove_all id (j ∷ ids) m = ground (
  arith,
  lookup-remove_all id ids (Map.remove str_cmp j m),
  lookup-remove str_cmp-IsLawful j id m,
)

-- What a committed deletion leaves: the next sequence, the same configuration, none of the named IDs, and
-- every other point.
pub record IsDeleted (c : Collection) (ids : List Str) (c' : Collection) : Type 0 where
  pub at_number : c'.sequence ≡ c.sequence + 1
  pub same_config : c'.config ≡ c.config
  pub reads :
      (id : Str) → get_stored c' id ≡ (if contains str_cmp id ids then none else get_stored c id)

-- A deletion commits at the next sequence: it removes the named IDs and leaves every other point. At
-- the last sequence it is refused and changes nothing.
pub delete_commits :
    (c : Collection) (ids : List Str)
    → c.sequence ≤ u64_max
    → ((c.sequence ≡ u64_max) × (delete c ids ≡ (c, err sequence_overflow)))
      ⊎ ((c' : Collection) × (c.sequence < u64_max)
          × (delete c ids ≡ (c', ok (c.sequence + 1)))
          × IsDeleted c ids c')
unfolding delete next_sequence apply_delete_at
delete_commits c ids b = elim (Bool-cases (c.sequence == u64_max)) [
  | inl e ↦ inl (ground (arith, e), rw (delete, next_sequence, e) refl)
  | inr e ↦ inr (
    apply_delete_at c ids (c.sequence + 1),
    ground (arith, e, b),
    rw (delete, next_sequence, e) refl,
    record {
      at_number = refl;
      same_config = refl;
      reads = λ id. unfold get_stored in lookup-remove_all id ids c.points;
    },
  )
]

module _ (fl : FloatOps) (config : CollectionConfig) (sequence : ℕ) where
  -- What a stored point keeps of the point that was sent, and what was checked of it.
  pub record IsPrepared (p : UpsertPoint) (q : StoredPoint) : Type 0 where
    pub same_id : q.id ≡ p.id
    pub same_metadata : q.metadata ≡ p.metadata
    pub at_sequence : q.sequence ≡ sequence
    pub dimension : length p.vector ≡ config.dimension
    pub named : is_empty p.id ≡ false
    pub prepared : prepare fl config.metric p.vector ≡ ok q.vector

  pub data ArePrepared : List UpsertPoint → List StoredPoint → Type 0 where
    none_left : ArePrepared [] []
    next :
        {p : UpsertPoint} {q : StoredPoint} {ps : List UpsertPoint} {qs : List StoredPoint}
        → IsPrepared p q
        → ArePrepared ps qs
        → ArePrepared (p ∷ ps) (q ∷ qs)

  pub prepare_point-ok :
      (p : UpsertPoint) (q : StoredPoint)
      → prepare_point fl config sequence p ≡ ok q
      → IsPrepared p q
  unfolding prepare_point
  prepare_point-ok p q h = ground arith

  pub prepare_each-ok :
      (ps : List UpsertPoint) (qs : List StoredPoint)
      → prepare_each fl config sequence ps ≡ ok qs
      → ArePrepared ps qs
  unfolding prepare_each
  prepare_each-ok [] [] h = none_left
  prepare_each-ok [] (q ∷ qs) h = cc
  prepare_each-ok (p ∷ ps) [] h =
      let (q, e, f) = >>=-ok (prepare_point fl config sequence p) _ h in
      let (rest, g, k) = >>=-ok (prepare_each fl config sequence ps) _ f in cc
  prepare_each-ok (p ∷ ps) (r ∷ rs) h =
      let (q, e, f) = >>=-ok (prepare_point fl config sequence p) _ h in
      let (rest, g, k) = >>=-ok (prepare_each fl config sequence ps) _ f in
      let head : q ≡ r = cc in
      let tail : rest ≡ rs = cc in
      next (prepare_point-ok p r (e ∙ ap ok head)) (prepare_each-ok ps rs (g ∙ ap ok tail))

  -- The other way: a batch whose points pass the checks is prepared.
  pub prepare_each_complete :
      (ps : List UpsertPoint) (qs : List StoredPoint)
      → ArePrepared ps qs
      → prepare_each fl config sequence ps ≡ ok qs
  unfolding prepare_each prepare_point
  prepare_each_complete _ _ none_left = refl
  prepare_each_complete _ _ (next {p} {q} {ps} {qs} h r) = ground (
    arith,
    prepare_each_complete ps qs r,
    h.same_id,
    h.same_metadata,
    h.at_sequence,
    h.dimension,
    h.named,
    h.prepared,
  )

  pub prepare_upsert-ok :
      (ps : List UpsertPoint) (qs : List StoredPoint)
      → prepare_upsert fl config ps sequence ≡ ok qs
      → ArePrepared ps qs
  unfolding prepare_upsert
  prepare_upsert-ok [] qs h = cc
  prepare_upsert-ok (p ∷ ps) qs h = prepare_each-ok (p ∷ ps) qs h

module _ (fl : FloatOps) where
  -- What a committed upsert leaves: the next sequence, the same configuration, and each ID of the
  -- batch with its last point, prepared.
  pub record IsUpserted (c : Collection) (ps : List UpsertPoint) (c' : Collection) (n : ℕ)
      : Type 0 where
    pub numbered : n ≡ c.sequence + 1
    pub bounded : n ≤ u64_max
    pub at_number : c'.sequence ≡ n
    pub same_config : c'.config ≡ c.config
    pub stored : List StoredPoint
    pub prepared : ArePrepared fl c.config n ps stored
    pub reads : (id : Str) → get_stored c' id ≡ or_else (find_last id stored) (get_stored c id)

  next_sequence-ok :
      (c : Collection) (n : ℕ)
      → c.sequence ≤ u64_max
      → next_sequence c ≡ ok n
      → (n ≡ c.sequence + 1) × (n ≤ u64_max)
  unfolding next_sequence
  next_sequence-ok c n b h = ground arith

  pub upsert-ok :
      (c c' : Collection) (ps : List UpsertPoint) (n : ℕ)
      → upsert fl c ps ≡ (c', ok n)
      → (qs : List StoredPoint) × (next_sequence c ≡ ok n)
        × (prepare_upsert fl c.config ps n ≡ ok qs)
        × (c' ≡ apply_prepared_upsert c qs n)
  unfolding upsert
  upsert-ok c c' ps n h = elim (Result-cases (next_sequence c)) [
    | inr (x, e) ↦ let bad = rw (e, upsert) at h in cc
    | inl (m, e) ↦ elim (Result-cases (prepare_upsert fl c.config ps m)) [
      | inr (x, f) ↦ let bad = rw (e, upsert, f) at h in cc
      | inl (qs, f) ↦
          let good = rw (e, upsert, f) at h in
          let same : m ≡ n = cc in
          (qs, e ∙ ap ok same, subst (λ k. prepare_upsert fl c.config ps k ≡ ok qs) same f, cc)
    ]
  ]

  -- A committed upsert, of a collection whose sequence fits in 64 bits, numbers itself with the next
  -- sequence, and afterwards every ID reads as the last point of the batch that has it, with its
  -- vector prepared, or as before if none has.
  pub upsert_commits :
      (c c' : Collection) (ps : List UpsertPoint) (n : ℕ)
      → c.sequence ≤ u64_max
      → upsert fl c ps ≡ (c', ok n)
      → IsUpserted c ps c' n
  unfolding apply_prepared_upsert
  upsert_commits c c' ps n b h =
      let (qs, e, f, g) = upsert-ok c c' ps n h in
      let (numbered, bounded) = next_sequence-ok c n b e in
      record {
        numbered = numbered;
        bounded = bounded;
        at_number = ap (λ (x : Collection). x.sequence) g;
        same_config = ap (λ (x : Collection). x.config) g;
        stored = qs;
        prepared = prepare_upsert-ok fl c.config n ps qs f;
        reads = λ id. unfold get_stored in rw g (lookup-insert_all id qs c.points);
      }

  -- A batch that is not empty and whose points pass the checks commits, if the sequence has room.
  pub upsert_complete :
      (c : Collection) (p : UpsertPoint) (ps : List UpsertPoint) (qs : List StoredPoint)
      → c.sequence < u64_max
      → ArePrepared fl c.config (c.sequence + 1) (p ∷ ps) qs
      → upsert fl c (p ∷ ps) ≡ (apply_prepared_upsert c qs (c.sequence + 1), ok (c.sequence + 1))
  unfolding upsert next_sequence prepare_upsert
  upsert_complete c p ps qs room h =
      ground (arith, prepare_each_complete fl c.config (c.sequence + 1) (p ∷ ps) qs h)

  -- An upsert that fails changes nothing.
  pub upsert_atomic :
      (c c' : Collection) (ps : List UpsertPoint) (e : Error)
      → upsert fl c ps ≡ (c', err e)
      → c' ≡ c
  unfolding upsert
  upsert_atomic c c' ps e h = ground arith
