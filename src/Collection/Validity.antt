-- ===== src/Collection/Validity.antt =====
-- The invariant of a collection: what each entry satisfies, and that no ID occurs twice.
use focal_vector.Base.{
  ℕ, ◌≤◌, true, false, ◌≡◌, refl, ap, ◌∙◌, List, [], ◌∷◌, length, arith, is_empty, Bool-cases, inl,
  inr, subst, sym, All, All-imp,
}
use focal_vector.Outcome.{Result, ok, err, Result-cases}
use focal_vector.Order.{is_eq}
use focal_vector.Str.{Str, str_cmp, str_cmp-IsLawful}
use focal_vector.Float.{FloatOps}
use focal_vector.Map.{Map, hash_insert, remove}
use focal_vector.Metric.{length-prepare}
use focal_vector.Point.{CollectionConfig, UpsertPoint, StoredPoint}
use focal_vector.Collection.{
  Collection, u64_max, next_sequence, insert_all, remove_all, apply_prepared_upsert,
  apply_delete_at, delete, upsert, prepare_upsert,
}
use focal_vector.Collection.Batch.{
  ArePrepared, none_left, next, upsert-ok, upsert_atomic, prepare_upsert-ok,
}

-- An entry's key is its point's ID, which is not empty; the vector has the collection's dimension; the
-- point is not newer than the collection.
pub record IsEntry (config : CollectionConfig) (sequence : ℕ) (e : Str × StoredPoint) : Type 0 where
  pub keyed : e.1.id ≡ e.0
  pub named : is_empty e.0 ≡ false
  pub dimension : length e.1.vector ≡ config.dimension
  pub not_newer : e.1.sequence ≤ sequence

abbrev pub HasDistinctKeys : Map Str StoredPoint → Type 0
HasDistinctKeys [] = Unit
HasDistinctKeys (e ∷ m) = All (λ f. is_eq (str_cmp e.0 f.0) ≡ false) m × HasDistinctKeys m

pub record IsValid (c : Collection) : Type 0 where
  pub bounded : c.sequence ≤ u64_max
  pub entries : All (IsEntry c.config c.sequence) c.points
  pub distinct : HasDistinctKeys c.points

-- Either way of changing a map keeps a property of all entries.
All-hash_insert {κ} :
    (P : Str × StoredPoint → Type κ) (k : Str) (v : StoredPoint) (m : Map Str StoredPoint)
    → P (k, v)
    → All P m
    → All P (hash_insert str_cmp k v m)
unfolding hash_insert
All-hash_insert P k v [] p a = (p, tt)
All-hash_insert P k v (e ∷ m) p a = elim (Bool-cases (is_eq (str_cmp k e.0))) [
  | inl b ↦ rw b (p, a.1)
  | inr b ↦ rw b (a.0, All-hash_insert P k v m p a.1)
]

All-remove {κ} :
    (P : Str × StoredPoint → Type κ) (k : Str) (m : Map Str StoredPoint)
    → All P m
    → All P (remove str_cmp k m)
unfolding remove
All-remove P k [] a = tt
All-remove P k (e ∷ m) a = elim (Bool-cases (is_eq (str_cmp k e.0))) [
  | inl b ↦ rw b (All-remove P k m a.1)
  | inr b ↦ rw b (a.0, All-remove P k m a.1)
]

swap_ne : (a b : Str) → is_eq (str_cmp a b) ≡ false → is_eq (str_cmp b a) ≡ false
swap_ne a b h = ground (arith, str_cmp-IsLawful.preorder.swap a b)

hash_insert-HasDistinctKeys :
    (k : Str) (v : StoredPoint) (m : Map Str StoredPoint)
    → HasDistinctKeys m
    → HasDistinctKeys (hash_insert str_cmp k v m)
unfolding hash_insert
hash_insert-HasDistinctKeys k v [] d = (tt, tt)
hash_insert-HasDistinctKeys k v (e ∷ m) d = elim (Bool-cases (is_eq (str_cmp k e.0))) [
  | inl b ↦ rw b (All-imp (λ f h. like_first f b h) m d.0, d.1)
  | inr b ↦ rw b (
    All-hash_insert (λ f. is_eq (str_cmp e.0 f.0) ≡ false) k v m (swap_ne k e.0 b) d.0,
    hash_insert-HasDistinctKeys k v m d.1,
  )
]
  where
    like_first :
        (f : Str × StoredPoint)
        → is_eq (str_cmp k e.0) ≡ true
        → is_eq (str_cmp e.0 f.0) ≡ false
        → is_eq (str_cmp k f.0) ≡ false
    like_first f b h = ground (arith, str_cmp-IsLawful.preorder.trans_eq k e.0 f.0)

remove-HasDistinctKeys :
    (k : Str) (m : Map Str StoredPoint) → HasDistinctKeys m → HasDistinctKeys (remove str_cmp k m)
unfolding remove
remove-HasDistinctKeys k [] d = tt
remove-HasDistinctKeys k (e ∷ m) d = elim (Bool-cases (is_eq (str_cmp k e.0))) [
  | inl b ↦ rw b (remove-HasDistinctKeys k m d.1)
  | inr b ↦ rw b (All-remove _ k m d.0, remove-HasDistinctKeys k m d.1)
]

insert_all-HasDistinctKeys :
    (ps : List StoredPoint) (m : Map Str StoredPoint)
    → HasDistinctKeys m
    → HasDistinctKeys (insert_all ps m)
unfolding insert_all
insert_all-HasDistinctKeys [] m d = d
insert_all-HasDistinctKeys (p ∷ ps) m d =
    insert_all-HasDistinctKeys ps _ (hash_insert-HasDistinctKeys p.id p m d)

remove_all-HasDistinctKeys :
    (ids : List Str) (m : Map Str StoredPoint)
    → HasDistinctKeys m
    → HasDistinctKeys (remove_all ids m)
unfolding remove_all
remove_all-HasDistinctKeys [] m d = d
remove_all-HasDistinctKeys (id ∷ ids) m d =
    remove_all-HasDistinctKeys ids _ (remove-HasDistinctKeys id m d)

All-insert_all {κ} :
    (P : Str × StoredPoint → Type κ) (ps : List StoredPoint) (m : Map Str StoredPoint)
    → All (λ (p : StoredPoint). P (p.id, p)) ps
    → All P m
    → All P (insert_all ps m)
unfolding insert_all
All-insert_all P [] m h a = a
All-insert_all P (p ∷ ps) m h a = All-insert_all P ps _ h.1 (All-hash_insert P p.id p m h.0 a)

All-remove_all {κ} :
    (P : Str × StoredPoint → Type κ) (ids : List Str) (m : Map Str StoredPoint)
    → All P m
    → All P (remove_all ids m)
unfolding remove_all
All-remove_all P [] m a = a
All-remove_all P (id ∷ ids) m a = All-remove_all P ids _ (All-remove P id m a)

later :
    (config : CollectionConfig) (s t : ℕ)
    → s ≤ t
    → (e : Str × StoredPoint) → IsEntry config s e
    → IsEntry config t e
later config s t h e i = record {
  keyed = i.keyed;
  named = i.named;
  dimension = i.dimension;
  not_newer = omega (arith, i.not_newer);
}

prepared_entries :
    (fl : FloatOps) (config : CollectionConfig) (n : ℕ) (ps : List UpsertPoint)
    (qs : List StoredPoint)
    → ArePrepared fl config n ps qs
    → All (λ (q : StoredPoint). IsEntry config n (q.id, q)) qs
prepared_entries fl config n _ _ none_left = tt
prepared_entries fl config n _ _ (next {p} {q} {ps} {qs} h r) = (
  record {
    keyed = refl;
    named = ap is_empty h.same_id ∙ h.named;
    dimension = length-prepare fl config.metric p.vector h.prepared ∙ h.dimension;
    not_newer = omega (arith, h.at_sequence);
  },
  prepared_entries fl config n ps qs r,
)

next_sequence-rises :
    (c : Collection) (n : ℕ)
    → c.sequence ≤ u64_max
    → next_sequence c ≡ ok n
    → (c.sequence ≤ n) × (n ≤ u64_max)
unfolding next_sequence
next_sequence-rises c n b h = ground arith

upserted-IsValid :
    (fl : FloatOps) (c : Collection) (ps : List UpsertPoint) (n : ℕ) (qs : List StoredPoint)
    → next_sequence c ≡ ok n
    → prepare_upsert fl c.config ps n ≡ ok qs
    → IsValid c
    → IsValid (apply_prepared_upsert c qs n)
unfolding apply_prepared_upsert
upserted-IsValid fl c ps n qs e f v =
    let (rises, fits) = next_sequence-rises c n v.bounded e in
    record {
      bounded = fits;
      entries =
          All-insert_all _ qs c.points
            (prepared_entries fl c.config n ps qs (prepare_upsert-ok fl c.config n ps qs f))
            (All-imp (later c.config c.sequence n rises) c.points v.entries);
      distinct = insert_all-HasDistinctKeys qs c.points v.distinct;
    }

-- An upsert, committed or refused, leaves a valid collection valid.
pub upsert-IsValid :
    (fl : FloatOps) (c : Collection) (ps : List UpsertPoint)
    → IsValid c
    → IsValid (upsert fl c ps).0
upsert-IsValid fl c ps v = by_result (upsert fl c ps).1 refl
  where
    by_result : (r : Result ℕ) → (upsert fl c ps).1 ≡ r → IsValid (upsert fl c ps).0
    by_result (err e) h =
        subst IsValid (sym (upsert_atomic fl c _ ps e (λ i. ((upsert fl c ps).0, h i)))) v
    by_result (ok n) h =
        let (qs, e, f, g) = upsert-ok fl c _ ps n (λ i. ((upsert fl c ps).0, h i)) in
        subst IsValid (sym g) (upserted-IsValid fl c ps n qs e f v)

-- A deletion, committed or refused, leaves a valid collection valid.
pub delete-IsValid : (c : Collection) (ids : List Str) → IsValid c → IsValid (delete c ids).0
unfolding delete apply_delete_at
delete-IsValid c ids v = elim (Result-cases (next_sequence c)) [
  | inr (e, h) ↦ rw (h, delete) v
  | inl (n, h) ↦
      rw (h, delete)
        (record {
          bounded = (next_sequence-rises c n v.bounded h).1;
          entries = All-remove_all _ ids c.points (
              All-imp (later c.config c.sequence n (next_sequence-rises c n v.bounded h).0) c.points
                v.entries);
          distinct = remove_all-HasDistinctKeys ids c.points v.distinct;
        })
]
