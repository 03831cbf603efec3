-- ===== src/Sharding/Merge.antt =====
-- A search over the shards against one search over all their points.
use focal_vector.Base.{
  ℕ, ◌≤◌, true, false, ◌≡◌, refl, ap, ◌∙◌, sym, Option, List, [], ◌∷◌, ◌++◌, length, All, le→ltb,
  ◌==◌, Bool-cases, inl, inr,
}
use focal_vector.Outcome.{Error, ok, err, Result-cases}
use focal_vector.Float.{F32, FloatOps}
use focal_vector.Filter.{Filter}
use focal_vector.Metric.{prepare}
use focal_vector.Sort.TopK.{best, best_append, best-append_best}
use focal_vector.Point.{CollectionConfig, SearchHit, compare_hits, compare_hits-IsPreorder}
use focal_vector.Collection.{Collection}
use focal_vector.Collection
use focal_vector.Collection.Search.{scan, when_allowed, search-eq-scan}
use focal_vector.Persistent.{PersistentCollection}
use focal_vector.Sharding.{search_each, search}

module _ (fl : FloatOps) where
  -- Every hit of every shard.
  unfoldable pub scan_all : List PersistentCollection → List F32 → Option Filter → List SearchHit
  scan_all [] query filter = []
  scan_all (s ∷ shards) query filter = scan fl s.inner query filter ++ scan_all shards query filter

  -- The best of each shard, one after another.
  bests : ℕ → List PersistentCollection → List F32 → Option Filter → List SearchHit
  bests k [] query filter = []
  bests k (s ∷ shards) query filter =
      best compare_hits k (scan fl s.inner query filter) ++ bests k shards query filter

  best-bests :
      (k : ℕ) (query : List F32) (filter : Option Filter) (shards : List PersistentCollection)
      → best compare_hits k (bests k shards query filter)
        ≡ best compare_hits k (scan_all shards query filter)
  unfolding bests scan_all
  best-bests k query filter [] = refl
  best-bests k query filter (s ∷ shards) =
      let here = scan fl s.inner query filter in
      let p = compare_hits-IsPreorder in
      best_append p k here (bests k shards query filter)
      ∙ sym (best-append_best p k here (bests k shards query filter))
      ∙ ap (λ hits. best compare_hits k (here ++ hits)) (best-bests k query filter shards)
      ∙ best-append_best p k here (scan_all shards query filter)

  abbrev pub AllConfigured : CollectionConfig → List PersistentCollection → Type 0
  AllConfigured config shards = All (λ s. s.inner.config ≡ config) shards

  search_each-ok :
      (config : CollectionConfig) (query prepared : List F32) (k ef : ℕ) (filter : Option Filter)
      (shards : List PersistentCollection)
      → AllConfigured config shards
      → (k == 0) ≡ false
      → (length query == config.dimension) ≡ true
      → k ≤ ef
      → prepare fl config.metric query ≡ ok prepared
      → search_each fl shards query k filter ef ≡ ok (bests k shards prepared filter)
  unfolding search_each bests
  search_each-ok config query prepared k ef filter [] a z d e h = refl
  search_each-ok config query prepared k ef filter (s ∷ shards) a z d e h =
      let here : Collection.search fl s.inner query k filter
          ≡ ok (best compare_hits k (scan fl s.inner prepared filter)) =
        search-eq-scan fl s.inner query k filter ∙ rw (a.0, z, d, h) in
      rw (le→ltb ef k e, here, search_each-ok config query prepared k ef filter shards a.1 z d e h)

  search_each_err :
      (config : CollectionConfig) (query : List F32) (k ef : ℕ) (filter : Option Filter)
      (s : PersistentCollection) (shards : List PersistentCollection) (x : Error)
      → AllConfigured config (s ∷ shards)
      → (k == 0) ≡ false
      → (length query == config.dimension) ≡ true
      → k ≤ ef
      → prepare fl config.metric query ≡ err x
      → search_each fl (s ∷ shards) query k filter ef ≡ err x
  unfolding search_each
  search_each_err config query k ef filter s shards x a z d e h =
      let here : Collection.search fl s.inner query k filter ≡ err x =
        search-eq-scan fl s.inner query k filter ∙ rw (a.0, z, d, h) in
      rw (le→ltb ef k e, here)

  -- A search of one shard or more, all with the collection's configuration and `ef_search` at least k,
  -- is refused as a search of one collection is, and otherwise answers with the k best of all the
  -- points of all the shards that pass the filter.
  pub search-eq-scan_all :
      (config : CollectionConfig) (s : PersistentCollection) (shards : List PersistentCollection)
      (query : List F32) (k ef : ℕ) (filter : Option Filter)
      → AllConfigured config (s ∷ shards)
      → k ≤ ef
      → search fl config (s ∷ shards) query k filter ef
        ≡ when_allowed fl config query k
            (λ prepared. best compare_hits k (scan_all (s ∷ shards) prepared filter))
  unfolding search
  search-eq-scan_all config s shards query k ef filter a e = elim (Bool-cases (k == 0)) [
    | inl z ↦ rw (z, search)
    | inr z ↦ elim (Bool-cases (length query == config.dimension)) [
      | inr d ↦ rw (z, d, search)
      | inl d ↦ elim (Result-cases (prepare fl config.metric query)) [
        | inr (x, h) ↦
            rw (z, d, h, search, search_each_err config query k ef filter s shards x a z d e h)
        | inl (prepared, h) ↦
            rw
              (
                z,
                d,
                h,
                search,
                search_each-ok config query prepared k ef filter (s ∷ shards) a z d e h,
              )
              (ap ok (best-bests k prepared filter (s ∷ shards)))
      ]
    ]
  ]
