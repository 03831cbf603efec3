-- ===== src/Collection/Search.antt =====
-- Exact search: the k best of the points that match, whatever order the hash map yields them in.
use mathlib.Core.List.{Perm, Permᴰ}
use mathlib.Core.HLevel.{prop→set}
use mathlib.Core.Logic.{∥∥₁_elim}
use package.text.Mathlib.TextEquality.{IsScalar-prop}
use mathlib.Core.Path.{ap₂, fun_ext}
use focal_vector.Base.{
  ℕ, ◌<◌, false, ◌≡◌, refl, ap, ◌∙◌, sym, Option, List, [], ◌∷◌, map, length, keep, All, arith,
  ◌==◌, if◌then◌else◌, Bool-cases, inl, inr,
}
use focal_vector.Outcome.{
  text, invalid_dimension, invalid_query, Result, ok, err, ◌>>=◌, Result-cases,
}
use focal_vector.Order.{is_eq}
use focal_vector.Str.{Str, str_cmp}
use focal_vector.Float.{F32, FloatOps}
use focal_vector.Map.{Map}
use focal_vector.Metric.{prepare}
use focal_vector.Filter.{Filter}
use focal_vector.Sort.{sort}
use focal_vector.Sort.TopK.{best, offer_all-eq-best, best-IsSorted}
use focal_vector.Sort.Laws.{sort-of_sorted}
use focal_vector.Sort.Unique.{
  AllDiffer, best-Permᴰ, best-map, map-Permᴰ, keep-Permᴰ, keep-AllDiffer,
}
use focal_vector.Point.{
  CollectionConfig, StoredPoint, SearchHit, RankedPoint, rank_cmp, rank_cmp-IsPreorder,
  compare_hits, compare_hits-IsPreorder,
}
use focal_vector.Collection.{Collection, values, id_cmp, to_hit, rank, top_k, passes, search}
use focal_vector.Collection.Validity.{IsEntry, HasDistinctKeys, IsValid}

-- The IDs of a valid collection's points differ.
values_differ :
    (config : CollectionConfig) (n : ℕ) (m : Map Str StoredPoint)
    → All (IsEntry config n) m
    → HasDistinctKeys m
    → AllDiffer id_cmp (values m)
values_differ config n [] a d = tt
values_differ config n (e ∷ m) a d = (others m a.1 d.0, values_differ config n m a.1 d.1)
  where
    others :
        (r : Map Str StoredPoint)
        → All (IsEntry config n) r
        → All (λ f. is_eq (str_cmp e.0 f.0) ≡ false) r
        → All (λ q. is_eq (id_cmp e.1 q) ≡ false) (values r)
    others [] a' d' = tt
    others (f ∷ r) a' d' = (unfold id_cmp in rw (a.0.keyed, a'.0.keyed) d'.0, others r a'.1 d'.1)

results_set : IsSet (Result (List SearchHit))
results_set = hlevel (λ (n : ℕ). prop→set (IsScalar-prop n))

module _ (fl : FloatOps) where
  -- The two refusals of a search, the metric's refusal of the query, and otherwise `answer`.
  abbrev pub when_allowed :
      CollectionConfig → List F32 → ℕ → (List F32 → List SearchHit) → Result (List SearchHit)
  when_allowed config query k answer =
      if k == 0
      then err (invalid_query (text "k must be greater than zero"))
      else if length query == config.dimension
      then (prepare fl config.metric query >>= λ prepared. ok (answer prepared))
      else err (invalid_dimension config.dimension (length query))

  -- A point as a hit, with its score.
  unfoldable pub hit_of : CollectionConfig → List F32 → StoredPoint → SearchHit
  unfolding rank
  hit_of config query p = to_hit (rank fl config query p)

  -- Every point that passes the filter, as a hit: the specification of a search scans them all.
  unfoldable pub scan : Collection → List F32 → Option Filter → List SearchHit
  unfolding hit_of
  scan c query filter = map (hit_of c.config query) (keep (passes fl filter) (values c.points))

  map-map {ℓ} :
      {A B C : Type ℓ} (g : B → C) (f : A → B) (xs : List A)
      → map g (map f xs) ≡ map (λ x. g (f x)) xs
  map-map g f [] = refl
  map-map g f (x ∷ xs) = ap (λ ys. g (f x) ∷ ys) (map-map g f xs)

  -- The heap's k survivors are the k best.
  pub top_k-eq-best :
      (config : CollectionConfig) (query : List F32) (k : ℕ) (points : List StoredPoint)
      → 0 < k
      → top_k fl config query k points ≡ best compare_hits k (map (hit_of config query) points)
  unfolding top_k hit_of rank_cmp compare_hits
  top_k-eq-best config query k points pos =
      ap (λ rs. map to_hit (sort rank_cmp rs)) (offer_all-eq-best rank_cmp-IsPreorder k ranked pos)
      ∙ ap (map to_hit)
          (sort-of_sorted rank_cmp-IsPreorder _ (best-IsSorted rank_cmp-IsPreorder k ranked))
      ∙ sym (best-map compare_hits to_hit k ranked)
      ∙ ap (best compare_hits k) (map-map to_hit (rank fl config query) points)
    where
      ranked : List RankedPoint
      ranked = map (rank fl config query) points

  -- `search` on every branch: the two refusals, the metric's refusal of the query, and otherwise the k
  -- best of all the points that pass the filter.
  pub search-eq-scan :
      (c : Collection) (query : List F32) (k : ℕ) (filter : Option Filter)
      → search fl c query k filter
        ≡ when_allowed c.config query k (λ prepared. best compare_hits k (scan c prepared filter))
  unfolding search scan
  search-eq-scan c query k filter = elim (Bool-cases (k == 0)) [
    | inl none_wanted ↦ rw (none_wanted, search)
    | inr wanted ↦ elim (Bool-cases (length query == c.config.dimension)) [
      | inr misfit ↦ rw (wanted, misfit, search)
      | inl fits ↦ elim (Result-cases (prepare fl c.config.metric query)) [
        | inr (e, refused) ↦ rw (wanted, fits, refused, search)
        | inl (prepared, e) ↦
            rw (wanted, fits, e, search)
              (ap ok (
                top_k-eq-best c.config prepared k (keep (passes fl filter) (values c.points))
                  (ground arith)))
      ]
    ]
  ]

  compare-same_id :
      (a b : SearchHit) → is_eq (str_cmp a.id b.id) ≡ false → is_eq (compare_hits a b) ≡ false
  unfolding compare_hits
  compare-same_id a b h = ground arith

  hits_differ :
      (config : CollectionConfig) (query : List F32) (ps : List StoredPoint)
      → AllDiffer id_cmp ps
      → AllDiffer compare_hits (map (hit_of config query) ps)
  hits_differ config query [] d = tt
  hits_differ config query (p ∷ ps) d = (others ps d.0, hits_differ config query ps d.1)
    where
      others :
          (qs : List StoredPoint)
          → All (λ q. is_eq (id_cmp p q) ≡ false) qs
          → All
              (λ h. is_eq (compare_hits (hit_of config query p) h) ≡ false)
              (map (hit_of config query) qs)
      others [] a = tt
      others (q ∷ qs) a = (unfold hit_of id_cmp in compare-same_id _ _ a.0, others qs a.1)

  best-scan-Permᴰ :
      (c c' : Collection) (k : ℕ) (filter : Option Filter)
      → IsValid c
      → c'.config ≡ c.config
      → Permᴰ c.points c'.points
      → (query : List F32)
      → best compare_hits k (scan c query filter) ≡ best compare_hits k (scan c' query filter)
  unfolding scan
  best-scan-Permᴰ c c' k filter v e r query =
      best-Permᴰ compare_hits-IsPreorder k
        (map-Permᴰ (hit_of c.config query) (keep-Permᴰ (passes fl filter) (map-Permᴰ (λ f. f.1) r)))
        (hits_differ c.config query _ (
          keep-AllDiffer id_cmp (passes fl filter) _
            (values_differ c.config c.sequence c.points v.entries v.distinct)))
      ∙ ap
          (λ config.
            best compare_hits k
              (map (hit_of config query) (keep (passes fl filter) (values c'.points))))
          (sym e)

  -- Searching one collection does not depend on the order in which its hash map yields the points.
  pub search-Perm :
      (c c' : Collection) (query : List F32) (k : ℕ) (filter : Option Filter)
      → IsValid c
      → c'.config ≡ c.config
      → Perm c.points c'.points
      → search fl c query k filter ≡ search fl c' query k filter
  search-Perm c c' query k filter v e perm = ∥∥₁_elim perm (results_set _ _) λ r.
      search-eq-scan c query k filter
      ∙ ap₂ (λ config answer. when_allowed config query k answer) (sym e)
          (fun_ext (best-scan-Permᴰ c c' k filter v e r))
      ∙ sym (search-eq-scan c' query k filter)
