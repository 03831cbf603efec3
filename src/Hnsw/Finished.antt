-- ===== src/Hnsw/Finished.antt =====
-- A finished index may be searched: `build` returns nothing that a search could fall over.
use Prim.Native.Nat.{compare}
use mathlib.Core.Path.{ap₂}
use focal_vector.Base.{
  ℕ, zero, suc, true, false, not, List, [], ◌∷◌, ◌++◌, ◌^◌, ◌≤◌, ◌<◌, ◌≡◌, ◌==◌, refl, ap, sym, ◌∙◌,
  subst, none, some, leb, All, map, length, length-map, take, drop, get_elem?, take-append-drop,
  length-take, length-drop, arith,
}
use focal_vector.Outcome.{ok, reject_if, invalid_dimension, >>=-ok}
use focal_vector.Order.{is_eq}
use focal_vector.Str.{Str, str_cmp, str_cmp-IsLawful}
use focal_vector.Float.{F32, FloatOps}
use focal_vector.Metric.{Metric, prepare}
use focal_vector.Map.{contains}
use focal_vector.Map.Sets.{contains_eq}
use focal_vector.Map.Distinct.{distinct}
use focal_vector.Hnsw.{HnswConfig, validate_config, deterministic_level_bound}
use focal_vector.Hnsw.Vectors.{QuantOps, VectorStorage}
use focal_vector.Hnsw.Workspace.{Workspace}
use focal_vector.Hnsw.Graph.{HnswIndex, Node, len}
use focal_vector.Hnsw.Compact.{finalize_compact_graph}
use focal_vector.Hnsw.Packed.{HasLayers, neighbors-finalize, finalize-SameBut}
use focal_vector.Hnsw.Insert.{PreparedPoint, links_at}
use focal_vector.Hnsw.Build.{
  empty_index, insert_all, insert_batches, compact_neighbors, build_prepared_points, check_ids,
  prepare_point, prepare_all, build, parallel_build_seed,
}
use focal_vector.Hnsw.Sound.{has_layer, has_links, IsSound, has_layer_range, is_some}
use focal_vector.Hnsw.Linked.{IsLinkedFrom}
use focal_vector.Hnsw.Inserted.{IsGraph}
use focal_vector.Hnsw.Planned.{graph-IsClosed}
use focal_vector.Hnsw.Walked.{map-append}
use focal_vector.Hnsw.Search.{IsSearchable}
use focal_vector.Hnsw.Built.{
  IsLow, point_ids, insert_all-IsGrown, insert_batches-IsGrown, compact_neighbors-IsLinkedFrom,
  All_drop,
}
use focal_vector.Hnsw.Select.{All-take}

-- The IDs that pass the loop differ from each other and from those before.
check_ids-ok :
    (before ids : List Str)
    → check_ids before ids ≡ ok tt
    → (distinct str_cmp ids ≡ true)
      × ((x : Str) → contains str_cmp x ids ≡ true → contains str_cmp x before ≡ false)
unfolding check_ids contains
check_ids-ok before [] h = (refl, λ x m. cc)
check_ids-ok before (id ∷ ids) h =
    let rest : check_ids (id ∷ before) ids ≡ ok tt = ground (arith, h) in
    let fresh : contains str_cmp id before ≡ false = ground (arith, h) in
    let (d, apart) = check_ids-ok (id ∷ before) ids rest in
    (
      ground (arith, d, apart id, str_cmp-IsLawful.cmp_refl id),
      λ x m. ground (arith, m, fresh, apart x, contains_eq str_cmp-IsLawful x id before),
    )

abbrev nth : List Str → ℕ → Str
nth ids i = elim (get_elem? ids i) [ none ↦ [] | some id ↦ id ]

contains-nth :
    (x : Str) (ids : List Str) (j : ℕ)
    → j < length ids
    → is_eq (str_cmp x (nth ids j)) ≡ true
    → contains str_cmp x ids ≡ true
unfolding contains
contains-nth x [] j l e = absurd (omega arith)
contains-nth x (id ∷ ids) zero l e = ground (arith, e)
contains-nth x (id ∷ ids) (suc j) l e =
    let later = contains-nth x ids j (omega arith) e in ground (arith, later)

-- In a list of different IDs, an ID has one place.
pub place_of_id :
    (ids : List Str) (i j : ℕ)
    → distinct str_cmp ids ≡ true
    → i < length ids
    → j < length ids
    → is_eq (str_cmp (nth ids i) (nth ids j)) ≡ true
    → i ≡ j
place_of_id [] i j d l m e = absurd (omega arith)
place_of_id (x ∷ ids) zero zero d l m e = refl
place_of_id (x ∷ ids) zero (suc j) d l m e =
    let here = contains-nth x ids j (omega arith) e in absurd (ground arith)
place_of_id (x ∷ ids) (suc i) zero d l m e =
    let turned : is_eq (str_cmp x (nth ids i)) ≡ true =
      ground (arith, e, str_cmp-IsLawful.preorder.swap (nth ids i) x) in
    let here = contains-nth x ids i (omega arith) turned in absurd (ground arith)
place_of_id (x ∷ ids) (suc i) (suc j) d l m e =
    ap suc (place_of_id ids i j (ground arith) (omega arith) (omega arith) e)

-- A node has as many lists as it has layers.
lists_count :
    (lists : List (List ℕ)) (level : ℕ)
    → ((l : ℕ) → is_some (get_elem? lists l) ≡ leb l level)
    → length lists ≡ suc level
lists_count [] level h = let first = h 0 in absurd (ground (arith, first))
lists_count (x ∷ lists) zero h =
    ap suc (empty lists (λ l. let next = h (suc l) in ground (arith, next)))
  where
    empty : (ls : List (List ℕ)) → ((l : ℕ) → is_some (get_elem? ls l) ≡ false) → length ls ≡ 0
    empty [] g = refl
    empty (y ∷ ls) g = let first = g 0 in absurd (ground (arith, first))
lists_count (x ∷ lists) (suc level) h =
    ap suc (lists_count lists level (λ l. let next = h (suc l) in ground (arith, next)))

sound-HasLayers : (index : HnswIndex) → IsSound index → HasLayers index.nodes
unfolding has_layer has_links
sound-HasLayers index s = every index.nodes (λ i l. s.lists_ok i l)
  where
    every :
        (ns : List Node)
        → ((i l : ℕ)
            → (elim (get_elem? ns i) [ none ↦ false | some n ↦ is_some (get_elem? n.neighbors l) ])
              ≡ (elim (get_elem? ns i) [ none ↦ false | some n ↦ leb l n.level ]))
        → HasLayers ns
    every [] h = tt
    every (n ∷ ns) h = (lists_count n.neighbors n.level (h 0), every ns (λ i. h (suc i)))

linked-IsGraph : (a b : HnswIndex) → IsLinkedFrom a b → IsGraph a → IsGraph b
linked-IsGraph a b k g = record {
  sound = k.sound;
  unpacked = k.unpacked ∙ g.unpacked;
  ids_count = ap length k.same_ids ∙ g.ids_count ∙ sym k.count;
  entry_ok = λ entry e.
      ap (has_layer b entry) k.same_level
      ∙ k.layers entry a.max_level
      ∙ g.entry_ok entry (sym k.same_entry ∙ e);
  no_entry = λ e. empty b.nodes (k.count ∙ ap length (g.no_entry (sym k.same_entry ∙ e)));
}
  where
    empty : (ns : List Node) → length ns ≡ 0 → ns ≡ []
    empty [] e = refl
    empty (n ∷ ns) e = absurd (omega arith)

-- Packing a graph with different IDs makes it ready for searches.
finalize-IsSearchable :
    (index out : HnswIndex)
    → IsGraph index
    → distinct str_cmp index.ids ≡ true
    → finalize_compact_graph index ≡ ok out
    → IsSearchable out
finalize-IsSearchable index out g d done =
    let b = finalize-SameBut index out g.unpacked done in
    let reads = neighbors-finalize index out (sound-HasLayers index g.sound) g.unpacked done in
    record {
      links_in = λ layer i j l h.
          subst (λ m. j < m) (sym b.count)
            (graph-IsClosed index layer g i j (subst (λ m. i < m) b.count l)
              (subst (λ xs. contains compare j xs ≡ true) (reads layer i) h));
      entry_in = λ entry e.
          subst (λ m. entry < m) (sym b.count)
            (has_layer_range index entry index.max_level (g.entry_ok entry (sym b.same_entry ∙ e)));
      own_ids = λ i j l m e.
          place_of_id out.ids i j (ap (distinct str_cmp) b.same_ids ∙ d) (inside l) (inside m) e;
      no_entry = λ e. empty out.nodes (b.count ∙ ap length (g.no_entry (sym b.same_entry ∙ e)));
    }
  where
    inside : {i : ℕ} → i < len out → i < length out.ids
    inside l =
        let b = finalize-SameBut index out g.unpacked done in
        omega (arith, l, b.count, ap length b.same_ids, g.ids_count)

    empty : (ns : List Node) → length ns ≡ 0 → ns ≡ []
    empty [] e = refl
    empty (n ∷ ns) e = absurd (omega arith)

empty-IsGraph :
    (dimension : ℕ) (metric : Metric) (config : HnswConfig) (storage : VectorStorage)
    → IsGraph (empty_index dimension metric config storage)
unfolding has_layer has_links links_at contains
empty-IsGraph dimension metric config storage = record {
  sound = record { links_ok = λ node layer j h. cc; lists_ok = λ node layer. refl };
  unpacked = refl;
  ids_count = refl;
  entry_ok = λ entry e. cc;
  no_entry = λ e. refl;
}

ok_injective {ℓ} : {A : Type ℓ} {a b : A} → ok a ≡ ok b → a ≡ b
ok_injective h = cc

validate_config-ef :
    (dimension : ℕ) (config : HnswConfig)
    → validate_config dimension config ≡ ok tt
    → 0 < config.ef_construction
unfolding validate_config
validate_config-ef dimension config h = ground (arith, h)

module _ (fl : FloatOps) (qo : QuantOps) where
  build_prepared_points-IsSearchable :
      (dimension : ℕ) (metric : Metric) (config : HnswConfig) (storage : VectorStorage)
      (prepared : List PreparedPoint) (out : HnswIndex)
      → All IsLow prepared
      → length prepared ≤ 2 ^ 32
      → 0 < config.ef_construction
      → distinct str_cmp (point_ids prepared) ≡ true
      → build_prepared_points fl qo dimension metric config storage prepared ≡ ok out
      → IsSearchable out × (out.ids ≡ point_ids prepared)
  unfolding build_prepared_points
  build_prepared_points-IsSearchable dimension metric config storage prepared out low room pos d
        done =
      let empty = empty_index dimension metric config storage in
      let blank : Workspace = record { visited = []; generation = 0 } in
      let first = take parallel_build_seed prepared in
      let rest = drop parallel_build_seed prepared in
      let cut = length-take parallel_build_seed prepared in
      let uncut = length-drop parallel_build_seed prepared in
      let seeded = insert_all fl qo first (empty, blank) in
      let h =
        insert_all-IsGrown fl qo first empty blank (empty-IsGraph dimension metric config storage)
          pos (omega (arith, cut)) (record { behind = tt; fits = omega arith })
          (All-take IsLow parallel_build_seed prepared low) in
      let first_count = length-map (λ (p : PreparedPoint). p.id) first in
      let (graph, grows) =
        insert_batches-IsGrown fl qo (length rest) rest seeded.0 seeded.1 h.graph
          (subst (λ c. 0 < c.ef_construction) (sym h.grows.same_config) pos)
          (omega (arith, h.grows.count, first_count, cut, uncut)) h.valid
          (All_drop IsLow parallel_build_seed prepared low) (omega arith) in
      let index = insert_batches fl qo (length rest) rest seeded in
      let rest_count = length-map (λ (p : PreparedPoint). p.id) rest in
      let small : len index ≤ 2 ^ 32 =
        omega (arith, grows.count, h.grows.count, first_count, rest_count, cut, uncut) in
      let k = compact_neighbors-IsLinkedFrom fl qo (len index) 0 index small graph.sound in
      let whole = compact_neighbors fl qo 0 (len index) index in
      let ids : whole.ids ≡ point_ids prepared =
        k.same_ids
        ∙ grows.same_ids
        ∙ ap (λ r. r ++ point_ids rest) h.grows.same_ids
        ∙ sym (map-append (λ (p : PreparedPoint). p.id) first rest)
        ∙ ap point_ids (take-append-drop parallel_build_seed prepared) in
      let g = linked-IsGraph index whole k graph in
      (
        finalize-IsSearchable whole out g (ap (distinct str_cmp) ids ∙ d) done,
        (finalize-SameBut whole out g.unpacked done).same_ids ∙ ids,
      )

  prepare_point-ok :
      (dimension : ℕ) (metric : Metric) (config : HnswConfig) (storage : VectorStorage)
      (p : Str × List F32) (point : PreparedPoint)
      → prepare_point fl qo dimension metric config storage p ≡ ok point
      → IsLow point × (point.id ≡ p.0)
  unfolding prepare_point
  prepare_point-ok dimension metric config storage p point h =
      let (fits, e, h') =
        >>=-ok
          (reject_if (not (length p.1 == dimension)) (invalid_dimension dimension (length p.1))) _
          h in
      let (vector, e', h'') = >>=-ok (prepare fl metric p.1) _ h' in
      subst (λ x. IsLow x × (x.id ≡ p.0)) (ok_injective h'')
        (omega (arith, deterministic_level_bound p.0 config.m), refl)

  prepare_all-ok :
      (dimension : ℕ) (metric : Metric) (config : HnswConfig) (storage : VectorStorage)
      (points : List (Str × List F32)) (prepared : List PreparedPoint)
      → prepare_all fl qo dimension metric config storage points ≡ ok prepared
      → All IsLow prepared × (point_ids prepared ≡ map (λ p. p.0) points)
  unfolding prepare_all
  prepare_all-ok dimension metric config storage [] prepared h =
      let same : [] ≡ prepared = ok_injective h in
      subst (λ xs. All IsLow xs × (point_ids xs ≡ [])) same (tt, refl)
  prepare_all-ok dimension metric config storage (p ∷ ps) prepared h =
      let (point, e, h') = >>=-ok (prepare_point fl qo dimension metric config storage p) _ h in
      let (rest, e', h'') = >>=-ok (prepare_all fl qo dimension metric config storage ps) _ h' in
      let (low, id) = prepare_point-ok dimension metric config storage p point e in
      let (lows, ids) = prepare_all-ok dimension metric config storage ps rest e' in
      let whole : point_ids (point ∷ rest) ≡ map (λ q. q.0) (p ∷ ps) =
        ap₂ (λ x xs. x ∷ xs) id ids in
      subst (λ xs. All IsLow xs × (point_ids xs ≡ map (λ q. q.0) (p ∷ ps))) (ok_injective h'')
        ((low, lows), whole)

  -- An index that is built, of at most 2^32 points, is fit for searching: every link leads to a node of the
  -- index, the entry is one of them unless there is none, and the IDs differ. They are those of the points,
  -- in their order.
  pub build-IsSearchable :
      (dimension : ℕ) (metric : Metric) (config : HnswConfig) (storage : VectorStorage)
      (points : List (Str × List F32)) (out : HnswIndex)
      → length points ≤ 2 ^ 32
      → build fl qo dimension metric config storage points ≡ ok out
      → IsSearchable out × (out.ids ≡ map (λ p. p.0) points)
  unfolding build
  build-IsSearchable dimension metric config storage points out room done =
      let (checked, valid, h) = >>=-ok (validate_config dimension config) _ done in
      let (unique, different, h') = >>=-ok (check_ids [] (map (λ p. p.0) points)) _ h in
      let (prepared, e, h'') =
        >>=-ok (prepare_all fl qo dimension metric config storage points) _ h' in
      let (low, ids) = prepare_all-ok dimension metric config storage points prepared e in
      let count : length prepared ≡ length points =
        sym (length-map (λ (p : PreparedPoint). p.id) prepared)
        ∙ ap length ids
        ∙ length-map (λ (p : Str × List F32). p.0) points in
      let (searchable, all_ids) =
        build_prepared_points-IsSearchable dimension metric config storage prepared out low
          (omega (arith, count)) (validate_config-ef dimension config valid)
          (ap (distinct str_cmp) ids ∙ (check_ids-ok [] (map (λ p. p.0) points) different).0) h'' in
      (searchable, all_ids ∙ ids)
