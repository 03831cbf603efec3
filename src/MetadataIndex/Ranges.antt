-- ===== src/MetadataIndex/Ranges.antt =====
-- The postings by number: which IDs `build` files at a number within bounds.
use focal_vector.Base.{Bool, true, ◌≡◌, Option, List, [], ◌∷◌, ◌||◌, ◌&&◌, keep, arith}
use focal_vector.Order.{is_eq}
use focal_vector.Str.{Str, str_cmp, str_cmp-IsLawful}
use focal_vector.Float.{F64, total_cmp64}
use focal_vector.Map.{Map, lookup, tree_insert, contains, set_insert}
use focal_vector.Map.Laws.{lookup-hash_insert}
use focal_vector.Map.Sets.{contains-set_insert, contains-set_extend}
use focal_vector.MetadataIndex.{or_empty, post_number, above, under, flatten}

abbrev pub within : Option F64 → Option F64 → F64 → Bool
within gte lt' x = above gte x && under lt' x

-- The IDs at the numbers within bounds.
abbrev pub ids_within : Option F64 → Option F64 → Map F64 (List Str) → List Str
ids_within gte lt' values = flatten (keep (λ e. within gte lt' e.0) values)

module _ (a : Str) (gte lt' : Option F64) where
  abbrev pub seen : Map F64 (List Str) → Bool
  seen values = contains str_cmp a (ids_within gte lt' values)

  seen-cons :
      (x : F64) (ids : List Str) (m : Map F64 (List Str))
      → seen ((x, ids) ∷ m) ≡ (within gte lt' x && contains str_cmp a ids) || seen m
  unfolding flatten
  seen-cons x ids m = ground (
    arith,
    contains-set_extend str_cmp-IsLawful a ids (flatten (keep (λ e. within gte lt' e.0) m)),
  )

  -- Numbers that compare as equal lie within the same bounds.
  within_eq : (x y : F64) → is_eq (total_cmp64 x y) ≡ true → within gte lt' x ≡ within gte lt' y
  within_eq x y e = ground arith

  -- What is filed at a number within the bounds is seen.
  seen_found :
      (x : F64) (m : Map F64 (List Str))
      → within gte lt' x ≡ true
      → contains str_cmp a (or_empty (lookup total_cmp64 x m)) ≡ true
      → seen m ≡ true
  unfolding lookup contains
  seen_found x [] w h = ground arith
  seen_found x ((y, ids) ∷ m) w h =
      ground (arith, seen-cons y ids m, seen_found x m w, within_eq x y)

  seen-tree_insert :
      (x : F64) (ids : List Str) (m : Map F64 (List Str))
      → (contains str_cmp a (or_empty (lookup total_cmp64 x m)) ≡ true
          → contains str_cmp a ids ≡ true)
      → seen (tree_insert total_cmp64 x ids m)
        ≡ (within gte lt' x && contains str_cmp a ids) || seen m
  unfolding tree_insert lookup
  seen-tree_insert x ids [] h = seen-cons x ids []
  seen-tree_insert x ids ((y, old) ∷ m) h = ground (
    arith,
    seen-cons y old m,
    seen-cons x ids m,
    seen-cons x ids ((y, old) ∷ m),
    seen-cons y old (tree_insert total_cmp64 x ids m),
    seen-tree_insert x ids m,
    within_eq x y,
  )

  -- Whether a posting at (f, x) for the ID i is one that a read of the field g within the bounds sees.
  pub seen-post_number :
      (g f : Str) (x : F64) (i : Str) (m : Map Str (Map F64 (List Str)))
      → seen (or_empty (lookup str_cmp g (post_number f x i m)))
        ≡ (is_eq (str_cmp g f) && (within gte lt' x && is_eq (str_cmp a i)))
          || seen (or_empty (lookup str_cmp g m))
  unfolding post_number
  seen-post_number g f x i m =
      let postings = or_empty (lookup str_cmp f m) in
      let old = or_empty (lookup total_cmp64 x postings) in
      let ids = set_insert str_cmp i old in
      ground (
        arith,
        lookup-hash_insert str_cmp-IsLawful f g (tree_insert total_cmp64 x ids postings) m,
        seen-tree_insert x ids postings,
        contains-set_insert str_cmp-IsLawful a i old,
        seen_found x postings,
        str_cmp-IsLawful.eq_of_cmp g f,
      )
