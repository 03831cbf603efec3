-- ===== src/MetadataIndex/Equality.antt =====
-- The postings by value: which IDs `build` files under a field and a key.
use focal_vector.Base.{Bool, true, false, ◌≡◌, refl, ap, List, ◌||◌, ◌&&◌, arith}
use focal_vector.Order.{is_eq, IsLawful, on-IsPreorder}
use focal_vector.Str.{Str, str_cmp, str_cmp-IsLawful, str_cmp-IsPreorder}
use focal_vector.Map.{Map, lookup, hash_insert, contains, set_insert}
use focal_vector.Map.Laws.{lookup-hash_insert}
use focal_vector.Map.Sets.{contains-set_insert}
use focal_vector.MetadataIndex.{
  ScalarKey, keyword_key, integer_key, float_key, boolean_key, bool_number, code, scalar_cmp,
  or_empty, post_key,
}

bool_number_injective : (a b : Bool) → bool_number a ≡ bool_number b → a ≡ b
bool_number_injective true true h = refl
bool_number_injective false false h = refl
bool_number_injective true false h = absurd (omega arith)
bool_number_injective false true h = absurd (omega arith)

code_injective : (a b : ScalarKey) → code a ≡ code b → a ≡ b
code_injective (keyword_key s) (keyword_key t) h = cc
code_injective (integer_key m) (integer_key n) h = cc
code_injective (float_key v) (float_key w) h = cc
code_injective (boolean_key a) (boolean_key b) h =
    let same : bool_number a ≡ bool_number b = cc in ap boolean_key (bool_number_injective a b same)
code_injective a b h = ground arith

scalar_cmp-IsLawful : IsLawful scalar_cmp
scalar_cmp-IsLawful = record {
  preorder = on-IsPreorder str_cmp code str_cmp-IsPreorder;
  eq_of_cmp = λ a b h. code_injective a b (str_cmp-IsLawful.eq_of_cmp (code a) (code b) h);
  cmp_refl = λ a. str_cmp-IsLawful.cmp_refl (code a);
}

-- The IDs filed under a field and a key.
abbrev pub filed : Str → ScalarKey → Map Str (Map ScalarKey (List Str)) → List Str
filed field key m = or_empty (lookup scalar_cmp key (or_empty (lookup str_cmp field m)))

-- Whether a posting under (f, k) for the ID i is one that a read under (g, j) for the ID a sees.
abbrev pub hits : Str → Str → Str → ScalarKey → Str → ScalarKey → Bool
hits a i g j f k = is_eq (str_cmp g f) && (is_eq (scalar_cmp j k) && is_eq (str_cmp a i))

pub filed-post_key :
    (a i g f : Str) (j k : ScalarKey) (m : Map Str (Map ScalarKey (List Str)))
    → contains str_cmp a (filed g j (post_key f k i m))
      ≡ hits a i g j f k || contains str_cmp a (filed g j m)
unfolding post_key
filed-post_key a i g f j k m =
    let postings = or_empty (lookup str_cmp f m) in
    let ids = set_insert str_cmp i (filed f k m) in
    ground (
      arith,
      lookup-hash_insert str_cmp-IsLawful f g (hash_insert scalar_cmp k ids postings) m,
      lookup-hash_insert scalar_cmp-IsLawful k j ids postings,
      contains-set_insert str_cmp-IsLawful a i (filed f k m),
      str_cmp-IsLawful.eq_of_cmp g f,
      scalar_cmp-IsLawful.eq_of_cmp j k,
    )
