-- ===== src/Persistent/Merged.antt =====
-- What `merge_hits` keeps: the best of the hits with different IDs.
use focal_vector.Base.{Bool, ◌≡◌, List, [], ◌∷◌, All}
use focal_vector.Order.{is_eq}
use focal_vector.Str.{str_eq}
use focal_vector.Sort.Nub.{equals}
use focal_vector.Point.{SearchHit, compare_hits, compare_hits-IsPreorder}

abbrev pub same_id : SearchHit → SearchHit → Bool
same_id a b = str_eq a.id b.id

-- The two hits have one score, if they have one ID.
abbrev pub Agree : SearchHit → SearchHit → Type 0
Agree a b = same_id a b ≡ is_eq (compare_hits a b)

-- Any two hits of the list do.
abbrev pub AllAgree : List SearchHit → Type 0
AllAgree [] = Unit
AllAgree (x ∷ xs) = All (Agree x) xs × AllAgree xs

abbrev eq_hits : SearchHit → SearchHit → Bool
eq_hits = equals compare_hits-IsPreorder
