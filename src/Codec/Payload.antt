-- ===== src/Codec/Payload.antt =====
-- Round trips of the metadata of a point, of a point, and of the lists of a WAL payload.
use Prim.Native.Nat.Ordering.{lt}
use focal_vector.Base.{
  ℕ, ◌≤◌, ◌≡◌, refl, sym, ap, subst, [], ◌∷◌, ◌++◌, length, arith, All, append_assoc, append-nil,
  ==_iff,
}
use focal_vector.Outcome.{ok}
use focal_vector.Str.{Str, str_cmp, str_cmp-IsPreorder}
use focal_vector.Map.{tree_insert, IsOrdered}
use focal_vector.Filter.{Value, Metadata}
use focal_vector.Point.{UpsertPoint, StoredPoint}
use focal_vector.Codec.Decoder.{max_items, pure, entries, point, f32}
use focal_vector.Codec.Encoder.{
  ◌then_write◌, put_string, encode_value, put_each, put_entry, put_point,
}
use focal_vector.Codec.Reads.{Reads, Reads-pure, Reads-checked}
use focal_vector.Codec.RoundTrip.{
  Encodes, Encodes-then, Encodes-end, Encodes-after, Encodes-regroup, IsText, IsComponent,
  IsStorableValue, Encodes-count, Encodes-string, Encodes-value, Encodes-component, Encodes-each,
}

-- A key behind all the others goes to the end.
tree_insert-last :
    (k : Str) (v : Value) (m : Metadata)
    → All (λ e. str_cmp e.0 k ≡ lt) m
    → tree_insert str_cmp k v m ≡ m ++ (k, v) ∷ []
unfolding tree_insert
tree_insert-last k v [] a = refl
tree_insert-last k v (e ∷ m) a =
    ground (arith, tree_insert-last k v m, str_cmp-IsPreorder.swap e.0 k)

abbrev IsStorableEntry : Str × Value → Type 0
IsStorableEntry e = IsText e.0 × IsStorableValue e.1

-- Both parts of a split ordered map, the first below the second.
abbrev Below : Metadata → Metadata → Type 0
Below acc m = All (λ e. All (λ f. str_cmp e.0 f.0 ≡ lt) m) acc

Below-step :
    (acc : Metadata) (e : Str × Value) (m : Metadata)
    → Below acc (e ∷ m)
    → All (λ f. str_cmp e.0 f.0 ≡ lt) m
    → Below (acc ++ e ∷ []) m
Below-step [] e m b a = (a, tt)
Below-step (x ∷ acc) e m b a = (b.0.1, Below-step acc e m b.1 a)

Below-last :
    (acc : Metadata) (e : Str × Value) (m : Metadata)
    → Below acc (e ∷ m)
    → All (λ f. str_cmp f.0 e.0 ≡ lt) acc
Below-last [] e m b = tt
Below-last (x ∷ acc) e m b = (b.0.0, Below-last acc e m b.1)

Below-tail : (acc : Metadata) (e : Str × Value) (m : Metadata) → Below acc (e ∷ m) → Below acc m
Below-tail [] e m b = tt
Below-tail (x ∷ acc) e m b = (b.0.1, Below-tail acc e m b.1)

Encodes-entries :
    (acc m : Metadata)
    → All IsStorableEntry m
    → IsOrdered str_cmp m
    → Below acc m
    → Encodes (put_each put_entry m) (entries (length m) acc) (acc ++ m)
unfolding put_each put_entry entries ◌then_write◌
Encodes-entries acc [] s o b = record {
  bytes = [];
  writes = λ out. ap ok (sym (append-nil out));
  reads = subst (λ r. Reads (pure acc) [] r) (sym (append-nil acc)) (Reads-pure acc);
}
Encodes-entries acc (e ∷ m) s o b =
    Encodes-regroup (put_string e.0) (encode_value e.1) (put_each put_entry m) (
      Encodes-then _ (Encodes-string e.0 s.0.0) (
        Encodes-then _ (Encodes-value e.1 s.0.1) (
          subst (λ acc'. Encodes (put_each put_entry m) (entries (length m) acc') (acc ++ e ∷ m))
            (sym (tree_insert-last e.0 e.1 acc (Below-last acc e m b)))
            (subst
              (λ whole. Encodes (put_each put_entry m) (entries (length m) (acc ++ e ∷ [])) whole)
              (append_assoc acc (e ∷ []) m)
              (Encodes-entries (acc ++ e ∷ []) m s.1 o.1 (Below-step acc e m b o.0))))))

-- What the WAL can store of a point.
pub record IsStorable (dimension : ℕ) (p : StoredPoint) : Type 0 where
  pub id : IsText p.id
  pub fits : length p.vector ≡ dimension
  pub components : All IsComponent p.vector
  pub few : length p.metadata ≤ max_items
  pub entries : All IsStorableEntry p.metadata
  pub ordered : IsOrdered str_cmp p.metadata

-- `UpsertPoint` of a stored point
abbrev pub sent : StoredPoint → UpsertPoint
sent p = record { id = p.id; vector = p.vector; metadata = p.metadata }

-- Writing a storable point appends bytes from which the reader of points, for the same dimension,
-- returns the point that was sent.
pub Encodes-point :
    (dimension : ℕ) (p : StoredPoint)
    → dimension ≤ max_items
    → IsStorable dimension p
    → Encodes (put_point p) (point dimension) (sent p)
unfolding put_point point
Encodes-point dimension p small h = Encodes-then _ (Encodes-string p.id h.id) (
    Encodes-then _ (Encodes-count (length p.vector) (omega (arith, h.fits))) (
      Encodes-after _ (Reads-checked _ _ _ ((==_iff (length p.vector) dimension).1 h.fits)) (
        Encodes-then _ (Encodes-each IsComponent _ f32 Encodes-component p.vector h.components) (
          Encodes-then _ (Encodes-count (length p.metadata) h.few) (
            Encodes-end _ (Encodes-entries [] p.metadata h.entries h.ordered tt) (Reads-pure _))))))
