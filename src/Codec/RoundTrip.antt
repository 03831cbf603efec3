-- ===== src/Codec/RoundTrip.antt =====
-- What the writers append, the readers return.
use focal_vector.Base.{
  ℕ, ◌-◌, ◌^◌, ◌≤◌, ◌<◌, true, false, ◌≡◌, refl, sym, ap, ◌∙◌, List, [], ◌∷◌, ◌++◌, length, arith,
  All, append_assoc, append-nil, le→leb,
}
use focal_vector.Outcome
use focal_vector.Outcome.{Result, ok, err}
use focal_vector.Str.{Str, is_utf8}
use focal_vector.Float.{F32, is_finite32, is_finite64}
use focal_vector.Bytes.{to_le_bytes}
use focal_vector.Filter.{Value, keyword, integer, float, boolean}
use focal_vector.Codec.Decoder.{
  max_items, Reader, ◌>>=◌, f32, count, string, value_of, value, repeated,
}
use focal_vector.Codec.Encoder.{
  Writer, ◌then_write◌, put_bytes, put_count, put_string, encode_value, put_each,
}
use focal_vector.Codec.Reads.{
  Reads, Reads-take, Reads-pure, Reads-checked, Reads-bind, Reads-end, Reads-byte, Reads-u32,
  Reads-u64, Reads-count,
}

-- A writer that succeeds, and a reader that turns what it appends into the value.
pub record Encodes {ℓ} {A : Type ℓ} (w : Writer) (p : Reader A) (a : A) : Type ℓ where
  pub bytes : List ℕ
  pub writes : (out : List ℕ) → w out ≡ ok (out ++ bytes)
  pub reads : Reads p bytes a

pub Encodes-put {ℓ} :
    {A : Type ℓ} {p : Reader A} {bytes : List ℕ} {a : A}
    → Reads p bytes a
    → Encodes (put_bytes bytes) p a
unfolding put_bytes
Encodes-put {bytes} r = record { bytes = bytes; writes = λ out. refl; reads = r }

module _ {ℓ} {A B : Type ℓ} where
  pub Encodes-then :
      {w v : Writer} {p : Reader A} (f : A → Reader B) {a : A} {b : B}
      → Encodes w p a
      → Encodes v (f a) b
      → Encodes (w then_write v) (p >>= f) b
  unfolding ◌then_write◌
  Encodes-then f first second = record {
    bytes = first.bytes ++ second.bytes;
    writes = λ out.
        rw (first.writes out)
          (second.writes (out ++ first.bytes) ∙ ap ok (append_assoc out first.bytes second.bytes));
    reads = Reads-bind f first.reads second.reads;
  }

  pub Encodes-end :
      {w : Writer} {p : Reader A} (f : A → Reader B) {a : A} {b : B}
      → Encodes w p a
      → Reads (f a) [] b
      → Encodes w (p >>= f) b
  Encodes-end f first second = record {
    bytes = first.bytes;
    writes = first.writes;
    reads = Reads-end f first.reads second;
  }

-- a reader that moves nothing stands in front
pub Encodes-after {ℓ} :
    {A B : Type ℓ} {w : Writer} {p : Reader A} (f : A → Reader B) {a : A} {b : B}
    → Reads p [] a
    → Encodes w (f a) b
    → Encodes w (p >>= f) b
Encodes-after f first second = record {
  bytes = second.bytes;
  writes = second.writes;
  reads = Reads-bind f first second.reads;
}

bind_assoc {ℓ} :
    {A B C : Type ℓ} (r : Result A) (f : A → Result B) (g : B → Result C)
    → Outcome.◌>>=◌ (Outcome.◌>>=◌ r f) g ≡ Outcome.◌>>=◌ r (λ a. Outcome.◌>>=◌ (f a) g)
bind_assoc (ok a) f g = refl
bind_assoc (err e) f g = refl

pub Encodes-regroup {ℓ} :
    {A : Type ℓ} (u v w : Writer) {p : Reader A} {a : A}
    → Encodes (u then_write v then_write w) p a
    → Encodes ((u then_write v) then_write w) p a
unfolding ◌then_write◌
Encodes-regroup u v w h = record {
  bytes = h.bytes;
  writes = λ out. bind_assoc (u out) v w ∙ h.writes out;
  reads = h.reads;
}

-- What can be stored: short enough, valid UTF-8, finite, and as wide as its type.
abbrev pub IsText : Str → Type 0
IsText s = (is_utf8 s ≡ true) × (length s ≤ max_items)

abbrev pub IsComponent : F32 → Type 0
IsComponent v = (v < 2 ^ 32) × (is_finite32 v ≡ true)

abbrev pub IsStorableValue : Value → Type 0
IsStorableValue (keyword s) = IsText s
IsStorableValue (integer n) = n < 2 ^ 64
IsStorableValue (float bits) = (bits < 2 ^ 64) × (is_finite64 bits ≡ true)
IsStorableValue (boolean b) = Unit

pub Encodes-count : (n : ℕ) → n ≤ max_items → Encodes (put_count n) count n
unfolding put_count
Encodes-count n h = record {
  bytes = to_le_bytes 4 n;
  writes = λ out. rw (le→leb n (2 ^ 32 - 1) (omega arith));
  reads = Reads-count n h;
}

pub Encodes-string : (s : Str) → IsText s → Encodes (put_string s) string s
unfolding put_string string
Encodes-string s h =
    Encodes-then _ (Encodes-count (length s) h.1)
      (Encodes-end _ (Encodes-put (Reads-take s)) (Reads-checked _ _ s h.0))

pub Encodes-value : (v : Value) → IsStorableValue v → Encodes (encode_value v) value v
unfolding encode_value value value_of
Encodes-value (keyword s) h =
    Encodes-then _ (Encodes-put (Reads-byte 1)) (Encodes-end _ (Encodes-string s h) (Reads-pure _))
Encodes-value (integer n) h =
    Encodes-then _ (Encodes-put (Reads-byte 2))
      (Encodes-end _ (Encodes-put (Reads-u64 n h)) (Reads-pure _))
Encodes-value (float bits) h = rw (h.1) (
    Encodes-then _ (Encodes-put (Reads-byte 3))
      (Encodes-end _ (Encodes-put (Reads-u64 bits h.0)) (Reads-checked _ _ _ h.1)))
Encodes-value (boolean true) h =
    Encodes-then _ (Encodes-put (Reads-byte 4))
      (Encodes-end _ (Encodes-put (Reads-byte 1)) (Reads-pure _))
Encodes-value (boolean false) h =
    Encodes-then _ (Encodes-put (Reads-byte 4))
      (Encodes-end _ (Encodes-put (Reads-byte 0)) (Reads-pure _))

pub Encodes-component : (v : F32) → IsComponent v → Encodes (put_bytes (to_le_bytes 4 v)) f32 v
unfolding f32
Encodes-component v h = Encodes-put (Reads-end _ (Reads-u32 v h.0) (Reads-checked _ _ v h.1))

-- A loop of writers and the loop of readers.
pub Encodes-each {ℓ κ} :
    {A : Type ℓ} (P : A → Type κ) (w : A → Writer) (p : Reader A)
    → ((x : A) → P x → Encodes (w x) p x)
    → (xs : List A) → All P xs
    → Encodes (put_each w xs) (repeated (length xs) p) xs
unfolding put_each repeated ◌then_write◌
Encodes-each P w p each [] h = record {
  bytes = [];
  writes = λ out. ap ok (sym (append-nil out));
  reads = Reads-pure [];
}
Encodes-each P w p each (x ∷ xs) h =
    Encodes-then _ (each x h.0)
      (Encodes-end _ (Encodes-each P w p each xs h.1) (Reads-pure (x ∷ xs)))
