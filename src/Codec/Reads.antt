-- ===== src/Codec/Reads.antt =====
-- A reader that finds given bytes in front of its cursor returns a given value and moves past them.
use focal_vector.Base.{
  ℕ, ◌+◌, ◌^◌, ◌≤◌, ◌<◌, Bool, true, ◌≡◌, refl, ap, ◌∙◌, subst, List, [], ◌∷◌, ◌++◌, length, take,
  drop, arith, append_assoc, append-nil, ◌*◌, length-append, take-append, drop-append, drop_add,
  le→ltb, le→leb,
}
use focal_vector.Outcome.{Message, Result, ok}
use focal_vector.Bytes.{to_le_bytes, from_le_bytes, length-to_le_bytes, from_le-to_le}
use focal_vector.Codec.Decoder.{
  Decoder, usize_max, max_items, Reader, pure, ◌>>=◌, take_bytes, byte, u32, u64, checked, count,
}

-- What stands from the cursor on, in a buffer whose length is a `usize`.
pub record At (d : Decoder) (rest : List ℕ) : Type 0 where
  pub ahead : drop d.position d.bytes ≡ rest
  pub inside : d.position + length rest ≡ length d.bytes
  pub small : length d.bytes ≤ usize_max

abbrev pub Yields {ℓ} : {A : Type ℓ} → Result (A × Decoder) → A → List ℕ → Type ℓ
Yields r a rest = (d' : Decoder) × (r ≡ ok (a, d')) × At d' rest

pub record Reads {ℓ} {A : Type ℓ} (p : Reader A) (bytes : List ℕ) (a : A) : Type ℓ where
  pub at : (d : Decoder) (rest : List ℕ) → At d (bytes ++ rest) → Yields (p d) a rest

pub Reads-take : (bytes : List ℕ) → Reads (take_bytes (length bytes)) bytes bytes
unfolding take_bytes
Reads-take bytes = record {
  at = λ d rest h. (
    record d { position = d.position + length bytes },
    taken d rest h,
    record {
      ahead =
          drop_add d.position (length bytes) d.bytes
          ∙ ap (drop (length bytes)) h.ahead
          ∙ drop-append bytes rest;
      inside = omega (arith, h.inside, length-append bytes rest);
      small = h.small;
    },
  );
}
  where
    taken :
        (d : Decoder) (rest : List ℕ)
        → At d (bytes ++ rest)
        → take_bytes (length bytes) d
          ≡ ok (bytes, record d { position = d.position + length bytes })
    taken d rest h =
        rw
          (
            le→ltb usize_max (d.position + length bytes)
                (omega (arith, h.inside, h.small, length-append bytes rest)),
            le→leb (d.position + length bytes) (length d.bytes)
                (omega (arith, h.inside, length-append bytes rest)),
          )
          (ap (λ xs. ok (xs, record d { position = d.position + length bytes }))
            (ap (take (length bytes)) h.ahead ∙ take-append bytes rest))

module _ {ℓ} {A : Type ℓ} where
  pub Reads-pure : (a : A) → Reads (pure a) [] a
  unfolding pure
  Reads-pure a = record { at = λ d rest h. (d, refl, h) }

  pub Reads-checked : (b : Bool) (m : Message) (a : A) → b ≡ true → Reads (checked b m a) [] a
  unfolding checked
  Reads-checked b m a e = rw e (Reads-pure a)

pub Reads-subst {ℓ} :
    {A : Type ℓ} {p : Reader A} {xs ys : List ℕ} {a : A} → xs ≡ ys → Reads p xs a → Reads p ys a
Reads-subst {p} {a} e r = subst (λ zs. Reads p zs a) e r

module _ {ℓ} {A B : Type ℓ} where
  pub Reads-bind :
      {p : Reader A} (f : A → Reader B) {xs ys : List ℕ} {a : A} {b : B}
      → Reads p xs a
      → Reads (f a) ys b
      → Reads (p >>= f) (xs ++ ys) b
  unfolding ◌>>=◌
  Reads-bind {p} f {xs} {ys} {a} {b} first second = record {
    at = λ d rest h.
        let (d₁, e₁, h₁) = first.at d (ys ++ rest) (subst (At d) (append_assoc xs ys rest) h) in
        let (d₂, e₂, h₂) = second.at d₁ rest h₁ in (d₂, rw (e₁, ◌>>=◌) e₂, h₂);
  }

  -- what follows reads nothing
  pub Reads-end :
      {p : Reader A} (f : A → Reader B) {xs : List ℕ} {a : A} {b : B}
      → Reads p xs a
      → Reads (f a) [] b
      → Reads (p >>= f) xs b
  Reads-end f {xs} first second = Reads-subst (append-nil xs) (Reads-bind f first second)

-- Each reader on what the writer of the same kind of field appends.
module _ (w n : ℕ) (fits : n < 256 ^ w) where
  Reads-number : Reads (take_bytes w >>= λ bytes. pure (from_le_bytes bytes)) (to_le_bytes w n) n
  Reads-number = Reads-end _ taken (
      subst (λ m. Reads (pure (from_le_bytes (to_le_bytes w n))) [] m) (from_le-to_le w n fits)
        (Reads-pure _))
    where
      taken : Reads (take_bytes w) (to_le_bytes w n) (to_le_bytes w n)
      taken =
          subst (λ k. Reads (take_bytes k) (to_le_bytes w n) (to_le_bytes w n))
            (length-to_le_bytes w n) (Reads-take (to_le_bytes w n))

pub Reads-byte : (b : ℕ) → Reads byte (b ∷ []) b
unfolding byte from_le_bytes
Reads-byte b =
    Reads-end _ (Reads-take (b ∷ []))
      (subst (λ m. Reads (pure (from_le_bytes (b ∷ []))) [] m) same (Reads-pure _))
  where
    same : b + 256 * 0 ≡ b
    same = omega arith

pub Reads-u32 : (n : ℕ) → n < 2 ^ 32 → Reads u32 (to_le_bytes 4 n) n
unfolding u32
Reads-u32 n h = Reads-number 4 n h

pub Reads-u64 : (n : ℕ) → n < 2 ^ 64 → Reads u64 (to_le_bytes 8 n) n
unfolding u64
Reads-u64 n h = Reads-number 8 n h

pub Reads-count : (n : ℕ) → n ≤ max_items → Reads count (to_le_bytes 4 n) n
unfolding count
Reads-count n h =
    Reads-end _ (Reads-u32 n (omega arith)) (Reads-checked _ _ n (le→leb n max_items h))
