-- ===== src/Wal/Frames.antt =====
-- The loop of `recover` finds each whole frame, and stops at a torn one.
use focal_vector.Base.{
  ℕ, suc, ◌+◌, ◌-◌, ◌≤◌, ◌<◌, ◌≡◌, ◌⊎◌, inl, inr, refl, sym, ap, ◌∙◌, subst, List, [], ◌∷◌, ◌++◌,
  length, take, drop, arith, ltb, is_empty, append_assoc, take-append, drop-append,
  take-append-drop, length-append, length-take, le→leb, le→ltb, lt→leb, ltb→lt, ltb→le, ==_refl,
  Bool-cases,
}
use focal_vector.Outcome.{Error}
use focal_vector.Bytes.{to_le_bytes, from_le_bytes, length-to_le_bytes, from_le-to_le}
use focal_vector.Crc.{crc32c, crc32c_range}
use focal_vector.Str.{str_eq_iff}
use focal_vector.Wal.{
  wal_magic, max_frame_bytes, frame, complete, eof, truncated, read_exact_or_eof, Scanned, stop,
  refuse, payload, scan_body, scan_header, scan_frame,
}

read_exact-append :
    (n : ℕ) (xs ys : List ℕ) → length xs ≡ n → read_exact_or_eof n (xs ++ ys) ≡ complete xs ys
unfolding read_exact_or_eof
read_exact-append n xs ys e = rw (
  le→leb n (length (xs ++ ys)) (omega (arith, length-append xs ys)),
  ← e,
  take-append xs ys,
  drop-append xs ys,
)

-- A short read is one or the other, and the loop ends at both.
read_exact_short :
    (n : ℕ) (xs : List ℕ)
    → length xs < n
    → (read_exact_or_eof n xs ≡ eof) ⊎ (read_exact_or_eof n xs ≡ truncated)
unfolding read_exact_or_eof
read_exact_short n xs h = elim (Bool-cases (is_empty xs)) [
  | inl e ↦ inl (rw (lt→leb n (length xs) h, e))
  | inr e ↦ inr (rw (lt→leb n (length xs) h, e))
]

abbrev header : List ℕ → List ℕ
header p = wal_magic ++ to_le_bytes 4 (length p)

abbrev body : List ℕ → List ℕ
body p = p ++ to_le_bytes 4 (crc32c p)

length-header : (p : List ℕ) → length (header p) ≡ 8
length-header p = omega (arith, length-to_le_bytes 4 (length p))

length-body : (p : List ℕ) → length (body p) ≡ length p + 4
length-body p =
    omega (arith, length-append p (to_le_bytes 4 (crc32c p)), length-to_le_bytes 4 (crc32c p))

frame_parts : (p : List ℕ) → frame p ≡ header p ++ body p
unfolding frame
frame_parts p = sym (append_assoc wal_magic (to_le_bytes 4 (length p)) (body p))

pub length-frame : (p : List ℕ) → length (frame p) ≡ 8 + (length p + 4)
length-frame p =
    ap length (frame_parts p)
    ∙ length-append (header p) (body p)
    ∙ omega (arith, length-header p, length-body p)

-- the header of a frame is accepted, and gives the payload's length
scan-header :
    (k : ℕ) (p rest : List ℕ)
    → length p ≤ max_frame_bytes
    → scan_header k (header p) rest ≡ scan_body k (length p) rest
unfolding scan_header
scan-header k p rest h = rw (
  (str_eq_iff wal_magic wal_magic).1 refl,
  from_le-to_le 4 (length p) (omega arith),
  le→ltb max_frame_bytes (length p) h,
)

scan-body : (k : ℕ) (p rest : List ℕ) → scan_body k (length p) (body p ++ rest) ≡ payload p rest
unfolding scan_body
scan-body k p rest = rw (
  read_exact-append (length p + 4) (body p) rest (length-body p),
  scan_body,
  take-append p (to_le_bytes 4 (crc32c p)),
  drop-append p (to_le_bytes 4 (crc32c p)),
  from_le-to_le 4 (crc32c p) (crc32c_range p),
  ==_refl (crc32c p),
)

pub scan_frame-frame :
    (k : ℕ) (p rest : List ℕ)
    → length p ≤ max_frame_bytes
    → scan_frame k (frame p ++ rest) ≡ payload p rest
unfolding scan_frame
scan_frame-frame k p rest h =
    rw
      (
        ap (λ xs. xs ++ rest) (frame_parts p) ∙ append_assoc (header p) (body p) rest,
        read_exact-append 8 (header p) (body p ++ rest) (length-header p),
        scan_frame,
      )
      (scan-header k p (body p ++ rest) h ∙ scan-body k p rest)

-- A prefix of a frame that lacks at least a byte is a torn tail.
take_past : (n : ℕ) (xs ys : List ℕ) → take (length xs + n) (xs ++ ys) ≡ xs ++ take n ys
take_past n [] ys = let e : 0 + n ≡ n = omega arith in ap (λ k. take k ys) e
take_past n (x ∷ xs) ys =
    let e : suc (length xs) + n ≡ suc (length xs + n) = omega arith in
    ap (λ k. take k (x ∷ xs ++ ys)) e ∙ ap (λ zs. x ∷ zs) (take_past n xs ys)

scan_frame_short : (k : ℕ) (xs : List ℕ) → length xs < 8 → scan_frame k xs ≡ stop
unfolding scan_frame
scan_frame_short k xs h = elim (read_exact_short 8 xs h) [
  | inl e ↦ rw (e, scan_frame)
  | inr e ↦ rw (e, scan_frame)
]

scan_body_short : (k size : ℕ) (xs : List ℕ) → length xs < size + 4 → scan_body k size xs ≡ stop
unfolding scan_body
scan_body_short k size xs h = elim (read_exact_short (size + 4) xs h) [
  | inl e ↦ rw (e, scan_body)
  | inr e ↦ rw (e, scan_body)
]

length-take_le : (n : ℕ) (xs : List ℕ) → length (take n xs) ≤ n
length-take_le n xs = omega (arith, length-take n xs)

scan_frame_torn_body :
    (k m : ℕ) (p : List ℕ)
    → length p ≤ max_frame_bytes
    → m < length p + 4
    → scan_frame k (take (8 + m) (frame p)) ≡ stop
unfolding scan_frame
scan_frame_torn_body k m p h short =
    rw
      (
        frame_parts p,
        ap (λ n. take (n + m) (header p ++ body p)) (sym (length-header p))
            ∙ take_past m (header p) (body p),
        read_exact-append 8 (header p) (take m (body p)) (length-header p),
        scan_frame,
      )
      (scan-header k p (take m (body p)) h
        ∙ scan_body_short k (length p) (take m (body p))
            (omega (arith, length-take_le m (body p), short)))

pub scan_frame-torn :
    (k n : ℕ) (p : List ℕ)
    → length p ≤ max_frame_bytes
    → n < length (frame p)
    → scan_frame k (take n (frame p)) ≡ stop
scan_frame-torn k n p h short = elim (Bool-cases (ltb n 8)) [
  | inl e ↦
      scan_frame_short k (take n (frame p))
        (omega (arith, length-take_le n (frame p), ltb→lt n 8 e))
  | inr e ↦
      subst (λ n. scan_frame k (take n (frame p)) ≡ stop) (omega (arith, ltb→le n 8 e))
        (scan_frame_torn_body k (n - 8) p h (omega (arith, ltb→le n 8 e, short, length-frame p)))
]

length_le_drop : (n : ℕ) (xs : List ℕ) → n ≤ length xs → length xs ≡ n + length (drop n xs)
length_le_drop n xs h =
    ground (arith, take-append-drop n xs, length-append (take n xs) (drop n xs), length-take n xs)

read_exact-ok :
    (n : ℕ) (file xs rest : List ℕ)
    → read_exact_or_eof n file ≡ complete xs rest
    → (xs ≡ take n file) × (length file ≡ n + length rest)
unfolding read_exact_or_eof
read_exact-ok n file xs rest h = ground (arith, length_le_drop n file)

scan_body-ok :
    (k size : ℕ) (file p rest : List ℕ)
    → scan_body k size file ≡ payload p rest
    → length file ≡ length p + 4 + length rest
unfolding scan_body read_exact_or_eof
scan_body-ok k size file p rest h = ground (
  arith,
  length_le_drop (size + 4) file,
  length-take size (take (size + 4) file),
  length-take (size + 4) file,
)

scan_header-ok :
    (k : ℕ) (header file p rest : List ℕ)
    → scan_header k header file ≡ payload p rest
    → length file ≡ length p + 4 + length rest
unfolding scan_header
scan_header-ok k header file p rest h =
    ground (arith, scan_body-ok k (from_le_bytes (drop 4 header)) file p rest)

-- The loop goes on behind the frame that it has read.
pub scan_frame-ok :
    (k : ℕ) (file p rest : List ℕ)
    → scan_frame k file ≡ payload p rest
    → length file ≡ 8 + (length p + 4) + length rest
unfolding scan_frame read_exact_or_eof
scan_frame-ok k file p rest h =
    ground (arith, length_le_drop 8 file, scan_header-ok k (take 8 file) (drop 8 file) p rest)

pub data OneOf (s : Scanned) : Type 0 where
  stops : s ≡ stop → OneOf s
  refuses : (e : Error) → s ≡ refuse e → OneOf s
  finds : (p rest : List ℕ) → s ≡ payload p rest → OneOf s

pub Scanned-cases : (s : Scanned) → OneOf s
Scanned-cases stop = stops refl
Scanned-cases (refuse e) = refuses e refl
Scanned-cases (payload p rest) = finds p rest refl
