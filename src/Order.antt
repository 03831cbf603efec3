-- ===== src/Order.antt =====
-- Comparison functions as `Ord::cmp` gives them, with the laws that the trait asks for.
use Prim.Native.Nat.{compare, Ordering}
use Prim.Native.Nat.Ordering.{lt, eq, gt}
use focal_vector.Base.{Bool, true, false, ◌≡◌, arith}

-- `Ordering::reverse`
abbrev pub reverse : Ordering → Ordering
reverse lt = gt
reverse eq = eq
reverse gt = lt

-- `Ordering::then_with`
abbrev pub then_with : Ordering → Ordering → Ordering
then_with lt o = lt
then_with eq o = o
then_with gt o = gt

abbrev pub is_lt : Ordering → Bool
is_lt lt = true
is_lt eq = false
is_lt gt = false

abbrev pub is_le : Ordering → Bool
is_le lt = true
is_le eq = true
is_le gt = false

abbrev pub is_eq : Ordering → Bool
is_eq lt = false
is_eq eq = true
is_eq gt = false

-- The laws of a total order up to `eq`.
pub record IsPreorder {ℓ} {A : Type ℓ} (cmp : A → A → Ordering) : Type ℓ where
  pub swap : (a b : A) → cmp b a ≡ reverse (cmp a b)
  pub trans_lt : (a b c : A) → cmp a b ≡ lt → cmp b c ≡ lt → cmp a c ≡ lt
  pub trans_eq : (a b c : A) → cmp a b ≡ eq → cmp b c ≡ cmp a c

-- ... and `eq` only at equal values.
pub record IsLawful {ℓ} {A : Type ℓ} (cmp : A → A → Ordering) : Type ℓ where
  pub preorder : IsPreorder cmp
  pub eq_of_cmp : (a b : A) → cmp a b ≡ eq → a ≡ b
  pub cmp_refl : (a : A) → cmp a a ≡ eq

pub compare-IsPreorder : IsPreorder compare
compare-IsPreorder = ground arith

pub compare-IsLawful : IsLawful compare
compare-IsLawful = record {
  preorder = compare-IsPreorder;
  eq_of_cmp = λ a b. ground arith;
  cmp_refl = λ a. ground arith;
}

-- An order drawn back along a function, reversed, and two in turn.
abbrev pub on {ℓ κ} : {A : Type ℓ} {B : Type κ} → (B → B → Ordering) → (A → B) → A → A → Ordering
on cmp f a b = cmp (f a) (f b)

pub on-IsPreorder {ℓ κ} :
    {A : Type ℓ} {B : Type κ} (cmp : B → B → Ordering) (f : A → B)
    → IsPreorder cmp
    → IsPreorder (on cmp f)
on-IsPreorder cmp f h = record {
  swap = λ a b. h.swap (f a) (f b);
  trans_lt = λ a b c. h.trans_lt (f a) (f b) (f c);
  trans_eq = λ a b c. h.trans_eq (f a) (f b) (f c);
}

abbrev pub flipped {ℓ} : {A : Type ℓ} → (A → A → Ordering) → A → A → Ordering
flipped cmp a b = cmp b a

pub flipped-IsPreorder {ℓ} :
    {A : Type ℓ} (cmp : A → A → Ordering) → IsPreorder cmp → IsPreorder (flipped cmp)
flipped-IsPreorder cmp h = record {
  swap = λ a b. h.swap b a;
  trans_lt = λ a b c p q. h.trans_lt c b a q p;
  trans_eq = λ a b c. ground (arith, h.swap a b, h.swap b c, h.swap a c, h.trans_eq a b c);
}

abbrev pub lexicographic {ℓ} :
    {A : Type ℓ} → (A → A → Ordering) → (A → A → Ordering) → A → A → Ordering
lexicographic first second a b = then_with (first a b) (second a b)

pub lexicographic-IsPreorder {ℓ} :
    {A : Type ℓ} (first second : A → A → Ordering)
    → IsPreorder first
    → IsPreorder second
    → IsPreorder (lexicographic first second)
lexicographic-IsPreorder first second p q = record {
  swap = λ a b. ground (arith, p.swap a b, q.swap a b);
  trans_lt = λ a b c. ground (
    arith,
    p.trans_lt a b c,
    p.trans_eq a b c,
    p.swap b c,
    p.swap a b,
    p.swap a c,
    p.trans_eq c b a,
    q.trans_lt a b c,
  );
  trans_eq = λ a b c. ground (arith, p.trans_eq a b c, q.trans_eq a b c);
}
