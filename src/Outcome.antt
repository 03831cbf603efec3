-- ===== src/Outcome.antt =====
-- src/error.rs: the crate's `Error` and `Result`, with the chain of fallible steps (`?`).
use focal_vector.Base.{ℕ, Bool, true, false, String, List, ◌≡◌, refl, ◌⊎◌, inl, inr}

-- A message is its text. The arguments of a `format!` stand beside its text, unprinted.
pub data Message : Type 0 where
  text : String → Message
  numbers : String → List ℕ → Message
  named : String → List ℕ → Message

pub data Error : Type 0 where
  invalid_dimension : ℕ → ℕ → Error
  invalid_vector : Message → Error
  invalid_config : Message → Error
  invalid_configuration : Message → Error
  invalid_query : Message → Error
  io : Message → Error
  corrupt_storage : Message → Error
  concurrency : Message → Error
  not_found : Message → Error
  already_exists : Message → Error
  unauthorized : Error
  resource_exhausted : Message → Error
  sequence_overflow : Error

pub data Result {ℓ} (A : Type ℓ) : Type ℓ where
  ok : A → Result A
  err : Error → Result A

infixl 5 ◌>>=◌
abbrev pub ◌>>=◌ {ℓ κ} : {A : Type ℓ} {B : Type κ} → Result A → (A → Result B) → Result B
err why >>= rest = err why
ok x >>= rest = rest x

-- a step without a value, as the checks are
infixl 5 ◌>>◌
abbrev pub ◌>>◌ {ℓ} : {A : Type ℓ} → Result (Unit {0}) → Result A → Result A
check >> rest = check >>= λ done. rest

-- `if bad { return Err(e) }`
abbrev pub reject_if : Bool → Error → Result (Unit {0})
reject_if true e = err e
reject_if false e = ok tt

abbrev pub is_ok {ℓ} : {A : Type ℓ} → Result A → Bool
is_ok (ok a) = true
is_ok (err e) = false

-- A chain that succeeds: what its first step gives, and what the rest makes of it.
module _ {ℓ κ} {A : Type ℓ} {B : Type κ} where
  pub >>=-ok :
      (step : Result A) (rest : A → Result B) {out : B}
      → step >>= rest ≡ ok out
      → (x : A) × (step ≡ ok x) × (rest x ≡ ok out)
  >>=-ok (err why) rest h = cc
  >>=-ok (ok x) rest h = (x, refl, h)

pub Result-cases {ℓ} :
    {A : Type ℓ} (r : Result A) → ((a : A) × (r ≡ ok a)) ⊎ ((e : Error) × (r ≡ err e))
Result-cases (ok a) = inl (a, refl)
Result-cases (err e) = inr (e, refl)
