-- ===== src/Common/Results.antt =====
-- The outcome of a C++ call: a value, an exception, or undefined behaviour.

-- `std::out_of_range`, `std::logic_error` and `std::invalid_argument`, as the code throws them.
pub data Exception : Type 0 where
  out_of_range logic_error invalid_argument : Exception

-- `fault` is undefined behaviour: a null or an index out of bounds is dereferenced, or an
-- assertion of the code fails.
pub data Result {ℓ} (A : Type ℓ) : Type ℓ where
  fault : Result A
  throws : Exception → Result A
  ok : A → Result A

module _ {κ ℓ} {A : Type ℓ} {B : Type κ} where
  infixl 5 ◌>>=◌
  -- The rest of a function is not run after an exception.
  abbrev pub ◌>>=◌ : Result A → (A → Result B) → Result B
  fault >>= next = fault
  throws e >>= next = throws e
  ok x >>= next = next x
