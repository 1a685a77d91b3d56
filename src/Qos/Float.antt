-- ===== src/Qos/Float.antt =====
-- The C++ `float` of ndn-priority-tx-queue.cpp, which is not code of the repository: the type and
-- the operations that the code uses are a parameter of the model.
use nfd_qo_s.Base.{ℕ, ◌<◌, ◌^◌, ◌≡◌, Bool, true, false}

pub record Float : Type 1 where
  pub Carrier : Type 0
  -- Conversion from an unsigned integer type.
  pub of_nat : ℕ → Carrier
  pub add : Carrier → Carrier → Carrier
  pub sub : Carrier → Carrier → Carrier
  pub mul : Carrier → Carrier → Carrier
  pub div : Carrier → Carrier → Carrier
  pub lt : Carrier → Carrier → Bool
  -- `std::numeric_limits<float>::max()`
  pub max_value : Carrier
  -- Conversion to `uint64_t`.
  pub to_u64 : Carrier → ℕ

-- What the scheduler relies on: a converted integer is a number (never NaN), numbers are ordered by
-- `<` as a strict weak order, and every `uint64_t` converts to less than the largest `float`; a
-- conversion back is a `uint64_t`.
pub record IsFloat (f : Float) : Type 0 where
  pub lt_irrefl : (a : ℕ) → f.lt (f.of_nat a) (f.of_nat a) ≡ false
  pub lt_asymm :
      (a b : ℕ) → f.lt (f.of_nat a) (f.of_nat b) ≡ true → f.lt (f.of_nat b) (f.of_nat a) ≡ false
  pub lt_cotrans :
      (a b c : ℕ)
      → f.lt (f.of_nat c) (f.of_nat b) ≡ true
      → f.lt (f.of_nat a) (f.of_nat b) ≡ false
      → f.lt (f.of_nat a) (f.of_nat c) ≡ false
  pub lt_of_lt_not :
      (a b c : ℕ)
      → f.lt (f.of_nat c) (f.of_nat b) ≡ true
      → f.lt (f.of_nat a) (f.of_nat b) ≡ false
      → f.lt (f.of_nat c) (f.of_nat a) ≡ true
  pub below_max : (n : ℕ) → n < 2 ^ 64 → f.lt (f.of_nat n) f.max_value ≡ true
  pub to_u64_bound : (x : f.Carrier) → f.to_u64 x < 2 ^ 64
