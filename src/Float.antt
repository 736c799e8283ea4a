-- ===== src/Float.antt =====
-- Python's `float`, of which the code uses only these operations: an interface, since the
-- development has no floating-point numbers of its own. `lt` and `le` are `<` and `<=`, which
-- are false where an operand is NaN.
use swarmsim.Base.{ℕ, Bool, true, false, ◌≡◌}

pub record Float (F : Type 0) : Type 0 where
  -- `float(n)` of an int
  pub of_nat : ℕ → F
  pub neg : F → F
  pub add : F → F → F
  pub sub : F → F → F
  pub mul : F → F → F
  pub div : F → F → F
  pub sqrt : F → F
  -- `math.exp`
  pub exp : F → F
  -- `math.hypot`
  pub hypot : F → F → F
  -- `round(x, digits)`
  pub round : F → ℕ → F
  pub lt : F → F → Bool
  pub le : F → F → Bool
  -- `math.isnan`
  pub is_nan : F → Bool

-- The comparisons of IEEE 754 that the proofs rely on; the first two hold with NaN among the
-- operands.
pub record IsOrdered {F : Type 0} (f : Float F) : Type 0 where
  pub not_lt_of_le : (x y : F) → f.le y x ≡ true → f.lt x y ≡ false
  pub not_le_of_lt : (x y : F) → f.lt x y ≡ true → f.le y x ≡ false
  pub not_lt_self : (n : ℕ) → f.lt (f.of_nat n) (f.of_nat n) ≡ false

-- More of them: `<` is transitive and irreflexive, with NaN among the operands or not; and where `y`
-- is a number, `x < z` and not `x < y` give `y < z`.
pub record IsStrict {F : Type 0} (f : Float F) : Type 0 where
  pub lt_trans : (x y z : F) → f.lt x y ≡ true → f.lt y z ≡ true → f.lt x z ≡ true
  pub lt_irrefl : (x : F) → f.lt x x ≡ false
  pub lt_between :
      (x y z : F) → f.is_nan y ≡ false → f.lt x z ≡ true → f.lt x y ≡ false → f.lt y z ≡ true
