-- ===== src/Base/Double.antt =====
-- `double`, as an interface: the sizes of a Bloom filter and the rate of hits are computed in it.
use Prim.Native.Nat.{ℕ}
use mathlib.Core.Bool.{Bool}
use seckill_cpp.Base.Int.{ℤ}

-- What the code asks of `double`, which <cmath> and the processor give: it may do anything here.
pub record Doubles : Type 1 where
  pub Double : Type 0
  pub of_nat : ℕ → Double
  pub decimal : ℕ → ℕ → Double  -- the literal with these digits and this many places
  pub at_most : Double → Double → Bool
  pub neg : Double → Double
  pub mul : Double → Double → Double
  pub div : Double → Double → Double
  pub ln : Double → Double
  pub ceil_size : Double → ℕ  -- `ceil`, before it is cut to a `size_t`
  pub round_int : Double → ℤ  -- `round`, as an `int`
