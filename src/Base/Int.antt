-- ===== src/Base/Int.antt =====
-- `int64_t` values and their conversion to `uint64_t`.
use Prim.Native.Nat.{ℕ, ◌-◌, ◌%◌, ◌^◌, ◌<◌}
use mathlib.Core.Path.{◌≡◌}
use mathlib.Core.Bool.{Bool, true, false}
use native.Mathlib.Omega.{arith}
use seckill_cpp.Base.Logic.{◌==◌}

-- `negsuc n` is -(n + 1).
pub data ℤ : Type 0 where
  pos : ℕ → ℤ
  negsuc : ℕ → ℤ

-- The values of `int64_t`.
abbrev pub InInt64 : ℤ → Type 0
InInt64 (pos n) = n < 2 ^ 63
InInt64 (negsuc n) = n < 2 ^ 63

-- `static_cast<uint64_t>`, the value modulo 2 ^ 64
unfoldable pub to_u64 : ℤ → ℕ
to_u64 (pos n) = n % 2 ^ 64
to_u64 (negsuc n) = 2 ^ 64 - 1 - n % 2 ^ 64

-- No two `int64_t` have the same bit pattern.
pub to_u64_injective : (a b : ℤ) → InInt64 a → InInt64 b → to_u64 a ≡ to_u64 b → a ≡ b
unfolding to_u64
to_u64_injective (pos a) (pos b) p q h = ground arith
to_u64_injective (pos a) (negsuc b) p q h = absurd (omega arith)
to_u64_injective (negsuc a) (pos b) p q h = absurd (omega arith)
to_u64_injective (negsuc a) (negsuc b) p q h = ground arith

abbrev pub int_eq : ℤ → ℤ → Bool
int_eq (pos a) (pos b) = a == b
int_eq (pos a) (negsuc b) = false
int_eq (negsuc a) (pos b) = false
int_eq (negsuc a) (negsuc b) = a == b

pub int_eq→eq : (a b : ℤ) → int_eq a b ≡ true → a ≡ b
int_eq→eq (pos a) (pos b) h = ground arith
int_eq→eq (pos a) (negsuc b) h = absurd (cc)
int_eq→eq (negsuc a) (pos b) h = absurd (cc)
int_eq→eq (negsuc a) (negsuc b) h = ground arith

pub int_eq_refl : (a : ℤ) → int_eq a a ≡ true
int_eq_refl (pos a) = ground arith
int_eq_refl (negsuc a) = ground arith
