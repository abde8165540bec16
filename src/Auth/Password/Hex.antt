-- ===== src/Auth/Password/Hex.antt =====
-- password.cc: a hexadecimal text holds the bytes that it was made of.
use seckill_cpp.Base.{
  ℕ, zero, suc, ◌+◌, ◌-◌, ◌*◌, ◌/◌, ◌^◌, ◌<◌, bit_and, Bool, true, ◌&&◌, Bytes, if◌then◌else◌, ◌==◌,
  leb, get_or, length, [], ◌∷◌, ◌≡◌, refl, ap₂, arith,
}
use seckill_cpp.Auth.Base64.RoundTrip.{AreBytes}
use seckill_cpp.Auth.Password.{hex_digits, to_hex}

-- The value of a digit, and the bytes of a text of two digits each.
pub unhex : ℕ → ℕ
unhex c = if leb c b'9' then c - b'0' else c - 87

pub of_hex : Bytes → Bytes
of_hex [] = []
of_hex (h ∷ []) = []
of_hex (h ∷ l ∷ s) = (16 * unhex h + unhex l) ∷ of_hex s

hex_of : ℕ → ℕ
hex_of c =
    16 * unhex (get_or hex_digits (c / 2 ^ 4) 0) + unhex (get_or hex_digits (bit_and c 0x0f) 0)

right_below : ℕ → Bool
right_below zero = true
right_below (suc n) = hex_of n == n && right_below n

all_right : right_below 256 ≡ true
unfolding right_below hex_of unhex
all_right = refl

right_at : (n c : ℕ) → c < n → right_below n ≡ true → hex_of c ≡ c
unfolding right_below
right_at zero c h r = absurd (omega arith)
right_at (suc n) c h r = ground (arith, right_at n c)

pub of_hex-to_hex : (s : Bytes) → AreBytes s → of_hex (to_hex s) ≡ s
unfolding of_hex to_hex hex_of
of_hex-to_hex [] h = refl
of_hex-to_hex (c ∷ s) h = ap₂ (λ x xs. x ∷ xs) (right_at 256 c h.0 all_right) (of_hex-to_hex s h.1)

pub length-to_hex : (s : Bytes) → length (to_hex s) ≡ 2 * length s
unfolding to_hex
length-to_hex [] = refl
length-to_hex (c ∷ s) = omega (arith, length-to_hex s)
