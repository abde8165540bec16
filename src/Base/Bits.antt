-- ===== src/Base/Bits.antt =====
-- Single bits of machine words: what `|=`, `&` and `~` with a shifted one do to each bit.
use Prim.Native.Nat.{
  ℕ, zero, suc, ◌+◌, ◌-◌, ◌*◌, ◌/◌, ◌%◌, ◌^◌, ◌≤◌, ◌<◌, min, max, bit_or, bit_and, bit_xor, digits,
  bit_or-bitwise, bit_and-bitwise, bit_xor-bitwise, differ,
}
use mathlib.Core.Path.{◌≡◌, refl, sym, ap, ◌∙◌}
use mathlib.Core.Logic.{◌≢◌}
use native.Mathlib.Nat.{pow-suc, one-le-pow}
use native.Mathlib.Omega.{arith}

-- Bit `k` of a word.
pub bit : ℕ → ℕ → ℕ
bit w zero = w % 2
bit w (suc k) = bit (w / 2) k

pub bit_le_one : (w k : ℕ) → bit w k ≤ 1
unfolding bit
bit_le_one w zero = omega arith
bit_le_one w (suc k) = bit_le_one (w / 2) k

-- The native operations run on binary digits with fuel: any fuel from the number up will do.
module _ (z : ℕ → ℕ) (f : ℕ → ℕ → ℕ) where
  digits_enough : (b a n m : ℕ) → a ≤ n → a ≤ m → digits z f n a b ≡ digits z f m a b
  digits_enough b zero zero zero p q = refl
  digits_enough b zero zero (suc m) p q = refl
  digits_enough b zero (suc n) zero p q = refl
  digits_enough b zero (suc n) (suc m) p q = refl
  digits_enough b (suc a) zero m p q = absurd (omega arith)
  digits_enough b (suc a) (suc n) zero p q = absurd (omega arith)
  digits_enough b (suc a) (suc n) (suc m) p q =
      let half = digits_enough (b / 2) (suc a / 2) n m (omega arith) (omega arith) in
      ap (λ (d : ℕ). d * 2 + f (suc a % 2) (b % 2)) half

bit_or_halves : (a b : ℕ) → bit_or a b ≡ bit_or (a / 2) (b / 2) * 2 + max (a % 2) (b % 2)
bit_or_halves zero b = simp bit_or-bitwise (omega arith)
bit_or_halves (suc a) b = omega (
  arith,
  bit_or-bitwise (suc a) b,
  bit_or-bitwise (suc a / 2) (b / 2),
  digits_enough (λ y. y) max (b / 2) (suc a / 2) a (suc a / 2) (omega arith) (omega arith),
)

bit_and_halves : (a b : ℕ) → bit_and a b ≡ bit_and (a / 2) (b / 2) * 2 + min (a % 2) (b % 2)
bit_and_halves zero b = simp bit_and-bitwise (omega arith)
bit_and_halves (suc a) b = omega (
  arith,
  bit_and-bitwise (suc a) b,
  bit_and-bitwise (suc a / 2) (b / 2),
  digits_enough (λ y. 0) min (b / 2) (suc a / 2) a (suc a / 2) (omega arith) (omega arith),
)

pub bit-bit_or : (k a b : ℕ) → bit (bit_or a b) k ≡ max (bit a k) (bit b k)
unfolding bit
bit-bit_or zero a b = omega (arith, bit_or_halves a b)
bit-bit_or (suc k) a b =
    let half : bit_or a b / 2 ≡ bit_or (a / 2) (b / 2) = omega (arith, bit_or_halves a b) in
    rw half (bit-bit_or k (a / 2) (b / 2))

pub bit-bit_and : (k a b : ℕ) → bit (bit_and a b) k ≡ min (bit a k) (bit b k)
unfolding bit
bit-bit_and zero a b = omega (arith, bit_and_halves a b)
bit-bit_and (suc k) a b =
    let half : bit_and a b / 2 ≡ bit_and (a / 2) (b / 2) = omega (arith, bit_and_halves a b) in
    rw half (bit-bit_and k (a / 2) (b / 2))

pub bit-zero : (k : ℕ) → bit 0 k ≡ 0
unfolding bit
bit-zero zero = refl
bit-zero (suc k) = bit-zero k

pub bit-pow_self : (k : ℕ) → bit (2 ^ k) k ≡ 1
unfolding bit
bit-pow_self zero = refl
bit-pow_self (suc k) =
    let half : 2 ^ suc k / 2 ≡ 2 ^ k = omega (arith, pow-suc 2 k) in rw half (bit-pow_self k)

pub bit-pow_ne : (k j : ℕ) → k ≢ j → bit (2 ^ k) j ≡ 0
unfolding bit
bit-pow_ne zero zero h = absurd (h refl)
bit-pow_ne zero (suc j) h = bit-zero j
bit-pow_ne (suc k) zero h = omega (arith, pow-suc 2 k)
bit-pow_ne (suc k) (suc j) h =
    let half : 2 ^ suc k / 2 ≡ 2 ^ k = omega (arith, pow-suc 2 k) in
    rw half (bit-pow_ne k j (λ e. h (ap suc e)))

bit_and-zero_below : (n v : ℕ) → v ≤ n → bit_and v 0 ≡ 0
bit_and-zero_below n zero h = refl
bit_and-zero_below zero (suc v) h = absurd (omega arith)
bit_and-zero_below (suc n) (suc v) h =
    omega (arith, bit_and_halves (suc v) 0, bit_and-zero_below n (suc v / 2) (omega arith))

-- `w & (1 << k)` keeps bit `k` alone.
pub bit_and-pow : (k w : ℕ) → bit_and w (2 ^ k) ≡ bit w k * 2 ^ k
unfolding bit
bit_and-pow zero w =
    omega (arith, bit_and_halves w 1, bit_and-zero_below (w / 2) (w / 2) (omega arith))
bit_and-pow (suc k) w =
    let half : 2 ^ suc k / 2 ≡ 2 ^ k = omega (arith, pow-suc 2 k) in
    let here : bit_and w (2 ^ suc k) ≡ bit_and (w / 2) (2 ^ k) * 2 =
      rw (← half) (omega (arith, bit_and_halves w (2 ^ suc k), pow-suc 2 k)) in
    here
    ∙ rw (bit_and-pow k (w / 2)) (omega (arith, ap (λ (t : ℕ). bit (w / 2) k * t) (pow-suc 2 k)))

-- `~m` of a word of `n` bits flips each of them.
pub bit_complement : (n j m : ℕ) → j < n → m < 2 ^ n → bit (2 ^ n - 1 - m) j ≡ 1 - bit m j
unfolding bit
bit_complement zero j m h l = absurd (omega arith)
bit_complement (suc n) zero m h l = omega (arith, pow-suc 2 n, one-le-pow n 2)
bit_complement (suc n) (suc j) m h l =
    let half : (2 ^ suc n - 1 - m) / 2 ≡ 2 ^ n - 1 - m / 2 = omega (arith, pow-suc 2 n) in
    rw half (bit_complement n j (m / 2) (omega arith) (omega (arith, pow-suc 2 n)))

bit_xor_halves : (a b : ℕ) → bit_xor a b ≡ bit_xor (a / 2) (b / 2) * 2 + differ (a % 2) (b % 2)
bit_xor_halves zero b = simp bit_xor-bitwise (omega arith)
bit_xor_halves (suc a) b = omega (
  arith,
  bit_xor-bitwise (suc a) b,
  bit_xor-bitwise (suc a / 2) (b / 2),
  digits_enough (λ y. y) differ (b / 2) (suc a / 2) a (suc a / 2) (omega arith) (omega arith),
)

pub bit_or_zero : (n a b : ℕ) → a ≤ n → b ≤ n → bit_or a b ≡ 0 → (a ≡ 0) × (b ≡ 0)
bit_or_zero zero a b h k e = (omega arith, omega arith)
bit_or_zero (suc n) a b h k e =
    let (p, q) =
      bit_or_zero n (a / 2) (b / 2) (omega arith) (omega arith)
        (omega (arith, e, bit_or_halves a b)) in
    (omega (arith, p, e, bit_or_halves a b), omega (arith, q, e, bit_or_halves a b))

differ_zero : (a b : ℕ) → differ a b ≡ 0 → a ≡ b
differ_zero zero b h = sym h
differ_zero (suc a) zero h = absurd (omega arith)
differ_zero (suc a) (suc b) h = ap suc (differ_zero a b h)

differ_self : (a : ℕ) → differ a a ≡ 0
differ_self zero = refl
differ_self (suc a) = differ_self a

pub bit_xor_zero : (n a b : ℕ) → a ≤ n → b ≤ n → bit_xor a b ≡ 0 → a ≡ b
bit_xor_zero zero a b h k e = omega arith
bit_xor_zero (suc n) a b h k e = omega (
  arith,
  bit_xor_halves a b,
  differ_zero (a % 2) (b % 2) (omega (arith, e, bit_xor_halves a b)),
  bit_xor_zero n (a / 2) (b / 2) (omega arith) (omega arith) (omega (arith, e, bit_xor_halves a b)),
)

pub bit_xor_self : (n a : ℕ) → a ≤ n → bit_xor a a ≡ 0
bit_xor_self zero zero h = refl
bit_xor_self zero (suc a) h = absurd (omega arith)
bit_xor_self (suc n) a h =
    omega (arith, bit_xor_halves a a, differ_self (a % 2), bit_xor_self n (a / 2) (omega arith))
