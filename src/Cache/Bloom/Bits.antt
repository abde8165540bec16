-- ===== src/Cache/Bloom/Bits.antt =====
-- The bits of src/service/BloomFilter.h: setting one keeps the others.
use seckill_cpp.Base.{
  ℕ, zero, suc, ◌+◌, ◌*◌, ◌/◌, ◌%◌, ◌^◌, ◌≤◌, ◌<◌, true, bit_or, ◌==◌, List, length, get_or,
  get_or-set_self, get_or-set_ne, length-set, ◌≡◌, refl, ◌∙◌, arith, inl, inr, Bool-cases,
}
use seckill_cpp.Base.Bits.{bit, bit_le_one, bit-bit_or, bit-pow_self, bit_and-pow}
use native.Mathlib.Nat.{mod-lt, one-le-pow}
use seckill_cpp.Cache.Bloom.{index, set_bit, test_bit, set_all, test_all}

-- The bit that `test_bit` reads.
pub bit_at : ℕ → List ℕ → ℕ
bit_at j words = bit (get_or words (j / 64) 0) (j % 64)

pub test_bit-bit_at : (j : ℕ) (words : List ℕ) → test_bit j words ≡ (bit_at j words == 1)
unfolding test_bit bit_at
test_bit-bit_at j words = ground (
  arith,
  bit_and-pow (j % 64) (get_or words (j / 64) 0),
  bit_le_one (get_or words (j / 64) 0) (j % 64),
  one-le-pow (j % 64) 2,
)

pub set_bit_self : (i : ℕ) (words : List ℕ) → i / 64 < length words → bit_at i (set_bit i words) ≡ 1
unfolding set_bit bit_at
set_bit_self i words h =
    rw
      (
        get_or-set_self words (i / 64) (bit_or (get_or words (i / 64) 0) (2 ^ (i % 64))) 0 h,
        bit-bit_or (i % 64) (get_or words (i / 64) 0) (2 ^ (i % 64)),
        bit-pow_self (i % 64),
      )
      (omega (arith, bit_le_one (get_or words (i / 64) 0) (i % 64)))

pub set_bit-keeps :
    (i j : ℕ) (words : List ℕ)
    → i / 64 < length words
    → bit_at j words ≡ 1
    → bit_at j (set_bit i words) ≡ 1
unfolding set_bit bit_at
set_bit-keeps i j words h e = elim (Bool-cases (i / 64 == j / 64)) [
  | inl same ↦
      let here : j / 64 ≡ i / 64 = ground (arith, same) in
      let before : bit (get_or words (i / 64) 0) (j % 64) ≡ 1 = cc in
      rw
        (
          here,
          get_or-set_self words (i / 64) (bit_or (get_or words (i / 64) 0) (2 ^ (i % 64))) 0 h,
          bit-bit_or (j % 64) (get_or words (i / 64) 0) (2 ^ (i % 64)),
          before,
        )
        (omega (arith, bit_le_one (2 ^ (i % 64)) (j % 64)))
  | inr other ↦
      rw
        (get_or-set_ne words (i / 64) (j / 64) (bit_or (get_or words (i / 64) 0) (2 ^ (i % 64))) 0
          (λ f. ground (arith, other, f)))
        e
]

-- The words of the second hold at least the bits of the first.
abbrev pub Grows : List ℕ → List ℕ → Type 0
Grows words words' = (j : ℕ) → bit_at j words ≡ 1 → bit_at j words' ≡ 1

pub test_bit-Grows :
    (j : ℕ) (words words' : List ℕ)
    → Grows words words'
    → test_bit j words ≡ true
    → test_bit j words' ≡ true
test_bit-Grows j words words' g h = ground (
  arith,
  h,
  test_bit-bit_at j words,
  test_bit-bit_at j words',
  g j (ground (arith, h, test_bit-bit_at j words)),
)

pub test_all-Grows :
    (h1 h2 m n i : ℕ) (words words' : List ℕ)
    → Grows words words'
    → test_all h1 h2 m n i words ≡ true
    → test_all h1 h2 m n i words' ≡ true
unfolding test_all
test_all-Grows h1 h2 m zero i words words' g h = refl
test_all-Grows h1 h2 m (suc n) i words words' g h =
    elim (Bool-cases (test_bit (index h1 h2 m i) words)) [
      | inl here ↦ ground (
        arith,
        h,
        here,
        test_bit-Grows (index h1 h2 m i) words words' g here,
        test_all-Grows h1 h2 m n (i + 1) words words' g (ground (arith, h, here)),
      )
      | inr gone ↦ absurd (ground (arith, h, gone))
    ]

pub length-set_bit : (i : ℕ) (words : List ℕ) → length (set_bit i words) ≡ length words
unfolding set_bit
length-set_bit i words = length-set words (i / 64) _

pub index-in :
    (h1 h2 m i : ℕ) (words : List ℕ)
    → 0 < m
    → m ≤ 64 * length words
    → index h1 h2 m i / 64 < length words
unfolding index
index-in h1 h2 m i words p fits = omega (arith, mod-lt ((h1 + i * h2 % 2 ^ 64) % 2 ^ 64) {m = m} p)

pub set_all-Grows :
    (h1 h2 m n i : ℕ) (words : List ℕ)
    → 0 < m
    → m ≤ 64 * length words
    → Grows words (set_all h1 h2 m n i words)
unfolding set_all
set_all-Grows h1 h2 m zero i words p fits j h = h
set_all-Grows h1 h2 m (suc n) i words p fits j h =
    set_all-Grows h1 h2 m n (i + 1) (set_bit (index h1 h2 m i) words) p
      (omega (arith, length-set_bit (index h1 h2 m i) words)) j
      (set_bit-keeps (index h1 h2 m i) j words (index-in h1 h2 m i words p fits) h)

pub length-set_all :
    (h1 h2 m n i : ℕ) (words : List ℕ) → length (set_all h1 h2 m n i words) ≡ length words
unfolding set_all
length-set_all h1 h2 m zero i words = refl
length-set_all h1 h2 m (suc n) i words =
    length-set_all h1 h2 m n (i + 1) (set_bit (index h1 h2 m i) words)
    ∙ length-set_bit (index h1 h2 m i) words

pub set_all-test_all :
    (h1 h2 m n i : ℕ) (words : List ℕ)
    → 0 < m
    → m ≤ 64 * length words
    → test_all h1 h2 m n i (set_all h1 h2 m n i words) ≡ true
unfolding set_all test_all
set_all-test_all h1 h2 m zero i words p fits = refl
set_all-test_all h1 h2 m (suc n) i words p fits =
    let idx : ℕ = index h1 h2 m i in
    let still : m ≤ 64 * length (set_bit idx words) = omega (arith, length-set_bit idx words) in
    ground (
      arith,
      test_bit-bit_at idx (set_all h1 h2 m n (i + 1) (set_bit idx words)),
      set_all-Grows h1 h2 m n (i + 1) (set_bit idx words) p still idx
          (set_bit_self idx words (index-in h1 h2 m i words p fits)),
      set_all-test_all h1 h2 m n (i + 1) (set_bit idx words) p still,
    )
