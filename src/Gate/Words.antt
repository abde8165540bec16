-- ===== src/Gate/Words.antt =====
-- What the marks of src/service/InflightGuard.h do to one shard and to one word of the bitmap.
use native.Mathlib.Nat.{one-le-pow, pow-suc, pow-le-pow_right}
use seckill_cpp.Base.{
  ℕ, suc, ◌-◌, ◌%◌, ◌^◌, ◌<◌, bit_and, bit_or, not, ◌&&◌, ◌||◌, List, [], ◌∷◌, ◌≡◌, ◌⊎◌, inl, inr,
  arith, ◌==◌, ==_iff, get_or, set, get_or-set_self, get_or-set_ne, Bool-cases,
}
use seckill_cpp.Base.Bits.{
  bit, bit_le_one, bit-bit_or, bit-bit_and, bit-pow_self, bit-pow_ne, bit_and-pow, bit_complement,
}
use seckill_cpp.Gate.{Guard, Mode, contains, insert, erase, word, mask, shard}
use seckill_cpp.Gate.Held.{held_in, clash_in, ValidIn}

pub contains-insert :
    (j k : ℕ) (xs : List ℕ) → contains j (insert k xs).1 ≡ (j == k || contains j xs)
unfolding contains insert
contains-insert j k xs = elim (Bool-cases (contains k xs)) [
  | inl old ↦ elim (Bool-cases (j == k)) [
    | inl e ↦ ground (arith, ==_iff j k)
    | inr ne ↦ ground arith
  ]
  | inr new ↦ ground arith
]

pub contains-erase :
    (j k : ℕ) (xs : List ℕ) → contains j (erase k xs) ≡ (not (j == k) && contains j xs)
unfolding contains erase
contains-erase j k [] = ground arith
contains-erase j k (x ∷ xs) = ground (arith, contains-erase j k xs)

pub bit_cases : (w b : ℕ) → (bit w b ≡ 0) ⊎ (bit w b ≡ 1)
bit_cases w b = omega (arith, bit_le_one w b)

pub tested_bit : (w b : ℕ) → (bit_and w (2 ^ b) == 0) ≡ (bit w b == 0)
tested_bit w b = elim (bit_cases w b) [
  | inl e ↦ ground (arith, bit_and-pow b w, e)
  | inr e ↦ ground (arith, bit_and-pow b w, e, one-le-pow b 2)
]

pub set_bit_test :
    (w i j : ℕ)
    → (bit_and (bit_or w (2 ^ i)) (2 ^ j) == 0) ≡ (not (j == i) && (bit_and w (2 ^ j) == 0))
set_bit_test w i j =
    rw (tested_bit (bit_or w (2 ^ i)) j, tested_bit w j)
      (elim (Bool-cases (j == i)) [
        | inl e ↦ ground (arith, bit-bit_or j w (2 ^ i), bit-pow_self i)
        | inr e ↦ ground (arith, bit-bit_or j w (2 ^ i), bit-pow_ne i j)
      ])

pub pow-lt : (i : ℕ) → i < 64 → 2 ^ i < 2 ^ 64
pow-lt i h = omega (
  arith,
  pow-le-pow_right {n = 2} (omega arith) {i = suc i} {j = 64} h,
  pow-suc 2 i,
  one-le-pow i 2,
)

pub clear_bit_test :
    (w i j : ℕ)
    → i < 64
    → j < 64
    → (bit_and (bit_and w (2 ^ 64 - 1 - 2 ^ i)) (2 ^ j) == 0) ≡ (j == i || (bit_and w (2 ^ j) == 0))
clear_bit_test w i j hi hj =
    rw (tested_bit (bit_and w (2 ^ 64 - 1 - 2 ^ i)) j, tested_bit w j)
      (ground (
        arith,
        bit-bit_and j w (2 ^ 64 - 1 - 2 ^ i),
        bit_complement 64 j (2 ^ i) hj (pow-lt i hi),
        bit-pow_self i,
        bit-pow_ne i j,
        bit_le_one w j,
      ))

-- Marking a key in one shard, as every other key sees it.
pub insert-shard :
    (g : Guard) (j k : ℕ)
    → ValidIn Mode.mutex g
    → contains j
        (get_or (set g.sets (shard g k) (insert k (get_or g.sets (shard g k) [])).1) (shard g j) [])
      ≡ (j == k || contains j (get_or g.sets (shard g j) []))
insert-shard g j k v = elim (Bool-cases (shard g j == shard g k)) [
  | inl e ↦ ground (
    arith,
    get_or-set_self g.sets (shard g k) (insert k (get_or g.sets (shard g k) [])).1 [],
    contains-insert j k (get_or g.sets (shard g k) []),
  )
  | inr e ↦ ground (
    arith,
    get_or-set_ne g.sets (shard g k) (shard g j) (insert k (get_or g.sets (shard g k) [])).1 [],
  )
]

pub erase-shard :
    (g : Guard) (j k : ℕ)
    → ValidIn Mode.mutex g
    → contains j
        (get_or (set g.sets (shard g k) (erase k (get_or g.sets (shard g k) []))) (shard g j) [])
      ≡ (not (j == k) && contains j (get_or g.sets (shard g j) []))
erase-shard g j k v = elim (Bool-cases (shard g j == shard g k)) [
  | inl e ↦ ground (
    arith,
    get_or-set_self g.sets (shard g k) (erase k (get_or g.sets (shard g k) [])) [],
    contains-erase j k (get_or g.sets (shard g k) []),
  )
  | inr e ↦ ground (
    arith,
    get_or-set_ne g.sets (shard g k) (shard g j) (erase k (get_or g.sets (shard g k) [])) [],
  )
]

pub or_word :
    (g : Guard) (j k : ℕ)
    → ValidIn Mode.atomic g
    → not (
        bit_and
          (get_or
            (set g.bitmap (word g k) (bit_or (get_or g.bitmap (word g k) 0) (mask k)))
            (word g j)
            0)
          (mask j)
        == 0)
      ≡ (clash_in Mode.atomic g.bits j k || held_in Mode.atomic g j)
or_word g j k v = elim (Bool-cases (word g j == word g k)) [
  | inl e ↦ ground (
    arith,
    get_or-set_self g.bitmap (word g k) (bit_or (get_or g.bitmap (word g k) 0) (mask k)) 0,
    set_bit_test (get_or g.bitmap (word g k) 0) (k % 64) (j % 64),
  )
  | inr e ↦ ground (
    arith,
    get_or-set_ne g.bitmap (word g k) (word g j) (bit_or (get_or g.bitmap (word g k) 0) (mask k)) 0,
  )
]

pub and_word :
    (g : Guard) (j k : ℕ)
    → ValidIn Mode.atomic g
    → not (
        bit_and
          (get_or
            (set g.bitmap (word g k) (bit_and (get_or g.bitmap (word g k) 0) (2 ^ 64 - 1 - mask k)))
            (word g j)
            0)
          (mask j)
        == 0)
      ≡ (not (clash_in Mode.atomic g.bits j k) && held_in Mode.atomic g j)
and_word g j k v =
    let cleared : ℕ = bit_and (get_or g.bitmap (word g k) 0) (2 ^ 64 - 1 - mask k) in
    elim (Bool-cases (word g j == word g k)) [
      | inl e ↦ ground (
        arith,
        get_or-set_self g.bitmap (word g k) cleared 0,
        clear_bit_test (get_or g.bitmap (word g k) 0) (k % 64) (j % 64),
      )
      | inr e ↦ ground (arith, get_or-set_ne g.bitmap (word g k) (word g j) cleared 0)
    ]
