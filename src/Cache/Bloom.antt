-- ===== src/Cache/Bloom.antt =====
-- src/service/BloomFilter.h. The arithmetic of `double` is an interface.
pub mod Bits
pub mod Members
mod Tests
use seckill_cpp.Base.{
  ℕ, zero, suc, ◌+◌, ◌*◌, ◌/◌, ◌%◌, ◌^◌, Bool, true, false, not, ◌&&◌, bit_and, bit_or, bit_xor,
  if◌then◌else◌, ◌==◌, ltb, List, [], ◌∷◌, replicate, get_or, set,
}
use seckill_cpp.Base.Int.{ℤ, pos, negsuc}
use seckill_cpp.Base.Double.{Doubles}

pub record BloomFilter : Type 0 where
  pub bits : List ℕ
  pub bits_count : ℕ
  pub hashes : ℕ
  pub added : ℕ

-- The constructor that `create` calls. The number of words is a `size_t`.
unfoldable pub new_filter : ℕ → ℕ → BloomFilter
new_filter bits hashes = record {
  bits = replicate ((bits + 63) % 2 ^ 64 / 64) 0;
  bits_count = bits;
  hashes = hashes;
  added = 0;
}

module _ (F : Doubles) where
  unfoldable pub sane_rate : F.Double → F.Double
  sane_rate p =
      let p1 : F.Double = if F.at_most p (F.of_nat 0) then F.decimal 1 6 else p in
      if F.at_most (F.of_nat 1) p1 then F.decimal 99 2 else p1

  unfoldable pub bits_for : ℕ → F.Double → ℕ
  bits_for n p =
      let ln2 : F.Double = F.ln (F.of_nat 2) in
      F.ceil_size (F.div (F.mul (F.neg (F.of_nat n)) (F.ln p)) (F.mul ln2 ln2)) % 2 ^ 64

  unfoldable pub at_least_one : ℤ → ℕ
  at_least_one (pos zero) = 1
  at_least_one (pos (suc k)) = suc k
  at_least_one (negsuc k) = 1

  unfoldable pub hashes_for : ℕ → ℕ → ℕ
  hashes_for m n =
      at_least_one (F.round_int (F.mul (F.div (F.of_nat m) (F.of_nat n)) (F.ln (F.of_nat 2))))

  -- `create`
  unfoldable pub create : ℕ → F.Double → BloomFilter
  create expected_count rate =
      let n : ℕ = if expected_count == 0 then 1 else expected_count in
      let m : ℕ = bits_for n (sane_rate rate) in new_filter m (hashes_for m n)

unfoldable pub ready : BloomFilter → Bool
ready f = ltb 0 f.bits_count

unfoldable pub splitmix64 : ℕ → ℕ
splitmix64 x =
    let x1 : ℕ = (x + 0x9e37_79b9_7f4a_7c15) % 2 ^ 64 in
    let x2 : ℕ = bit_xor x1 (x1 / 2 ^ 30) * 0xbf58_476d_1ce4_e5b9 % 2 ^ 64 in
    let x3 : ℕ = bit_xor x2 (x2 / 2 ^ 27) * 0x94d0_49bb_1331_11eb % 2 ^ 64 in
    bit_xor x3 (x3 / 2 ^ 31)

unfoldable pub first_hash : ℕ → ℕ
first_hash x = splitmix64 x

unfoldable pub second_hash : ℕ → ℕ
second_hash x =
    let h2 : ℕ = splitmix64 (bit_xor x 0x94d0_49bb_1331_11eb) in if h2 == 0 then 1 else h2

-- The place of the hash `i`, in `uint64_t`.
unfoldable pub index : ℕ → ℕ → ℕ → ℕ → ℕ
index h1 h2 bits_count i = (h1 + i * h2 % 2 ^ 64) % 2 ^ 64 % bits_count

unfoldable pub set_bit : ℕ → List ℕ → List ℕ
set_bit idx words = set words (idx / 64) (bit_or (get_or words (idx / 64) 0) (2 ^ (idx % 64)))

unfoldable pub test_bit : ℕ → List ℕ → Bool
test_bit idx words = not (bit_and (get_or words (idx / 64) 0) (2 ^ (idx % 64)) == 0)

-- The loops of `add` and `maybeContains`, for `n` turns from `i`.
unfoldable pub set_all : ℕ → ℕ → ℕ → ℕ → ℕ → List ℕ → List ℕ
set_all h1 h2 m zero i words = words
set_all h1 h2 m (suc n) i words = set_all h1 h2 m n (i + 1) (set_bit (index h1 h2 m i) words)

unfoldable pub test_all : ℕ → ℕ → ℕ → ℕ → ℕ → List ℕ → Bool
test_all h1 h2 m zero i words = true
test_all h1 h2 m (suc n) i words =
    let rest = test_all h1 h2 m n (i + 1) words in
    if not (test_bit (index h1 h2 m i) words) then false else rest

unfoldable pub add : ℕ → BloomFilter → BloomFilter
add x f = if not (ready f) then f else record f {
  bits = set_all (first_hash x) (second_hash x) f.bits_count f.hashes 0 f.bits;
  added = (f.added + 1) % 2 ^ 64;
}

unfoldable pub maybe_contains : ℕ → BloomFilter → Bool
maybe_contains x f =
    if not (ready f)
    then true
    else test_all (first_hash x) (second_hash x) f.bits_count f.hashes 0 f.bits
