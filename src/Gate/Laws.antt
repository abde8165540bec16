-- ===== src/Gate/Laws.antt =====
-- What `tryAcquire` and `release` of src/service/InflightGuard.h do to the set of marked keys, in
-- all three modes at once.
use seckill_cpp.Base.{
  ℕ, ◌+◌, ◌-◌, ◌/◌, ◌%◌, ◌^◌, ◌<◌, bit_and, bit_or, Bool, true, false, not, ◌&&◌, ◌||◌, List, [],
  ◌≡◌, refl, ◌∙◌, sym, arith, get_or, length-replicate, get_or-replicate, length-set,
}
use seckill_cpp.Base.Bits.{bit-zero, bit_and-pow}
use seckill_cpp.Gate.{
  Guard, Mode, contains, insert, erase, word, mask, shard, words_of, init, try_acquire, release,
}
use seckill_cpp.Gate.Words.{insert-shard, erase-shard, or_word, and_word}
use seckill_cpp.Gate.Held.{held, clash, IsValid}

-- The constructor gives a well-formed gate.
pub init-IsValid :
    (m : Mode) (shards bits : ℕ)
    → 0 < shards
    → 0 < bits
    → bits + 63 < 2 ^ 64
    → IsValid (init m shards bits)
unfolding init
init-IsValid Mode.none s b p q r = tt
init-IsValid Mode.mutex s b p q r = (p, length-replicate s [])
init-IsValid Mode.spin s b p q r = (p, length-replicate s [])
init-IsValid Mode.atomic s b p q r = (q, r, length-replicate (words_of b) 0)

mode-try_acquire : (g : Guard) (k : ℕ) → (try_acquire g k).1.mode ≡ g.mode
unfolding try_acquire
mode-try_acquire g k = ground arith

-- `tryAcquire` keeps the gate well-formed.
pub try_acquire-IsValid : (g : Guard) (k : ℕ) → IsValid g → IsValid (try_acquire g k).1
unfolding try_acquire
try_acquire-IsValid g k v = ground (
  arith,
  length-set g.sets (shard g k) (insert k (get_or g.sets (shard g k) [])).1,
  length-set g.bitmap (word g k) (bit_or (get_or g.bitmap (word g k) 0) (mask k)),
)

pub release-IsValid : (g : Guard) (k : ℕ) → IsValid g → IsValid (release g k)
unfolding release
release-IsValid g k v = ground (
  arith,
  length-set g.sets (shard g k) (erase k (get_or g.sets (shard g k) [])),
  length-set g.bitmap (word g k) (bit_and (get_or g.bitmap (word g k) 0) (2 ^ 64 - 1 - mask k)),
)

got-try_acquire : (g : Guard) (k : ℕ) → (try_acquire g k).0 ≡ not (held g k)
unfolding try_acquire
got-try_acquire g k = ground arith

held-try_acquire :
    (g : Guard) (j k : ℕ) → IsValid g → held (try_acquire g k).1 j ≡ (clash g j k || held g j)
unfolding try_acquire
held-try_acquire g j k v = ground (arith, insert-shard g j k, or_word g j k)

-- For a well-formed gate in every mode: the token is valid exactly if the key was not held, and
-- then every key that clashes with it is held, beside those that were.
pub try_acquire_lem :
    (g : Guard) (k : ℕ)
    → IsValid g
    → ((try_acquire g k).0 ≡ not (held g k))
      × ((j : ℕ) → held (try_acquire g k).1 j ≡ (clash g j k || held g j))
try_acquire_lem g k v = (got-try_acquire g k, λ j. held-try_acquire g j k v)

-- For a well-formed gate in every mode: releasing a key frees the keys that clash with it, and no
-- other.
pub held-release :
    (g : Guard) (j k : ℕ) → IsValid g → held (release g k) j ≡ (not (clash g j k) && held g j)
unfolding release
held-release g j k v = ground (arith, erase-shard g j k, and_word g j k)

-- Keys that clash are held together.
pub held-clash : (g : Guard) (j k : ℕ) → clash g j k ≡ true → held g j ≡ held g k
held-clash g j k c = ground arith

pub clash-release : (g : Guard) (i j k : ℕ) → clash (release g i) j k ≡ clash g j k
unfolding release
clash-release g i j k = ground arith

pub clash-try_acquire : (g : Guard) (i j k : ℕ) → clash (try_acquire g i).1 j k ≡ clash g j k
unfolding try_acquire
clash-try_acquire g i j k = ground arith

unmark : (c h hk : Bool) → (c ≡ true → h ≡ hk) → not hk ≡ true → (not c && (c || h)) ≡ h
unmark true h hk same free = ground (arith, same refl)
unmark false h hk same free = refl

-- For a well-formed gate in every mode: if a key was acquired, then releasing it leaves exactly
-- the keys held that were held before, so no mark stays behind and none is lost.
pub release-try_acquire :
    (g : Guard) (j k : ℕ)
    → IsValid g
    → (try_acquire g k).0 ≡ true
    → held (release (try_acquire g k).1 k) j ≡ held g j
release-try_acquire g j k v got =
    held-release (try_acquire g k).1 j k (try_acquire-IsValid g k v)
    ∙ rw (clash-try_acquire g k j k, held-try_acquire g j k v)
        (unmark (clash g j k) (held g j) (held g k) (held-clash g j k)
          (sym (got-try_acquire g k) ∙ got))

-- A new gate holds no key.
pub held-init : (m : Mode) (shards bits k : ℕ) → held (init m shards bits) k ≡ false
unfolding init contains
held-init Mode.none s b k = refl
held-init Mode.mutex s b k = rw (get_or-replicate {A = List ℕ} s (k % s) [])
held-init Mode.spin s b k = rw (get_or-replicate {A = List ℕ} s (k % s) [])
held-init Mode.atomic s b k =
    rw
      (
        get_or-replicate {A = ℕ} (words_of b) (k % b / 64) 0,
        bit_and-pow (k % 64) 0,
        bit-zero (k % 64),
      )
      (ground arith)
