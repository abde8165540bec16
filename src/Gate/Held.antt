-- ===== src/Gate/Held.antt =====
-- The gate of src/service/InflightGuard.h as the set of keys that it holds, in all its modes.
use seckill_cpp.Base.{
  ℕ, ◌+◌, ◌/◌, ◌%◌, ◌^◌, ◌<◌, bit_and, Bool, false, not, ◌&&◌, [], ◌≡◌, ◌==◌, get_or, length,
}
use seckill_cpp.Gate.{Guard, Mode, contains, word, mask, shard, words_of}

-- Whether a key is marked as in flight.
abbrev pub held_in : Mode → Guard → ℕ → Bool
held_in Mode.none g key = false
held_in Mode.mutex g key = contains key (get_or g.sets (shard g key) [])
held_in Mode.spin g key = contains key (get_or g.sets (shard g key) [])
held_in Mode.atomic g key = not (bit_and (get_or g.bitmap (word g key) 0) (mask key) == 0)

abbrev pub held : Guard → ℕ → Bool
held g key = held_in g.mode g key

-- Two keys that the gate cannot tell apart: equal ones, or in `Atomic` mode ones with the same bit.
abbrev pub clash_in : Mode → ℕ → ℕ → ℕ → Bool
clash_in Mode.none bits j k = false
clash_in Mode.mutex bits j k = j == k
clash_in Mode.spin bits j k = j == k
clash_in Mode.atomic bits j k = (j % bits / 64 == k % bits / 64) && (j % 64 == k % 64)

abbrev pub clash : Guard → ℕ → ℕ → Bool
clash g j k = clash_in g.mode g.bits j k

-- What the constructor establishes for positive sizes; `bits + 63` must not wrap.
abbrev pub ValidIn : Mode → Guard → Type 0
ValidIn Mode.none g = Unit {0}
ValidIn Mode.mutex g = (0 < g.shards) × (length g.sets ≡ g.shards)
ValidIn Mode.spin g = (0 < g.shards) × (length g.sets ≡ g.shards)
ValidIn Mode.atomic g = (0 < g.bits) × (g.bits + 63 < 2 ^ 64) × (length g.bitmap ≡ words_of g.bits)

abbrev pub IsValid : Guard → Type 0
IsValid g = ValidIn g.mode g
