-- ===== src/Gate.antt =====
-- src/service/InflightGuard.h: the gate that turns away a second request for a key while the first
-- is in flight. A shard's lock makes each call one step, as Spin shows, so a call is a function on
-- the gate.
pub mod Held
pub mod Words
pub mod Laws
pub mod Spin
mod Tests
use seckill_cpp.Base.{
  ℕ, ◌+◌, ◌-◌, ◌*◌, ◌/◌, ◌%◌, ◌^◌, bit_and, bit_or, bit_xor, Bool, true, false, not, ◌||◌, List, [],
  ◌∷◌, if◌then◌else◌, ◌==◌, get_or, set, replicate,
}
use seckill_cpp.Base.Int.{ℤ, to_u64}

-- `enum class Mode`
pub data Mode : Type 0 where
  none mutex spin atomic : Mode

abbrev pub is_none : Mode → Bool
is_none Mode.none = true
is_none _ = false

-- A shard's `std::unordered_set<uint64_t>` is the list of its elements.
unfoldable pub contains : ℕ → List ℕ → Bool
contains k [] = false
contains k (x ∷ xs) = k == x || contains k xs

-- `insert(key).second` beside the set
unfoldable pub insert : ℕ → List ℕ → Bool × List ℕ
unfolding contains
insert k xs = if contains k xs then (false, xs) else (true, k ∷ xs)

unfoldable pub erase : ℕ → List ℕ → List ℕ
erase k [] = []
erase k (x ∷ xs) = let rest = erase k xs in if k == x then rest else x ∷ rest

-- The locks have no state between calls. `sets` is empty in the modes that do not allocate it, and
-- so is `bitmap`.
pub record Guard : Type 0 where
  pub mode : Mode
  pub shards : ℕ
  pub bits : ℕ
  pub sets : List (List ℕ)
  pub bitmap : List ℕ
  pub acquired : ℕ
  pub rejected : ℕ

-- `words_`, in `size_t`
abbrev pub words_of : ℕ → ℕ
words_of bits = ((bits + 63) % 2 ^ 64) / 64

abbrev pub sets_of : Mode → ℕ → List (List ℕ)
sets_of Mode.mutex shards = replicate shards []
sets_of Mode.spin shards = replicate shards []
sets_of _ shards = []

abbrev pub bitmap_of : Mode → ℕ → List ℕ
bitmap_of Mode.atomic bits = replicate (words_of bits) 0
bitmap_of _ bits = []

unfoldable pub init : Mode → ℕ → ℕ → Guard
init mode shards bits = record {
  mode = mode;
  shards = shards;
  bits = bits;
  sets = sets_of mode shards;
  bitmap = bitmap_of mode bits;
  acquired = 0;
  rejected = 0;
}

abbrev golden : ℕ
golden = 0x9E37_79B9_7F4A_7C15

-- The statements of `makeKey` on `h`, in `uint64_t`.
unfoldable pub make_key : ℤ → ℤ → ℕ
make_key user sku =
    let h0 : ℕ = to_u64 user * golden % 2 ^ 64 in
    let h1 : ℕ = bit_xor h0 ((to_u64 sku + golden + h0 * 2 ^ 6 % 2 ^ 64 + h0 / 2 ^ 2) % 2 ^ 64) in
    let h2 : ℕ = bit_xor h1 (h1 / 2 ^ 29) in
    let h3 : ℕ = h2 * 0xBF58_476D_1CE4_E5B9 % 2 ^ 64 in bit_xor h3 (h3 / 2 ^ 32)

-- The word and the bit of a key in the bitmap.
abbrev pub word : Guard → ℕ → ℕ
word g key = key % g.bits / 64

abbrev pub mask : ℕ → ℕ
mask key = 2 ^ (key % 64)

abbrev pub shard : Guard → ℕ → ℕ
shard g key = key % g.shards

-- The `switch` of `tryAcquire`: whether the key was marked, and the gate with the mark.
mark_set : Guard → ℕ → Bool × Guard
mark_set g key =
    let (got, s) = insert key (get_or g.sets (shard g key) []) in
    (got, record g { sets = set g.sets (shard g key) s })

mark_bit : Guard → ℕ → Bool × Guard
mark_bit g key =
    let before : ℕ = get_or g.bitmap (word g key) 0 in
    (
      bit_and before (mask key) == 0,
      record g { bitmap = set g.bitmap (word g key) (bit_or before (mask key)) },
    )

mark_in : Mode → Guard → ℕ → Bool × Guard
unfolding mark_set mark_bit insert
mark_in Mode.none g key = (true, g)
mark_in Mode.mutex g key = mark_set g key
mark_in Mode.spin g key = mark_set g key
mark_in Mode.atomic g key = mark_bit g key

-- The counters are `uint64_t`.
count_result : Bool × Guard → Bool × Guard
count_result (true, g) = (true, record g { acquired = (g.acquired + 1) % 2 ^ 64 })
count_result (false, g) = (false, record g { rejected = (g.rejected + 1) % 2 ^ 64 })

-- `tryAcquire`: whether the returned token is valid, and the gate.
unfoldable pub try_acquire : Guard → ℕ → Bool × Guard
unfolding mark_in count_result
try_acquire g key = count_result (mark_in g.mode g key)

unmark_set : Guard → ℕ → Guard
unmark_set g key = record g {
  sets = set g.sets (shard g key) (erase key (get_or g.sets (shard g key) []));
}

unmark_bit : Guard → ℕ → Guard
unmark_bit g key = record g {
  bitmap =
      set g.bitmap (word g key) (bit_and (get_or g.bitmap (word g key) 0) (2 ^ 64 - 1 - mask key));
}

unmark_in : Mode → Guard → ℕ → Guard
unfolding unmark_set unmark_bit erase
unmark_in Mode.mutex g key = unmark_set g key
unmark_in Mode.spin g key = unmark_set g key
unmark_in Mode.atomic g key = unmark_bit g key
unmark_in Mode.none g key = g

-- `release`, which the last copy of a token runs.
unfoldable pub release : Guard → ℕ → Guard
unfolding unmark_in
release g key = unmark_in g.mode g key
