-- ===== src/Gate/Spin.antt =====
-- src/service/InflightGuard.h: `SpinLock`, and a shard's set behind it, one access to the memory at a
-- time. The insertion looks the key up and then writes, and threads run in any order in between.
mod Moves
pub mod Safety
pub mod Atomic
mod Tests
use seckill_cpp.Base.{ℕ, Bool, true, false, ◌&&◌, if◌then◌else◌, ◌==◌, List, [], ◌∷◌}
use seckill_cpp.Gate.{contains, erase}

-- A shard: the flag of its lock, and its set.
pub record Shard : Type 0 where
  pub flag : Bool
  pub keys : List ℕ

-- Where a thread stands, with the key of its call.
pub data Pc : Type 0 where
  idle : Pc
  locking : ℕ → Pc  -- the `while` of `lock`, in `tryAcquire`
  inside : ℕ → Pc  -- before the look-up of `insert`
  looked : ℕ → Bool → Pc  -- before the write of `insert`: whether the key was there
  leaving : ℕ → Bool → Pc  -- before `unlock`: `got`
  owning : ℕ → Pc  -- with a token
  returning : ℕ → Pc  -- the `while` of `lock`, in `release`
  erasing : ℕ → Pc  -- before `erase`
  left : Pc  -- before `unlock`, in `release`

-- `flag_.test_and_set()` in the loop of `lock`, for the flag that was there: the thread goes on if it
-- was clear.
unfoldable pub test_and_set : Bool → Pc → Pc → Shard → Pc × Shard
test_and_set true wait next m = (wait, m)
test_and_set false wait next m = (next, record m { flag = true })

-- `flag_.clear()`
unfoldable pub unlock : Pc → Shard → Pc × Shard
unlock next m = (next, record m { flag = false })

-- One step of a thread. A thread that is idle begins a call of `tryAcquire` for the key `wanted`.
unfoldable pub move : ℕ → Pc → Shard → Pc × Shard
unfolding test_and_set unlock
move wanted idle m = (locking wanted, m)
move wanted (locking k) m = test_and_set m.flag (locking k) (inside k) m
move wanted (inside k) m = (looked k (contains k m.keys), m)
move wanted (looked k true) m = (leaving k false, m)
move wanted (looked k false) m = (leaving k true, record m { keys = k ∷ m.keys })
move wanted (leaving k true) m = unlock (owning k) m
move wanted (leaving k false) m = unlock idle m
move wanted (owning k) m = (returning k, m)
move wanted (returning k) m = test_and_set m.flag (returning k) (erasing k) m
move wanted (erasing k) m = (left, record m { keys = erase k m.keys })
move wanted left m = unlock idle m

-- The threads, by number.
pub record System : Type 0 where
  pub mem : Shard
  pub pc : ℕ → Pc

abbrev pub placed : (ℕ → Pc) → ℕ → Pc → ℕ → Pc
placed pc i p j = if j == i then p else pc j

unfoldable pub step : ℕ → ℕ → System → System
step i wanted s =
    let (p, m) = move wanted (s.pc i) s.mem in record { mem = m; pc = placed s.pc i p }

-- A schedule: which thread moves next, and the key that it wants if it is idle.
unfoldable pub run : List (ℕ × ℕ) → System → System
run [] s = s
run ((i, wanted) ∷ rest) s = run rest (step i wanted s)

abbrev pub quiet : System
quiet = record { mem = record { flag = false; keys = [] }; pc = λ i. idle }

-- Between `lock` and `unlock`.
abbrev pub critical : Pc → Bool
critical (inside k) = true
critical (looked k seen) = true
critical (leaving k got) = true
critical (erasing k) = true
critical left = true
critical _ = false

-- The thread has put the key into the set, and not yet taken it out.
abbrev pub owns : Pc → ℕ → Bool
owns (leaving k true) j = j == k
owns (owning k) j = j == k
owns (returning k) j = j == k
owns (erasing k) j = j == k
owns _ j = false
