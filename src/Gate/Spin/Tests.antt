-- ===== src/Gate/Spin/Tests.antt =====
-- InflightGuard.h: two threads on one shard, and the theorems on them.
use seckill_cpp.Base.{ℕ, true, false, not, ◌&&◌, ◌||◌, List, [], ◌∷◌, ◌≡◌, refl}
use seckill_cpp.Gate.{contains}
use seckill_cpp.Gate.Spin.{
  idle, owning, move, step, run, quiet, critical, owns, test_and_set, unlock,
}
use seckill_cpp.Gate.Spin.Safety.{run_exclusive}
use seckill_cpp.Gate.Spin.Atomic.{inserted, gets, effect, calls, atomic, atomic-run}

-- Both want the key 5. The second waits for the lock, and is turned away.
abbrev contended : List (ℕ × ℕ)
contended =
    (0, 5)
    ∷ (1, 5)
    ∷ (0, 0)
    ∷ (1, 0)
    ∷ (0, 0)
    ∷ (0, 0)
    ∷ (1, 0)
    ∷ (0, 0)
    ∷ (1, 0)
    ∷ (1, 0)
    ∷ (1, 0)
    ∷ (1, 0)
    ∷ []

turned_away :
    ((run contended quiet).pc 0 ≡ owning 5)
    × ((run contended quiet).pc 1 ≡ idle)
    × ((run contended quiet).mem.keys ≡ 5 ∷ [])
unfolding run step move test_and_set unlock contains
turned_away = (refl, refl, refl)

their_calls : calls contended quiet ≡ inserted 5 true ∷ inserted 5 false ∷ []
unfolding calls effect gets step move test_and_set unlock contains
their_calls = refl

run_exclusive_example :
    ((critical ((run contended quiet).pc 0) && critical ((run contended quiet).pc 1)) ≡ false)
    × ((owns ((run contended quiet).pc 0) 5 && owns ((run contended quiet).pc 1) 5) ≡ false)
    × ((not (owns ((run contended quiet).pc 0) 5) || contains 5 (run contended quiet).mem.keys)
        ≡ true)
run_exclusive_example = run_exclusive contended 0 1 5 refl

atomic-run_example : atomic (calls contended quiet) [] ≡ (true, (run contended quiet).mem.keys)
atomic-run_example = atomic-run contended
