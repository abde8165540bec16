-- ===== src/Gate/Tests.antt =====
-- Runs of the gate, and the theorems at concrete gates.
use seckill_cpp.Base.{ℕ, true, false, ◌≡◌, refl, arith, not, ◌||◌}
use seckill_cpp.Gate.{Guard, Mode, init, try_acquire}
use seckill_cpp.Gate.Laws.{init-IsValid, try_acquire_lem}
use seckill_cpp.Gate.Held.{held, clash, IsValid}

abbrev bitmap_gate : Guard
bitmap_gate = init Mode.atomic 64 128

abbrev mutex_gate : Guard
mutex_gate = init Mode.mutex 4 65536

bitmap_gate-IsValid : IsValid bitmap_gate
bitmap_gate-IsValid = init-IsValid Mode.atomic 64 128 (omega arith) (omega arith) (omega arith)

mutex_gate-IsValid : IsValid mutex_gate
mutex_gate-IsValid = init-IsValid Mode.mutex 4 65536 (omega arith) (omega arith) (omega arith)

-- Keys 3 and 131 share a bit of a bitmap of 128; a set tells them apart.
bitmap_clash : (try_acquire (try_acquire bitmap_gate 3).1 131).0 ≡ false
unfolding try_acquire init
bitmap_clash = refl

mutex_no_clash : (try_acquire (try_acquire mutex_gate 3).1 131).0 ≡ true
unfolding try_acquire init
mutex_no_clash = refl

mutex_duplicate : (try_acquire (try_acquire mutex_gate 3).1 3).0 ≡ false
unfolding try_acquire init
mutex_duplicate = refl

try_acquire_lem_example :
    ((try_acquire bitmap_gate 3).0 ≡ not (held bitmap_gate 3))
    × ((j : ℕ)
        → held (try_acquire bitmap_gate 3).1 j ≡ (clash bitmap_gate j 3 || held bitmap_gate j))
try_acquire_lem_example = try_acquire_lem bitmap_gate 3 bitmap_gate-IsValid
