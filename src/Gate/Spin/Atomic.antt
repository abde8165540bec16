-- ===== src/Gate/Spin/Atomic.antt =====
-- InflightGuard.h: behind the spin lock, each `insert` and `erase` of a shard is one step.
use seckill_cpp.Base.{
  ℕ, Bool, true, false, ◌&&◌, bool_eq, List, [], ◌∷◌, ◌++◌, ◌≡◌, refl, ◌∙◌, sym, ap,
}
use seckill_cpp.Gate.{insert, erase}
use seckill_cpp.Gate.Spin.{
  Shard, Pc, idle, locking, inside, looked, leaving, owning, returning, erasing, left, test_and_set,
  unlock, move, System, step, run, quiet,
}
use seckill_cpp.Gate.Spin.Moves.{Fresh}
use seckill_cpp.Gate.Spin.Safety.{Inv, step-Inv, quiet-Inv}

-- An insertion with its result, or an erasure.
pub data Call : Type 0 where
  inserted : ℕ → Bool → Call
  erased : ℕ → Call

-- Whether a thread at this point has a token after its next step.
abbrev pub is_owning : Pc → Bool
is_owning (owning k) = true
is_owning _ = false

unfoldable pub gets : Pc → Shard → Bool
gets p m = is_owning (move 0 p m).0

-- The call that takes effect in a step of a thread, for where the thread and the shard are after
-- it. An insertion has the result that the thread gets: a token or none, once it has unlocked.
unfoldable pub effect : Pc → Pc × Shard → List Call
effect (looked k seen) (p, m) = inserted k (gets p m) ∷ []
effect (erasing k) after = erased k ∷ []
effect _ after = []

-- The calls of a schedule, in the order in which they take effect.
unfoldable pub calls : List (ℕ × ℕ) → System → List Call
calls [] s = []
calls ((i, w) ∷ rest) s = effect (s.pc i) (move w (s.pc i) s.mem) ++ calls rest (step i w s)

-- The calls one after another, as the gate's `insert` and `erase`: whether each had its result, and
-- the set after them.
unfoldable pub atomic : List Call → List ℕ → Bool × List ℕ
atomic [] keys = (true, keys)
atomic (inserted k got ∷ cs) keys =
    let (b, keys') = insert k keys in
    let (same, last) = atomic cs keys' in (bool_eq b got && same, last)
atomic (erased k ∷ cs) keys = atomic cs (erase k keys)

grab-keys :
    (flag : Bool) (wait next : Pc) (m : Shard) → (test_and_set flag wait next m).1.keys ≡ m.keys
unfolding test_and_set
grab-keys true wait next m = refl
grab-keys false wait next m = refl

atomic-move :
    (w : ℕ) (p : Pc) (m : Shard) (rest : List Call)
    → Fresh p m
    → atomic (effect p (move w p m) ++ rest) m.keys ≡ atomic rest (move w p m).1.keys
unfolding effect gets atomic move unlock insert
atomic-move w idle m rest h = refl
atomic-move w (locking k) m rest h =
    ap (atomic rest) (sym (grab-keys m.flag (locking k) (inside k) m))
atomic-move w (inside k) m rest h = refl
atomic-move w (looked k true) m rest h = rw h
atomic-move w (looked k false) m rest h = rw h
atomic-move w (leaving k true) m rest h = refl
atomic-move w (leaving k false) m rest h = refl
atomic-move w (owning k) m rest h = refl
atomic-move w (returning k) m rest h =
    ap (atomic rest) (sym (grab-keys m.flag (returning k) (erasing k) m))
atomic-move w (erasing k) m rest h = refl
atomic-move w left m rest h = refl

atomic-calls :
    (schedule : List (ℕ × ℕ)) (s : System)
    → Inv s
    → atomic (calls schedule s) s.mem.keys ≡ (true, (run schedule s).mem.keys)
unfolding calls run atomic step
atomic-calls [] s v = refl
atomic-calls ((i, w) ∷ rest) s v =
    atomic-move w (s.pc i) s.mem (calls rest (step i w s)) (v.solo i).fresh
    ∙ atomic-calls rest (step i w s) (step-Inv i w s v)

-- However the threads interleave, an access to the memory at a time: in the order in which the
-- calls take effect, a thread gets a token exactly if the gate's atomic `insert` takes its key, and
-- these insertions and the gate's `erase` lead to the same set.
pub atomic-run :
    (schedule : List (ℕ × ℕ))
    → atomic (calls schedule quiet) [] ≡ (true, (run schedule quiet).mem.keys)
atomic-run schedule = atomic-calls schedule quiet quiet-Inv
