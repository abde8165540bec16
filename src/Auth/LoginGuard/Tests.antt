-- ===== src/Auth/LoginGuard/Tests.antt =====
-- Runs of the login guard, and its theorems on a store.
use seckill_cpp.Base.{
  ℕ, ◌-◌, ◌≤◌, true, false, none, Bytes, lit, if◌then◌else◌, ltb, ◌≡◌, refl, arith, str_eq, ◌+◌,
  ◌<◌, ◌++◌, List, [], ◌∷◌,
}
use seckill_cpp.Base.Int.{pos}
use seckill_cpp.Redis.{answered}
use seckill_cpp.Redis.Model.{Plain, Plain-IsRedis, empty}
use seckill_cpp.Auth.LoginGuard.{
  LoginGuard, fail_key, lock_key, fail_result, on_failure, check_locked, locked_now,
}
use seckill_cpp.Auth.Overlap.{Guarded, Event, arrive, counts, leave, pass, run, repeated, idle}
use seckill_cpp.Auth.LoginGuard.Overlap.{per_phone, tries_bounded}
use seckill_cpp.Auth.LoginGuard.Locking.{Status, Shows, failed, on_failure_refines}
use seckill_cpp.Auth.LoginGuard.Window.{failures, lock_window}

abbrev guard : LoginGuard
guard = record { max_fail = 3; lock_seconds = 600 }

abbrev phone : Bytes
phone = lit "13800000000"

abbrev fresh : Status
fresh = record { lock = none; fails = 0 }

empty-Shows : Shows phone empty fresh
empty-Shows = record { lock = refl; counter = tt; fails = refl }

third_locks :
    (on_failure Plain guard answered phone (failures Plain guard phone 2 empty)).0
    ≡ record { kind = locked_now; fail_count = pos 0; lock_seconds = pos 600 }
unfolding on_failure failures str_eq fail_key lock_key fail_result
third_locks = refl

on_failure_refines_example :
    ((on_failure Plain guard answered phone empty).0 ≡ (failed guard fresh).0)
    × Shows phone (on_failure Plain guard answered phone empty).1 (failed guard fresh).1
on_failure_refines_example =
    on_failure_refines Plain-IsRedis guard (omega arith) phone empty fresh empty-Shows

lock_window_example :
    ((n : ℕ)
      → n ≤ 2
      → (check_locked Plain answered phone (failures Plain guard phone n empty)).0 ≡ (false, pos 0))
    × ((check_locked Plain answered phone
          (λ k. Plain.elapse 100 (failures Plain guard phone 3 empty) k)).0
        ≡ (if ltb 100 600 then (true, pos (600 - 100)) else (false, pos 0)))
lock_window_example =
    lock_window Plain-IsRedis guard (omega arith) phone empty 2 100 empty-Shows refl

abbrev rush : List Event
rush = arrive ∷ arrive ∷ counts ∷ pass 10 ∷ arrive ∷ leave ∷ counts ∷ []

abbrev at_phone : Guarded
at_phone = per_phone Plain guard phone

tries_bounded_example :
    ((run at_phone rush (idle empty)).counted < 3 + (run at_phone rush (idle empty)).peak)
    × ((run at_phone (repeated arrive 20 ++ repeated counts 20) (idle empty)).counted ≡ 20)
tries_bounded_example =
    tries_bounded Plain-IsRedis guard (omega arith) phone empty rush 20 (omega arith) refl refl
      (omega arith)
