-- ===== src/Auth/LoginGuard.antt =====
-- src/service/LoginGuard.h and LoginGuard.cc: wrong passwords are counted in Redis, and the phone
-- is locked for a while at the limit. The two Lua scripts run whole in the server.
pub mod Locking
pub mod Window
pub mod Overlap
mod Tests
use seckill_cpp.Base.{
  ℕ, zero, suc, Bool, true, false, Option, none, some, Bytes, lit, ◌++◌, if◌then◌else◌, ◌==◌, leb,
  List, [], ◌∷◌,
}
use seckill_cpp.Base.Int.{ℤ, pos, negsuc, int_eq}
use seckill_cpp.Redis.{Redis, Link, exec}

pub data Kind : Type 0 where
  counting locked_now already_locked : Kind

pub record FailResult : Type 0 where
  pub kind : Kind
  pub fail_count : ℤ
  pub lock_seconds : ℤ

-- The settings, which are not negative; the client behind `redis_` is the section's `R`.
pub record LoginGuard : Type 0 where
  pub max_fail : ℕ
  pub lock_seconds : ℕ

unfoldable pub fail_key : Bytes → Bytes
fail_key phone = lit "login:fail:" ++ phone

unfoldable pub lock_key : Bytes → Bytes
lock_key phone = lit "login:lock:" ++ phone

unfoldable pub is_positive : ℤ → Bool
is_positive (pos (suc n)) = true
is_positive _ = false

-- The answer callback of `onFailure`, on the script's array.
unfoldable pub fail_result : Option (List ℤ) → FailResult
fail_result (some (code ∷ secs ∷ rest)) =
    if int_eq code (negsuc 0)
    then record { kind = already_locked; fail_count = pos 0; lock_seconds = secs }
    else (if int_eq code (negsuc 1)
        then record { kind = locked_now; fail_count = pos 0; lock_seconds = secs }
        else record { kind = counting; fail_count = code; lock_seconds = pos 0 })
fail_result _ = record { kind = counting; fail_count = pos 1; lock_seconds = pos 0 }

-- The two callbacks of `checkLocked`: `(locked, remainSeconds)`.
unfoldable pub check_result : Option ℤ → Bool × ℤ
unfolding is_positive
check_result (some ttl) = (is_positive ttl, ttl)
check_result none = (false, pos 0)

module _ (R : Redis) where
  -- kOnFailureScript
  unfoldable pub on_failure_script : Bytes → Bytes → ℕ → ℕ → R.Store → List ℤ × R.Store
  on_failure_script lk fk max_fail seconds s =
      if R.exists s lk
      then (negsuc 0 ∷ R.ttl s lk ∷ [], s)
      else (let (n, s1) = R.incr s fk in
          let s2 : R.Store = if n == 1 then R.expire s1 fk (pos seconds) else s1 in
          if leb max_fail n
          then (negsuc 1 ∷ pos seconds ∷ [], R.del (R.setex s2 lk seconds (lit "1")) fk)
          else (pos n ∷ pos 0 ∷ [], s2))

  -- kCheckScript
  unfoldable pub check_script : Bytes → R.Store → ℤ × R.Store
  check_script lk s = (if R.exists s lk then R.ttl s lk else pos 0, s)

  unfoldable pub check_locked : Link → Bytes → R.Store → (Bool × ℤ) × R.Store
  unfolding check_script
  check_locked link phone s =
      let (r, s') = exec link (check_script (lock_key phone)) s in (check_result r, s')

  unfoldable pub on_failure : LoginGuard → Link → Bytes → R.Store → FailResult × R.Store
  unfolding on_failure_script
  on_failure g link phone s =
      let (r, s') =
        exec link (on_failure_script (lock_key phone) (fail_key phone) g.max_fail g.lock_seconds)
          s in
      (fail_result r, s')

  -- `onSuccess`: the callback runs either way.
  unfoldable pub on_success : Link → Bytes → R.Store → R.Store
  on_success link phone s = (exec link (λ s'. (tt, R.del s' (fail_key phone))) s).1
