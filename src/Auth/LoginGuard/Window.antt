-- ===== src/Auth/LoginGuard/Window.antt =====
-- Wrong passwords in a row, the lock that they lead to, and its end.
use seckill_cpp.Base.{
  ℕ, zero, suc, ◌-◌, ◌≤◌, ◌<◌, true, false, none, some, Bytes, lit, if◌then◌else◌, ltb, ltb→lt, ◌≡◌,
  refl, ◌∙◌, subst, inl, inr, arith, Bool-cases,
}
use seckill_cpp.Base.Int.{pos}
use seckill_cpp.Redis.{Redis, IsRedis, text, answered, unreachable}
use seckill_cpp.Auth.LoginGuard.{LoginGuard, lock_key, on_failure, check_locked, check_result}
use seckill_cpp.Auth.LoginGuard.Locking.{Shows, failed, on_failure_refines}

module _ (R : Redis) (g : LoginGuard) (phone : Bytes) where
  -- `n` wrong passwords in a row.
  unfoldable pub failures : ℕ → R.Store → R.Store
  failures zero s = s
  failures (suc n) s = (on_failure R g answered phone (failures n s)).1

module _ {R : Redis} (law : IsRedis R) (g : LoginGuard) (seconds_pos : 0 < g.lock_seconds)
    (phone : Bytes) where
  counts :
      (n : ℕ)
      → suc n < g.max_fail
      → (failed g (record { lock = none; fails = n })).1 ≡ record { lock = none; fails = suc n }
  unfolding failed
  counts n h = ground arith

  locks :
      (n : ℕ)
      → g.max_fail ≡ suc n
      → (failed g (record { lock = none; fails = n })).1
        ≡ record { lock = some g.lock_seconds; fails = 0 }
  unfolding failed
  locks n h = ground arith

  counted_below :
      (n : ℕ) (s : R.Store)
      → Shows phone (R.keys s) (record { lock = none; fails = 0 })
      → n < g.max_fail
      → Shows phone (R.keys (failures R g phone n s)) (record { lock = none; fails = n })
  unfolding failures
  counted_below zero s v h = v
  counted_below (suc n) s v h =
      let shown = counted_below n s v (omega arith) in
      subst (λ t. Shows phone (R.keys (failures R g phone (suc n) s)) t) (counts n h)
        (on_failure_refines law g seconds_pos phone (failures R g phone n s) _ shown).1

  at_limit :
      (n : ℕ) (s : R.Store)
      → Shows phone (R.keys s) (record { lock = none; fails = 0 })
      → g.max_fail ≡ suc n
      → Shows phone
          (R.keys (failures R g phone (suc n) s))
          (record { lock = some g.lock_seconds; fails = 0 })
  unfolding failures
  at_limit n s v h =
      subst (λ t. Shows phone (R.keys (failures R g phone (suc n) s)) t) (locks n h)
        (on_failure_refines law g seconds_pos phone (failures R g phone n s) _
          (counted_below n s v (omega arith))).1

  pub check_open :
      (s : R.Store)
      → R.keys s (lock_key phone) ≡ none
      → (check_locked R answered phone s).0 ≡ (false, pos 0)
  unfolding check_locked check_result
  check_open s e = rw (law.exists_law, e)

  pub check_closed :
      (s : R.Store) (n : ℕ)
      → 0 < n
      → R.keys s (lock_key phone) ≡ some (record { value = text (lit "1"); left = some n })
      → (check_locked R answered phone s).0 ≡ (true, pos n)
  unfolding check_locked check_result
  check_closed s zero h e = absurd (omega arith)
  check_closed s (suc n) h e = rw (law.exists_law, law.ttl_law, e)

  -- For a phone with no lock and no wrong password counted, a limit of at least 1 and a lock time
  -- of at least 1: fewer wrong passwords in a row than the limit leave it open. As many as the
  -- limit lock it, with the rest of the lock time as the answer, until the lock time is over, and
  -- from then on it is open.
  pub lock_window :
      (s : R.Store) (limit after : ℕ)
      → Shows phone (R.keys s) (record { lock = none; fails = 0 })
      → g.max_fail ≡ suc limit
      → ((n : ℕ)
          → n ≤ limit
          → (check_locked R answered phone (failures R g phone n s)).0 ≡ (false, pos 0))
        × ((check_locked R answered phone (R.elapse after (failures R g phone (suc limit) s))).0 ≡ (
            if ltb after g.lock_seconds
            then (true, pos (g.lock_seconds - after))
            else (false, pos 0)))
  lock_window s limit after v e = (
    λ n h. check_open (failures R g phone n s) (counted_below n s v (omega arith)).lock,
    elim (Bool-cases (ltb after g.lock_seconds)) [
      | inl soon ↦ rw soon (
          check_closed _ (g.lock_seconds - after) (omega (arith, ltb→lt after g.lock_seconds soon))
            (law.elapse_law _ _ _ ∙ rw ((at_limit limit s v e).lock, soon)))
      | inr late ↦
          rw late (check_open _ (law.elapse_law _ _ _ ∙ rw ((at_limit limit s v e).lock, late)))
    ],
  )

  -- A guard whose Redis does not answer lets the phone through.
  pub check_fails_open : (s : R.Store) → check_locked R unreachable phone s ≡ ((false, pos 0), s)
  unfolding check_locked check_result
  check_fails_open s = refl
