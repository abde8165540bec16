-- ===== src/Auth/LoginGuard/Overlap.antt =====
-- LoginGuard.cc: logins to one phone that overlap. A login asks `checkLocked` when it arrives, and a
-- wrong password is told to `onFailure` only after the hash, so others may arrive in between.
use seckill_cpp.Base.{
  ℕ, suc, ◌+◌, ◌-◌, ◌<◌, ◌≤◌, Bool, true, false, not, Option, none, some, Bytes, lit, ltb, leb, ◌≡◌,
  refl, ◌∙◌, sym, ap, subst, arith, List, ◌++◌, inl, inr, Bool-cases,
}
use seckill_cpp.Base.Int.{ℤ}
use seckill_cpp.Redis.{Redis, IsRedis, answered, text, aged, Item, IsCounter, count_of}
use seckill_cpp.Redis.Counters.{
  counted, opened, still_open, aged_counted, counted-IsCounter, count_of-counted, keys-bumped,
}
use seckill_cpp.Auth.Overlap.{
  Event, arrive, counts, Guarded, idle, duration, repeated, run, Counts, counted_bounded,
}
use seckill_cpp.Auth.LoginGuard.{
  LoginGuard, lock_key, fail_key, check_locked, check_script, on_failure,
}
use seckill_cpp.Auth.LoginGuard.Locking.{
  bumped, bumped_lock, on_failure_locked, on_failure_open, locking_Shows,
}
use seckill_cpp.Auth.LoginGuard.Window.{check_open, check_closed}

-- `login` goes on to the password if the phone is not locked.
abbrev pub goes_on : {S : Type 0} → (Bool × ℤ) × S → Bool × S
goes_on ((locked, remaining), s) = (not locked, s)

-- The guard for one phone: `counts` is the end of a login with a wrong password.
abbrev pub per_phone : (R : Redis) → LoginGuard → Bytes → Guarded
per_phone R g phone = record {
  Store = R.Store;
  asks = λ s. goes_on (check_locked R answered phone s);
  marks = λ s. (on_failure R g answered phone s).1;
  waits = R.elapse;
}

module _ {R : Redis} (law : IsRedis R) (g : LoginGuard) (seconds_pos : 0 < g.lock_seconds)
    (phone : Bytes) where
  -- Below the limit the wrong passwords are counted, and no lock is there. From the limit on the
  -- phone is locked. Either lasts for what is left of the lock time at least.
  data Guards (elapsed n : ℕ) (s : R.Store) : Type 0 where
    open_at :
        (left : ℕ)
        → n < g.max_fail
        → R.keys s (lock_key phone) ≡ none
        → R.keys s (fail_key phone) ≡ counted n left
        → g.lock_seconds ≤ left + elapsed
        → Guards elapsed n s
    locked_at :
        (left : ℕ)
        → g.max_fail ≤ n
        → R.keys s (lock_key phone) ≡ some (record { value = text (lit "1"); left = some left })
        → g.lock_seconds ≤ left + elapsed
        → Guards elapsed n s

  asked_login :
      (e n : ℕ) (s : R.Store)
      → e < g.lock_seconds
      → Guards e n s
      → goes_on (check_locked R answered phone s) ≡ (ltb n g.max_fail, s)
  unfolding check_locked check_script
  asked_login e n s h (open_at left below lock fails lasts) =
      let free : ltb n g.max_fail ≡ true = ground arith in
      rw free (ap (λ (r : Bool × ℤ). (not r.0, s)) (check_open law g seconds_pos phone s lock))
  asked_login e n s h (locked_at left full lock lasts) =
      let shut : ltb n g.max_fail ≡ false = ground arith in
      rw shut (
        ap (λ (r : Bool × ℤ). (not r.0, s))
          (check_closed law g seconds_pos phone s left (omega arith) lock))

  is_counter : (n left : ℕ) (i : Option Item) → i ≡ counted n left → IsCounter i
  is_counter n left i e = subst IsCounter (sym e) (counted-IsCounter n left)

  marked_login :
      (e n : ℕ) (s : R.Store)
      → e < g.lock_seconds
      → Guards e n s
      → Guards e (n + 1) (on_failure R g answered phone s).1
  marked_login e n s h (open_at left below lock fails lasts) =
      let c = is_counter n left _ fails in
      let at : count_of (R.keys s (fail_key phone)) ≡ n =
        ap count_of fails ∙ count_of-counted n left in
      elim (Bool-cases (leb g.max_fail (n + 1))) [
        | inl full ↦
            rw (on_failure_open law g seconds_pos phone s lock c, at, full)
              (locked_at g.lock_seconds (ground arith)
                (locking_Shows law g seconds_pos phone (bumped law g seconds_pos phone s) 0
                  refl).lock
                (omega arith))
        | inr room ↦
            rw (on_failure_open law g seconds_pos phone s lock c, at, room)
              (open_at (opened n left g.lock_seconds) (ground arith)
                (bumped_lock law g seconds_pos phone s c ∙ lock)
                (keys-bumped law (fail_key phone) g.lock_seconds seconds_pos s n left fails
                  ∙ ap (λ m. counted m (opened n left g.lock_seconds))
                      (let e1 : suc n ≡ n + 1 = omega arith in e1))
                (still_open n left e g.lock_seconds lasts))
      ]
  marked_login e n s h (locked_at left full lock lasts) =
      rw (on_failure_locked law g seconds_pos phone s left lock)
        (locked_at left (omega arith) lock lasts)

  waited_login :
      (m e n : ℕ) (s : R.Store)
      → m + e < g.lock_seconds
      → Guards e n s
      → Guards (m + e) n (R.elapse m s)
  waited_login m e n s h (open_at left below lock fails lasts) =
      open_at (left - m) below (law.elapse_law m s (lock_key phone) ∙ ap (aged m) lock)
        (law.elapse_law m s (fail_key phone)
          ∙ ap (aged m) fails
          ∙ aged_counted n left m (omega arith))
        (omega arith)
  waited_login m e n s h (locked_at left full lock lasts) =
      let soon : ltb m left ≡ true = ground arith in
      locked_at (left - m) full
        (law.elapse_law m s (lock_key phone) ∙ ap (aged m) lock ∙ rw soon refl) (omega arith)

  login_Counts : Counts (per_phone R g phone) g.max_fail g.lock_seconds Guards
  login_Counts = record { asked = asked_login; marked = marked_login; waited = waited_login }

  -- For a phone with no lock and no wrong password counted, a limit and a lock time of at least 1,
  -- and logins none of which succeeds: while the events take less than the lock time, fewer
  -- passwords are tried than the limit and the largest number of logins in flight at once
  -- together. But `n` logins that all arrive before the first of them is known to be wrong all try
  -- their password, however small the limit is.
  pub tries_bounded :
      (s : R.Store) (es : List Event) (n : ℕ)
      → 0 < g.max_fail
      → R.keys s (lock_key phone) ≡ none
      → R.keys s (fail_key phone) ≡ none
      → duration es < g.lock_seconds
      → ((run (per_phone R g phone) es (idle s)).counted
          < g.max_fail + (run (per_phone R g phone) es (idle s)).peak)
        × ((run (per_phone R g phone) (repeated arrive n ++ repeated counts n) (idle s)).counted
            ≡ n)
  tries_bounded s es n limit_pos lock fails h =
      counted_bounded login_Counts limit_pos s es n
        (open_at g.lock_seconds limit_pos lock fails (omega arith)) h
