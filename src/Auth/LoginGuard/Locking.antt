-- ===== src/Auth/LoginGuard/Locking.antt =====
-- The login guard against a count and a lock: what each call answers, and how it moves the two.
use seckill_cpp.Base.{
  ℕ, zero, suc, ◌+◌, ◌<◌, false, Option, none, some, Bytes, lit, str_eq, if◌then◌else◌, ◌==◌, leb,
  ◌≡◌, refl, ◌∙◌, sym, ap, inl, inr, arith, Bool-cases,
}
use seckill_cpp.Base.Int.{pos}
use seckill_cpp.Redis.{
  Redis, IsRedis, Item, text, count, count_of, IsCounter, Keys, put_self, put_ne, expired, answered,
}
use seckill_cpp.Auth.LoginGuard.{
  LoginGuard, FailResult, counting, locked_now, already_locked, fail_key, lock_key, fail_result,
  on_failure,
}

-- A phone as the guard sees it: the seconds that its lock has left, if there is one, and the
-- wrong passwords counted.
pub record Status : Type 0 where
  pub lock : Option ℕ
  pub fails : ℕ

-- What one more wrong password means.
unfoldable pub failed : LoginGuard → Status → FailResult × Status
failed g t = elim t.lock [
  | some n ↦ (record { kind = already_locked; fail_count = pos 0; lock_seconds = pos n }, t)
  | none ↦
      if leb g.max_fail (t.fails + 1)
      then (
        record { kind = locked_now; fail_count = pos 0; lock_seconds = pos g.lock_seconds },
        record { lock = some g.lock_seconds; fails = 0 },
      )
      else (
        record { kind = counting; fail_count = pos (t.fails + 1); lock_seconds = pos 0 },
        record { lock = none; fails = t.fails + 1 },
      )
]

abbrev pub LockItem : Option ℕ → Option Item → Type 0
LockItem none i = i ≡ none
LockItem (some n) i = i ≡ some (record { value = text (lit "1"); left = some n })

-- The two keys of a phone stand for a status.
pub record Shows (phone : Bytes) (m : Keys) (t : Status) : Type 0 where
  pub lock : LockItem t.lock (m (lock_key phone))
  pub counter : IsCounter (m (fail_key phone))
  pub fails : count_of (m (fail_key phone)) ≡ t.fails

lock-fail : (phone : Bytes) → str_eq (lock_key phone) (fail_key phone) ≡ false
unfolding lock_key fail_key str_eq
lock-fail phone = refl

fail-lock : (phone : Bytes) → str_eq (fail_key phone) (lock_key phone) ≡ false
unfolding lock_key fail_key str_eq
fail-lock phone = refl

-- A new expiry leaves the count alone.
expired_count :
    (n k : ℕ) (l : Option ℕ)
    → 0 < n
    → (count_of (expired (pos n) (some (record { value = count k; left = l }))) ≡ k)
      × IsCounter (expired (pos n) (some (record { value = count k; left = l })))
expired_count zero k l h = absurd (omega arith)
expired_count (suc n) k l h = (refl, tt)

module _ {R : Redis} (law : IsRedis R) (g : LoginGuard) (seconds_pos : 0 < g.lock_seconds)
    (phone : Bytes) where
  open law use {exists_law, ttl_law, incr_count, incr_law, expire_law, setex_law, del_law}

  abbrev lk : Bytes
  lk = lock_key phone

  abbrev fk : Bytes
  fk = fail_key phone

  -- The counter after `INCR` and the first `EXPIRE`.
  abbrev pub bumped : R.Store → R.Store
  bumped s = let (n, s1) = R.incr s fk in if n == 1 then R.expire s1 fk (pos g.lock_seconds) else s1

  bumped_fail :
      (s : R.Store)
      → IsCounter (R.keys s fk)
      → (count_of (R.keys (bumped s) fk) ≡ count_of (R.keys s fk) + 1)
        × IsCounter (R.keys (bumped s) fk)
  bumped_fail s c = elim (Bool-cases ((R.incr s fk).0 == 1)) [
    | inl first ↦
        rw
          (
            first,
            expire_law (R.incr s fk).1 fk (pos g.lock_seconds),
            put_self fk,
            incr_law s fk c,
            put_self fk,
          )
          (expired_count _ _ _ seconds_pos)
    | inr later ↦ rw (later, incr_law s fk c, put_self fk) (refl, tt)
  ]

  pub bumped_lock : (s : R.Store) → IsCounter (R.keys s fk) → R.keys (bumped s) lk ≡ R.keys s lk
  bumped_lock s c = elim (Bool-cases ((R.incr s fk).0 == 1)) [
    | inl first ↦ rw (
      first,
      expire_law (R.incr s fk).1 fk (pos g.lock_seconds),
      incr_law s fk c,
      lock-fail phone,
    )
    | inr later ↦ rw (later, incr_law s fk c, lock-fail phone)
  ]

  pub on_failure_locked :
      (s : R.Store) (n : ℕ)
      → R.keys s lk ≡ some (record { value = text (lit "1"); left = some n })
      → on_failure R g answered phone s
        ≡ (record { kind = already_locked; fail_count = pos 0; lock_seconds = pos n }, s)
  unfolding on_failure fail_result
  on_failure_locked s n e = rw (exists_law s lk, ttl_law s lk, e)

  pub on_failure_open :
      (s : R.Store)
      → R.keys s lk ≡ none
      → IsCounter (R.keys s fk)
      → on_failure R g answered phone s ≡ (
          if leb g.max_fail (count_of (R.keys s fk) + 1)
          then (
            record { kind = locked_now; fail_count = pos 0; lock_seconds = pos g.lock_seconds },
            R.del (R.setex (bumped s) lk g.lock_seconds (lit "1")) fk,
          )
          else (
            record {
              kind = counting;
              fail_count = pos (count_of (R.keys s fk) + 1);
              lock_seconds = pos 0;
            },
            bumped s,
          ))
  unfolding on_failure fail_result
  on_failure_open s e c = elim (Bool-cases (leb g.max_fail (count_of (R.keys s fk) + 1))) [
    | inl full ↦ rw (exists_law s lk, e, incr_count s fk c, full)
    | inr below ↦ rw (exists_law s lk, e, incr_count s fk c, below)
  ]

  pub locking_Shows :
      (s : R.Store) (fails : ℕ)
      → fails ≡ 0
      → Shows phone
          (R.keys (R.del (R.setex s lk g.lock_seconds (lit "1")) fk))
          (record { lock = some g.lock_seconds; fails = fails })
  locking_Shows s fails z = record {
    lock = rw (
      del_law,
      put_ne fk lk none (R.keys (R.setex s lk g.lock_seconds (lit "1"))) (lock-fail phone),
      setex_law s lk g.lock_seconds (lit "1") seconds_pos,
      put_self lk,
    );
    counter = rw (del_law, put_self fk) tt;
    fails = rw (del_law, put_self fk) (sym z);
  }

  counting_Shows :
      (s : R.Store) (fails : ℕ)
      → R.keys s lk ≡ none
      → IsCounter (R.keys s fk)
      → count_of (R.keys s fk) + 1 ≡ fails
      → Shows phone (R.keys (bumped s)) (record { lock = none; fails = fails })
  counting_Shows s fails e c n = record {
    lock = bumped_lock s c ∙ e;
    counter = (bumped_fail s c).1;
    fails = (bumped_fail s c).0 ∙ n;
  }

  -- For a lock time that is not 0 and a store that shows a status: one more wrong password answers
  -- as the status says, and leaves a store that shows the next status. A locked phone stays as it
  -- is; at the limit the count goes and the lock comes; below it the count grows.
  pub on_failure_refines :
      (s : R.Store) (t : Status)
      → Shows phone (R.keys s) t
      → ((on_failure R g answered phone s).0 ≡ (failed g t).0)
        × Shows phone (R.keys (on_failure R g answered phone s).1) (failed g t).1
  unfolding failed
  on_failure_refines s t v = at t.lock refl v.lock
    where
      at :
          (l : Option ℕ)
          → t.lock ≡ l
          → LockItem l (R.keys s lk)
          → ((on_failure R g answered phone s).0 ≡ (failed g t).0)
            × Shows phone (R.keys (on_failure R g answered phone s).1) (failed g t).1
      at (some n) e i = rw (on_failure_locked s n i, e, failed) (refl, v)
      at none e i = elim (Bool-cases (leb g.max_fail (t.fails + 1))) [
        | inl full ↦
            rw (on_failure_open s i v.counter, v.fails, e, failed, full)
              (refl, locking_Shows (bumped s) 0 refl)
        | inr below ↦
            rw (on_failure_open s i v.counter, v.fails, e, failed, below)
              (refl, counting_Shows s (t.fails + 1) i v.counter (ap (λ (n : ℕ). n + 1) v.fails))
      ]
