-- ===== src/Redis/Counters.antt =====
-- The counter with an expiry of the Lua scripts in src/service: `INCR`, and `EXPIRE` after the first.
use seckill_cpp.Base.{
  ℕ, zero, suc, ◌+◌, ◌-◌, ◌<◌, ◌≤◌, Option, none, some, Bytes, if◌then◌else◌, ◌==◌, ◌≡◌, refl, ◌∙◌,
  sym, ap, arith, str_eq_refl, subst, false,
}
use seckill_cpp.Base.Int.{pos}
use seckill_cpp.Redis.{Redis, IsRedis, Item, count, aged, IsCounter, expired, left_of, count_of}

expired_pos :
    (w : ℕ) (i : Item) → 0 < w → expired (pos w) (some i) ≡ some (record i { left = some w })
expired_pos zero i h = absurd (omega arith)
expired_pos (suc w) i h = refl

-- The counter at `n`, with the seconds that are left of its window.
abbrev pub counted : ℕ → ℕ → Option Item
counted zero left = none
counted (suc n) left = some (record { value = count (suc n); left = some left })

pub counted-IsCounter : (n left : ℕ) → IsCounter (counted n left)
counted-IsCounter zero left = tt
counted-IsCounter (suc n) left = tt

pub count_of-counted : (n left : ℕ) → count_of (counted n left) ≡ n
count_of-counted zero left = refl
count_of-counted (suc n) left = refl

-- The first count opens the window.
abbrev pub opened : ℕ → ℕ → ℕ → ℕ
opened zero left window = window
opened (suc n) left window = left

pub opened_self : (n window : ℕ) → opened n window window ≡ window
opened_self zero window = refl
opened_self (suc n) window = refl

pub still_open : (n left e window : ℕ) → window ≤ left + e → window ≤ opened n left window + e
still_open zero left e window h = omega arith
still_open (suc n) left e window h = h

pub aged_counted :
    (n left passed : ℕ) → passed < left → aged passed (counted n left) ≡ counted n (left - passed)
aged_counted zero left passed h = refl
aged_counted (suc n) left passed h = ground arith

module _ {R : Redis} (law : IsRedis R) (key : Bytes) (window : ℕ) (window_pos : 0 < window) where
  incremented :
      (s : R.Store) (n left : ℕ)
      → R.keys s key ≡ counted n left
      → ((R.incr s key).0 ≡ suc n)
        × (R.keys (R.incr s key).1 key
            ≡ some (record { value = count (suc n); left = left_of (counted n left) }))
  incremented s n left e =
      let c = subst IsCounter (sym e) (counted-IsCounter n left) in
      (
        law.incr_count s key c ∙ ap (λ i. count_of i + 1) e ∙ next n,
        rw (law.incr_law s key c, str_eq_refl key, e, next n),
      )
    where
      next : (n : ℕ) → count_of (counted n left) + 1 ≡ suc n
      next zero = refl
      next (suc n) = omega arith

  -- The part of the scripts that counts.
  abbrev pub bumped : R.Store → R.Store
  bumped s = let (n, s1) = R.incr s key in if n == 1 then R.expire s1 key (pos window) else s1

  pub keys-bumped :
      (s : R.Store) (n left : ℕ)
      → R.keys s key ≡ counted n left
      → R.keys (bumped s) key ≡ counted (suc n) (opened n left window)
  keys-bumped s zero left e =
      let (n, k) = incremented s zero left e in
      rw (n, law.expire_law, str_eq_refl key, k) (expired_pos window _ window_pos)
  keys-bumped s (suc n) left e =
      let (m, k) = incremented s (suc n) left e in
      let later : (suc (suc n) == 1) ≡ false = ground arith in rw (m, later) k
