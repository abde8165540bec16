-- ===== src/Auth/RegisterGuard/Window.antt =====
-- RegisterGuard.cc: how many registrations of an address the window lets through.
use seckill_cpp.Base.{
  ℕ, zero, suc, ◌<◌, true, false, none, Bytes, if◌then◌else◌, ltb, ◌≡◌, refl, ◌∙◌, ap, arith,
  Bool-cases, inl, inr,
}
use seckill_cpp.Redis.{Redis, IsRedis, answered, value_of, aged}
use seckill_cpp.Redis.Counters.{counted, opened, opened_self, keys-bumped}
use seckill_cpp.Auth.RegisterGuard.{
  RegisterGuard, ip_key, below_limit, allowed, check, check_script, mark_success, mark_script,
}

module _ (R : Redis) (g : RegisterGuard) (ip : Bytes) where
  -- `n` successful registrations.
  unfoldable pub marks : ℕ → R.Store → R.Store
  marks zero s = s
  marks (suc n) s = mark_success R g answered ip (marks n s)

module _ {R : Redis} (law : IsRedis R) (g : RegisterGuard) (window_pos : 0 < g.window_seconds)
    (ip : Bytes) where
  pub marked :
      (s : R.Store) (n left : ℕ)
      → R.keys s (ip_key ip) ≡ counted n left
      → R.keys (mark_success R g answered ip s) (ip_key ip)
        ≡ counted (suc n) (opened n left g.window_seconds)
  unfolding mark_success mark_script
  marked s n left e = keys-bumped law (ip_key ip) g.window_seconds window_pos s n left e

  marks_count :
      (n : ℕ) (s : R.Store)
      → R.keys s (ip_key ip) ≡ none
      → R.keys (marks R g ip n s) (ip_key ip) ≡ counted n g.window_seconds
  unfolding marks
  marks_count zero s e = e
  marks_count (suc n) s e =
      marked (marks R g ip n s) n g.window_seconds (marks_count n s e)
      ∙ ap (counted (suc n)) (opened_self n g.window_seconds)

  pub checked :
      (s : R.Store) (n left : ℕ)
      → 0 < g.max_per_ip
      → value_of (R.keys s (ip_key ip)) ≡ value_of (counted n left)
      → (check R g answered ip s).0 ≡ ltb n g.max_per_ip
  unfolding check check_script below_limit allowed
  checked s zero left h e = rw (law.get_law, e) (ground arith)
  checked s (suc n) left h e = rw (law.get_law, e) (ground arith)

  -- For an address without a key, a limit of at least 1 and a window of at least 1: after `n`
  -- successful registrations it is let through exactly if `n` is below the limit, until the window
  -- from the first of them is over; then it is let through.
  check-marks :
      (s : R.Store) (n after : ℕ)
      → R.keys s (ip_key ip) ≡ none
      → 0 < g.max_per_ip
      → (check R g answered ip (R.elapse after (marks R g ip n s))).0
        ≡ (if ltb after g.window_seconds then ltb n g.max_per_ip else true)
  check-marks s n after e h = elim (Bool-cases (ltb after g.window_seconds)) [
    | inl inside ↦ rw inside (
        checked _ n g.window_seconds h
          (rw (law.elapse_law, marks_count n s e) (still n after inside)))
    | inr over ↦ rw over (
        checked _ zero 0 h (rw (law.elapse_law, marks_count n s e) (gone n after over))
        ∙ ground arith)
  ]
    where
      still :
          (n after : ℕ)
          → ltb after g.window_seconds ≡ true
          → value_of (aged after (counted n g.window_seconds))
            ≡ value_of (counted n g.window_seconds)
      still zero after h = refl
      still (suc n) after h = rw h

      gone :
          (n after : ℕ)
          → ltb after g.window_seconds ≡ false
          → value_of (aged after (counted n g.window_seconds)) ≡ none
      gone zero after h = refl
      gone (suc n) after h = rw h
