-- ===== src/Auth/RegisterGuard/Overlap.antt =====
-- RegisterGuard.cc: registrations of one address that overlap. A registration asks `check` when it
-- arrives, and calls `markSuccess` only when it has succeeded, so others may arrive in between.
use seckill_cpp.Base.{
  ℕ, suc, ◌+◌, ◌-◌, ◌<◌, ◌≤◌, Bool, none, Bytes, ◌≡◌, ◌∙◌, ap, arith, List, ◌++◌,
}
use seckill_cpp.Redis.{Redis, IsRedis, answered, value_of, aged}
use seckill_cpp.Redis.Counters.{counted, opened, still_open, aged_counted}
use seckill_cpp.Auth.Overlap.{
  Event, arrive, counts, Guarded, idle, duration, repeated, run, Counts, counted_bounded,
}
use seckill_cpp.Auth.RegisterGuard.{RegisterGuard, ip_key, check, check_script, mark_success}
use seckill_cpp.Auth.RegisterGuard.Window.{marked, checked}

-- The guard for one address: `counts` is the end of a registration that succeeded.
abbrev pub per_address : (R : Redis) → RegisterGuard → Bytes → Guarded
per_address R g ip = record {
  Store = R.Store;
  asks = check R g answered ip;
  marks = mark_success R g answered ip;
  waits = R.elapse;
}

module _ {R : Redis} (law : IsRedis R) (g : RegisterGuard) (window_pos : 0 < g.window_seconds)
    (limit_pos : 0 < g.max_per_ip) (ip : Bytes) where
  -- `elapsed` seconds after the start, the window is open for what is left of it at least.
  record Open (elapsed n : ℕ) (s : R.Store) : Type 0 where
    left : ℕ
    key : R.keys s (ip_key ip) ≡ counted n left
    open_for : g.window_seconds ≤ left + elapsed

  register_Counts : Counts (per_address R g ip) g.max_per_ip g.window_seconds Open
  unfolding check check_script
  register_Counts = record {
    asked = λ e n s h v.
        ap (λ (b : Bool). (b, s))
          (checked law g window_pos ip s n v.left limit_pos (ap value_of v.key));
    marked = λ e n s h v. record {
      left = opened n v.left g.window_seconds;
      key =
          marked law g window_pos ip s n v.left v.key
          ∙ ap (λ m. counted m (opened n v.left g.window_seconds))
              (let e1 : suc n ≡ n + 1 = omega arith in e1);
      open_for = still_open n v.left e g.window_seconds v.open_for;
    };
    waited = λ m e n s h v. record {
      left = v.left - m;
      key =
          law.elapse_law m s (ip_key ip)
          ∙ ap (aged m) v.key
          ∙ aged_counted n v.left m (omega (arith, v.open_for));
      open_for = omega (arith, v.open_for);
    };
  }

  -- For an address without a key, a limit and a window of at least 1: while the events take less
  -- than the window, fewer registrations succeed than the limit and the largest number in flight
  -- at once together. But `n` that all arrive before the first of them has succeeded are all let
  -- through, however small the limit is.
  pub registered_bounded :
      (s : R.Store) (es : List Event) (n : ℕ)
      → R.keys s (ip_key ip) ≡ none
      → duration es < g.window_seconds
      → ((run (per_address R g ip) es (idle s)).counted
          < g.max_per_ip + (run (per_address R g ip) es (idle s)).peak)
        × ((run (per_address R g ip) (repeated arrive n ++ repeated counts n) (idle s)).counted ≡ n)
  registered_bounded s es n k h =
      counted_bounded register_Counts limit_pos s es n
        (record { left = g.window_seconds; key = k; open_for = omega arith }) h
