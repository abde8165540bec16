-- ===== src/Auth/RegisterGuard.antt =====
-- src/service/RegisterGuard.h and RegisterGuard.cc: the successful registrations of an address in
-- a fixed window. The two Lua scripts run whole in the server.
pub mod Window
pub mod Overlap
use seckill_cpp.Base.{
  ℕ, ◌+◌, Bool, true, false, Option, none, some, Bytes, lit, ◌++◌, ltb, ◌==◌, if◌then◌else◌,
}
use seckill_cpp.Base.Int.{ℤ, pos}
use seckill_cpp.Redis.{Redis, Link, exec, Value, count_in}

pub record RegisterGuard : Type 0 where
  pub max_per_ip : ℕ
  pub window_seconds : ℕ

unfoldable pub ip_key : Bytes → Bytes
ip_key ip = lit "reg:ip:" ++ ip

unfoldable pub below_limit : ℕ → Option Value → ℕ
below_limit max_per_ip none = 1
below_limit max_per_ip (some n) = if ltb (count_in n) max_per_ip then 1 else 0

-- The callbacks of `check`: an exception lets the address through.
unfoldable pub allowed : Option ℕ → Bool
allowed (some n) = n == 1
allowed none = true

module _ (R : Redis) where
  -- kCheckScript
  unfoldable pub check_script : Bytes → ℕ → R.Store → ℕ × R.Store
  check_script key max_per_ip s = (below_limit max_per_ip (R.get s key), s)

  -- kMarkScript
  unfoldable pub mark_script : Bytes → ℕ → R.Store → ℕ × R.Store
  mark_script key window s =
      let (n, s1) = R.incr s key in (n, if n == 1 then R.expire s1 key (pos window) else s1)

  unfoldable pub check : RegisterGuard → Link → Bytes → R.Store → Bool × R.Store
  check g link ip s =
      let (r, s') = exec link (check_script (ip_key ip) g.max_per_ip) s in (allowed r, s')

  unfoldable pub mark_success : RegisterGuard → Link → Bytes → R.Store → R.Store
  mark_success g link ip s = (exec link (mark_script (ip_key ip) g.window_seconds) s).1
