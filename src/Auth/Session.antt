-- ===== src/Auth/Session.antt =====
-- src/service/SessionStore.h and SessionStore.cc: a session is a Redis key that expires.
use seckill_cpp.Base.{ℕ, Bool, true, false, Option, none, some, Bytes, lit, ◌++◌}
use seckill_cpp.Base.Int.{ℤ}
use seckill_cpp.Base.Decimal.{to_string}
use seckill_cpp.Redis.{Redis, Link, exec}

unfoldable pub session_key : Bytes → Bytes
session_key jti = lit "sess:" ++ jti

-- The callbacks of the three commands: an exception refuses.
unfoldable pub saved : Option (Unit {0}) → Bool
saved (some r) = true
saved none = false

unfoldable pub holds : Option Bool → Bool
holds (some b) = b
holds none = false

module _ (R : Redis) where
  unfoldable pub save : ℕ → Link → Bytes → ℤ → R.Store → Bool × R.Store
  save ttl link jti user s =
      let (r, s') = exec link (λ t. (tt, R.setex t (session_key jti) ttl (to_string user))) s in
      (saved r, s')

  unfoldable pub session_exists : Link → Bytes → R.Store → Bool × R.Store
  session_exists link jti s =
      let (r, s') = exec link (λ t. (R.exists t (session_key jti), t)) s in (holds r, s')

  -- `DEL` answers how many keys went.
  unfoldable pub revoke : Link → Bytes → R.Store → Bool × R.Store
  revoke link jti s =
      let (r, s') = exec link (λ t. (R.exists t (session_key jti), R.del t (session_key jti))) s in
      (holds r, s')
