-- ===== src/Wiring/Routes.antt =====
-- src/main.cc: the routes of the accounts and the codes, the warming of the cache, and the two
-- statistics.
use seckill_cpp.Base.Double.{Doubles}
use seckill_cpp.Base.{
  ℕ, zero, suc, ◌+◌, ◌%◌, ◌^◌, ltb, Bool, true, false, not, Option, none, some, Bytes, lit, ◌++◌,
  if◌then◌else◌, from_option,
}
use seckill_cpp.Base.Int.{ℤ, pos, negsuc}
use seckill_cpp.Json.{Json}
use seckill_cpp.Gate.{Guard}
use seckill_cpp.Redis.{Redis, Link}
use seckill_cpp.Cache.Keys.{list_key, item_key}
use seckill_cpp.Cache.SkuCache.{Local, SkuCache, CacheConfig, Stats}
use seckill_cpp.Products.{Catalog, Products, rebuild_bloom}
use seckill_cpp.Products.Warm.{warm_cache, BloomStats, bloom_stats}
use seckill_cpp.Auth.Account.{World, State}
use seckill_cpp.Http.{HttpResponse, Handled, answered, reply}
use seckill_cpp.Http.Account.{register_request, login_request, logout_request}
use seckill_cpp.Http.Phone.{code_request}
use seckill_cpp.Wiring.{Accounts, AppBundle, lock_mode_name, invalidate_name}

unfoldable pub unavailable {ℓ} : {D : Type ℓ} → Bytes → HttpResponse D
unavailable what = reply 503 (what ++ lit " unavailable (redis not connected)") 503

-- `if (!b.authReady)` and what follows it.
unfoldable pub if_ready {ℓ κ} :
    {D : Type ℓ} {S : Type κ} → Option Accounts → Bytes → S → (Accounts → Handled D S) → Handled D S
if_ready none what s next = answered (unavailable what) s
if_ready (some a) what s next = next a

module _ (J : Json) {W : World} {R : Redis} {F : Doubles} (b : AppBundle F) where
  unfoldable pub register_route :
      Link × (Link × Link)
      → Bytes
      → Bytes
      → Option J.Value
      → State W R
      → Handled J.Value (State W R)
  register_route ls ip salt body st =
      if_ready b.accounts (lit "register") st λ a. register_request J a.settings ls ip salt body st

  unfoldable pub login_route :
      Link × (Link × Link) → Bytes → ℕ → Option J.Value → State W R → Handled J.Value (State W R)
  login_route ls jti now body st =
      if_ready b.accounts (lit "login") st λ a. login_request J a.settings ls jti now body st

  unfoldable pub logout_route : Link → Bytes → ℕ → State W R → Handled J.Value (State W R)
  logout_route link header now st =
      if_ready b.accounts (lit "logout") st λ a. logout_request J a.settings link header now st

module _ (J : Json) (R : Redis) {F : Doubles} (b : AppBundle F) where
  unfoldable pub sms_route :
      Link → Bytes → Bytes → Bytes → ℕ → Option J.Value → R.Store → Handled J.Value R.Store
  sms_route link why code day daily_ttl body s =
      if_ready b.accounts (lit "sms") s
        λ a. code_request J R a.settings.sms link why code day daily_ttl body s

-- `/api/cache/warm`: what the body asks for, and the answer with the number of warmed products.
unfoldable pub clamped : ℤ → ℤ
clamped (pos (suc n)) = pos (suc n)
clamped (pos zero) = pos 1
clamped (negsuc n) = pos 1

unfoldable pub warm_reply : Bool × ℕ → HttpResponse ℕ
warm_reply (true, n) = record { status = 200; code = 0; msg = none; payload = some n }
warm_reply (false, n) = record {
  status = 200;
  code = 1;
  msg = some (lit "warm failed (see server log)");
  payload = some n;
}

module _ {G : Catalog} {R : Redis} {K : Local} where
  warm_answered : (Bool × ℕ) × Products G R K → HttpResponse ℕ × Products G R K
  warm_answered (r, p) = (warm_reply r, p)

  -- The body may hold a limit and a wish to rebuild the filter first.
  unfoldable pub warm_route :
      (ℤ → Link × ℕ)
      → Link × ℕ
      → Option ℤ
      → Option Bool
      → Products G R K
      → HttpResponse ℕ × Products G R K
  unfolding warm_answered
  warm_route env last limit rebuild p = warm_answered (
      warm_cache env last (clamped (from_option (pos 1000) limit))
        (if from_option false rebuild then (rebuild_bloom p).1 else p))

-- `/api/lock/stats`
pub record LockStats : Type 0 where
  pub mode_name : Bytes
  pub acquired_count : ℕ
  pub rejected_count : ℕ

unfoldable pub lock_stats : Guard → LockStats
lock_stats g = record {
  mode_name = lock_mode_name g.mode;
  acquired_count = g.acquired;
  rejected_count = g.rejected;
}

-- `/api/cache/stats`; `none` if the cache is switched off.
pub record CacheStats (F : Doubles) : Type 0 where
  pub counters : Stats
  pub hit_rate : F.Double
  pub list_name : Bytes
  pub item_sample : Bytes
  pub ttls : CacheConfig
  pub local_on : Bool
  pub local_size : ℕ
  pub policy : Bytes
  pub bloom : BloomStats

hit_rate_of : (F : Doubles) → Stats → F.Double
hit_rate_of F s =
    let total : ℕ = (s.hit + s.miss) % 2 ^ 64 in
    if ltb 0 total then F.div (F.of_nat s.hit) (F.of_nat total) else F.of_nat 0

module _ {G : Catalog} {R : Redis} {K : Local} where
  unfoldable pub cache_stats :
      AppBundle G.doubles → Option (SkuCache R K) → Products G R K → Option (CacheStats G.doubles)
  unfolding hit_rate_of
  cache_stats b none p = none
  cache_stats b (some c) p =
      if not c.cfg.enabled
      then none
      else some (record {
        counters = c.stats;
        hit_rate = hit_rate_of G.doubles c.stats;
        list_name = list_key c.cache_keys;
        item_sample = item_key c.cache_keys (pos 1);
        ttls = c.cfg;
        local_on = b.local_enabled;
        local_size = b.local_capacity;
        policy = invalidate_name c.cfg.invalidate_on_order;
        bloom = bloom_stats p;
      })
