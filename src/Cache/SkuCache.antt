-- ===== src/Cache/SkuCache.antt =====
-- src/service/SkuCache.h and SkuCache.cc: the product cache over the local cache and Redis, its
-- counters, and the queue of the second deletes. The local cache is an interface; the drawn jitter,
-- the clock and how each Redis command ends are arguments. Every callback runs in its place.
pub mod Invalidation
pub mod Deleter
mod Tests
use seckill_cpp.Base.{
  ℕ, ◌+◌, ◌%◌, ◌^◌, Bool, true, false, not, ◌||◌, ◌&&◌, Option, none, some, Bytes, lit,
  if◌then◌else◌, ltb, is_empty, List, [], ◌∷◌, ◌++◌,
}
use seckill_cpp.Base.Int.{ℤ, pos}
use seckill_cpp.Base.Decimal.{to_string}
use seckill_cpp.Redis.{Redis, Link, exec, Value, text, count}
use seckill_cpp.Cache.Keys.{CacheKeys, list_key, item_key}

pub data InvalidateOnOrder : Type 0 where
  nothing item item_and_list : InvalidateOnOrder

-- The settings that the cache reads; times are not negative.
pub record CacheConfig : Type 0 where
  pub enabled : Bool
  pub list_ttl_seconds : ℕ
  pub detail_ttl_seconds : ℕ
  pub null_ttl_seconds : ℕ
  pub jitter_seconds : ℕ
  pub double_delete_ms : ℕ
  pub invalidate_on_order : InvalidateOnOrder

-- What `SkuCache` asks of the local cache.
pub record Local : Type 1 where
  pub Lru : Type 0
  pub find : Bytes → Lru → Option Bytes × Lru
  pub put : Bytes → Bytes → ℕ → Lru → Lru
  pub remove : Bytes → Lru → Lru

-- The counters are `uint64_t`.
pub record Stats : Type 0 where
  pub hit : ℕ
  pub local_hit : ℕ
  pub miss : ℕ
  pub err : ℕ
  pub write : ℕ
  pub delayed_delete : ℕ

abbrev pub up : ℕ → ℕ
up n = (n + 1) % 2 ^ 64

-- A task of the thread for second deletes, with the time in milliseconds.
pub record Task : Type 0 where
  pub fire_at : ℕ
  pub keys : List Bytes

abbrev pub null_value : Bytes
null_value = lit "__nil__"

-- `asString`: a nil reply becomes the empty string.
unfoldable pub as_string : Option Value → Bytes
as_string none = []
as_string (some (text t)) = t
as_string (some (count n)) = to_string (pos n)

unfoldable pub map_local : {L : Type 0} → (L → L) → Option L → Option L
map_local f none = none
map_local f (some l) = some (f l)

-- The pointer `redis_` may be null; `local_` is null if it is switched off.
module _ (R : Redis) (K : Local) where
  pub record SkuCache : Type 0 where
    pub cfg : CacheConfig
    pub cache_keys : CacheKeys
    pub has_redis : Bool
    pub store : R.Store
    pub lru : Option K.Lru
    pub stats : Stats
    pub tasks : List Task

module _ {R : Redis} {K : Local} where
  -- The test at the head of each operation.
  abbrev pub is_off : SkuCache R K → Bool
  is_off c = not c.cfg.enabled || not c.has_redis

  unfoldable pub count_hit : SkuCache R K → SkuCache R K
  count_hit c = record c { stats = record c.stats { hit = up c.stats.hit } }

  unfoldable pub count_local_hit : SkuCache R K → SkuCache R K
  count_local_hit c = record c {
    stats = record c.stats { hit = up c.stats.hit; local_hit = up c.stats.local_hit };
  }

  unfoldable pub count_miss : SkuCache R K → SkuCache R K
  count_miss c = record c { stats = record c.stats { miss = up c.stats.miss } }

  unfoldable pub count_err : SkuCache R K → SkuCache R K
  count_err c = record c { stats = record c.stats { err = up c.stats.err } }

  -- The callbacks of GET.
  unfoldable pub on_reply : Option (Option Value) × SkuCache R K → Option Bytes × SkuCache R K
  on_reply (none, c) = (none, count_err c)
  on_reply (some r, c) =
      if is_empty (as_string r) then (none, count_miss c) else (some (as_string r), count_hit c)

  unfoldable pub get_redis : Link → Bytes → SkuCache R K → Option (Option Value) × SkuCache R K
  get_redis link key c =
      let (r, s) = exec link (λ t. (R.get t key, t)) c.store in (r, record c { store = s })

  -- The answer of the local cache, if there is one.
  unfoldable pub find_local : Bytes → SkuCache R K → Option K.Lru → Option Bytes × SkuCache R K
  find_local key c none = (none, c)
  find_local key c (some l) = let (v, l') = K.find key l in (v, record c { lru = some l' })

  unfoldable pub after_local :
      Link → Bytes → Option Bytes × SkuCache R K → Option Bytes × SkuCache R K
  after_local link key (some v, c) = (some v, count_local_hit c)
  after_local link key (none, c) = on_reply (get_redis link key c)

  -- `get`: the value, or `none` for `cb(false, "")`.
  unfoldable pub get : Link → Bytes → SkuCache R K → Option Bytes × SkuCache R K
  get link key c = if is_off c then (none, c) else after_local link key (find_local key c c.lru)

  -- The exception callback of a command whose answer is not read.
  unfoldable pub on_command : Option (Unit {0}) × R.Store → SkuCache R K → SkuCache R K
  on_command (some r, s) c = record c { store = s }
  on_command (none, s) c = record c { store = s; stats = record c.stats { err = up c.stats.err } }

  unfoldable pub setex : Link → Bytes → Bytes → ℕ → SkuCache R K → SkuCache R K
  setex link key value ttl c =
      if is_off c
      then c
      else (let c1 : SkuCache R K = record c {
        stats = record c.stats { write = up c.stats.write };
      } in
          let c2 = on_command (exec link (λ t. (tt, R.setex t key ttl value)) c1.store) c1 in
          record c2 { lru = map_local (K.put key value ttl) c2.lru })

  unfoldable pub del : Link → Bytes → SkuCache R K → SkuCache R K
  del link key c =
      if is_off c
      then c
      else (let c1 = on_command (exec link (λ t. (tt, R.del t key)) c.store) c in
          record c1 { lru = map_local (K.remove key) c1.lru })

  -- `ttlWithJitter`, for a jitter drawn from 0 to the bound.
  unfoldable pub ttl_with_jitter : SkuCache R K → ℕ → ℕ → ℕ
  ttl_with_jitter c drawn base = if ltb 0 c.cfg.jitter_seconds then base + drawn else base

  unfoldable pub get_list : Link → SkuCache R K → Option Bytes × SkuCache R K
  get_list link c = get link (list_key c.cache_keys) c

  unfoldable pub get_detail : Link → ℤ → SkuCache R K → Option Bytes × SkuCache R K
  get_detail link sku c = get link (item_key c.cache_keys sku) c

  unfoldable pub set_list : Link → ℕ → Bytes → SkuCache R K → SkuCache R K
  set_list link drawn json c =
      setex link (list_key c.cache_keys) json (ttl_with_jitter c drawn c.cfg.list_ttl_seconds) c

  unfoldable pub set_detail : Link → ℕ → ℤ → Bytes → SkuCache R K → SkuCache R K
  set_detail link drawn sku json c =
      setex link (item_key c.cache_keys sku) json (ttl_with_jitter c drawn c.cfg.detail_ttl_seconds)
        c

  unfoldable pub set_null : Link → ℕ → ℤ → SkuCache R K → SkuCache R K
  set_null link drawn sku c =
      setex link (item_key c.cache_keys sku) null_value
        (ttl_with_jitter c drawn c.cfg.null_ttl_seconds) c

  -- `scheduleDelayedDelete` and `DelayDeleter::schedule`. The thread exists if the delay is not 0
  -- and there is a client.
  unfoldable pub schedule : ℕ → List Bytes → SkuCache R K → SkuCache R K
  schedule now [] c = c
  schedule now (k ∷ ks) c =
      if ltb 0 c.cfg.double_delete_ms && c.has_redis
      then record c {
        tasks = c.tasks ++ (record { fire_at = now + c.cfg.double_delete_ms; keys = k ∷ ks } ∷ []);
      }
      else c

  unfoldable pub del_all : Link → List Bytes → SkuCache R K → SkuCache R K
  del_all link [] c = c
  del_all link (k ∷ ks) c = del_all link ks (del link k c)

  -- One turn of `DelayDeleter::run` and the `fire` callback: the first task, if it is due.
  unfoldable pub run_task : Link → ℕ → List Task → SkuCache R K → SkuCache R K
  run_task link now [] c = c
  run_task link now (t ∷ ts) c =
      if ltb now t.fire_at
      then c
      else del_all link t.keys (record c {
        tasks = ts;
        stats = record c.stats { delayed_delete = up c.stats.delayed_delete };
      })

  unfoldable pub run_delayed : Link → ℕ → SkuCache R K → SkuCache R K
  run_delayed link now c = run_task link now c.tasks c

  -- One DEL of two keys.
  unfoldable pub del_both : Link → Bytes → Bytes → SkuCache R K → SkuCache R K
  del_both link item_k list_k c =
      let c1 = on_command (exec link (λ t. (tt, R.del (R.del t item_k) list_k)) c.store) c in
      record c1 { lru = map_local (λ l. K.remove list_k (K.remove item_k l)) c1.lru }

  unfoldable pub invalidate : Link → ℕ → ℤ → SkuCache R K → SkuCache R K
  invalidate link now sku c =
      if is_off c
      then c
      else schedule now (item_key c.cache_keys sku ∷ list_key c.cache_keys ∷ [])
          (del_both link (item_key c.cache_keys sku) (list_key c.cache_keys) c)

  unfoldable pub invalidate_item : Link → ℕ → ℤ → SkuCache R K → SkuCache R K
  invalidate_item link now sku c =
      if is_off c
      then c
      else schedule now (item_key c.cache_keys sku ∷ []) (del link (item_key c.cache_keys sku) c)

  unfoldable pub invalidate_list : Link → ℕ → SkuCache R K → SkuCache R K
  invalidate_list link now c =
      if is_off c
      then c
      else schedule now (list_key c.cache_keys ∷ []) (del link (list_key c.cache_keys) c)

  unfoldable pub invalidate_by : InvalidateOnOrder → Link → ℕ → ℤ → SkuCache R K → SkuCache R K
  invalidate_by nothing link now sku c = c
  invalidate_by item link now sku c = invalidate_item link now sku c
  invalidate_by item_and_list link now sku c = invalidate link now sku c

  unfoldable pub invalidate_on_order : Link → ℕ → ℤ → SkuCache R K → SkuCache R K
  invalidate_on_order link now sku c = invalidate_by c.cfg.invalidate_on_order link now sku c
