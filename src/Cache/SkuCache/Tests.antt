-- ===== src/Cache/SkuCache/Tests.antt =====
-- A product cache in use, and its theorems on it.
use seckill_cpp.Base.{true, none, some, lit, [], ◌≡◌}
use seckill_cpp.Base.Int.{pos}
use seckill_cpp.Redis.{answered}
use seckill_cpp.Redis.Model.{Plain, Plain-IsRedis, empty}
use seckill_cpp.Cache.Keys.{item_key, list_key}
use seckill_cpp.Cache.LocalLru.{new_lru}
use seckill_cpp.Cache.LocalLru.Instance.{Lru, Lru-IsLocal}
use seckill_cpp.Cache.LocalLru.Calls.{new_lru-IsValid}
use seckill_cpp.Cache.SkuCache.{SkuCache, item, get, invalidate}
use seckill_cpp.Cache.SkuCache.Invalidation.{get-invalidate}

-- The two levels: the local cache of LocalLruCache.h, and a Redis.
abbrev cache : SkuCache Plain Lru
cache = record {
  cfg = record {
    enabled = true;
    list_ttl_seconds = 30;
    detail_ttl_seconds = 300;
    null_ttl_seconds = 60;
    jitter_seconds = 30;
    double_delete_ms = 500;
    invalidate_on_order = item;
  };
  cache_keys = record { prefix = lit "seckill"; version = lit "v1" };
  has_redis = true;
  store = empty;
  lru = some (record { now = 0; cache = new_lru 4096; valid = new_lru-IsValid 4096 });
  stats = record { hit = 0; local_hit = 0; miss = 0; err = 0; write = 0; delayed_delete = 0 };
  tasks = [];
}

get-invalidate_example :
    ((get answered (item_key cache.cache_keys (pos 7)) (invalidate answered 10 (pos 7) cache)).0
      ≡ none)
    × ((get answered (list_key cache.cache_keys) (invalidate answered 10 (pos 7) cache)).0 ≡ none)
get-invalidate_example = get-invalidate Plain-IsRedis Lru-IsLocal 10 (pos 7) cache
