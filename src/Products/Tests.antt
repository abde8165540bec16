-- ===== src/Products/Tests.antt =====
-- A catalogue of three products, and the theorems on it.
use seckill_cpp.Base.Double.{Doubles}
use seckill_cpp.Base.{
  ◌+◌, ◌<◌, ◌^◌, ℕ, ◌*◌, ◌/◌, leb, if◌then◌else◌, arith, true, none, some, Bytes, [], ◌∷◌, ◌≡◌,
  refl, lit,
}
use seckill_cpp.Base.Int.{ℤ, pos, int_eq}
use seckill_cpp.Redis.{Link, unreachable, answered}
use seckill_cpp.Redis.Model.{Plain, Plain-IsRedis, empty}
use seckill_cpp.Cache.Bloom.{create, new_filter, bits_for, sane_rate}
use seckill_cpp.Cache.SkuCache.{Local, SkuCache, item, get_detail}
use seckill_cpp.Products.{Catalog, Products, selected, bloom_allows, rebuild_bloom, filter_allows}
use seckill_cpp.Products.Warm.{warm_cache}
use seckill_cpp.Products.Warm.Stored.{Open}
use seckill_cpp.Products.Warm.Written.{get_detail-warm_cache}
use seckill_cpp.Products.Reads.{bloom_allows-rebuild_bloom}

-- Whole numbers in the place of `double`, with a logarithm that is a constant.
abbrev pub Whole : Doubles
Whole = record {
  Double = ℕ;
  of_nat = λ n. n;
  decimal = λ digits places. digits;
  at_most = leb;
  neg = λ x. x;
  mul = λ x y. x * y;
  div = λ x y. x / y;
  ln = λ x. 1;
  ceil_size = λ x. x;
  round_int = λ x. pos x;
}

-- JSON is its text.
abbrev pub Small : Catalog
Small = record {
  Json = Bytes;
  Db = Unit {0};
  array = λ js. lit "[]";
  compact = λ j. j;
  parse_array = λ v. some v;
  parse_object = λ v. some v;
  select_list = λ d. selected (lit "a" ∷ []);
  select_item = λ sku d. selected (some (lit "a"));
  select_warm = λ n d. selected ((pos 1, lit "a") ∷ (pos 2, lit "b") ∷ []);
  doubles = Whole;
  select_ids = λ d. selected (pos 1 ∷ pos 2 ∷ pos 3 ∷ []);
}

abbrev pub NoLocal : Local
NoLocal = record {
  Lru = Unit {0};
  find = λ k l. (none, l);
  put = λ k v ttl l. l;
  remove = λ k l. l;
}

abbrev cache : SkuCache Plain NoLocal
cache = record {
  cfg = record {
    enabled = true;
    list_ttl_seconds = 30;
    detail_ttl_seconds = 300;
    null_ttl_seconds = 60;
    jitter_seconds = 30;
    double_delete_ms = 0;
    invalidate_on_order = item;
  };
  cache_keys = record { prefix = lit "seckill"; version = lit "v1" };
  has_redis = true;
  store = empty;
  lru = none;
  stats = record { hit = 0; local_hit = 0; miss = 0; err = 0; write = 0; delayed_delete = 0 };
  tasks = [];
}

abbrev pub products : Products Small Plain NoLocal
products = record {
  db = tt;
  cache = some cache;
  bloom_enabled = true;
  bloom = none;
  bloom_rejected = 0;
  bloom_capacity = 4;
  bloom_error_rate = 11;
}

pub empty_filter_allows : bloom_allows (pos 2) products ≡ true
unfolding bloom_allows filter_allows
empty_filter_allows = refl

small_filter :
    (create Whole products.bloom_capacity products.bloom_error_rate).bits_count + 63 < 2 ^ 64
unfolding create new_filter bits_for sane_rate
small_filter = omega arith

bloom_allows-rebuild_bloom_example : bloom_allows (pos 2) (rebuild_bloom products).1 ≡ true
bloom_allows-rebuild_bloom_example =
    bloom_allows-rebuild_bloom products (pos 1 ∷ []) (pos 3 ∷ []) (pos 2) refl refl small_filter

cache-Open : Open Plain-IsRedis cache.cfg cache.cache_keys cache
cache-Open = record { on = refl; one_level = refl; same_cfg = refl; same_keys = refl }

-- The write of the product 2 and that of the list do not arrive.
abbrev ends : ℤ → Link × ℕ
ends sku = (if int_eq sku (pos 1) then answered else unreachable, 3)

get_detail-warm_cache_example :
    (c' : SkuCache Plain NoLocal) × ((warm_cache ends (unreachable, 3) (pos 10) products).1.cache
      ≡ some c')
    × ((get_detail answered (pos 1) c').0 ≡ some (lit "a"))
get_detail-warm_cache_example =
    get_detail-warm_cache Plain-IsRedis cache.cfg cache.cache_keys (omega arith) ends []
      ((pos 2, lit "b") ∷ []) (unreachable, 3) (pos 10) (pos 1) (lit "a") products cache refl refl
      cache-Open refl ((λ e. cc), tt) (omega arith) refl
