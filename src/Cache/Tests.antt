-- ===== src/Cache/Tests.antt =====
-- The texts of the keys, as CacheKeys.h lists them.
use seckill_cpp.Base.{lit, ◌≡◌, refl}
use seckill_cpp.Base.Int.{pos}
use seckill_cpp.Base.Decimal.{to_string}
use seckill_cpp.Cache.Keys.{
  CacheKeys, base, item_key, stock_key, list_key, item_pattern, all_pattern,
}

abbrev keys : CacheKeys
keys = record { prefix = lit "seckill"; version = lit "v1" }

list_test : list_key keys ≡ lit "seckill:sku:v1:list"
unfolding list_key base
list_test = refl

item_test : item_key keys (pos 1001) ≡ lit "seckill:sku:v1:item:1001"
unfolding item_key base to_string
item_test = refl

stock_test : stock_key keys (pos 1001) ≡ lit "seckill:sku:v1:stock:1001"
unfolding stock_key base to_string
stock_test = refl

item_pattern_test : item_pattern keys ≡ lit "seckill:sku:v1:item:*"
unfolding item_pattern base
item_pattern_test = refl

all_pattern_test : all_pattern keys ≡ lit "seckill:sku:v1:*"
unfolding all_pattern base
all_pattern_test = refl
