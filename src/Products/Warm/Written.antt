-- ===== src/Products/Warm/Written.antt =====
-- SeckillService.cc: what a warmed cache answers.
use seckill_cpp.Base.{ℕ, ◌<◌, false, some, Bytes, is_empty, List, [], ◌∷◌, ◌++◌, ◌≡◌, ◌≢◌}
use seckill_cpp.Base.Int.{ℤ}
use seckill_cpp.Redis.{Redis, IsRedis, Link, answered}
use seckill_cpp.Cache.Keys.{CacheKeys, item_key}
use seckill_cpp.Cache.SkuCache.{Local, SkuCache, CacheConfig, get_detail, set_detail, set_list}
use seckill_cpp.Products.{selected, Catalog, Products, on_cache}
use seckill_cpp.Products.Warm.{warm_rows, warm_list, on_warm, warm_cache, warm_limit}
use seckill_cpp.Products.Warm.Stored.{
  Open, Holds, detail-Open, detail_written, detail_kept, list_kept, list-Open, held_detail,
}

-- No row has the id.
abbrev pub Without : {J : Type 0} → ℤ → List (ℤ × J) → Type 0
Without sku [] = Unit
Without sku ((id, j) ∷ rows) = (sku ≢ id) × Without sku rows

module _ {G : Catalog} {R : Redis} {K : Local} (law : IsRedis R) (cfg : CacheConfig)
    (keys : CacheKeys) (detail_lives : 0 < cfg.detail_ttl_seconds) (env : ℤ → Link × ℕ) where
  -- The cache of the service is open and holds the value of the product.
  record Ready (sku : ℤ) (v : Bytes) (p : Products G R K) : Type 0 where
    cache : SkuCache R K
    has_cache : p.cache ≡ some cache
    opened : Open law cfg keys cache
    value_held : Holds law (item_key keys sku) v cache

  rows_kept :
      (sku : ℤ) (v : Bytes) (rows : List (ℤ × G.Json)) (arr : List G.Json) (n : ℕ)
      → (p : Products G R K) → Ready sku v p
      → Without sku rows
      → Ready sku v (warm_rows env rows arr n p).2
  unfolding warm_rows on_cache
  rows_kept sku v [] arr n p r w = r
  rows_kept sku v ((id, j) ∷ rows) arr n p r w =
      rows_kept sku v rows _ _ _
        (record {
          cache = set_detail (env id).0 (env id).1 id (G.compact j) r.cache;
          has_cache = rw r.has_cache;
          opened = detail-Open law cfg keys (env id).0 (env id).1 id _ r.cache r.opened;
          value_held =
              detail_kept law cfg keys (env id).0 (env id).1 sku id v _ r.cache detail_lives
                r.opened r.value_held w.0;
        })
        w.1

  rows_written :
      (before after : List (ℤ × G.Json)) (sku : ℤ) (j : G.Json) (arr : List G.Json) (n : ℕ)
      → (p : Products G R K) (c : SkuCache R K) → p.cache ≡ some c
      → Open law cfg keys c
      → (env sku).0 ≡ answered
      → Without sku after
      → Ready sku (G.compact j) (warm_rows env (before ++ ((sku, j) ∷ after)) arr n p).2
  unfolding warm_rows on_cache
  rows_written [] after sku j arr n p c e o a w =
      rows_kept sku (G.compact j) after _ _ _
        (record {
          cache = set_detail (env sku).0 (env sku).1 sku (G.compact j) c;
          has_cache = rw e;
          opened = detail-Open law cfg keys (env sku).0 (env sku).1 sku _ c o;
          value_held =
              rw a (detail_written law cfg keys (env sku).1 sku (G.compact j) c o detail_lives);
        })
        w
  rows_written ((id, i) ∷ before) after sku j arr n p c e o a w =
      rows_written before after sku j _ _ _ (set_detail (env id).0 (env id).1 id (G.compact i) c)
        (rw e) (detail-Open law cfg keys (env id).0 (env id).1 id _ c o) a w

  list-Ready :
      (last : Link × ℕ) (sku : ℤ) (v : Bytes) (arr : List G.Json) (p : Products G R K)
      → 0 < cfg.list_ttl_seconds
      → Ready sku v p
      → Ready sku v (warm_list last arr p)
  unfolding warm_list on_cache
  list-Ready (link, drawn) sku v [] p h r = r
  list-Ready (link, drawn) sku v (j ∷ js) p h r = record {
    cache = set_list link drawn (G.compact (G.array (j ∷ js))) r.cache;
    has_cache = rw r.has_cache;
    opened = list-Open law cfg keys link drawn _ r.cache r.opened;
    value_held = list_kept law cfg keys link drawn sku v _ r.cache h r.opened r.value_held;
  }

  warm-Ready :
      (before after : List (ℤ × G.Json)) (last : Link × ℕ) (limit : ℤ) (sku : ℤ) (j : G.Json)
      → (p : Products G R K) (c : SkuCache R K)
      → G.select_warm (warm_limit limit) p.db ≡ selected (before ++ ((sku, j) ∷ after))
      → p.cache ≡ some c
      → Open law cfg keys c
      → (env sku).0 ≡ answered
      → Without sku after
      → 0 < cfg.list_ttl_seconds
      → Ready sku (G.compact j) (warm_cache env last limit p).1
  unfolding warm_cache on_warm
  warm-Ready before after last limit sku j p c e has o a w h =
      rw e (
        list-Ready last sku (G.compact j) _ _ h
          (rows_written before after sku j [] 0 p c has o a w))

  -- For a Redis that keeps its laws and a cache that is on, with one level and lifetimes that are
  -- not 0, a JSON text that is not empty, and a SELECT that gives a product, with other ids in the
  -- rows after it: if the SETEX of
  -- that product is answered, then after the warming the cache answers its id with its row,
  -- however the writes of the other products and of the list end.
  pub get_detail-warm_cache :
      (before after : List (ℤ × G.Json)) (last : Link × ℕ) (limit : ℤ) (sku : ℤ) (j : G.Json)
      → (p : Products G R K) (c : SkuCache R K)
      → G.select_warm (warm_limit limit) p.db ≡ selected (before ++ ((sku, j) ∷ after))
      → p.cache ≡ some c
      → Open law cfg keys c
      → (env sku).0 ≡ answered
      → Without sku after
      → 0 < cfg.list_ttl_seconds
      → is_empty (G.compact j) ≡ false
      → (c' : SkuCache R K) × ((warm_cache env last limit p).1.cache ≡ some c')
        × ((get_detail answered sku c').0 ≡ some (G.compact j))
  get_detail-warm_cache before after last limit sku j p c e has o a w h full =
      let r = warm-Ready before after last limit sku j p c e has o a w h in
      (
        r.cache,
        r.has_cache,
        held_detail law cfg keys sku (G.compact j) r.cache r.opened r.value_held full,
      )
