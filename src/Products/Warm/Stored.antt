-- ===== src/Products/Warm/Stored.antt =====
-- SkuCache.cc: a value that was written stays until the same key is written again.
use seckill_cpp.Base.{
  ℕ, ◌<◌, false, none, some, Bytes, is_empty, str_eq, str_eq→eq, ◌≡◌, ◌≢◌, ap, ◌∙◌, arith, inl, inr,
  Bool-cases,
}
use seckill_cpp.Base.Int.{ℤ}
use seckill_cpp.Redis.{
  Redis, IsRedis, Link, answered, unreachable, answer_lost, text, put_self, put_ne,
}
use seckill_cpp.Cache.Keys.{CacheKeys, list_key, item_key, keys_differ}
use seckill_cpp.Cache.SkuCache.{
  Local, SkuCache, CacheConfig, is_off, get, get_detail, setex, set_detail, set_list,
  ttl_with_jitter, on_command, map_local, find_local, after_local, get_redis, on_reply, as_string,
}

module _ {R : Redis} {K : Local} (law : IsRedis R) where
  -- The cache is on, has no local level, and these settings and keys.
  pub record Open (cfg : CacheConfig) (keys : CacheKeys) (c : SkuCache R K) : Type 0 where
    pub on : is_off c ≡ false
    pub one_level : c.lru ≡ none
    pub same_cfg : c.cfg ≡ cfg
    pub same_keys : c.cache_keys ≡ keys

  -- Redis holds the value under the key.
  abbrev pub Holds : Bytes → Bytes → SkuCache R K → Type 0
  Holds key value c =
      (left : ℕ) × (R.keys c.store key ≡ some (record { value = text value; left = some left }))

  pub read_held :
      (cfg : CacheConfig) (keys : CacheKeys) (key value : Bytes) (c : SkuCache R K)
      → Open cfg keys c
      → Holds key value c
      → is_empty value ≡ false
      → (get answered key c).0 ≡ some value
  unfolding get find_local after_local get_redis on_reply as_string
  read_held cfg keys key value c o (left, held) full =
      rw (o.on, o.one_level, law.get_law c.store key, held) (rw full)

  setex-Open :
      (cfg : CacheConfig) (keys : CacheKeys) (link : Link) (k v : Bytes) (ttl : ℕ)
      (c : SkuCache R K)
      → Open cfg keys c
      → Open cfg keys (setex link k v ttl c)
  unfolding setex on_command map_local
  setex-Open cfg keys answered k v ttl c o = rw o.on (record {
    on = o.on;
    one_level = rw o.one_level;
    same_cfg = o.same_cfg;
    same_keys = o.same_keys;
  })
  setex-Open cfg keys unreachable k v ttl c o = rw o.on (record {
    on = o.on;
    one_level = rw o.one_level;
    same_cfg = o.same_cfg;
    same_keys = o.same_keys;
  })
  setex-Open cfg keys answer_lost k v ttl c o = rw o.on (record {
    on = o.on;
    one_level = rw o.one_level;
    same_cfg = o.same_cfg;
    same_keys = o.same_keys;
  })

  written :
      (cfg : CacheConfig) (keys : CacheKeys) (key value : Bytes) (ttl : ℕ) (c : SkuCache R K)
      → Open cfg keys c
      → 0 < ttl
      → Holds key value (setex answered key value ttl c)
  unfolding setex on_command
  written cfg keys key value ttl c o h =
      rw o.on (ttl, rw (law.setex_law c.store key ttl value h) (put_self key _ (R.keys c.store)))

  kept :
      (cfg : CacheConfig) (keys : CacheKeys) (link : Link) (key value other v : Bytes) (ttl : ℕ)
      → (c : SkuCache R K) → Open cfg keys c
      → Holds key value c
      → str_eq key other ≡ false
      → 0 < ttl
      → Holds key value (setex link other v ttl c)
  unfolding setex on_command
  kept cfg keys answered key value other v ttl c o (left, held) ne h = rw o.on (
    left,
    rw (law.setex_law c.store other ttl v h) (put_ne other key _ (R.keys c.store) ne ∙ held),
  )
  kept cfg keys unreachable key value other v ttl c o (left, held) ne h = rw o.on (left, held)
  kept cfg keys answer_lost key value other v ttl c o (left, held) ne h = rw o.on (
    left,
    rw (law.setex_law c.store other ttl v h) (put_ne other key _ (R.keys c.store) ne ∙ held),
  )

  pub detail-Open :
      (cfg : CacheConfig) (keys : CacheKeys) (link : Link) (drawn : ℕ) (sku : ℤ) (v : Bytes)
      → (c : SkuCache R K) → Open cfg keys c
      → Open cfg keys (set_detail link drawn sku v c)
  unfolding set_detail
  detail-Open cfg keys link drawn sku v c o = setex-Open cfg keys link _ v _ c o

  ttl_positive : (c : SkuCache R K) (drawn base : ℕ) → 0 < base → 0 < ttl_with_jitter c drawn base
  unfolding ttl_with_jitter
  ttl_positive c drawn base h = ground arith

  pub detail_written :
      (cfg : CacheConfig) (keys : CacheKeys) (drawn : ℕ) (sku : ℤ) (v : Bytes) (c : SkuCache R K)
      → Open cfg keys c
      → 0 < cfg.detail_ttl_seconds
      → Holds (item_key keys sku) v (set_detail answered drawn sku v c)
  unfolding set_detail
  detail_written cfg keys drawn sku v c o h = rw (← o.same_keys) (
      written cfg keys (item_key c.cache_keys sku) v _ c o
        (ttl_positive c drawn c.cfg.detail_ttl_seconds (rw o.same_cfg h)))

items_apart :
    (keys : CacheKeys) (a b : ℤ) → a ≢ b → str_eq (item_key keys a) (item_key keys b) ≡ false
items_apart keys a b h = elim (Bool-cases (str_eq (item_key keys a) (item_key keys b))) [
  | inl same ↦ absurd (h ((keys_differ keys a b).0 (str_eq→eq _ _ same)))
  | inr other ↦ other
]

list_apart : (keys : CacheKeys) (a : ℤ) → str_eq (item_key keys a) (list_key keys) ≡ false
list_apart keys a = elim (Bool-cases (str_eq (item_key keys a) (list_key keys))) [
  | inl same ↦ absurd ((keys_differ keys a a).1.1.0 (str_eq→eq _ _ same))
  | inr other ↦ other
]

module _ {R : Redis} {K : Local} (law : IsRedis R) (cfg : CacheConfig) (keys : CacheKeys) where
  pub detail_kept :
      (link : Link) (drawn : ℕ) (sku id : ℤ) (v w : Bytes) (c : SkuCache R K)
      → 0 < cfg.detail_ttl_seconds
      → Open law cfg keys c
      → Holds law (item_key keys sku) v c
      → sku ≢ id
      → Holds law (item_key keys sku) v (set_detail link drawn id w c)
  unfolding set_detail
  detail_kept link drawn sku id v w c lives o h ne =
      kept law cfg keys link (item_key keys sku) v (item_key c.cache_keys id) w _ c o h
        (rw o.same_keys (items_apart keys sku id ne))
        (ttl_positive law c drawn c.cfg.detail_ttl_seconds (rw o.same_cfg lives))

  pub list_kept :
      (link : Link) (drawn : ℕ) (sku : ℤ) (v w : Bytes) (c : SkuCache R K)
      → 0 < cfg.list_ttl_seconds
      → Open law cfg keys c
      → Holds law (item_key keys sku) v c
      → Holds law (item_key keys sku) v (set_list link drawn w c)
  unfolding set_list
  list_kept link drawn sku v w c lives o h =
      kept law cfg keys link (item_key keys sku) v (list_key c.cache_keys) w _ c o h
        (rw o.same_keys (list_apart keys sku))
        (ttl_positive law c drawn c.cfg.list_ttl_seconds (rw o.same_cfg lives))

  pub list-Open :
      (link : Link) (drawn : ℕ) (w : Bytes) (c : SkuCache R K)
      → Open law cfg keys c
      → Open law cfg keys (set_list link drawn w c)
  unfolding set_list
  list-Open link drawn w c o = setex-Open law cfg keys link _ w _ c o

  pub held_detail :
      (sku : ℤ) (v : Bytes) (c : SkuCache R K)
      → Open law cfg keys c
      → Holds law (item_key keys sku) v c
      → is_empty v ≡ false
      → (get_detail answered sku c).0 ≡ some v
  unfolding get_detail
  held_detail sku v c o h full =
      ap (λ k. (get answered (item_key k sku) c).0) o.same_keys
      ∙ read_held law cfg keys (item_key keys sku) v c o h full
