-- ===== src/Products.antt =====
-- The product reads of src/service/SeckillService.cc: `listSkus` and `detailSku` over the cache, the
-- Bloom filter in front of it, and its rebuilding. The rows of MySQL and JSON are an interface.
pub mod Reads
pub mod Warm
pub mod Tests
use seckill_cpp.Base.Double.{Doubles}
use seckill_cpp.Base.{
  ℕ, zero, suc, ◌+◌, ◌%◌, ◌^◌, Bool, true, false, not, ◌&&◌, ◌||◌, Option, none, some, Bytes,
  str_eq, if◌then◌else◌, List, [], ◌∷◌, map,
}
use seckill_cpp.Base.Int.{ℤ, to_u64}
use seckill_cpp.Redis.{Redis, Link}
use seckill_cpp.Cache.Bloom.{BloomFilter, create, ready, maybe_contains}
use seckill_cpp.Cache.Bloom.Members.{add_all}
use seckill_cpp.Cache.SkuCache.{
  Local, SkuCache, null_value, get_list, get_detail, set_list, set_detail, set_null, invalidate,
  invalidate_list,
}

-- What a SELECT ends with: its result, or an exception.
pub data Result (A : Type 0) : Type 0 where
  selected : A → Result A
  raised : Result A

-- The rows as JSON, the writer and the reader of JsonCpp, the SELECT statements, and `double`.
pub record Catalog : Type 1 where
  pub Json : Type 0
  pub Db : Type 0
  pub array : List Json → Json
  pub compact : Json → Bytes
  pub parse_array : Bytes → Option Json
  pub parse_object : Bytes → Option Json
  pub select_list : Db → Result (List Json)
  pub select_item : ℤ → Db → Result (Option Json)
  pub select_ids : Db → Result (List ℤ)
  pub select_warm : ℕ → Db → Result (List (ℤ × Json))
  pub doubles : Doubles

unfoldable pub on_cache : {C : Type 0} → (C → C) → Option C → Option C
on_cache f none = none
on_cache f (some c) = some (f c)

unfoldable pub filter_allows : ℤ → Option BloomFilter → Bool
filter_allows sku none = true
filter_allows sku (some f) = if not (ready f) then true else maybe_contains (to_u64 sku) f

module _ (G : Catalog) (R : Redis) (K : Local) where
  -- The pointers to the cache and to the filter may be null.
  pub record Products : Type 0 where
    pub db : G.Db
    pub cache : Option (SkuCache R K)
    pub bloom_enabled : Bool
    pub bloom : Option BloomFilter
    pub bloom_rejected : ℕ
    pub bloom_capacity : ℕ
    pub bloom_error_rate : G.doubles.Double

module _ {G : Catalog} {R : Redis} {K : Local} where
  -- A read takes the links of the GET and of the write or the delete after it, the time, and the
  -- jitter.
  -- The callbacks of the SELECT in `queryDetailFromDb`.
  unfoldable pub on_item :
      Link → ℕ → ℤ → Bool → Result (Option G.Json) → Products G R K → Option G.Json × Products G R K
  on_item link drawn sku write raised p = (none, p)
  on_item link drawn sku write (selected none) p =
      (none, if write then record p { cache = on_cache (set_null link drawn sku) p.cache } else p)
  on_item link drawn sku write (selected (some j)) p = (
    some j,
    if write
        then record p { cache = on_cache (set_detail link drawn sku (G.compact j)) p.cache }
        else p,
  )

  unfoldable pub query_detail :
      Link → ℕ → ℤ → Bool → Products G R K → Option G.Json × Products G R K
  query_detail link drawn sku write p = on_item link drawn sku write (G.select_item sku p.db) p

  unfoldable pub on_rows :
      Link → ℕ → Bool → Result (List G.Json) → Products G R K → Option G.Json × Products G R K
  on_rows link drawn write raised p = (none, p)
  on_rows link drawn write (selected js) p = (
    some (G.array js),
    if write
        then record p { cache = on_cache (set_list link drawn (G.compact (G.array js))) p.cache }
        else p,
  )

  unfoldable pub query_list : Link → ℕ → Bool → Products G R K → Option G.Json × Products G R K
  query_list link drawn write p = on_rows link drawn write (G.select_list p.db) p

  unfoldable pub bloom_allows : ℤ → Products G R K → Bool
  bloom_allows sku p = filter_allows sku p.bloom

  -- The callback of `getDetail` on the text of a hit.
  unfoldable pub on_parsed :
      Link → ℕ → ℕ → ℤ → Option G.Json → Products G R K → Option G.Json × Products G R K
  on_parsed link now drawn sku (some j) p = (some j, p)
  on_parsed link now drawn sku none p =
      query_detail link drawn sku true
        (record p { cache = on_cache (invalidate link now sku) p.cache })

  unfoldable pub on_detail :
      Link → ℕ → ℕ → ℤ → Option Bytes → Products G R K → Option G.Json × Products G R K
  on_detail link now drawn sku none p = query_detail link drawn sku true p
  on_detail link now drawn sku (some v) p =
      if str_eq v null_value then (none, p) else on_parsed link now drawn sku (G.parse_object v) p

  unfoldable pub detail_cached :
      Link × Link → ℕ → ℕ → ℤ → SkuCache R K → Products G R K → Option G.Json × Products G R K
  detail_cached (l1, l2) now drawn sku c p =
      if p.bloom_enabled && not (bloom_allows sku p)
      then (none, record p { bloom_rejected = (p.bloom_rejected + 1) % 2 ^ 64 })
      else (let (v, c') = get_detail l1 sku c in
          on_detail l2 now drawn sku v (record p { cache = some c' }))

  unfoldable pub detail_by :
      Link × Link
      → ℕ
      → ℕ
      → ℤ
      → Option (SkuCache R K)
      → Products G R K
      → Option G.Json × Products G R K
  detail_by ls now drawn sku none p = query_detail ls.1 drawn sku false p
  detail_by ls now drawn sku (some c) p =
      if c.cfg.enabled
      then detail_cached ls now drawn sku c p
      else query_detail ls.1 drawn sku false p

  -- `detailSku`: the item, or `none` for `cb(false, ...)`.
  unfoldable pub detail_sku :
      Link × Link → ℕ → ℕ → ℤ → Products G R K → Option G.Json × Products G R K
  detail_sku ls now drawn sku p = detail_by ls now drawn sku p.cache p

  unfoldable pub on_list_parsed :
      Link → ℕ → ℕ → Option G.Json → Products G R K → Option G.Json × Products G R K
  on_list_parsed link now drawn (some j) p = (some j, p)
  on_list_parsed link now drawn none p =
      query_list link drawn true (record p { cache = on_cache (invalidate_list link now) p.cache })

  unfoldable pub on_list :
      Link → ℕ → ℕ → Option Bytes → Products G R K → Option G.Json × Products G R K
  on_list link now drawn none p = query_list link drawn true p
  on_list link now drawn (some v) p = on_list_parsed link now drawn (G.parse_array v) p

  unfoldable pub list_by :
      Link × Link → ℕ → ℕ → Option (SkuCache R K) → Products G R K → Option G.Json × Products G R K
  list_by (l1, l2) now drawn none p = query_list l2 drawn false p
  list_by (l1, l2) now drawn (some c) p =
      if c.cfg.enabled
      then (let (v, c') = get_list l1 c in on_list l2 now drawn v (record p { cache = some c' }))
      else query_list l2 drawn false p

  -- `listSkus`
  unfoldable pub list_skus : Link × Link → ℕ → ℕ → Products G R K → Option G.Json × Products G R K
  list_skus ls now drawn p = list_by ls now drawn p.cache p

  unfoldable pub on_ids : Result (List ℤ) → Products G R K → Bool × Products G R K
  on_ids raised p = (false, p)
  on_ids (selected ids) p = (
    true,
    record p {
      bloom =
          some (add_all (map to_u64 ids) (create G.doubles p.bloom_capacity p.bloom_error_rate));
    },
  )

  -- `rebuildBloom`
  unfoldable pub rebuild_bloom : Products G R K → Bool × Products G R K
  rebuild_bloom p = if not p.bloom_enabled then (true, p) else on_ids (G.select_ids p.db) p
