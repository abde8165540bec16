-- ===== src/Products/Warm.antt =====
-- `SeckillService::warmCache` and `bloomStats` of src/service/SeckillService.cc. How the SETEX of a
-- row ends and the jitter that it draws are a function of the row's id.
pub mod Stored
pub mod Written
use seckill_cpp.Base.{
  ℕ, zero, suc, ◌+◌, Bool, true, false, Option, none, some, if◌then◌else◌, ltb, List, [], ◌∷◌, ◌++◌,
  length,
}
use seckill_cpp.Base.Int.{ℤ, pos, negsuc}
use seckill_cpp.Redis.{Redis, Link}
use seckill_cpp.Cache.Bloom.{BloomFilter, ready}
use seckill_cpp.Cache.SkuCache.{Local, SkuCache, set_list, set_detail}
use seckill_cpp.Products.{Result, selected, raised, Catalog, Products, on_cache}

-- `if (limit < 1) limit = 1;`
unfoldable pub warm_limit : ℤ → ℕ
warm_limit (pos zero) = 1
warm_limit (pos (suc n)) = suc n
warm_limit (negsuc n) = 1

-- `warmed` counts the rows if there is a cache.
unfoldable pub count_row : {C : Type 0} → Option C → ℕ → ℕ
count_row none n = n
count_row (some c) n = n + 1

abbrev pub list_rows : ℕ
list_rows = 100

-- `BloomStats`
pub record BloomStats : Type 0 where
  pub enabled : Bool
  pub is_ready : Bool
  pub added : ℕ
  pub bits : ℕ
  pub hashes : ℕ
  pub rejected : ℕ

unfoldable pub filter_stats : Bool → ℕ → Option BloomFilter → BloomStats
filter_stats enabled rejected none = record {
  enabled = enabled;
  is_ready = false;
  added = 0;
  bits = 0;
  hashes = 0;
  rejected = rejected;
}
filter_stats enabled rejected (some f) =
    if ready f
    then record {
      enabled = enabled;
      is_ready = true;
      added = f.added;
      bits = f.bits_count;
      hashes = f.hashes;
      rejected = rejected;
    }
    else record {
      enabled = enabled;
      is_ready = false;
      added = 0;
      bits = 0;
      hashes = 0;
      rejected = rejected;
    }

module _ {G : Catalog} {R : Redis} {K : Local} where
  -- The loop over the rows: the list so far, `warmed`, and the service.
  unfoldable pub warm_rows :
      (ℤ → Link × ℕ)
      → List (ℤ × G.Json)
      → List G.Json
      → ℕ
      → Products G R K
      → List G.Json × ℕ × Products G R K
  warm_rows env [] arr n p = (arr, n, p)
  warm_rows env ((id, j) ∷ rows) arr n p =
      warm_rows env rows (if ltb (length arr) list_rows then arr ++ (j ∷ []) else arr)
        (count_row p.cache n)
        (record p { cache = on_cache (set_detail (env id).0 (env id).1 id (G.compact j)) p.cache })

  unfoldable pub warm_list : Link × ℕ → List G.Json → Products G R K → Products G R K
  warm_list (link, drawn) [] p = p
  warm_list (link, drawn) (j ∷ js) p = record p {
    cache = on_cache (set_list link drawn (G.compact (G.array (j ∷ js)))) p.cache;
  }

  -- The callbacks of the SELECT.
  unfoldable pub on_warm :
      (ℤ → Link × ℕ)
      → Link × ℕ
      → Result (List (ℤ × G.Json))
      → Products G R K
      → (Bool × ℕ) × Products G R K
  on_warm env last raised p = ((false, 0), p)
  on_warm env last (selected rows) p =
      let (arr, n, p') = warm_rows env rows [] 0 p in ((true, n), warm_list last arr p')

  -- `warmCache`: `cb(ok, warmed)`, and the service.
  unfoldable pub warm_cache :
      (ℤ → Link × ℕ) → Link × ℕ → ℤ → Products G R K → (Bool × ℕ) × Products G R K
  warm_cache env last limit p = on_warm env last (G.select_warm (warm_limit limit) p.db) p

  -- `bloomStats`
  unfoldable pub bloom_stats : Products G R K → BloomStats
  bloom_stats p = filter_stats p.bloom_enabled p.bloom_rejected p.bloom
