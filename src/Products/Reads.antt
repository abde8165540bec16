-- ===== src/Products/Reads.antt =====
-- What the product reads answer, and that a rebuilt filter hides no product.
use seckill_cpp.Base.{
  ℕ, ◌+◌, ◌<◌, ◌^◌, Bool, true, false, not, ◌&&◌, Option, none, some, if◌then◌else◌, List, [], ◌∷◌,
  ◌++◌, map, ◌≡◌, refl, ap, arith, inl, inr, Bool-cases,
}
use seckill_cpp.Base.Int.{ℤ, to_u64}
use seckill_cpp.Redis.{Redis, Link, unreachable}
use seckill_cpp.Cache.Bloom.{BloomFilter, create, ready, maybe_contains}
use seckill_cpp.Cache.Bloom.Members.{maybe_contains-create}
use seckill_cpp.Cache.SkuCache.{
  Local, SkuCache, get_detail, get, find_local, after_local, get_redis, on_reply, is_off,
}
use seckill_cpp.Products.{
  Result, selected, raised, Catalog, Products, on_item, query_detail, filter_allows, bloom_allows,
  on_detail, detail_cached, detail_by, detail_sku, on_ids, rebuild_bloom,
}

map-append : (f : ℤ → ℕ) (xs ys : List ℤ) → map f (xs ++ ys) ≡ map f xs ++ map f ys
map-append f [] ys = refl
map-append f (x ∷ xs) ys = ap (λ l. f x ∷ l) (map-append f xs ys)

allowed_by :
    (sku : ℤ) (f : BloomFilter)
    → maybe_contains (to_u64 sku) f ≡ true
    → filter_allows sku (some f) ≡ true
unfolding filter_allows
allowed_by sku f h = elim (Bool-cases (ready f)) [ inl on ↦ rw on h | inr off ↦ rw off ]

-- The answer that the database alone would give.
abbrev pub answer_of : {J : Type 0} → Result (Option J) → Option J
answer_of raised = none
answer_of (selected o) = o

missed :
    {R : Redis} {K : Local} (sku : ℤ) (c : SkuCache R K)
    → c.lru ≡ none
    → (get_detail unreachable sku c).0 ≡ none
unfolding get_detail get find_local after_local get_redis on_reply
missed sku c e = elim (Bool-cases (is_off c)) [ inl off ↦ rw off | inr on ↦ rw (on, e) ]

if_both :
    {A B : Type 0} (b : Bool) (x y : A × B) (r : A) → x.0 ≡ r → y.0 ≡ r → (if b then x else y).0 ≡ r
if_both true x y r h k = h
if_both false x y r h k = k

module _ {G : Catalog} {R : Redis} {K : Local} where
  -- With the filter switched on: after a rebuild, the filter lets through every product whose id
  -- the table gave, whatever its capacity and its error rate, and whatever `double` computes, as
  -- long as the number of bits that comes out is so far below 2 ^ 64 that adding 63 does not wrap.
  pub bloom_allows-rebuild_bloom :
      (p : Products G R K) (before after : List ℤ) (sku : ℤ)
      → p.bloom_enabled ≡ true
      → G.select_ids p.db ≡ selected (before ++ (sku ∷ after))
      → (create G.doubles p.bloom_capacity p.bloom_error_rate).bits_count + 63 < 2 ^ 64
      → bloom_allows sku (rebuild_bloom p).1 ≡ true
  unfolding bloom_allows rebuild_bloom on_ids
  bloom_allows-rebuild_bloom p before after sku on e h =
      rw (on, e, map-append to_u64 before (sku ∷ after))
        (allowed_by sku _ (
          maybe_contains-create G.doubles p.bloom_capacity p.bloom_error_rate (map to_u64 before)
            (map to_u64 after) (to_u64 sku) h))

  from_db :
      (link : Link) (drawn : ℕ) (sku : ℤ) (write : Bool) (o : Result (Option G.Json))
      → (p : Products G R K) → (on_item link drawn sku write o p).0 ≡ answer_of o
  unfolding on_item
  from_db link drawn sku write raised p = refl
  from_db link drawn sku write (selected none) p = refl
  from_db link drawn sku write (selected (some j)) p = refl

  through_cache :
      (link : Link) (now drawn : ℕ) (sku : ℤ) (c : SkuCache R K) (p : Products G R K)
      → c.lru ≡ none
      → bloom_allows sku p ≡ true
      → (detail_cached (unreachable, link) now drawn sku c p).0 ≡ answer_of (G.select_item sku p.db)
  unfolding detail_cached on_detail query_detail
  through_cache link now drawn sku c p e b =
      let through : (p.bloom_enabled && not (bloom_allows sku p)) ≡ false = ground (arith, b) in
      rw (through, missed sku c e) (from_db link drawn sku true _ _)

  by_cache :
      (link : Link) (now drawn : ℕ) (sku : ℤ) (o : Option (SkuCache R K)) (p : Products G R K)
      → ((c : SkuCache R K) → o ≡ some c → c.lru ≡ none)
      → bloom_allows sku p ≡ true
      → (detail_by (unreachable, link) now drawn sku o p).0 ≡ answer_of (G.select_item sku p.db)
  unfolding detail_by query_detail
  by_cache link now drawn sku none p h b = from_db link drawn sku false _ p
  by_cache link now drawn sku (some c) p h b =
      if_both c.cfg.enabled _ _ _ (through_cache link now drawn sku c p (h c refl) b)
        (from_db link drawn sku false _ p)

  -- Without a local cache and with a Redis that cannot be reached, whatever the settings: for a
  -- product that the filter lets through, `detailSku` answers what the database says.
  pub detail_sku_lem :
      (link : Link) (now drawn : ℕ) (sku : ℤ) (p : Products G R K)
      → ((c : SkuCache R K) → p.cache ≡ some c → c.lru ≡ none)
      → bloom_allows sku p ≡ true
      → (detail_sku (unreachable, link) now drawn sku p).0 ≡ answer_of (G.select_item sku p.db)
  unfolding detail_sku
  detail_sku_lem link now drawn sku p h b = by_cache link now drawn sku p.cache p h b
