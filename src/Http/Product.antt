-- ===== src/Http/Product.antt =====
-- src/controllers/SeckillController.cc: the reads of the products.
use seckill_cpp.Base.{
  ℕ, zero, suc, Bool, true, false, Option, none, some, Bytes, lit, if◌then◌else◌, from_option, ◌≡◌,
  refl, ap, ◌∙◌,
}
use seckill_cpp.Base.Int.{ℤ, pos, negsuc}
use seckill_cpp.Base.Decimal.Parse.{stoll}
use seckill_cpp.Redis.{Redis, Link, unreachable}
use seckill_cpp.Cache.SkuCache.{Local, SkuCache}
use seckill_cpp.Products.{
  Result, selected, raised, Catalog, Products, bloom_allows, detail_sku, list_skus,
}
use seckill_cpp.Products.Reads.{answer_of, detail_sku_lem}
use seckill_cpp.Http.{HttpResponse, reply, reply_data}

-- The callbacks of `listSkus` and `detailSku`.
unfoldable pub list_reply {ℓ} : {D : Type ℓ} → Option D → HttpResponse D
list_reply none = reply 1 (lit "query failed") 500
list_reply (some d) = reply_data 0 d

unfoldable pub detail_reply {ℓ} : {D : Type ℓ} → Option D → HttpResponse D
detail_reply none = reply 1 (lit "sku not found") 404
detail_reply (some d) = reply_data 0 d

-- The id in the path, or -1 where `stoll` throws.
unfoldable pub path_sku : Bytes → ℤ
path_sku text = from_option (negsuc 0) (stoll text)

abbrev pub is_positive_id : ℤ → Bool
is_positive_id (pos (suc n)) = true
is_positive_id (pos zero) = false
is_positive_id (negsuc n) = false

-- The response for what the SELECT of an item ends with, and for what `stoll` reads.
pub found : {D : Type 0} → Result (Option D) → HttpResponse D
found raised = reply 1 (lit "sku not found") 404
found (selected none) = reply 1 (lit "sku not found") 404
found (selected (some d)) = reply_data 0 d

pub wanted : (G : Catalog) → G.Db → Option ℤ → HttpResponse G.Json
wanted G db none = reply 400 (lit "invalid skuId") 400
wanted G db (some (negsuc n)) = reply 400 (lit "invalid skuId") 400
wanted G db (some (pos zero)) = reply 400 (lit "invalid skuId") 400
wanted G db (some (pos (suc n))) = found (G.select_item (pos (suc n)) db)

found_lem : {D : Type 0} (r : Result (Option D)) → detail_reply (answer_of r) ≡ found r
unfolding detail_reply found
found_lem raised = refl
found_lem (selected none) = refl
found_lem (selected (some j)) = refl

module _ {G : Catalog} {R : Redis} {K : Local} where
  unfoldable pub list_request :
      Link × Link → ℕ → ℕ → Products G R K → HttpResponse G.Json × Products G R K
  list_request ls now drawn p = let (o, p') = list_skus ls now drawn p in (list_reply o, p')

  unfoldable pub detail_request :
      Link × Link → ℕ → ℕ → Bytes → Products G R K → HttpResponse G.Json × Products G R K
  detail_request ls now drawn text p =
      if is_positive_id (path_sku text)
      then (let (o, p') = detail_sku ls now drawn (path_sku text) p in (detail_reply o, p'))
      else (reply 400 (lit "invalid skuId") 400, p)

  by_id :
      (link : Link) (now drawn : ℕ) (text : Bytes) (p : Products G R K)
      → ((c : SkuCache R K) → p.cache ≡ some c → c.lru ≡ none)
      → (o : Option ℤ) → stoll text ≡ o
      → ((n : ℕ) → o ≡ some (pos (suc n)) → bloom_allows (pos (suc n)) p ≡ true)
      → (detail_request (unreachable, link) now drawn text p).0 ≡ wanted G p.db o
  unfolding detail_request path_sku wanted
  by_id link now drawn text p h none e b = rw e
  by_id link now drawn text p h (some (negsuc n)) e b = rw e
  by_id link now drawn text p h (some (pos zero)) e b = rw e
  by_id link now drawn text p h (some (pos (suc n))) e b = rw e (
      ap detail_reply (detail_sku_lem link now drawn (pos (suc n)) p h (b n refl))
      ∙ found_lem (G.select_item (pos (suc n)) p.db))

  -- Without a local cache, with a Redis that cannot be reached, and with a filter that lets the
  -- number in the text through if there is a positive one: a text from which no positive number is
  -- read is answered with 400, whatever the filter holds. For a positive number the answer is the
  -- product, if the database has one, and 404 if it has none or fails.
  pub detail_request_lem :
      (link : Link) (now drawn : ℕ) (text : Bytes) (p : Products G R K)
      → ((c : SkuCache R K) → p.cache ≡ some c → c.lru ≡ none)
      → ((n : ℕ) → stoll text ≡ some (pos (suc n)) → bloom_allows (pos (suc n)) p ≡ true)
      → (detail_request (unreachable, link) now drawn text p).0 ≡ wanted G p.db (stoll text)
  detail_request_lem link now drawn text p h b = by_id link now drawn text p h (stoll text) refl b
