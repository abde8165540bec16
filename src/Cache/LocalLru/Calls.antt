-- ===== src/Cache/LocalLru/Calls.antt =====
-- LocalLruCache.h: any sequence of calls.
use seckill_cpp.Base.{
  ℕ, ◌≡◌, ◌≤◌, refl, ap, ap₂, ◌∙◌, arith, Option, some, Bytes, List, [], ◌∷◌, length, max, ◌>>=◌,
}
use seckill_cpp.Cache.LocalLru.{
  LruItem, LocalLruCache, new_lru, lru_get, lru_put, lru_del, lru_size,
}
use seckill_cpp.Cache.LocalLru.Nodes.{items, without}
use seckill_cpp.Cache.LocalLru.Linked.{nothing-Linked}
use seckill_cpp.Cache.LocalLru.Refine.{IsValid, get_plain, lru_get_lem, removed}
use seckill_cpp.Cache.LocalLru.Stores.{put_plain, lru_put_lem}

-- One method after another; every answer of a `get` is kept.
pub data Call : Type 0 where
  get_at : ℕ → Bytes → Call
  put_at : ℕ → Bytes → Bytes → ℕ → Call
  del_of : Bytes → Call

unfoldable pub run : List Call → LocalLruCache → Option (List (Option Bytes) × LocalLruCache)
run [] c = some ([], c)
run (get_at now k ∷ calls) c = do
  (r, c') ← lru_get now k c
  (rs, c'') ← run calls c'
  some (r ∷ rs, c'')
run (put_at now k value ttl ∷ calls) c = do c' ← lru_put now k value ttl c; run calls c'
run (del_of k ∷ calls) c = run calls (lru_del k c)

unfoldable pub run_plain : ℕ → List Call → List LruItem → List (Option Bytes) × List LruItem
run_plain capacity [] l = ([], l)
run_plain capacity (get_at now k ∷ calls) l =
    let (r, l') = get_plain now k l in let (rs, l'') = run_plain capacity calls l' in (r ∷ rs, l'')
run_plain capacity (put_at now k value ttl ∷ calls) l =
    run_plain capacity calls (put_plain capacity now k value ttl l)
run_plain capacity (del_of k ∷ calls) l = run_plain capacity calls (without k l)

pub record Follows (capacity : ℕ) (r : List (Option Bytes) × List LruItem)
    (o : Option (List (Option Bytes) × LocalLruCache)) : Type 0 where
  pub cache : LocalLruCache
  pub returned : o ≡ some (r.0, cache)
  pub same : items cache.list ≡ r.1
  pub valid : IsValid cache
  pub kept : cache.capacity ≡ capacity

run_from :
    (calls : List Call) (c : LocalLruCache) (capacity : ℕ) (l : List LruItem)
    → IsValid c
    → c.capacity ≡ capacity
    → items c.list ≡ l
    → Follows capacity (run_plain capacity calls l) (run calls c)
unfolding run run_plain
run_from [] c capacity l v e s = record {
  cache = c;
  returned = refl;
  same = s;
  valid = v;
  kept = e;
}
run_from (get_at now k ∷ calls) c capacity l v e s =
    let r = lru_get_lem c v now k in
    let rest =
      run_from calls r.cache capacity (get_plain now k l).1 r.valid (r.kept ∙ e)
        (r.same ∙ ap (λ t. (get_plain now k t).1) s) in
    record {
      cache = rest.cache;
      returned =
          rw (r.returned, rest.returned)
            (ap
              (λ t. some (
                (get_plain now k t).0 ∷ (run_plain capacity calls (get_plain now k l).1).0,
                rest.cache,
              ))
              s);
      same = rest.same;
      valid = rest.valid;
      kept = rest.kept;
    }
run_from (put_at now k value ttl ∷ calls) c capacity l v e s =
    let r = lru_put_lem c v now k value ttl in
    rw r.returned (
      run_from calls r.cache capacity (put_plain capacity now k value ttl l) r.valid (r.kept ∙ e)
        (r.same ∙ ap₂ (λ n t. put_plain n now k value ttl t) e s))
run_from (del_of k ∷ calls) c capacity l v e s =
    let (valid, same, kept) = removed c v k in
    run_from calls (lru_del k c) capacity (without k l) valid (kept ∙ e) (same ∙ ap (without k) s)

pub new_lru-IsValid : (n : ℕ) → IsValid (new_lru n)
unfolding new_lru
new_lru-IsValid n = record {
  linked = nothing-Linked;
  positive = ground arith;
  bounded = ground arith;
}

new_lru-Follows :
    (n : ℕ) (calls : List Call)
    → Follows (new_lru n).capacity (run_plain (new_lru n).capacity calls []) (run calls (new_lru n))
new_lru-Follows n calls =
    run_from calls (new_lru n) (new_lru n).capacity [] (new_lru-IsValid n) refl (nothing n)
  where
    nothing : (n : ℕ) → items (new_lru n).list ≡ []
    nothing n = unfold new_lru in refl

new_capacity : (n : ℕ) → (new_lru n).capacity ≤ max n 1
unfolding new_lru
new_capacity n = ground arith

-- From a new cache of any capacity, any sequence of `get`, `put` and `del` runs to its end without
-- following an iterator whose node is gone. Its answers and the items that it leaves, from the
-- most to the least recently used, are those of the plain list: a `get` answers a value until its
-- time is over, removes it then, and moves it to the front otherwise; a `put` stands in front,
-- and what is beyond the capacity is dropped from the end; a `del` removes its key.
pub run_refines :
    (n : ℕ) (calls : List Call)
    → (c : LocalLruCache) × (run calls (new_lru n)
        ≡ some ((run_plain (new_lru n).capacity calls []).0, c))
      × (items c.list ≡ (run_plain (new_lru n).capacity calls []).1)
run_refines n calls = let r = new_lru-Follows n calls in (r.cache, r.returned, r.same)

-- From a new cache of any capacity `n`, after any sequence of `get`, `put` and `del`, the map has as
-- many keys as the list has nodes, and these are at most `n`, or 1 if `n` is 0.
run_bounded :
    (n : ℕ) (calls : List Call)
    → (rs : List (Option Bytes)) × (c : LocalLruCache) × (run calls (new_lru n) ≡ some (rs, c))
      × (lru_size c ≡ length c.list)
      × (lru_size c ≤ max n 1)
unfolding lru_size
run_bounded n calls =
    let r = new_lru-Follows n calls in
    (
      (run_plain (new_lru n).capacity calls []).0,
      r.cache,
      r.returned,
      r.valid.linked.counted,
      bound n r.cache r.valid r.kept,
    )
  where
    bound :
        (n : ℕ) (c : LocalLruCache)
        → IsValid c
        → c.capacity ≡ (new_lru n).capacity
        → c.map.size ≤ max n 1
    bound n c v e = omega (arith, v.bounded, v.linked.counted, e, new_capacity n)
