-- ===== src/Cache/LocalLru/Tests.antt =====
-- A local cache of two items in use.
use seckill_cpp.Base.{none, some, lit, List, [], ◌∷◌, ◌≡◌, refl, str_eq, ◌>>=◌}
use seckill_cpp.Cache.LocalLru.{
  LocalLruCache, new_lru, lru_get, lru_put, lru_del, get_node, node_at, erase_node, splice_front,
  erase_key, put_key, back, pop_back, evict, evict_tail, refresh, emplace_front, shrink,
}
use seckill_cpp.Cache.LocalLru.Nodes.{items}
use seckill_cpp.Cache.LocalLru.Calls.{Call, get_at, put_at, del_of, run, run_plain, run_refines}

-- `a` is used before `c` is stored, so `b` goes; `a` is over at 5000.
abbrev calls : List Call
calls =
    put_at 0 (lit "a") (lit "1") 5
    ∷ put_at 0 (lit "b") (lit "2") 60
    ∷ get_at 1000 (lit "a")
    ∷ put_at 2000 (lit "c") (lit "3") 60
    ∷ get_at 4999 (lit "a")
    ∷ get_at 5000 (lit "a")
    ∷ get_at 5000 (lit "b")
    ∷ get_at 5000 (lit "c")
    ∷ del_of (lit "c")
    ∷ get_at 5000 (lit "c")
    ∷ []

calls_test :
    (run calls (new_lru 2) >>= λ r. some r.0)
    ≡ some (some (lit "1") ∷ some (lit "1") ∷ none ∷ none ∷ some (lit "3") ∷ none ∷ [])
unfolding run new_lru lru_get lru_put lru_del get_node node_at erase_node splice_front erase_key
    put_key back pop_back evict evict_tail refresh emplace_front shrink str_eq
calls_test = refl

run_refines_example :
    (c : LocalLruCache) × (run calls (new_lru 2)
      ≡ some ((run_plain (new_lru 2).capacity calls []).0, c))
    × (items c.list ≡ (run_plain (new_lru 2).capacity calls []).1)
run_refines_example = run_refines 2 calls
