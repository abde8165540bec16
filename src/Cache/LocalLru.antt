-- ===== src/Cache/LocalLru.antt =====
-- src/service/LocalLruCache.h: the local cache with its list, most recently used first, and its
-- map from keys to iterators. A node of the list has a number, and an iterator is the number of
-- its node. To follow an iterator whose node is gone is a fault, `none`. Each method holds the
-- mutex throughout, so it is one step. Times are in milliseconds.
mod Nodes
mod Linked
mod Refine
mod Stores
pub mod Calls
pub mod Instance
mod Tests
use seckill_cpp.Base.{
  ℕ, ◌+◌, ◌-◌, ◌*◌, Bool, true, false, Option, none, some, Bytes, if◌then◌else◌, ltb, leb, ◌==◌,
  str_eq, List, [], ◌∷◌, length,
}

pub record LruItem : Type 0 where
  pub key : Bytes
  pub value : Bytes
  pub expire_at : ℕ

abbrev pub Nodes : Type 0
Nodes = List (ℕ × LruItem)

-- `std::unordered_map<std::string, List::iterator>`
pub record Index : Type 0 where
  pub at : Bytes → Option ℕ
  pub size : ℕ

pub record LocalLruCache : Type 0 where
  pub capacity : ℕ
  pub next_node : ℕ
  pub list : Nodes
  pub map : Index

unfoldable pub new_lru : ℕ → LocalLruCache
new_lru capacity = record {
  capacity = if ltb 0 capacity then capacity else 1;
  next_node = 0;
  list = [];
  map = record { at = λ k. none; size = 0 };
}

-- `map_.erase` and `map_[key] = it`
unfoldable pub erase_key : Bytes → Index → Index
erase_key k m = record {
  at = λ j. if str_eq j k then none else m.at j;
  size = elim (m.at k) [ none ↦ m.size | some n ↦ m.size - 1 ];
}

unfoldable pub put_key : Bytes → ℕ → Index → Index
put_key k n m = record {
  at = λ j. if str_eq j k then some n else m.at j;
  size = elim (m.at k) [ none ↦ m.size + 1 | some i ↦ m.size ];
}

-- `*it`
unfoldable pub node_at : ℕ → Nodes → Option LruItem
node_at n [] = none
node_at n ((m, x) ∷ l) = if m == n then some x else node_at n l

-- `list_.erase(it)`
unfoldable pub erase_node : ℕ → Nodes → Nodes
erase_node n [] = []
erase_node n ((m, x) ∷ l) = if m == n then l else (m, x) ∷ erase_node n l

-- `list_.splice(list_.begin(), list_, it)`, for a node that holds `x`
unfoldable pub splice_front : ℕ → LruItem → Nodes → Nodes
splice_front n x l = (n, x) ∷ erase_node n l

-- `list_.back()` and `list_.pop_back()`
unfoldable pub back : Nodes → Option LruItem
back [] = none
back ((n, x) ∷ []) = some x
back ((n, x) ∷ y ∷ l) = back (y ∷ l)

unfoldable pub pop_back : Nodes → Nodes
pop_back [] = []
pop_back (x ∷ []) = []
pop_back (x ∷ y ∷ l) = x ∷ pop_back (y ∷ l)

-- `get` from the iterator on; the test is that of the expiry.
unfoldable pub get_node :
    ℕ → Bytes → ℕ → Option LruItem → LocalLruCache → Option (Option Bytes × LocalLruCache)
get_node now key n none c = none
get_node now key n (some x) c =
    if leb x.expire_at now
    then some (none, record c { list = erase_node n c.list; map = erase_key key c.map })
    else some (some x.value, record c { list = splice_front n x c.list })

unfoldable pub lru_get : ℕ → Bytes → LocalLruCache → Option (Option Bytes × LocalLruCache)
lru_get now key c = elim (c.map.at key) [
  | none ↦ some (none, c)
  | some n ↦ get_node now key n (node_at n c.list) c
]

unfoldable pub evict : Option LruItem → LocalLruCache → Option LocalLruCache
evict none c = none
evict (some victim) c = some (record c { list = pop_back c.list; map = erase_key victim.key c.map })

unfoldable pub evict_tail : LocalLruCache → Option LocalLruCache
evict_tail c = evict (back c.list) c

-- `put` for a key that has a node, and for one that has none.
unfoldable pub refresh : Bytes → ℕ → ℕ → Option LruItem → LocalLruCache → Option LocalLruCache
refresh value expire_at n none c = none
refresh value expire_at n (some x) c =
    some (record c {
      list = splice_front n (record x { value = value; expire_at = expire_at }) c.list;
    })

unfoldable pub emplace_front : Bytes → Bytes → ℕ → LocalLruCache → LocalLruCache
emplace_front key value expire_at c = record c {
  next_node = c.next_node + 1;
  list = (c.next_node, record { key = key; value = value; expire_at = expire_at }) ∷ c.list;
  map = put_key key c.next_node c.map;
}

unfoldable pub shrink : LocalLruCache → Option LocalLruCache
shrink c = if ltb c.capacity c.map.size then evict_tail c else some c

unfoldable pub lru_put : ℕ → Bytes → Bytes → ℕ → LocalLruCache → Option LocalLruCache
lru_put now key value ttl c = elim (c.map.at key) [
  | none ↦ shrink (emplace_front key value (now + 1000 * ttl) c)
  | some n ↦ refresh value (now + 1000 * ttl) n (node_at n c.list) c
]

unfoldable pub lru_del : Bytes → LocalLruCache → LocalLruCache
lru_del key c = elim (c.map.at key) [
  | none ↦ c
  | some n ↦ record c { list = erase_node n c.list; map = erase_key key c.map }
]

unfoldable pub lru_size : LocalLruCache → ℕ
lru_size c = c.map.size
