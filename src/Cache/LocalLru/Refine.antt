-- ===== src/Cache/LocalLru/Refine.antt =====
-- LocalLruCache.h: `get` and `del` against a plain list of items, most recently used first.
use seckill_cpp.Base.{
  ℕ, ◌≡◌, ◌≤◌, ◌<◌, refl, sym, ap, ◌∙◌, arith, Option, none, some, Bytes, if◌then◌else◌, leb, List,
  [], ◌∷◌, length, inl, inr, Bool-cases, Option-cases,
}
use seckill_cpp.Cache.LocalLru.{
  LruItem, LocalLruCache, erase_node, splice_front, erase_key, get_node, lru_get, lru_del,
}
use seckill_cpp.Cache.LocalLru.Nodes.{
  items, look, without, id_of, node_at-id_of, look-id_of, items-erase_node, length-erase_node,
}
use seckill_cpp.Cache.LocalLru.Linked.{Linked, erase-Linked, splice-Linked}

pub record IsValid (c : LocalLruCache) : Type 0 where
  pub linked : Linked c.next_node c.map c.list
  pub positive : 0 < c.capacity
  pub bounded : length c.list ≤ c.capacity

-- The plain cache. An item is used up to its time.
unfoldable pub get_plain : ℕ → Bytes → List LruItem → Option Bytes × List LruItem
get_plain now k l = elim (look k l) [
  | none ↦ (none, l)
  | some x ↦ if leb x.expire_at now then (none, without k l) else (some x.value, x ∷ without k l)
]

pub without_absent : (k : Bytes) (l : List LruItem) → look k l ≡ none → without k l ≡ l
unfolding look without
without_absent k [] e = refl
without_absent k (x ∷ l) e = ground (arith, without_absent k l)

-- What a call returned is what the plain cache returns, and the state stands for its state.
pub record Returns (r : Option Bytes × List LruItem) (capacity : ℕ)
    (o : Option (Option Bytes × LocalLruCache)) : Type 0 where
  pub cache : LocalLruCache
  pub returned : o ≡ some (r.0, cache)
  pub valid : IsValid cache
  pub same : items cache.list ≡ r.1
  pub kept : cache.capacity ≡ capacity

module _ (c : LocalLruCache) (v : IsValid c) where
  removed-IsValid :
      (k : Bytes) (n : ℕ)
      → id_of k c.list ≡ some n
      → IsValid (record c { list = erase_node n c.list; map = erase_key k c.map })
  removed-IsValid k n e =
      let (x, at, found, key) = node_at-id_of k n c.list v.linked.distinct e in
      record {
        linked = erase-Linked c.next_node c.map c.list v.linked k n e;
        positive = v.positive;
        bounded = omega (arith, v.bounded, length-erase_node n x c.list at);
      }

  pub spliced-IsValid :
      (x : LruItem) (n : ℕ)
      → id_of x.key c.list ≡ some n
      → IsValid (record c { list = splice_front n x c.list })
  unfolding splice_front
  spliced-IsValid x n e =
      let (y, at, found, key) = node_at-id_of x.key n c.list v.linked.distinct e in
      record {
        linked = splice-Linked c.next_node c.map c.list v.linked n x e;
        positive = v.positive;
        bounded = omega (arith, v.bounded, length-erase_node n y c.list at);
      }

  got :
      (now : ℕ) (k : Bytes) (n : ℕ) (x : LruItem)
      → id_of k c.list ≡ some n
      → x.key ≡ k
      → Returns
          (if leb x.expire_at now
            then (none, without k (items c.list))
            else (some x.value, x ∷ without k (items c.list)))
          c.capacity
          (get_node now k n (some x) c)
  unfolding get_node splice_front
  got now k n x e same = elim (Bool-cases (leb x.expire_at now)) [
    | inl over ↦ rw over (record {
      cache = record c { list = erase_node n c.list; map = erase_key k c.map };
      returned = refl;
      valid = removed-IsValid k n e;
      same = items-erase_node k n c.list v.linked.distinct e;
      kept = refl;
    })
    | inr fresh ↦ rw fresh (record {
      cache = record c { list = splice_front n x c.list };
      returned = refl;
      valid = spliced-IsValid x n (rw same e);
      same = ap (◌∷◌ x) (items-erase_node k n c.list v.linked.distinct e);
      kept = refl;
    })
  ]

  pub at_of : (k : Bytes) (o : Option ℕ) → id_of k c.list ≡ o → c.map.at k ≡ o
  at_of k o e = v.linked.agree k ∙ e

  pub lru_get_lem :
      (now : ℕ) (k : Bytes) → Returns (get_plain now k (items c.list)) c.capacity (lru_get now k c)
  unfolding lru_get get_plain
  lru_get_lem now k = elim (Option-cases (id_of k c.list)) [
    | inl gone ↦
        rw (at_of k none gone, look-id_of k c.list gone, lru_get, get_plain)
          (record { cache = c; returned = refl; valid = v; same = refl; kept = refl })
    | inr (n, e) ↦
        let (x, at, found, key) = node_at-id_of k n c.list v.linked.distinct e in
        rw (at_of k (some n) e, at, found, lru_get, get_plain) (got now k n x e key)
  ]

  pub removed :
      (k : Bytes)
      → (IsValid (lru_del k c))
        × (items (lru_del k c).list ≡ without k (items c.list))
        × ((lru_del k c).capacity ≡ c.capacity)
  unfolding lru_del
  removed k = elim (Option-cases (id_of k c.list)) [
    | inl gone ↦
        rw (at_of k none gone, lru_del)
          (v, sym (without_absent k (items c.list) (look-id_of k c.list gone)), refl)
    | inr (n, e) ↦
        rw (at_of k (some n) e, lru_del)
          (removed-IsValid k n e, items-erase_node k n c.list v.linked.distinct e, refl)
  ]
