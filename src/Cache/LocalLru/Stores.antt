-- ===== src/Cache/LocalLru/Stores.antt =====
-- LocalLruCache.h: `put` against a plain list of items, and the node that it drops.
use seckill_cpp.Base.{
  ℕ, ◌+◌, ◌*◌, ◌≡◌, ◌≤◌, ◌<◌, refl, sym, ap, ◌∙◌, arith, Option, none, some, zero, suc, Bytes, ltb,
  List, [], ◌∷◌, length, take, inl, inr, Bool-cases, Option-cases, subst,
}
use seckill_cpp.Cache.LocalLru.{
  LruItem, Nodes, LocalLruCache, erase_node, splice_front, erase_key, back, pop_back, evict,
  evict_tail, refresh, emplace_front, shrink, lru_put,
}
use seckill_cpp.Cache.LocalLru.Nodes.{
  items, without, drop_last, id_of, Distinct, node_at-id_of, look-id_of, items-erase_node,
  length-erase_node, back_lem, items-pop_back,
}
use seckill_cpp.Cache.LocalLru.Linked.{Linked, erase-Linked, put-Linked}
use seckill_cpp.Cache.LocalLru.Refine.{IsValid, without_absent, spliced-IsValid, at_of}

-- To store is to put in front and to keep as many as the capacity allows.
unfoldable pub put_plain : ℕ → ℕ → Bytes → Bytes → ℕ → List LruItem → List LruItem
put_plain capacity now k v ttl l =
    take capacity (record { key = k; value = v; expire_at = now + 1000 * ttl } ∷ without k l)

length-items : (l : Nodes) → length (items l) ≡ length l
length-items [] = refl
length-items ((n, x) ∷ l) = ap suc (length-items l)

take_all : (n : ℕ) (l : List LruItem) → length l ≤ n → take n l ≡ l
take_all zero [] h = refl
take_all zero (x ∷ l) h = absurd (omega arith)
take_all (suc n) [] h = refl
take_all (suc n) (x ∷ l) h = ap (◌∷◌ x) (take_all n l (omega arith))

drop_last-take : (n : ℕ) (l : List LruItem) → length l ≡ suc n → drop_last l ≡ take n l
unfolding drop_last
drop_last-take n [] h = absurd (omega arith)
drop_last-take n (x ∷ []) h = let e : n ≡ 0 = omega arith in rw e
drop_last-take zero (x ∷ y ∷ l) h = absurd (omega arith)
drop_last-take (suc n) (x ∷ y ∷ l) h = ap (◌∷◌ x) (drop_last-take n (y ∷ l) (omega arith))

-- The same for a call without a result.
pub record Becomes (l : List LruItem) (capacity : ℕ) (o : Option LocalLruCache) : Type 0 where
  pub cache : LocalLruCache
  pub returned : o ≡ some cache
  pub valid : IsValid cache
  pub same : items cache.list ≡ l
  pub kept : cache.capacity ≡ capacity

last_node :
    (l : Nodes)
    → Distinct l
    → 0 < length l
    → (n : ℕ) × (x : LruItem) × (back l ≡ some x)
      × (id_of x.key l ≡ some n)
      × (pop_back l ≡ erase_node n l)
last_node [] d h = absurd (omega arith)
last_node ((i, y) ∷ l) d h = back_lem i y l d

-- One node too many: the last one goes.
evicted :
    (c : LocalLruCache)
    → Linked c.next_node c.map c.list
    → 0 < c.capacity
    → length c.list ≡ suc c.capacity
    → Becomes (take c.capacity (items c.list)) c.capacity (evict_tail c)
unfolding evict_tail evict
evicted c linked p h =
    let (n, x, last, id, popped) = last_node c.list linked.distinct (omega arith) in
    let (y, at, found, key) = node_at-id_of x.key n c.list linked.distinct id in
    let left = length-erase_node n y c.list at in
    rw last (record {
      cache = record c { list = pop_back c.list; map = erase_key x.key c.map };
      returned = refl;
      valid = record {
        linked = rw popped (erase-Linked c.next_node c.map c.list linked x.key n id);
        positive = p;
        bounded = rw popped (omega arith);
      };
      same =
          items-pop_back c.list
          ∙ drop_last-take c.capacity (items c.list) (length-items c.list ∙ h);
      kept = refl;
    })

shrunk :
    (c : LocalLruCache)
    → Linked c.next_node c.map c.list
    → 0 < c.capacity
    → length c.list ≤ suc c.capacity
    → Becomes (take c.capacity (items c.list)) c.capacity (shrink c)
unfolding shrink
shrunk c linked p h = elim (Bool-cases (ltb c.capacity c.map.size)) [
  | inl over ↦ rw over (evicted c linked p (ground (arith, over, linked.counted)))
  | inr fits ↦
      let few : length c.list ≤ c.capacity = ground (arith, fits, linked.counted) in
      rw fits (record {
        cache = c;
        returned = refl;
        valid = record { linked = linked; positive = p; bounded = few };
        same = sym (take_all c.capacity (items c.list) (omega (arith, length-items c.list)));
        kept = refl;
      })
]

module _ (c : LocalLruCache) (v : IsValid c) where
  inserted :
      (k value : Bytes) (t : ℕ)
      → id_of k c.list ≡ none
      → Becomes
          (take c.capacity
            (record { key = k; value = value; expire_at = t } ∷ without k (items c.list)))
          c.capacity
          (shrink (emplace_front k value t c))
  unfolding emplace_front
  inserted k value t e = rw (without_absent k (items c.list) (look-id_of k c.list e)) (
      shrunk (emplace_front k value t c)
        (put-Linked c.next_node c.map c.list v.linked
          (record { key = k; value = value; expire_at = t }) e)
        v.positive (omega (arith, v.bounded)))

  refreshed :
      (value : Bytes) (t n : ℕ) (x : LruItem)
      → id_of x.key c.list ≡ some n
      → Becomes
          (take c.capacity
            (record { key = x.key; value = value; expire_at = t } ∷ without x.key (items c.list)))
          c.capacity
          (refresh value t n (some x) c)
  unfolding refresh splice_front
  refreshed value t n x e =
      let (y, at, found, key) = node_at-id_of x.key n c.list v.linked.distinct e in
      let rest = items-erase_node x.key n c.list v.linked.distinct e in
      record {
        cache = record c {
          list = splice_front n (record x { value = value; expire_at = t }) c.list;
        };
        returned = refl;
        valid = spliced-IsValid c v (record x { value = value; expire_at = t }) n e;
        same =
            ap (◌∷◌ (record x { value = value; expire_at = t })) rest
            ∙ sym (
                take_all c.capacity _ (
                  omega (
                    arith,
                    v.bounded,
                    length-erase_node n y c.list at,
                    ap (length {A = LruItem}) rest,
                    length-items (erase_node n c.list),
                  )));
        kept = refl;
      }

  pub lru_put_lem :
      (now : ℕ) (k value : Bytes) (ttl : ℕ)
      → Becomes
          (put_plain c.capacity now k value ttl (items c.list))
          c.capacity
          (lru_put now k value ttl c)
  unfolding lru_put put_plain
  lru_put_lem now k value ttl = elim (Option-cases (id_of k c.list)) [
    | inl gone ↦ rw (at_of c v k none gone, lru_put) (inserted k value (now + 1000 * ttl) gone)
    | inr (n, e) ↦
        let (x, at, found, key) = node_at-id_of k n c.list v.linked.distinct e in
        rw (at_of c v k (some n) e, at, lru_put)
          (subst
            (λ j.
              Becomes
                (take c.capacity (
                  record { key = j; value = value; expire_at = now + 1000 * ttl }
                  ∷ without j (items c.list)))
                c.capacity (refresh value (now + 1000 * ttl) n (some x) c))
            key (refreshed value (now + 1000 * ttl) n x (rw key e)))
  ]
