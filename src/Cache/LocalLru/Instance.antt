-- ===== src/Cache/LocalLru/Instance.antt =====
-- LocalLruCache.h as the local cache that SkuCache asks for. The state carries the time beside a
-- cache that is valid; `lru_get_lem` and `lru_put_lem` say that the results are those of the code.
use seckill_cpp.Base.{
  ℕ, ◌≡◌, false, refl, sym, ap, ◌∙◌, Option, none, some, Bytes, if◌then◌else◌, leb, str_eq,
  str_eq_refl, str_eq→eq, List, [], ◌∷◌, inl, inr, Bool-cases, Option-cases, subst,
}
use seckill_cpp.Cache.SkuCache.{Local}
use seckill_cpp.Cache.SkuCache.Invalidation.{IsLocal}
use seckill_cpp.Cache.LocalLru.{LruItem, LocalLruCache, lru_del}
use seckill_cpp.Cache.LocalLru.Nodes.{items, look, without, id_of, look-id_of, id_of-erase_node}
use seckill_cpp.Cache.LocalLru.Refine.{IsValid, get_plain, lru_get_lem, removed, at_of}
use seckill_cpp.Cache.LocalLru.Stores.{lru_put_lem}

-- A valid cache at a time.
pub record Timed : Type 0 where
  pub now : ℕ
  pub cache : LocalLruCache
  pub valid : IsValid cache

unfoldable pub timed_get : Bytes → Timed → Option Bytes × Timed
timed_get k l =
    let r = lru_get_lem l.cache l.valid l.now k in
    (
      (get_plain l.now k (items l.cache.list)).0,
      record { now = l.now; cache = r.cache; valid = r.valid },
    )

unfoldable pub timed_put : Bytes → Bytes → ℕ → Timed → Timed
timed_put k value ttl l =
    let r = lru_put_lem l.cache l.valid l.now k value ttl in
    record { now = l.now; cache = r.cache; valid = r.valid }

unfoldable pub timed_del : Bytes → Timed → Timed
timed_del k l = record {
  now = l.now;
  cache = lru_del k l.cache;
  valid = (removed l.cache l.valid k).0;
}

abbrev pub Lru : Local
Lru = record { Lru = Timed; find = timed_get; put = timed_put; remove = timed_del }

gone_plain :
    (now : ℕ) (k : Bytes) (l : List LruItem) → look k l ≡ none → (get_plain now k l).0 ≡ none
unfolding get_plain
gone_plain now k l e = rw (e, get_plain)

id_of-lru_del : (c : LocalLruCache) (v : IsValid c) (k : Bytes) → id_of k (lru_del k c).list ≡ none
unfolding lru_del
id_of-lru_del c v k = elim (Option-cases (id_of k c.list)) [
  | inl gone ↦ rw (at_of c v k none gone, lru_del) gone
  | inr (n, e) ↦
      rw (at_of c v k (some n) e, lru_del)
        (id_of-erase_node k k n c.list v.linked.distinct e ∙ rw (str_eq_refl k))
]

look-without :
    (j k : Bytes) (l : List LruItem) → str_eq j k ≡ false → look j (without k l) ≡ look j l
unfolding look without
look-without j k [] h = refl
look-without j k (x ∷ l) h = elim (Bool-cases (str_eq k x.key)) [
  | inl same ↦
      let apart : str_eq j x.key ≡ false =
        subst (λ t. str_eq j t ≡ false) (str_eq→eq k x.key same) h in
      rw (same, apart)
  | inr other ↦ rw other (ap (λ t. if str_eq j x.key then some x else t) (look-without j k l h))
]

-- The answer of a `get`, from what stands under the key.
answer : ℕ → Option LruItem → Option Bytes
answer now none = none
answer now (some x) = if leb x.expire_at now then none else some x.value

answer_lem :
    (now : ℕ) (k : Bytes) (l : List LruItem) → (get_plain now k l).0 ≡ answer now (look k l)
unfolding get_plain answer
answer_lem now k l = elim (Option-cases (look k l)) [
  | inl gone ↦ rw (gone, get_plain, answer)
  | inr (x, found) ↦
      rw (found, get_plain, answer)
        (elim (Bool-cases (leb x.expire_at now)) [ inl over ↦ rw over | inr fresh ↦ rw fresh ])
]

-- What a `get` answers for another key.
plain_ne :
    (now : ℕ) (j k : Bytes) (l : List LruItem)
    → str_eq j k ≡ false
    → (get_plain now j l).0 ≡ none
    → (get_plain now j (without k l)).0 ≡ none
plain_ne now j k l h e =
    answer_lem now j (without k l)
    ∙ ap (answer now) (look-without j k l h)
    ∙ sym (answer_lem now j l)
    ∙ e

find_removed : (k : Bytes) (l : Timed) → (timed_get k (timed_del k l)).0 ≡ none
unfolding timed_get timed_del
find_removed k l =
    gone_plain l.now k _ (look-id_of k (lru_del k l.cache).list (id_of-lru_del l.cache l.valid k))

remove_keeps :
    (j k : Bytes) (l : Timed) → (timed_get j l).0 ≡ none → (timed_get j (timed_del k l)).0 ≡ none
unfolding timed_get timed_del
remove_keeps j k l h = elim (Bool-cases (str_eq j k)) [
  | inl same ↦ rw (str_eq→eq j k same) (find_removed k l)
  | inr other ↦ rw (removed l.cache l.valid k).1 (plain_ne l.now j k (items l.cache.list) other h)
]

-- The code of LocalLruCache is such a local cache, at any time and in any valid state.
pub Lru-IsLocal : IsLocal Lru
Lru-IsLocal = record { find_removed = find_removed; remove_keeps = remove_keeps }
