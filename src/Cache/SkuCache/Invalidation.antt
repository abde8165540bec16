-- ===== src/Cache/SkuCache/Invalidation.antt =====
-- SkuCache.cc: what an invalidation leaves of a key in the two levels.
pub mod Delayed
use seckill_cpp.Base.{
  ℕ, ◌+◌, ◌≤◌, ◌<◌, true, false, ◌&&◌, Option, none, some, Bytes, ltb, List, [], ◌∷◌, ◌⊎◌, ◌≡◌,
  refl, ◌∙◌, ap, inl, inr, arith, Bool-cases,
}
use seckill_cpp.Base.Int.{ℤ}
use seckill_cpp.Redis.{
  Redis, IsRedis, Keys, Link, answered, unreachable, answer_lost, put, put_self,
}
use seckill_cpp.Cache.Keys.{list_key, item_key}
use seckill_cpp.Cache.SkuCache.{
  Local, SkuCache, Task, is_off, on_reply, as_string, get_redis, find_local, after_local, get,
  map_local, on_command, del, del_both, set_detail, setex, schedule, del_all, run_task, run_delayed,
  invalidate, invalidate_item,
}

-- What is relied on of the local cache: a key that was removed is not found, and to remove another
-- does not bring it back.
pub record IsLocal (K : Local) : Type 0 where
  pub find_removed : (k : Bytes) (l : K.Lru) → (K.find k (K.remove k l)).0 ≡ none
  pub remove_keeps :
      (j k : Bytes) (l : K.Lru) → (K.find j l).0 ≡ none → (K.find j (K.remove k l)).0 ≡ none

module _ {R : Redis} {K : Local} (law : IsRedis R) (local_law : IsLocal K) where
  -- Neither level has the key.
  record Absent (key : Bytes) (c : SkuCache R K) : Type 0 where
    in_redis : R.keys c.store key ≡ none
    in_local : (l : K.Lru) → c.lru ≡ some l → (K.find key l).0 ≡ none

  found_local :
      (key : Bytes) (c : SkuCache R K) (o : Option K.Lru)
      → ((l : K.Lru) → o ≡ some l → (K.find key l).0 ≡ none)
      → R.keys c.store key ≡ none
      → (after_local answered key (find_local key c o)).0 ≡ none
  unfolding after_local find_local on_reply get_redis as_string
  found_local key c none h e = rw (law.get_law, e)
  found_local key c (some l) h e = rw (h l refl, law.get_law, e)

  Absent-miss : (key : Bytes) (c : SkuCache R K) → Absent key c → (get answered key c).0 ≡ none
  unfolding get
  Absent-miss key c a = elim (Bool-cases (is_off c)) [
    | inl off ↦ rw off
    | inr on ↦ rw on (found_local key c c.lru a.in_local a.in_redis)
  ]

  put_none : (k j : Bytes) (m : Keys) → m k ≡ none → put j none m k ≡ none
  put_none k j m h = ground (arith, h)

  removed_local :
      (k : Bytes) (o : Option K.Lru) (l : K.Lru)
      → map_local (K.remove k) o ≡ some l
      → (K.find k l).0 ≡ none
  unfolding map_local
  removed_local k none l e = absurd (cc)
  removed_local k (some l0) l e = ground (arith, e, local_law.find_removed k l0)

  kept_local :
      (j k : Bytes) (o : Option K.Lru)
      → ((l : K.Lru) → o ≡ some l → (K.find j l).0 ≡ none)
      → (l : K.Lru) → map_local (K.remove k) o ≡ some l
      → (K.find j l).0 ≡ none
  unfolding map_local
  kept_local j k none h l e = absurd (cc)
  kept_local j k (some l0) h l e = ground (arith, e, local_law.remove_keeps j k l0 (h l0 refl))

  del-Absent : (k : Bytes) (c : SkuCache R K) → is_off c ≡ false → Absent k (del answered k c)
  unfolding del on_command
  del-Absent k c on = rw on (record {
    in_redis = rw (law.del_law, put_self k none (R.keys c.store));
    in_local = λ l e. removed_local k c.lru l e;
  })

  -- What a schedule does not touch.
  schedule-Absent :
      (now : ℕ) (keys : List Bytes) (k : Bytes) (c : SkuCache R K)
      → Absent k c
      → Absent k (schedule now keys c)
  unfolding schedule
  schedule-Absent now [] k c a = a
  schedule-Absent now (x ∷ xs) k c a =
      elim (Bool-cases (ltb 0 c.cfg.double_delete_ms && c.has_redis)) [
        | inl on ↦ rw on (record { in_redis = a.in_redis; in_local = a.in_local })
        | inr off ↦ rw off a
      ]

  both_local :
      (i j k : Bytes) (o : Option K.Lru) (l : K.Lru)
      → (k ≡ i) ⊎ (k ≡ j)
      → map_local (λ l0. K.remove j (K.remove i l0)) o ≡ some l
      → (K.find k l).0 ≡ none
  unfolding map_local
  both_local i j k none l which e = absurd (cc)
  both_local i j k (some l0) l (inl same) e =
      ground
        (arith, e, same, local_law.remove_keeps i j (K.remove i l0) (local_law.find_removed i l0))
  both_local i j k (some l0) l (inr same) e =
      ground (arith, e, same, local_law.find_removed j (K.remove i l0))

  del_both-Absent :
      (i j k : Bytes) (c : SkuCache R K) → (k ≡ i) ⊎ (k ≡ j) → Absent k (del_both answered i j c)
  unfolding del_both on_command
  del_both-Absent i j k c (inl same) = record {
    in_redis = rw (
      law.del_law (R.del c.store i) j,
      same,
      put_none i j (R.keys (R.del c.store i))
          (rw (law.del_law c.store i, put_self i none (R.keys c.store))),
    );
    in_local = λ l e. both_local i j k c.lru l (inl same) e;
  }
  del_both-Absent i j k c (inr same) = record {
    in_redis =
        rw (law.del_law (R.del c.store i) j, same, put_self j none (R.keys (R.del c.store i)));
    in_local = λ l e. both_local i j k c.lru l (inr same) e;
  }

  get_off : (link : Link) (k : Bytes) (c : SkuCache R K) → is_off c ≡ true → (get link k c).0 ≡ none
  unfolding get
  get_off link k c off = rw off

  missing :
      (now : ℕ) (sku : ℤ) (k : Bytes) (c : SkuCache R K)
      → (k ≡ item_key c.cache_keys sku) ⊎ (k ≡ list_key c.cache_keys)
      → (get answered k (invalidate answered now sku c)).0 ≡ none
  unfolding invalidate
  missing now sku k c which = elim (Bool-cases (is_off c)) [
    | inl off ↦ rw off (get_off answered k c off)
    | inr on ↦ rw on (
        Absent-miss k _ (
          schedule-Absent now _ k _
            (del_both-Absent (item_key c.cache_keys sku) (list_key c.cache_keys) k c which)))
  ]

  -- For a Redis and a local cache that keep their laws: right after an invalidation that Redis
  -- answered, with the cache on or off, in one level or
  -- two: neither the item nor the list is found under the key that it had.
  pub get-invalidate :
      (now : ℕ) (sku : ℤ) (c : SkuCache R K)
      → ((get answered (item_key c.cache_keys sku) (invalidate answered now sku c)).0 ≡ none)
        × ((get answered (list_key c.cache_keys) (invalidate answered now sku c)).0 ≡ none)
  get-invalidate now sku c = (missing now sku _ c (inl refl), missing now sku _ c (inr refl))

  off_del : (k : Bytes) (c : SkuCache R K) → is_off c ≡ true → del answered k c ≡ c
  unfolding del
  off_del k c off = rw off

  get-del : (k : Bytes) (c : SkuCache R K) → (get answered k (del answered k c)).0 ≡ none
  get-del k c = elim (Bool-cases (is_off c)) [
    | inl off ↦ rw (off_del k c off) (get_off answered k c off)
    | inr on ↦ Absent-miss k _ (del-Absent k c on)
  ]

  ran :
      (now fire_at : ℕ) (k : Bytes) (c : SkuCache R K) (tasks : List Task)
      → tasks ≡ record { fire_at = fire_at; keys = k ∷ [] } ∷ []
      → fire_at ≤ now
      → (get answered k (run_task answered now tasks c)).0 ≡ none
  unfolding run_task del_all
  ran now fire_at k c tasks e h =
      let due : ltb now fire_at ≡ false = ground arith in rw (e, due) (get-del k _)

  tasks-command :
      (o : Option (Unit {0}) × R.Store) (c : SkuCache R K) → (on_command o c).tasks ≡ c.tasks
  unfolding on_command
  tasks-command (none, s) c = refl
  tasks-command (some r, s) c = refl

  tasks-setex :
      (link : Link) (k v : Bytes) (ttl : ℕ) (c : SkuCache R K)
      → (setex link k v ttl c).tasks ≡ c.tasks
  unfolding setex
  tasks-setex link k v ttl c = elim (Bool-cases (is_off c)) [
    | inl off ↦ rw off
    | inr on ↦ rw on (tasks-command _ _)
  ]

  del_same :
      (link : Link) (k : Bytes) (c : SkuCache R K)
      → is_off c ≡ false
      → ((del link k c).cfg ≡ c.cfg)
        × (((del link k c).has_redis ≡ c.has_redis) × ((del link k c).tasks ≡ c.tasks))
  unfolding del on_command
  del_same answered k c on = rw on (refl, (refl, refl))
  del_same unreachable k c on = rw on (refl, (refl, refl))
  del_same answer_lost k c on = rw on (refl, (refl, refl))

  scheduled :
      (now delay : ℕ) (k : Bytes) (c : SkuCache R K)
      → 0 < delay
      → c.cfg.double_delete_ms ≡ delay
      → c.has_redis ≡ true
      → c.tasks ≡ []
      → (schedule now (k ∷ []) c).tasks ≡ record { fire_at = now + delay; keys = k ∷ [] } ∷ []
  unfolding schedule
  scheduled now delay k c h d r e =
      let on : ltb 0 c.cfg.double_delete_ms ≡ true = ground arith in rw (on, r, e, d)

  tasks-invalidate_item :
      (link : Link) (now : ℕ) (sku : ℤ) (c : SkuCache R K)
      → is_off c ≡ false
      → 0 < c.cfg.double_delete_ms
      → c.tasks ≡ []
      → (invalidate_item link now sku c).tasks
        ≡ record { fire_at = now + c.cfg.double_delete_ms; keys = item_key c.cache_keys sku ∷ [] }
          ∷ []
  unfolding invalidate_item
  tasks-invalidate_item link now sku c on delay e =
      let (cfg, (redis, tasks)) = del_same link (item_key c.cache_keys sku) c on in
      let up : c.has_redis ≡ true = ground (arith, on) in
      rw on (
        scheduled now c.cfg.double_delete_ms (item_key c.cache_keys sku)
          (del link (item_key c.cache_keys sku) c) delay (ap (λ g. g.double_delete_ms) cfg)
          (redis ∙ up) (tasks ∙ e))

  -- The second delete, for a Redis and a local cache that keep their laws. The cache is on, with a delay for it and no task in the queue. After an
  -- invalidation of an item, anything may be written back under its key, such as a value that was
  -- read before the order. Once the delay is over, the next turn of the thread leaves the item
  -- missing.
  get-run_delayed :
      (link refill : Link) (now later drawn : ℕ) (sku : ℤ) (stale : Bytes) (c : SkuCache R K)
      → is_off c ≡ false
      → 0 < c.cfg.double_delete_ms
      → c.tasks ≡ []
      → now + c.cfg.double_delete_ms ≤ later
      → (get answered (item_key c.cache_keys sku) (
          run_delayed answered later
            (set_detail refill drawn sku stale (invalidate_item link now sku c)))).0
        ≡ none
  unfolding run_delayed set_detail
  get-run_delayed link refill now later drawn sku stale c on delay e h =
      ran later (now + c.cfg.double_delete_ms) (item_key c.cache_keys sku) _ _
        (tasks-setex refill _ stale _ _ ∙ tasks-invalidate_item link now sku c on delay e) h
