-- ===== src/Cache/SkuCache/Invalidation/Delayed.antt =====
-- SkuCache.h: the thread for the second deletes, turn after turn.
use seckill_cpp.Base.{
  ℕ, zero, suc, ◌+◌, ◌%◌, ◌^◌, ◌≤◌, false, none, Bytes, ltb, List, [], ◌∷◌, length, ◌≡◌, refl, sym,
  ◌∙◌, arith, inl, inr, Bool-cases, subst,
}
use seckill_cpp.Redis.{Redis, IsRedis, Link, answered}
use seckill_cpp.Cache.SkuCache.{
  Local, SkuCache, Task, is_off, on_command, get, del, del_all, run_task, run_delayed,
}
use seckill_cpp.Cache.SkuCache.Invalidation.{
  IsLocal, Absent, Absent-miss, put_none, kept_local, del-Absent, del_same,
}

-- `n` turns of the loop of `run` at a time.
unfoldable pub turns : {R : Redis} {K : Local} → Link → ℕ → ℕ → SkuCache R K → SkuCache R K
turns link now zero c = c
turns link now (suc n) c = turns link now n (run_delayed link now c)

-- Every task is due.
abbrev pub Due : ℕ → List Task → Type 0
Due now [] = Unit
Due now (t ∷ ts) = (t.fire_at ≤ now) × Due now ts

-- The cache misses every key of a list, and of every task.
abbrev pub Misses : {R : Redis} {K : Local} → SkuCache R K → List Bytes → Type 0
Misses c [] = Unit
Misses c (k ∷ ks) = ((get answered k c).0 ≡ none) × Misses c ks

abbrev pub MissesAll : {R : Redis} {K : Local} → SkuCache R K → List Task → Type 0
MissesAll c [] = Unit
MissesAll c (t ∷ ts) = Misses c t.keys × MissesAll c ts

module _ {R : Redis} {K : Local} (law : IsRedis R) (local_law : IsLocal K) where
  still-Absent :
      (j k : Bytes) (c : SkuCache R K)
      → Absent law local_law j c
      → Absent law local_law j (del answered k c)
  unfolding del on_command
  still-Absent j k c a = elim (Bool-cases (is_off c)) [
    | inl off ↦ rw off a
    | inr on ↦ rw on (record {
      in_redis =
          rw (law.del_law c.store k) (put_none law local_law j k (R.keys c.store) a.in_redis);
      in_local = kept_local law local_law j k c.lru a.in_local;
    })
  ]

  Absent-all :
      (ks : List Bytes) (j : Bytes) (c : SkuCache R K)
      → Absent law local_law j c
      → Absent law local_law j (del_all answered ks c)
  unfolding del_all
  Absent-all [] j c a = a
  Absent-all (k ∷ ks) j c a = Absent-all ks j (del answered k c) (still-Absent j k c a)

  -- What a run of deletes does not touch.
  same_after :
      (ks : List Bytes) (c : SkuCache R K)
      → is_off c ≡ false
      → ((del_all answered ks c).tasks ≡ c.tasks) × (is_off (del_all answered ks c) ≡ false)
  unfolding del_all
  same_after [] c on = (refl, on)
  same_after (k ∷ ks) c on =
      let (cfg, (redis, tasks)) = del_same law local_law answered k c on in
      let on' : is_off (del answered k c) ≡ false = rw (cfg, redis) on in
      let (tasks', on'') = same_after ks (del answered k c) on' in (tasks' ∙ tasks, on'')

  run-Absent :
      (now : ℕ) (ts : List Task) (j : Bytes) (c : SkuCache R K)
      → Absent law local_law j c
      → Absent law local_law j (run_task answered now ts c)
  unfolding run_task
  run-Absent now [] j c a = a
  run-Absent now (t ∷ ts) j c a = elim (Bool-cases (ltb now t.fire_at)) [
    | inl early ↦ rw early a
    | inr due ↦
        rw due (Absent-all t.keys j _ (record { in_redis = a.in_redis; in_local = a.in_local }))
  ]

  turns-Absent :
      (now n : ℕ) (j : Bytes) (c : SkuCache R K)
      → Absent law local_law j c
      → Absent law local_law j (turns answered now n c)
  unfolding turns run_delayed
  turns-Absent now zero j c a = a
  turns-Absent now (suc n) j c a = turns-Absent now n j _ (run-Absent now c.tasks j c a)

  missed_after :
      (now n : ℕ) (ks : List Bytes) (c : SkuCache R K)
      → is_off c ≡ false
      → Misses (turns answered now n (del_all answered ks c)) ks
  unfolding del_all
  missed_after now n [] c on = tt
  missed_after now n (k ∷ ks) c on =
      let (cfg, (redis, tasks)) = del_same law local_law answered k c on in
      let on' : is_off (del answered k c) ≡ false = rw (cfg, redis) on in
      (
        Absent-miss law local_law k _ (
            turns-Absent now n k _
              (Absent-all ks k (del answered k c) (del-Absent law local_law k c on))),
        missed_after now n ks (del answered k c) on',
      )

  first_turn :
      (now : ℕ) (t : Task) (ts : List Task) (c : SkuCache R K)
      → c.tasks ≡ t ∷ ts
      → t.fire_at ≤ now
      → run_delayed answered now c
        ≡ del_all answered t.keys (record c {
          tasks = ts;
          stats = record c.stats { delayed_delete = (c.stats.delayed_delete + 1) % 2 ^ 64 };
        })
  unfolding run_delayed run_task
  first_turn now t ts c e h =
      let due : ltb now t.fire_at ≡ false = ground arith in rw (e, run_task) (rw due)

  -- For a Redis and a local cache that keep their laws and a cache that is on: once every task of
  -- the queue is due, as many turns of the thread as there are tasks empty the queue, and then the
  -- cache misses every key of every task.
  pub turns_finish :
      (now : ℕ) (ts : List Task) (c : SkuCache R K)
      → is_off c ≡ false
      → c.tasks ≡ ts
      → Due now ts
      → ((turns answered now (length ts) c).tasks ≡ [])
        × MissesAll (turns answered now (length ts) c) ts
  unfolding turns
  turns_finish now [] c on e due = (e, tt)
  turns_finish now (t ∷ ts) c on e due =
      let c0 : SkuCache R K = record c {
        tasks = ts;
        stats = record c.stats { delayed_delete = (c.stats.delayed_delete + 1) % 2 ^ 64 };
      } in
      let (tasks, on') = same_after t.keys c0 on in
      let rest = turns_finish now ts (del_all answered t.keys c0) on' tasks due.1 in
      subst
        (λ r.
          ((turns answered now (length ts) r).tasks ≡ [])
          × MissesAll (turns answered now (length ts) r) (t ∷ ts))
        (sym (first_turn now t ts c e due.0))
        (rest.0, (missed_after now (length ts) t.keys c0 on, rest.1))
