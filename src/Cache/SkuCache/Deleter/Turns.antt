-- ===== src/Cache/SkuCache/Deleter/Turns.antt =====
-- SkuCache.cc: the callback `fire` that the cache gives to the thread, and the turns of the thread as
-- steps of the cache.
use seckill_cpp.Base.{
  ℕ, zero, suc, length, subst, arith, ◌≤◌, false, Option, none, some, ltb, Bytes, List, [], ◌∷◌,
  ◌≡◌, refl, ◌∙◌, ap, inl, inr, Bool-cases,
}
use seckill_cpp.Redis.{Redis, IsRedis, Link, exec, answered}
use seckill_cpp.Cache.SkuCache.{
  Local, SkuCache, Task, is_off, up, on_command, del, del_all, run_task, run_delayed,
}
use seckill_cpp.Cache.SkuCache.Invalidation.{IsLocal}
use seckill_cpp.Cache.SkuCache.Invalidation.Delayed.{Due, turns, MissesAll, turns_finish}
use seckill_cpp.Cache.SkuCache.Deleter.Order.{fire_all}
use seckill_cpp.Cache.SkuCache.Deleter.{
  woken, wake, checking, waiting, firing, Deleter, Event, moved, take_first, check_queue, move_from,
  step, run,
}

-- Two steps of the thread for each of `n` tasks.
abbrev pub pairs : ℕ → ℕ → List Event
pairs now zero = []
pairs now (suc n) = moved now ∷ moved now ∷ pairs now n

module _ {R : Redis} {K : Local} where
  -- The callback that the constructor of `SkuCache` makes.
  unfoldable pub fire : Link → List Bytes → SkuCache R K → SkuCache R K
  fire link ks c =
      del_all link ks
        (record c { stats = record c.stats { delayed_delete = up c.stats.delayed_delete } })

  -- The cache with the queue of its thread.
  abbrev pub with_queue : List Task → SkuCache R K → SkuCache R K
  with_queue ts c = record c { tasks = ts }

  command_queue :
      (r : Option (Unit {0}) × R.Store) (ts : List Task) (c : SkuCache R K)
      → on_command r (with_queue ts c) ≡ with_queue ts (on_command r c)
  unfolding on_command
  command_queue (some r, s) ts c = refl
  command_queue (none, s) ts c = refl

  del_queue :
      (link : Link) (k : Bytes) (ts : List Task) (c : SkuCache R K)
      → del link k (with_queue ts c) ≡ with_queue ts (del link k c)
  unfolding del
  del_queue link k ts c = elim (Bool-cases (is_off c)) [
    | inl off ↦ rw off refl
    | inr on ↦ rw on (rw (command_queue (exec link (λ t. (tt, R.del t k)) c.store) ts c) refl)
  ]

  del_all-queue :
      (link : Link) (ks : List Bytes) (ts : List Task) (c : SkuCache R K)
      → del_all link ks (with_queue ts c) ≡ with_queue ts (del_all link ks c)
  unfolding del_all
  del_all-queue link [] ts c = refl
  del_all-queue link (k ∷ ks) ts c =
      ap (del_all link ks) (del_queue link k ts c) ∙ del_all-queue link ks ts (del link k c)

  -- The thread awake, and not to stop.
  abbrev pub awake : List Task → SkuCache R K → Deleter (SkuCache R K)
  awake ts c = record { queue = ts; stop = false; place = checking; target = c }

  take_due :
      (link : Link) (delay now : ℕ) (t : Task) (ts : List Task) (c : SkuCache R K)
      → t.fire_at ≤ now
      → step delay (fire link) (moved now) (awake (t ∷ ts) c)
        ≡ record { queue = ts; stop = false; place = firing t.keys; target = c }
  unfolding step move_from check_queue take_first
  take_due link delay now t ts c le =
      let due : ltb now t.fire_at ≡ false = ground arith in rw due refl

  run-pairs :
      (link : Link) (delay now : ℕ) (ts : List Task) (c : SkuCache R K)
      → Due now ts
      → run delay (fire link) (pairs now (length ts)) (awake ts c)
        ≡ awake [] (fire_all delay (fire link) ts c)
  unfolding run step move_from
  run-pairs link delay now [] c due = refl
  run-pairs link delay now (t ∷ ts) c due =
      ap (λ d. run delay (fire link) (moved now ∷ pairs now (length ts)) d)
        (take_due link delay now t ts c due.0)
      ∙ run-pairs link delay now ts (fire link t.keys c) due.1

  -- The turn of the cache that takes a due task.
  due_turn :
      (link : Link) (now : ℕ) (t : Task) (ts : List Task) (c : SkuCache R K)
      → t.fire_at ≤ now
      → run_delayed link now (with_queue (t ∷ ts) c) ≡ with_queue ts (fire link t.keys c)
  unfolding run_delayed run_task fire
  due_turn link now t ts c le =
      let due : ltb now t.fire_at ≡ false = ground arith in
      rw due (
        del_all-queue link t.keys ts
          (record c { stats = record c.stats { delayed_delete = up c.stats.delayed_delete } }))

  turns-fire_all :
      (link : Link) (delay now : ℕ) (ts : List Task) (c : SkuCache R K)
      → Due now ts
      → turns link now (length ts) (with_queue ts c)
        ≡ with_queue [] (fire_all delay (fire link) ts c)
  unfolding turns
  turns-fire_all link delay now [] c due = refl
  turns-fire_all link delay now (t ∷ ts) c due =
      ap (turns link now (length ts)) (due_turn link now t ts c due.0)
      ∙ turns-fire_all link delay now ts (fire link t.keys c) due.1

module _ {R : Redis} {K : Local} (law : IsRedis R) (local_law : IsLocal K) where
  -- For a Redis and a local cache that keep their laws, and a cache that is on: once every task of
  -- the queue is due and the waiting thread is woken, two steps of it for each task empty the queue,
  -- and then the cache misses every key of every task.
  pub woken_finishes :
      (delay now : ℕ) (ts : List Task) (c : SkuCache R K)
      → is_off c ≡ false
      → Due now ts
      → ((run delay
            (fire answered)
            (woken ∷ pairs now (length ts))
            (record { queue = ts; stop = false; place = waiting; target = c })).queue
          ≡ [])
        × MissesAll
            (with_queue []
              (run delay
                (fire answered)
                (woken ∷ pairs now (length ts))
                (record { queue = ts; stop = false; place = waiting; target = c })).target)
            ts
  unfolding run step wake
  woken_finishes delay now ts c on due = rw (run-pairs answered delay now ts c due) (
    refl,
    subst (λ r. MissesAll r ts) (turns-fire_all answered delay now ts c due)
        (turns_finish law local_law now ts (with_queue ts c) on refl due).1,
  )
