-- ===== src/Cache/SkuCache/Deleter/Tests.antt =====
-- The thread of the second deletes at work, and its theorems on it.
use seckill_cpp.Base.{true, false, some, lit, Bytes, length, List, ◌∷◌, [], ◌++◌, ◌≡◌, refl, arith}
use seckill_cpp.Redis.{answered}
use seckill_cpp.Redis.Model.{Plain, Plain-IsRedis, empty}
use seckill_cpp.Cache.LocalLru.{new_lru}
use seckill_cpp.Cache.LocalLru.Instance.{Lru, Lru-IsLocal}
use seckill_cpp.Cache.LocalLru.Calls.{new_lru-IsValid}
use seckill_cpp.Cache.SkuCache.{SkuCache, Task, item}
use seckill_cpp.Cache.SkuCache.Invalidation.Delayed.{MissesAll}
use seckill_cpp.Cache.SkuCache.Deleter.{
  Deleter, new_deleter, Event, scheduled, stopped, woken, moved, enqueue, wake, take_first,
  check_queue, move_from, step, run, waiting, firing, ended,
}
use seckill_cpp.Cache.SkuCache.Deleter.Order.{Fired, tasks_of, run_fires}
use seckill_cpp.Cache.SkuCache.Deleter.Shutdown.{shutdown_ends}
use seckill_cpp.Cache.SkuCache.Deleter.Turns.{fire, pairs, with_queue, woken_finishes}

-- The object: a log of the deletes.
abbrev note : List Bytes → List Bytes → List Bytes
note ks s = s ++ ks

-- Two tasks 500 ms after 0 and 100; the thread comes too early once.
abbrev story : List Event
story =
    moved 0
    ∷ scheduled 0 (lit "a" ∷ [])
    ∷ woken
    ∷ moved 1
    ∷ scheduled 100 (lit "b" ∷ lit "c" ∷ [])
    ∷ woken
    ∷ moved 400
    ∷ woken
    ∷ moved 550
    ∷ moved 551
    ∷ []

story_fires :
    ((run 500 note story (new_deleter [])).target ≡ lit "a" ∷ [])
    × (length (run 500 note story (new_deleter [])).queue ≡ 1)
unfolding run step enqueue wake check_queue take_first move_from
story_fires = (refl, refl)

run_fires_example : Fired 500 note 551 (tasks_of 500 story) [] (run 500 note story (new_deleter []))
run_fires_example =
    run_fires 500 note 551 story []
      (omega arith, (omega arith, (omega arith, (omega arith, (omega arith, tt)))))

-- The destructor while the keys "a" are deleted, with a task left.
abbrev busy : Deleter (List Bytes)
busy = record {
  queue = record { fire_at = 600; keys = lit "b" ∷ [] } ∷ [];
  stop = false;
  place = firing (lit "a" ∷ []);
  target = [];
}

shutdown_ends_example :
    ((run 500 note (stopped ∷ (woken ∷ moved 700 ∷ moved 701 ∷ [])) busy).place ≡ ended)
    × ((run 500 note (stopped ∷ (woken ∷ moved 700 ∷ moved 701 ∷ [])) busy).target ≡ lit "a" ∷ [])
shutdown_ends_example = shutdown_ends 500 note [] (moved 700 ∷ moved 701 ∷ []) busy (omega arith)

abbrev cache : SkuCache Plain Lru
cache = record {
  cfg = record {
    enabled = true;
    list_ttl_seconds = 30;
    detail_ttl_seconds = 300;
    null_ttl_seconds = 60;
    jitter_seconds = 30;
    double_delete_ms = 500;
    invalidate_on_order = item;
  };
  cache_keys = record { prefix = lit "seckill"; version = lit "v1" };
  has_redis = true;
  store = empty;
  lru = some (record { now = 0; cache = new_lru 4096; valid = new_lru-IsValid 4096 });
  stats = record { hit = 0; local_hit = 0; miss = 0; err = 0; write = 0; delayed_delete = 0 };
  tasks = [];
}

abbrev two : List Task
two =
    record { fire_at = 500; keys = lit "a" ∷ [] }
    ∷ record { fire_at = 700; keys = lit "b" ∷ lit "c" ∷ [] }
    ∷ []

abbrev asleep : Deleter (SkuCache Plain Lru)
asleep = record { queue = two; stop = false; place = waiting; target = cache }

woken_finishes_example :
    ((run 500 (fire answered) (woken ∷ pairs 700 2) asleep).queue ≡ [])
    × MissesAll (with_queue [] (run 500 (fire answered) (woken ∷ pairs 700 2) asleep).target) two
woken_finishes_example =
    woken_finishes Plain-IsRedis Lru-IsLocal 500 700 two cache refl (omega arith, (omega arith, tt))
