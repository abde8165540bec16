-- ===== src/Cache/SkuCache/Deleter.antt =====
-- src/service/SkuCache.h: `DelayDeleter`, the thread of the second deletes. A step of the thread is
-- what it does while it holds the mutex, or one call of `fire`; other threads run in between. The
-- object that `fire` works on, `fire` itself and the delay are arguments, and so is the clock.
pub mod Order
pub mod Shutdown
pub mod Turns
mod Tests
use seckill_cpp.Base.{ℕ, ◌+◌, Bool, true, false, if◌then◌else◌, ltb, Bytes, List, [], ◌∷◌, ◌++◌}
use seckill_cpp.Cache.SkuCache.{Task}

-- Where the thread stands.
pub data Place : Type 0 where
  checking : Place  -- before the mutex is locked and `stop_` is tested
  waiting : Place  -- in `wait` or `wait_until`
  firing : List Bytes → Place  -- before `fire_`, with the keys of the task that was taken
  ended : Place  -- `join` returns

pub record Deleter (S : Type 0) : Type 0 where
  pub queue : List Task
  pub stop : Bool
  pub place : Place
  pub target : S

-- What happens to it.
pub data Event : Type 0 where
  scheduled : ℕ → List Bytes → Event  -- the push in `schedule`, at a time
  stopped : Event  -- the destructor sets `stop_`
  woken : Event  -- a notification, a time that has come, or no reason at all
  moved : ℕ → Event  -- the thread takes a step, at a time

unfoldable pub wake : Place → Place
wake checking = checking
wake waiting = checking
wake (firing ks) = firing ks
wake ended = ended

module _ {S : Type 0} where
  -- The constructor: the thread starts at the head of `run`.
  abbrev pub new_deleter : S → Deleter S
  new_deleter s = record { queue = []; stop = false; place = checking; target = s }

  -- `schedule`, up to its notification.
  unfoldable pub enqueue : ℕ → ℕ → List Bytes → Deleter S → Deleter S
  enqueue delay now [] d = d
  enqueue delay now (k ∷ ks) d = record d {
    queue = d.queue ++ (record { fire_at = now + delay; keys = k ∷ ks } ∷ []);
  }

  -- `run` with the mutex locked: the test of the loop, and one time through its body up to where the
  -- mutex is free again.
  unfoldable pub take_first : ℕ → List Task → Deleter S → Deleter S
  take_first now [] d = record d { place = waiting }
  take_first now (t ∷ ts) d =
      if ltb now t.fire_at
      then record d { place = waiting }
      else record d { queue = ts; place = firing t.keys }

  unfoldable pub check_queue : ℕ → Deleter S → Deleter S
  check_queue now d = if d.stop then record d { place = ended } else take_first now d.queue d

  unfoldable pub move_from : (List Bytes → S → S) → ℕ → Place → Deleter S → Deleter S
  move_from fire now checking d = check_queue now d
  move_from fire now waiting d = d
  move_from fire now (firing ks) d = record d { place = checking; target = fire ks d.target }
  move_from fire now ended d = d

  unfoldable pub step : ℕ → (List Bytes → S → S) → Event → Deleter S → Deleter S
  step delay fire (scheduled now ks) d = enqueue delay now ks d
  step delay fire stopped d = record d { stop = true }
  step delay fire woken d = record d { place = wake d.place }
  step delay fire (moved now) d = move_from fire now d.place d

  unfoldable pub run : ℕ → (List Bytes → S → S) → List Event → Deleter S → Deleter S
  run delay fire [] d = d
  run delay fire (e ∷ es) d = run delay fire es (step delay fire e d)

  -- The object, once the call of `fire` in hand is through.
  abbrev pub promised : (List Bytes → S → S) → Place → S → S
  promised fire checking s = s
  promised fire waiting s = s
  promised fire (firing ks) s = fire ks s
  promised fire ended s = s
