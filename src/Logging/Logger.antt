-- ===== src/Logging/Logger.antt =====
-- src/logging/AsyncLogger.h and AsyncLogger.cc: messages go through the ring buffer to the worker
-- thread, which alone writes the log. The spdlog logger is the parameter `Sink`; the one of `start`
-- and its fallback are one argument. The mutex of the buffer makes a push and a round of the worker
-- single steps. A call of `log` is two: it reads `running_` outside the mutex, and then pushes.
pub mod Rounds
pub mod Delivery
mod Tests
use seckill_cpp.Base.{
  ℕ, zero, suc, Bool, true, false, Option, none, some, Bytes, if◌then◌else◌, List, [], ◌∷◌,
}
use seckill_cpp.Logging.Ring.{RingBuffer, new_ring, push, wait_and_pop_batch, request_stop}

pub record LogMessage : Type 0 where
  pub level : ℕ
  pub msg : Bytes

-- An spdlog logger: what `log` makes of it. It filters by level, and flushes, in its own way.
pub record Sink : Type 1 where
  pub State : Type 0
  pub log : LogMessage → State → State

abbrev pub k_capacity : ℕ
k_capacity = 4096

abbrev pub no_message : LogMessage
no_message = record { level = 0; msg = [] }

module _ (K : Sink) where
  pub record AsyncLogger : Type 0 where
    pub running : Bool
    pub level : ℕ
    pub buf : RingBuffer LogMessage
    pub file_logger : Option K.State
    pub worker_alive : Bool

  unfoldable pub new_logger : ℕ → AsyncLogger
  new_logger off = record {
    running = false;
    level = off;
    buf = new_ring k_capacity no_message;
    file_logger = none;
    worker_alive = false;
  }

  unfoldable pub start : K.State → ℕ → AsyncLogger → AsyncLogger
  start file level l =
      if l.running
      then l
      else record l { running = true; level = level; file_logger = some file; worker_alive = true }

  -- The second step of `log`, for a call that has read `running_` as true, whatever it is by now.
  abbrev pub push_message : LogMessage → AsyncLogger → AsyncLogger
  push_message m l = record l { buf = (push m l.buf).1 }

  -- `log` with nothing between its two steps.
  unfoldable pub log : LogMessage → AsyncLogger → AsyncLogger
  log m l = if l.running then push_message m l else l

  unfoldable pub write_batch : List LogMessage → Option K.State → Option K.State
  write_batch [] f = f
  write_batch (m ∷ batch) none = write_batch batch none
  write_batch (m ∷ batch) (some f) = write_batch batch (some (K.log m f))

  -- What a round of the worker loop makes of a batch: an empty one ends the loop.
  unfoldable pub after_batch :
      AsyncLogger → Option (List LogMessage × RingBuffer LogMessage) → AsyncLogger
  after_batch l none = l
  after_batch l (some ([], b)) = record l { buf = b; worker_alive = false }
  after_batch l (some (m ∷ batch, b)) = record l {
    buf = b;
    file_logger = write_batch (m ∷ batch) l.file_logger;
  }

  -- One round of `workerLoop`, while the thread lives.
  unfoldable pub worker_round : AsyncLogger → AsyncLogger
  unfolding after_batch
  worker_round l = if l.worker_alive then after_batch l (wait_and_pop_batch l.buf) else l

  -- `join`: the worker runs until its loop ends, for at most so many rounds.
  unfoldable pub join : ℕ → AsyncLogger → AsyncLogger
  join zero l = l
  join (suc rounds) l =
      let rest = join rounds (worker_round l) in if l.worker_alive then rest else l

  -- `shutdown`. Two rounds are enough for the worker; the spdlog logger flushes in its own way.
  unfoldable pub shutdown : AsyncLogger → AsyncLogger
  unfolding join
  shutdown l =
      if l.running then join 2 (record l { running = false; buf = request_stop l.buf }) else l
