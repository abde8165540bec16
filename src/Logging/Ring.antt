-- ===== src/Logging/Ring.antt =====
-- src/logging/ring_buffer.h. Each method holds the mutex throughout, so it is one step. A slot that
-- was moved from keeps its item here; no method reads it again before it is written.
pub mod Slots
pub mod Queue
pub mod Calls
use seckill_cpp.Base.{
  ℕ, zero, suc, ◌+◌, ◌*◌, ◌%◌, ◌^◌, Bool, true, false, ◌||◌, Option, none, some, if◌then◌else◌,
  ◌==◌, ltb, List, [], ◌∷◌, replicate, get_or, set,
}

module _ {ℓ} (T : Type ℓ) where
  -- `Capacity` is a field, and so is the value of a slot that was never written.
  pub record RingBuffer : Type ℓ where
    pub capacity : ℕ
    pub unwritten : T
    pub buf : List T
    pub head : ℕ
    pub count : ℕ
    pub dropped : ℕ
    pub stop : Bool

module _ {ℓ} {T : Type ℓ} where
  unfoldable pub new_ring : ℕ → T → RingBuffer T
  new_ring capacity unwritten = record {
    capacity = capacity;
    unwritten = unwritten;
    buf = replicate capacity unwritten;
    head = 0;
    count = 0;
    dropped = 0;
    stop = false;
  }

  unfoldable pub push : T → RingBuffer T → Bool × RingBuffer T
  push item b =
      if b.count == b.capacity then (false, record b { dropped = (b.dropped + 1) % 2 ^ 64 }) else (
        true,
        record b { buf = set b.buf ((b.head + b.count) % b.capacity) item; count = b.count + 1 },
      )

  -- The loop of `waitAndPopBatch`, for `count` turns: the items, and the head after them.
  unfoldable pub pop_all : List T → T → ℕ → ℕ → ℕ → List T × ℕ
  pop_all buf unwritten capacity zero head = ([], head)
  pop_all buf unwritten capacity (suc count) head =
      let (out, head') = pop_all buf unwritten capacity count ((head + 1) % capacity) in
      (get_or buf head unwritten ∷ out, head')

  -- `waitAndPopBatch`; `none` while it waits.
  unfoldable pub wait_and_pop_batch : RingBuffer T → Option (List T × RingBuffer T)
  wait_and_pop_batch b =
      if ltb 0 b.count || b.stop
      then (let (out, head') = pop_all b.buf b.unwritten b.capacity b.count b.head in
          some (out, record b { head = head'; count = 0 }))
      else none

  unfoldable pub request_stop : RingBuffer T → RingBuffer T
  request_stop b = record b { stop = true }
