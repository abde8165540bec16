-- ===== src/Logging/Logger/Tests.antt =====
-- The ring buffer and the logger on small inputs.
use seckill_cpp.Base.{ℕ, true, false, refl, some, List, [], ◌∷◌, ◌≡◌, lit, arith}
use seckill_cpp.Logging.Ring.{new_ring, push, pop_all, wait_and_pop_batch, request_stop}
use seckill_cpp.Logging.Ring.Calls
use seckill_cpp.Logging.Ring.Calls.{
  Call, push_item, pop_batch, stop, pushed, batch, blocked, stopped, call, run_queue, queue_of,
  run_as_queue,
}
use seckill_cpp.Logging.Logger.{
  LogMessage, Sink, AsyncLogger, start, new_logger, shutdown, write_batch,
}
use seckill_cpp.Logging.Logger.Delivery.{Event, logged, round, run, accepted, shutdown_delivers}

abbrev message : ℕ → LogMessage
message n = record { level = n; msg = lit "x" }

-- A log that keeps the messages, newest first.
abbrev Kept : Sink
Kept = record { State = List LogMessage; log = λ m f. m ∷ f }

abbrev events : List Event
events = logged (message 1) ∷ logged (message 2) ∷ round ∷ logged (message 3) ∷ []

abbrev begun : AsyncLogger Kept
begun = start Kept [] 3 (new_logger Kept 6)

shutdown_delivers_example :
    ((shutdown Kept (run Kept events begun)).file_logger
      ≡ write_batch Kept (accepted Kept events begun) (some []))
    × ((shutdown Kept (run Kept events begun)).worker_alive ≡ false)
shutdown_delivers_example = shutdown_delivers Kept [] 3 6 events

-- Two slots: the third item is dropped, a batch empties the queue, the next caller waits until the
-- stop.
abbrev its_calls : List (Call ℕ)
its_calls =
    push_item 5
    ∷ push_item 6
    ∷ push_item 7
    ∷ pop_batch
    ∷ push_item 8
    ∷ pop_batch
    ∷ pop_batch
    ∷ stop
    ∷ pop_batch
    ∷ []

its_answers :
    (Calls.run its_calls (new_ring 2 0)).0
    ≡ pushed true
      ∷ pushed true
      ∷ pushed false
      ∷ batch (5 ∷ 6 ∷ [])
      ∷ pushed true
      ∷ batch (8 ∷ [])
      ∷ blocked
      ∷ stopped
      ∷ batch []
      ∷ []
unfolding Calls.run call new_ring push pop_all wait_and_pop_batch request_stop
its_answers = refl

run_as_queue_example :
    ((Calls.run its_calls (new_ring 2 0)).0, queue_of (Calls.run its_calls (new_ring 2 0)).1)
    ≡ run_queue its_calls (record { capacity = 2; waiting = []; dropped = 0; stop_asked = false })
run_as_queue_example = run_as_queue its_calls 2 0 (omega arith)
