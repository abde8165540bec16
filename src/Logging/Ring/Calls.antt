-- ===== src/Logging/Ring/Calls.antt =====
-- The ring buffer under any sequence of calls, against a queue that is a list.
use seckill_cpp.Base.{
  ℕ, ◌+◌, ◌%◌, ◌^◌, ◌<◌, Bool, true, false, ◌&&◌, ◌||◌, not, Option, none, some, if◌then◌else◌, ltb,
  ltb→lt, List, [], ◌∷◌, ◌++◌, length, ◌≡◌, refl, ap, arith, inl, inr, Bool-cases,
}
use seckill_cpp.Logging.Ring.{RingBuffer, new_ring, push, wait_and_pop_batch, request_stop}
use seckill_cpp.Logging.Ring.Slots.{IsValid, items}
use seckill_cpp.Logging.Ring.Queue.{
  new_ring-IsValid, length-items, push_full, push_room, append_item, pushed-IsValid,
  refused-IsValid, after_pop-IsValid, items-popped, pop_ready, pop_waits,
}

module _ (T : Type 0) where
  pub data Call : Type 0 where
    push_item : T → Call
    pop_batch stop : Call

  -- `blocked`: the caller waits.
  pub data Answer : Type 0 where
    pushed : Bool → Answer
    batch : List T → Answer
    blocked stopped : Answer

  -- A queue that takes items while it is shorter than its capacity.
  pub record Queue : Type 0 where
    pub capacity : ℕ
    pub waiting : List T
    pub dropped : ℕ
    pub stop_asked : Bool

abbrev pub is_nil : {T : Type 0} → List T → Bool
is_nil [] = true
is_nil (x ∷ xs) = false

module _ {T : Type 0} where
  abbrev popped : RingBuffer T → Option (List T × RingBuffer T) → Answer T × RingBuffer T
  popped b none = (blocked, b)
  popped b (some (out, b')) = (batch out, b')

  unfoldable pub call : Call T → RingBuffer T → Answer T × RingBuffer T
  call (push_item x) b = let (ok, b') = push x b in (pushed ok, b')
  call pop_batch b = popped b (wait_and_pop_batch b)
  call stop b = (stopped, request_stop b)

  unfoldable pub run : List (Call T) → RingBuffer T → List (Answer T) × RingBuffer T
  run [] b = ([], b)
  run (c ∷ cs) b = let (a, b1) = call c b in let (as', b2) = run cs b1 in (a ∷ as', b2)

  unfoldable pub queue_call : Call T → Queue T → Answer T × Queue T
  queue_call (push_item x) q =
      if ltb (length q.waiting) q.capacity
      then (pushed true, record q { waiting = q.waiting ++ (x ∷ []) })
      else (pushed false, record q { dropped = (q.dropped + 1) % 2 ^ 64 })
  queue_call pop_batch q =
      if is_nil q.waiting && not q.stop_asked
      then (blocked, q)
      else (batch q.waiting, record q { waiting = [] })
  queue_call stop q = (stopped, record q { stop_asked = true })

  unfoldable pub run_queue : List (Call T) → Queue T → List (Answer T) × Queue T
  run_queue [] q = ([], q)
  run_queue (c ∷ cs) q =
      let (a, q1) = queue_call c q in let (as', q2) = run_queue cs q1 in (a ∷ as', q2)

  -- The queue that a buffer stands for.
  abbrev pub queue_of : RingBuffer T → Queue T
  queue_of b = record {
    capacity = b.capacity;
    waiting = items b;
    dropped = b.dropped;
    stop_asked = b.stop;
  }

  -- After a call and its counterpart: the same answer, and the buffer stands for the queue.
  record Follows (r : Answer T × RingBuffer T) (q : Answer T × Queue T) : Type 0 where
    answer : r.0 ≡ q.0
    state : queue_of r.1 ≡ q.1
    valid : IsValid r.1

  push-Follows :
      (x : T) (b : RingBuffer T)
      → IsValid b
      → Follows (call (push_item x) b) (queue_call (push_item x) (queue_of b))
  unfolding call queue_call items
  push-Follows x b v = elim (Bool-cases (ltb b.count b.capacity)) [
    | inl room ↦
        let room' = ltb→lt b.count b.capacity room in
        rw (length-items b, room, push_room x b room')
          (record {
            answer = refl;
            state =
                ap
                  (λ l. record {
                    capacity = b.capacity;
                    waiting = l;
                    dropped = b.dropped;
                    stop_asked = b.stop;
                  })
                  (append_item x b v room');
            valid = pushed-IsValid x b v room';
          })
    | inr full ↦
        rw (length-items b, full, push_full x b (ground (arith, full, v.count_in)))
          (record { answer = refl; state = refl; valid = refused-IsValid b v })
  ]

  nil_of_length : (l : List T) → is_nil l ≡ not (ltb 0 (length l))
  nil_of_length [] = refl
  nil_of_length (x ∷ l) = ground arith

  waits_alike :
      (b : RingBuffer T) → (is_nil (items b) && not b.stop) ≡ not (ltb 0 b.count || b.stop)
  waits_alike b = rw (nil_of_length (items b), length-items b) (ground arith)

  pop-Follows :
      (b : RingBuffer T)
      → IsValid b
      → Follows (call pop_batch b) (queue_call pop_batch (queue_of b))
  unfolding call queue_call
  pop-Follows b v = elim (Bool-cases (ltb 0 b.count || b.stop)) [
    | inl ready ↦
        let (left, valid') = after_pop-IsValid b v in
        rw (waits_alike b, ready, pop_ready b ready)
          (record {
            answer = ap batch (items-popped b v);
            state =
                ap
                  (λ l. record {
                    capacity = b.capacity;
                    waiting = l;
                    dropped = b.dropped;
                    stop_asked = b.stop;
                  })
                  left;
            valid = valid';
          })
    | inr waits ↦
        rw (waits_alike b, waits, pop_waits b waits)
          (record { answer = refl; state = refl; valid = v })
  ]

  call-Follows :
      (c : Call T) (b : RingBuffer T) → IsValid b → Follows (call c b) (queue_call c (queue_of b))
  unfolding call queue_call request_stop items
  call-Follows (push_item x) b v = push-Follows x b v
  call-Follows pop_batch b v = pop-Follows b v
  call-Follows stop b v = record {
    answer = refl;
    state = refl;
    valid = record {
      some_slot = v.some_slot;
      slots = v.slots;
      head_in = v.head_in;
      count_in = v.count_in;
    };
  }

  run-queue_of :
      (cs : List (Call T)) (b : RingBuffer T)
      → IsValid b
      → ((run cs b).0, queue_of (run cs b).1) ≡ run_queue cs (queue_of b)
  unfolding run run_queue
  run-queue_of [] b v = refl
  run-queue_of (c ∷ cs) b v =
      let f = call-Follows c b v in
      rw (← f.answer, ← f.state)
        (ap (λ (r : List (Answer T) × Queue T). ((call c b).0 ∷ r.0, r.1))
          (run-queue_of cs (call c b).1 f.valid))

  -- From a new buffer of any capacity but 0, under any sequence of `push`, `waitAndPopBatch` and
  -- `requestStop`: every answer is that of a queue that takes items while it is shorter than the
  -- capacity and drops the newest, gives all that wait, oldest first, and blocks a caller exactly
  -- while nothing waits and no stop was asked for. In the end the buffer stands for that queue.
  pub run_as_queue :
      (cs : List (Call T)) (capacity : ℕ) (unwritten : T)
      → 0 < capacity
      → (
        (run cs (new_ring capacity unwritten)).0,
        queue_of (run cs (new_ring capacity unwritten)).1,
      )
        ≡ run_queue cs
            (record { capacity = capacity; waiting = []; dropped = 0; stop_asked = false })
  unfolding new_ring items
  run_as_queue cs capacity unwritten h =
      run-queue_of cs (new_ring capacity unwritten) (new_ring-IsValid capacity unwritten h)
