-- ===== src/Logging/Logger/Delivery.antt =====
-- What the logger delivers: every accepted message, in order, by the end of `shutdown`.
use seckill_cpp.Base.{
  ℕ, zero, suc, true, false, Option, none, some, if◌then◌else◌, List, [], ◌∷◌, ◌≡◌, refl, ◌∙◌, sym,
  ap, subst, arith,
}
use seckill_cpp.Logging.Ring.{RingBuffer, new_ring, push, wait_and_pop_batch, request_stop}
use seckill_cpp.Logging.Ring.Slots.{IsValid, items, entries}
use seckill_cpp.Logging.Ring.Queue.{new_ring-IsValid, wait_and_pop_batch_refines}
use seckill_cpp.Logging.Logger.{
  LogMessage, Sink, AsyncLogger, new_logger, start, log, push_message, write_batch, after_batch,
  worker_round, join, shutdown, k_capacity, no_message,
}
use seckill_cpp.Logging.Logger.Rounds.{
  pop-stop, append_if, write_batch-append, write_batch-nil, log_keeps, log-delivered, after_log,
  round_keeps, IsRunning, delivered,
}

-- What happens while the logger runs: a call of `log`, the push of a call that had read `running_`
-- before, or a round of the worker.
pub data Event : Type 0 where
  logged : LogMessage → Event
  pushed : LogMessage → Event
  round : Event

module _ (K : Sink) where
  abbrev pub step : Event → AsyncLogger K → AsyncLogger K
  step (logged m) l = log K m l
  step (pushed m) l = push_message K m l
  step round l = worker_round K l

  unfoldable pub run : List Event → AsyncLogger K → AsyncLogger K
  run [] l = l
  run (e ∷ events) l = run events (step e l)

  -- The messages that the buffer took, in the order of the calls.
  unfoldable pub accepted : List Event → AsyncLogger K → List LogMessage
  accepted [] l = []
  accepted (logged m ∷ events) l =
      let rest = accepted events (log K m l) in if (push m l.buf).0 then m ∷ rest else rest
  accepted (pushed m ∷ events) l =
      let rest = accepted events (push_message K m l) in if (push m l.buf).0 then m ∷ rest else rest
  accepted (round ∷ events) l = accepted events (worker_round K l)

module _ (K : Sink) where
  -- One more message in front of the events after it.
  push-delivered :
      (m : LogMessage) (events : List Event) (l l' : AsyncLogger K)
      → delivered K l' ≡ write_batch K (if (push m l.buf).0 then m ∷ [] else []) (delivered K l)
      → IsRunning K (run K events l')
        × (delivered K (run K events l') ≡ write_batch K (accepted K events l') (delivered K l'))
      → IsRunning K (run K events l')
        × (delivered K (run K events l')
            ≡ write_batch K
                (if (push m l.buf).0 then m ∷ accepted K events l' else accepted K events l')
                (delivered K l))
  push-delivered m events l l' one (on, e) = (
    on,
    e
        ∙ ap (write_batch K (accepted K events l')) one
        ∙ sym (write_batch-append K (if (push m l.buf).0 then m ∷ [] else []) _ (delivered K l))
        ∙ ap (λ ms. write_batch K ms (delivered K l))
            (append_if (push m l.buf).0 m (accepted K events l')),
  )

  run-delivered :
      (events : List Event) (l : AsyncLogger K)
      → IsRunning K l
      → IsRunning K (run K events l)
        × (delivered K (run K events l) ≡ write_batch K (accepted K events l) (delivered K l))
  unfolding run accepted
  run-delivered [] l h = (h, sym (write_batch-nil K (delivered K l)))
  run-delivered (logged m ∷ events) l h =
      let (on, one) = log_keeps K m l h in
      push-delivered m events l (log K m l) one (run-delivered events (log K m l) on)
  run-delivered (pushed m ∷ events) l h =
      push-delivered m events l (push_message K m l) (log-delivered K m l h)
        (run-delivered events (push_message K m l) (after_log K m l h))
  run-delivered (round ∷ events) l h =
      let (on, same) = round_keeps K l h in
      let (on', e) = run-delivered events (worker_round K l) on in
      (on', e ∙ ap (write_batch K (accepted K events (worker_round K l))) same)

  -- The worker has ended, the log is `f`.
  record IsDone (f : Option K.State) (l : AsyncLogger K) : Type 0 where
    written : l.file_logger ≡ f
    ended : l.worker_alive ≡ false

  join_ended : (n : ℕ) (l : AsyncLogger K) → l.worker_alive ≡ false → join K n l ≡ l
  unfolding join
  join_ended zero l a = refl
  join_ended (suc n) l a = rw a

  join_alive :
      (n : ℕ) (l : AsyncLogger K)
      → l.worker_alive ≡ true
      → join K (suc n) l ≡ join K n (after_batch K l (wait_and_pop_batch l.buf))
  unfolding join worker_round
  join_alive n l a = rw a

  -- A stopped worker with nothing left ends in one round.
  last_round :
      (n : ℕ) (l : AsyncLogger K) (o : Option (List LogMessage × RingBuffer LogMessage))
      → IsValid l.buf
      → l.buf.stop ≡ true
      → items l.buf ≡ []
      → wait_and_pop_batch l.buf ≡ o
      → IsDone l.file_logger (join K n (after_batch K l o))
  unfolding after_batch
  last_round n l none v s i e =
      absurd (ground (arith, s, ((wait_and_pop_batch_refines l.buf v).0.0 e).1))
  last_round n l (some ([], b)) v s i e =
      subst (IsDone l.file_logger)
        (sym (join_ended n (record l { buf = b; worker_alive = false }) refl))
        (record { written = refl; ended = refl })
  last_round n l (some (m ∷ batch, b)) v s i e =
      absurd (cc (i, ((wait_and_pop_batch_refines l.buf v).1 (m ∷ batch) b e).0))

  two_rounds :
      (l : AsyncLogger K) (o : Option (List LogMessage × RingBuffer LogMessage))
      → IsValid l.buf
      → l.buf.stop ≡ true
      → l.worker_alive ≡ true
      → wait_and_pop_batch l.buf ≡ o
      → IsDone (delivered K l) (join K 1 (after_batch K l o))
  unfolding after_batch
  two_rounds l none v s a e =
      absurd (ground (arith, s, ((wait_and_pop_batch_refines l.buf v).0.0 e).1))
  two_rounds l (some ([], b)) v s a e =
      let (all, (left, v')) = (wait_and_pop_batch_refines l.buf v).1 [] b e in
      subst (IsDone (delivered K l))
        (sym (join_ended 1 (record l { buf = b; worker_alive = false }) refl))
        (record {
          written = sym (
              ap (λ ms. write_batch K ms l.file_logger) (sym all)
              ∙ write_batch-nil K l.file_logger);
          ended = refl;
        })
  two_rounds l (some (m ∷ batch, b)) v s a e =
      let (all, (left, v')) = (wait_and_pop_batch_refines l.buf v).1 (m ∷ batch) b e in
      let l' : AsyncLogger K = after_batch K l (some (m ∷ batch, b)) in
      subst (λ f. IsDone f (join K 1 l')) (ap (λ ms. write_batch K ms l.file_logger) all)
        (subst (IsDone (write_batch K (m ∷ batch) l.file_logger)) (sym (join_alive 0 l' a))
          (last_round 0 l' _ v' (pop-stop l.buf (m ∷ batch) b e ∙ s) left refl))

  stopped : AsyncLogger K → AsyncLogger K
  stopped l = record l { running = false; buf = request_stop l.buf }

  shutdown_running : (l : AsyncLogger K) → l.running ≡ true → shutdown K l ≡ join K 2 (stopped l)
  unfolding shutdown stopped
  shutdown_running l r = rw r

  shutdown-IsDone : (l : AsyncLogger K) → IsRunning K l → IsDone (delivered K l) (shutdown K l)
  unfolding stopped request_stop items
  shutdown-IsDone l h =
      subst (IsDone (delivered K l))
        (sym (shutdown_running l h.runs ∙ join_alive 1 (stopped l) h.alive))
        (two_rounds (stopped l) _
          (record {
            some_slot = h.valid.some_slot;
            slots = h.valid.slots;
            head_in = h.valid.head_in;
            count_in = h.valid.count_in;
          })
          refl h.alive refl)

  start-IsRunning :
      (file : K.State) (level off : ℕ) → IsRunning K (start K file level (new_logger K off))
  unfolding start new_logger new_ring
  start-IsRunning file level off = record {
    runs = refl;
    alive = refl;
    going = refl;
    valid = new_ring-IsValid k_capacity no_message (omega arith);
  }

  start-delivered :
      (file : K.State) (level off : ℕ)
      → delivered K (start K file level (new_logger K off)) ≡ some file
  unfolding start new_logger new_ring items entries write_batch
  start-delivered file level off = refl

  -- A logger is started, messages are logged, also by calls that read `running_` earlier than they
  -- push, and the worker runs, all in any order, and the logger is shut down. Then the worker has
  -- ended, and the log is the one of the start with exactly the messages that the buffer took, in
  -- the order in which it took them.
  pub shutdown_delivers :
      (file : K.State) (level off : ℕ) (events : List Event)
      → let l0 : AsyncLogger K = start K file level (new_logger K off) in
        ((shutdown K (run K events l0)).file_logger
          ≡ write_batch K (accepted K events l0) (some file))
        × ((shutdown K (run K events l0)).worker_alive ≡ false)
  shutdown_delivers file level off events =
      let (on, e) = run-delivered events _ (start-IsRunning file level off) in
      let done = shutdown-IsDone _ on in
      (
        done.written
            ∙ e
            ∙ ap (write_batch K (accepted K events _)) (start-delivered file level off),
        done.ended,
      )
