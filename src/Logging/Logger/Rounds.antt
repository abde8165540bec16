-- ===== src/Logging/Logger/Rounds.antt =====
-- src/logging/AsyncLogger.cc: what a call of `log` and a round of the worker do to the log that is
-- written in the end.
use seckill_cpp.Base.{
  Bool, true, false, Option, none, some, if◌then◌else◌, ltb, List, [], ◌∷◌, ◌++◌, length, ◌≡◌, refl,
  ◌∙◌, sym, subst, arith, inl, inr, Bool-cases,
}
use seckill_cpp.Logging.Ring.{RingBuffer, push, wait_and_pop_batch}
use seckill_cpp.Logging.Ring.Slots.{IsValid, items}
use seckill_cpp.Logging.Ring.Queue.{push_refines, wait_and_pop_batch_refines}
use seckill_cpp.Logging.Logger.{
  LogMessage, Sink, AsyncLogger, log, write_batch, after_batch, worker_round,
}

pub push-stop : (m : LogMessage) (b : RingBuffer LogMessage) → (push m b).1.stop ≡ b.stop
unfolding push
push-stop m b = ground arith

pub pop-stop :
    (b : RingBuffer LogMessage) (out : List LogMessage) (b' : RingBuffer LogMessage)
    → wait_and_pop_batch b ≡ some (out, b')
    → b'.stop ≡ b.stop
unfolding wait_and_pop_batch
pop-stop b out b' e = ground (arith, e)

pub append_if :
    (b : Bool) (m : LogMessage) (ms : List LogMessage)
    → (if b then m ∷ [] else []) ++ ms ≡ (if b then m ∷ ms else ms)
append_if true m ms = refl
append_if false m ms = refl

module _ (K : Sink) where
  pub write_batch-append :
      (xs ys : List LogMessage) (f : Option K.State)
      → write_batch K (xs ++ ys) f ≡ write_batch K ys (write_batch K xs f)
  unfolding write_batch
  write_batch-append [] ys f = refl
  write_batch-append (x ∷ xs) ys none = write_batch-append xs ys none
  write_batch-append (x ∷ xs) ys (some f) = write_batch-append xs ys (some (K.log x f))

  pub write_batch-nil : (f : Option K.State) → write_batch K [] f ≡ f
  unfolding write_batch
  write_batch-nil f = refl

  pub record IsRunning (l : AsyncLogger K) : Type 0 where
    pub runs : l.running ≡ true
    pub alive : l.worker_alive ≡ true
    pub going : l.buf.stop ≡ false
    pub valid : IsValid l.buf

  -- The log once the worker has written what waits.
  abbrev pub delivered : AsyncLogger K → Option K.State
  delivered l = write_batch K (items l.buf) l.file_logger

  logs :
      (m : LogMessage) (l : AsyncLogger K)
      → IsRunning l
      → log K m l ≡ record l { buf = (push m l.buf).1 }
  unfolding log
  logs m l h = rw h.runs

  pub after_log :
      (m : LogMessage) (l : AsyncLogger K)
      → IsRunning l
      → IsRunning (record l { buf = (push m l.buf).1 })
  after_log m l h = record {
    runs = h.runs;
    alive = h.alive;
    going = push-stop m l.buf ∙ h.going;
    valid = (push_refines m l.buf h.valid).0;
  }

  pub log-delivered :
      (m : LogMessage) (l : AsyncLogger K)
      → IsRunning l
      → delivered (record l { buf = (push m l.buf).1 })
        ≡ write_batch K (if (push m l.buf).0 then m ∷ [] else []) (delivered l)
  log-delivered m l h =
      let (v, (got, (kept, d))) = push_refines m l.buf h.valid in
      elim (Bool-cases (ltb (length (items l.buf)) l.buf.capacity)) [
        | inl room ↦ rw (got, kept, room) (write_batch-append (items l.buf) (m ∷ []) l.file_logger)
        | inr full ↦ rw (got, kept, full) (sym (write_batch-nil (delivered l)))
      ]

  -- A round of the worker leaves what the log will have in the end.
  after_round :
      (l : AsyncLogger K) (o : Option (List LogMessage × RingBuffer LogMessage))
      → IsRunning l
      → wait_and_pop_batch l.buf ≡ o
      → IsRunning (after_batch K l o) × (delivered (after_batch K l o) ≡ delivered l)
  unfolding after_batch
  after_round l none h e = (h, refl)
  after_round l (some ([], b)) h e =
      let (waits, gives) = wait_and_pop_batch_refines l.buf h.valid in
      let (all, left) = gives [] b e in absurd (cc (e, waits.1 (sym all, h.going)))
  after_round l (some (m ∷ batch, b)) h e =
      let (waits, gives) = wait_and_pop_batch_refines l.buf h.valid in
      let (all, (left, v)) = gives (m ∷ batch) b e in
      (
        record {
          runs = h.runs;
          alive = h.alive;
          going = pop-stop l.buf (m ∷ batch) b e ∙ h.going;
          valid = v;
        },
        rw (left, ← all) (write_batch-nil (write_batch K (m ∷ batch) l.file_logger)),
      )

  rounds :
      (l : AsyncLogger K)
      → IsRunning l
      → worker_round K l ≡ after_batch K l (wait_and_pop_batch l.buf)
  unfolding worker_round
  rounds l h = rw h.alive

  pub log_keeps :
      (m : LogMessage) (l : AsyncLogger K)
      → IsRunning l
      → IsRunning (log K m l)
        × (delivered (log K m l)
            ≡ write_batch K (if (push m l.buf).0 then m ∷ [] else []) (delivered l))
  log_keeps m l h =
      subst
        (λ t.
          IsRunning t
          × (delivered t ≡ write_batch K (if (push m l.buf).0 then m ∷ [] else []) (delivered l)))
        (sym (logs m l h)) (after_log m l h, log-delivered m l h)

  pub round_keeps :
      (l : AsyncLogger K)
      → IsRunning l
      → IsRunning (worker_round K l) × (delivered (worker_round K l) ≡ delivered l)
  round_keeps l h =
      subst (λ t. IsRunning t × (delivered t ≡ delivered l)) (sym (rounds l h))
        (after_round l _ h refl)
