-- ===== src/Cache/SkuCache/Deleter/Shutdown.antt =====
-- SkuCache.h: the destructor of `DelayDeleter`, and the end of its thread.
use seckill_cpp.Base.{
  ℕ, zero, suc, ◌≤◌, Bool, true, Bytes, List, [], ◌∷◌, ◌++◌, ◌≡◌, refl, ◌∙◌, arith, subst,
}
use seckill_cpp.Cache.SkuCache.{Task}
use seckill_cpp.Cache.SkuCache.Deleter.{
  Place, checking, waiting, firing, ended, Deleter, Event, scheduled, stopped, woken, moved,
  enqueue, wake, check_queue, move_from, step, run, promised,
}

-- The steps of the thread in a sequence of events.
abbrev pub moves : List Event → ℕ
moves [] = 0
moves (moved now ∷ es) = suc (moves es)
moves (scheduled now ks ∷ es) = moves es
moves (stopped ∷ es) = moves es
moves (woken ∷ es) = moves es

module _ {S : Type 0} (delay : ℕ) (fire : List Bytes → S → S) where
  -- The thread is to stop, and the object will be `s` when it does.
  record Stops (s : S) (d : Deleter S) : Type 0 where
    on : d.stop ≡ true
    lasts : promised fire d.place d.target ≡ s

  pub wake-promised : (p : Place) (t : S) → promised fire (wake p) t ≡ promised fire p t
  unfolding wake
  wake-promised checking t = refl
  wake-promised waiting t = refl
  wake-promised (firing ks) t = refl
  wake-promised ended t = refl

  move-Stops :
      (s : S) (now : ℕ) (q : List Task) (stop : Bool) (p : Place) (t : S)
      → Stops s (record { queue = q; stop = stop; place = p; target = t })
      → Stops s (move_from fire now p (record { queue = q; stop = stop; place = p; target = t }))
  unfolding move_from check_queue
  move-Stops s now q stop checking t w = rw w.on (record { on = refl; lasts = w.lasts })
  move-Stops s now q stop waiting t w = w
  move-Stops s now q stop (firing ks) t w = record { on = w.on; lasts = w.lasts }
  move-Stops s now q stop ended t w = w

  step-Stops : (s : S) (e : Event) (d : Deleter S) → Stops s d → Stops s (step delay fire e d)
  unfolding step enqueue
  step-Stops s (scheduled now []) d w = w
  step-Stops s (scheduled now (k ∷ ks)) d w = record { on = w.on; lasts = w.lasts }
  step-Stops s stopped d w = record { on = refl; lasts = w.lasts }
  step-Stops s woken d w = record { on = w.on; lasts = wake-promised d.place d.target ∙ w.lasts }
  step-Stops s (moved now) d w = move-Stops s now d.queue d.stop d.place d.target w

  run-Stops : (s : S) (es : List Event) (d : Deleter S) → Stops s d → Stops s (run delay fire es d)
  unfolding run
  run-Stops s [] d w = w
  run-Stops s (e ∷ es) d w = run-Stops s es (step delay fire e d) (step-Stops s e d w)

-- The thread does not wait, and has ended after `n` more steps.
Near : ℕ → Place → Type 0
Near n ended = Unit
Near n checking = 1 ≤ n
Near n waiting = 1 ≤ 0
Near n (firing ks) = 2 ≤ n

wake-Near : (n : ℕ) (p : Place) → 2 ≤ n → Near n (wake p)
unfolding Near wake
wake-Near n checking h = omega arith
wake-Near n waiting h = omega arith
wake-Near n (firing ks) h = h
wake-Near n ended h = tt

still-Near : (n : ℕ) (p : Place) → Near n p → Near n (wake p)
unfolding Near wake
still-Near n checking h = h
still-Near n waiting h = omega arith
still-Near n (firing ks) h = h
still-Near n ended h = tt

none_left : (p : Place) → Near 0 p → p ≡ ended
unfolding Near
none_left checking h = absurd (omega arith)
none_left waiting h = absurd (omega arith)
none_left (firing ks) h = absurd (omega arith)
none_left ended h = refl

module _ {S : Type 0} (delay : ℕ) (fire : List Bytes → S → S) where
  move-Near :
      (n now : ℕ) (p : Place) (d : Deleter S)
      → d.stop ≡ true
      → d.place ≡ p
      → Near (suc n) p
      → Near n (move_from fire now p d).place
  unfolding Near move_from check_queue
  move-Near n now checking d on e h = rw on tt
  move-Near n now waiting d on e h = absurd (omega arith)
  move-Near n now (firing ks) d on e h = omega arith
  move-Near n now ended d on e h = rw e tt

  -- A thread that has ended takes no step.
  zero-Near :
      (now : ℕ) (d : Deleter S) → Near 0 d.place → Near 0 (move_from fire now d.place d).place
  unfolding move_from Near
  zero-Near now d h = rw (none_left d.place h) tt

  run-ended :
      (s : S) (n : ℕ) (es : List Event) (d : Deleter S)
      → Stops delay fire s d
      → Near n d.place
      → n ≤ moves es
      → (run delay fire es d).place ≡ ended
  unfolding run step enqueue
  run-ended s zero [] d w h le = none_left d.place h
  run-ended s (suc n) [] d w h le = absurd (omega arith)
  run-ended s n (scheduled now [] ∷ es) d w h le = run-ended s n es d w h le
  run-ended s n (scheduled now (k ∷ ks) ∷ es) d w h le =
      run-ended s n es _ (step-Stops delay fire s (scheduled now (k ∷ ks)) d w) h le
  run-ended s n (stopped ∷ es) d w h le =
      run-ended s n es _ (step-Stops delay fire s stopped d w) h le
  run-ended s n (woken ∷ es) d w h le =
      run-ended s n es _ (step-Stops delay fire s woken d w) (still-Near n d.place h) le
  run-ended s zero (moved now ∷ es) d w h le =
      run-ended s zero es _ (step-Stops delay fire s (moved now) d w) (zero-Near now d h)
        (omega arith)
  run-ended s (suc n) (moved now ∷ es) d w h le =
      run-ended s n es _ (step-Stops delay fire s (moved now) d w)
        (move-Near n now d.place d w.on refl h) (omega arith)

  run-append :
      (es fs : List Event) (d : Deleter S)
      → run delay fire (es ++ fs) d ≡ run delay fire fs (run delay fire es d)
  unfolding run
  run-append [] fs d = refl
  run-append (e ∷ es) fs d = run-append es fs (step delay fire e d)

  -- Whatever the thread does, and whatever happens in between: once the destructor has set the stop
  -- flag and then notified the thread, two steps of the thread end it. The deletes in hand when the
  -- flag was set have been made, and no task that was in the queue then, or came later, is taken.
  pub shutdown_ends :
      (before after : List Event) (d : Deleter S)
      → 2 ≤ moves after
      → ((run delay fire (stopped ∷ before ++ (woken ∷ after)) d).place ≡ ended)
        × ((run delay fire (stopped ∷ before ++ (woken ∷ after)) d).target
            ≡ promised fire d.place d.target)
  unfolding run step
  shutdown_ends before after d le =
      let s = promised fire d.place d.target in
      let w0 : Stops delay fire s (record d { stop = true }) = record { on = refl; lasts = refl } in
      let w1 = run-Stops delay fire s before _ w0 in
      let d1 = run delay fire before (record d { stop = true }) in
      let w2 = step-Stops delay fire s woken d1 w1 in
      let end = run-ended s 2 after _ w2 (wake-Near 2 d1.place (omega arith)) le in
      let w3 = run-Stops delay fire s after _ w2 in
      rw (run-append before (woken ∷ after) (record d { stop = true })) (
        end,
        subst (λ p. promised fire p (run delay fire after (step delay fire woken d1)).target ≡ s)
            end w3.lasts,
      )
