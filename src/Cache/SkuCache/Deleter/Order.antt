-- ===== src/Cache/SkuCache/Deleter/Order.antt =====
-- SkuCache.h: which second deletes the thread of `DelayDeleter` has made, and when.
use seckill_cpp.Base.{
  ℕ, ◌+◌, ◌≤◌, Bool, true, false, ltb, Bytes, List, [], ◌∷◌, ◌++◌, ◌≡◌, refl, sym, ◌∙◌, ap, arith,
  inl, inr, Bool-cases,
}
use mathlib.Core.List.{append_assoc, append-nil}
use seckill_cpp.Cache.SkuCache.{Task}
use seckill_cpp.Cache.SkuCache.Invalidation.Delayed.{Due}
use seckill_cpp.Cache.SkuCache.Deleter.{
  Place, checking, waiting, firing, ended, Deleter, new_deleter, Event, scheduled, stopped, woken,
  moved, enqueue, take_first, check_queue, move_from, step, run, promised,
}
use seckill_cpp.Cache.SkuCache.Deleter.Shutdown.{wake-promised}

-- The tasks of the calls, in their order.
abbrev pub task_of : ℕ → Event → List Task
task_of delay (scheduled now []) = []
task_of delay (scheduled now (k ∷ ks)) = record { fire_at = now + delay; keys = k ∷ ks } ∷ []
task_of delay stopped = []
task_of delay woken = []
task_of delay (moved now) = []

abbrev pub tasks_of : ℕ → List Event → List Task
tasks_of delay [] = []
tasks_of delay (e ∷ es) = task_of delay e ++ tasks_of delay es

-- The thread takes no step after the time `last`.
abbrev pub Until : ℕ → List Event → Type 0
Until last [] = Unit
Until last (moved now ∷ es) = (now ≤ last) × Until last es
Until last (scheduled now ks ∷ es) = Until last es
Until last (stopped ∷ es) = Until last es
Until last (woken ∷ es) = Until last es

Due-snoc :
    (now : ℕ) (ts : List Task) (t : Task) → Due now ts → t.fire_at ≤ now → Due now (ts ++ (t ∷ []))
Due-snoc now [] t h le = (le, tt)
Due-snoc now (u ∷ ts) t h le = (h.0, Due-snoc now ts t h.1 le)

rest_Until : (last : ℕ) (e : Event) (es : List Event) → Until last (e ∷ es) → Until last es
rest_Until last (scheduled now ks) es u = u
rest_Until last stopped es u = u
rest_Until last woken es u = u
rest_Until last (moved now) es u = u.1

now_only : (last : ℕ) (e : Event) (es : List Event) → Until last (e ∷ es) → Until last (e ∷ [])
now_only last (scheduled now ks) es u = tt
now_only last stopped es u = tt
now_only last woken es u = tt
now_only last (moved now) es u = (u.0, tt)

module _ {S : Type 0} (delay : ℕ) (fire : List Bytes → S → S) where
  abbrev pub fire_all : List Task → S → S
  fire_all [] s = s
  fire_all (t ∷ ts) s = fire_all ts (fire t.keys s)

  -- The tasks of the calls up to now are those that were taken, and then those that wait.
  pub record Fired (last : ℕ) (calls : List Task) (s : S) (d : Deleter S) : Type 0 where
    pub taken : List Task
    pub in_order : calls ≡ taken ++ d.queue
    pub made : promised fire d.place d.target ≡ fire_all taken s
    pub not_early : Due last taken

  fire_all-snoc :
      (ts : List Task) (t : Task) (s : S)
      → fire_all (ts ++ (t ∷ [])) s ≡ fire t.keys (fire_all ts s)
  fire_all-snoc [] t s = refl
  fire_all-snoc (u ∷ ts) t s = fire_all-snoc ts t (fire u.keys s)

  -- The first task is taken, if its time has come.
  take-Fired :
      (last now : ℕ) (calls : List Task) (s : S) (q : List Task) (stop : Bool) (t : S)
      → now ≤ last
      → Fired last calls s (record { queue = q; stop = stop; place = checking; target = t })
      → Fired last calls s
          (take_first now q (record { queue = q; stop = stop; place = checking; target = t }))
  unfolding take_first
  take-Fired last now calls s [] stop t le f = record {
    taken = f.taken;
    in_order = f.in_order;
    made = f.made;
    not_early = f.not_early;
  }
  take-Fired last now calls s (u ∷ us) stop t le f = elim (Bool-cases (ltb now u.fire_at)) [
    | inl early ↦
        rw early (record {
          taken = f.taken;
          in_order = f.in_order;
          made = f.made;
          not_early = f.not_early;
        })
    | inr due ↦ rw due (record {
      taken = f.taken ++ (u ∷ []);
      in_order = f.in_order ∙ sym (append_assoc f.taken (u ∷ []) us);
      made = ap (fire u.keys) f.made ∙ sym (fire_all-snoc f.taken u s);
      not_early = Due-snoc last f.taken u f.not_early (ground arith);
    })
  ]

  move-Fired :
      (last now : ℕ) (calls : List Task) (s : S) (q : List Task) (stop : Bool) (p : Place) (t : S)
      → now ≤ last
      → Fired last calls s (record { queue = q; stop = stop; place = p; target = t })
      → Fired last calls s
          (move_from fire now p (record { queue = q; stop = stop; place = p; target = t }))
  unfolding move_from check_queue
  move-Fired last now calls s q true checking t le f = record {
    taken = f.taken;
    in_order = f.in_order;
    made = f.made;
    not_early = f.not_early;
  }
  move-Fired last now calls s q false checking t le f = take-Fired last now calls s q false t le f
  move-Fired last now calls s q stop waiting t le f = f
  move-Fired last now calls s q stop (firing ks) t le f = record {
    taken = f.taken;
    in_order = f.in_order;
    made = f.made;
    not_early = f.not_early;
  }
  move-Fired last now calls s q stop ended t le f = f

  step-Fired :
      (last : ℕ) (calls : List Task) (s : S) (e : Event) (d : Deleter S)
      → Until last (e ∷ [])
      → Fired last calls s d
      → Fired last (calls ++ task_of delay e) s (step delay fire e d)
  unfolding step enqueue move_from check_queue
  step-Fired last calls s (scheduled now []) d le f = rw (append-nil calls) f
  step-Fired last calls s (scheduled now (k ∷ ks)) d le f = record {
    taken = f.taken;
    in_order =
        ap (λ l. l ++ (record { fire_at = now + delay; keys = k ∷ ks } ∷ [])) f.in_order
        ∙ append_assoc f.taken d.queue (record { fire_at = now + delay; keys = k ∷ ks } ∷ []);
    made = f.made;
    not_early = f.not_early;
  }
  step-Fired last calls s stopped d le f =
      rw (append-nil calls)
        (record { taken = f.taken; in_order = f.in_order; made = f.made; not_early = f.not_early })
  step-Fired last calls s woken d le f = rw (append-nil calls) (record {
    taken = f.taken;
    in_order = f.in_order;
    made = wake-promised delay fire d.place d.target ∙ f.made;
    not_early = f.not_early;
  })
  step-Fired last calls s (moved now) d le f =
      rw (append-nil calls) (move-Fired last now calls s d.queue d.stop d.place d.target le.0 f)

  run-Fired :
      (last : ℕ) (calls : List Task) (s : S) (es : List Event) (d : Deleter S)
      → Until last es
      → Fired last calls s d
      → Fired last (calls ++ tasks_of delay es) s (run delay fire es d)
  unfolding run
  run-Fired last calls s [] d le f = rw (append-nil calls) f
  run-Fired last calls s (e ∷ es) d le f =
      rw⁻¹ (append_assoc calls (task_of delay e) (tasks_of delay es)) (
        run-Fired last (calls ++ task_of delay e) s es (step delay fire e d)
          (rest_Until last e es le) (step-Fired last calls s e d (now_only last e es le) f))

  -- For any delay and any `fire`, and whatever happens in between: the tasks that the thread has
  -- taken are the first ones that were scheduled, in their order, each one once, and the others are
  -- in the queue. The object is what `fire` makes of it on the taken ones, up to the call of `fire`
  -- in hand, and no task was taken before its time had come.
  pub run_fires :
      (last : ℕ) (es : List Event) (s : S)
      → Until last es
      → Fired last (tasks_of delay es) s (run delay fire es (new_deleter s))
  run_fires last es s u =
      run-Fired last [] s es (new_deleter s) u
        (record { taken = []; in_order = refl; made = refl; not_early = tt })
