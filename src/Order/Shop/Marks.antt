-- ===== src/Order/Shop/Marks.antt =====
-- The gate and the requests in flight, over every sequence of events.
use seckill_cpp.Base.{
  ℕ, ◌+◌, ◌≤◌, true, false, not, ◌&&◌, ◌||◌, Option, none, some, List, [], ◌∷◌, get_elem?,
  if◌then◌else◌, ◌≡◌, refl, ◌∙◌, sym, ap, ap₂, inl, inr, arith, Bool-cases,
}
use seckill_cpp.Base.Int.{ℤ, int_eq, int_eq→eq}
use seckill_cpp.Database.{Server, Begin, timeout, begun, Reply}
use seckill_cpp.Gate.{Guard, Mode, is_none, make_key, try_acquire, release}
use seckill_cpp.Gate.Laws.{
  held-clash, try_acquire_lem, held-release, try_acquire-IsValid, release-IsValid,
}
use seckill_cpp.Gate.Held.{held, clash, clash_in, IsValid}
use seckill_cpp.Order.{
  Service, OrderCache, admit, admit_by, order_transaction, drop_token, release_by, on_inserted,
  on_deducted, on_transaction,
}
use seckill_cpp.Order.Shop.{
  Shop, Flight, Event, arrive, complete, step, run, remove_at, arrived, complete_one,
}
use seckill_cpp.Order.Shop.Flights.{
  clash_refl, key_of, in_use, Apart, in_use-remove_at, Apart-remove_at, token_at,
}

-- A transaction does not touch the gate.
gate-on_inserted :
    {S : Server} {C : OrderCache} (sv : Service S C) (sku : ℤ) (r : Reply) (t : S.Tx)
    → (on_inserted sv sku (r, t)).1.gate ≡ sv.gate
unfolding on_inserted
gate-on_inserted sv sku r t = ground arith

gate-on_deducted :
    {S : Server} {C : OrderCache} (sv : Service S C) (user sku : ℤ) (r : Reply) (t : S.Tx)
    → (on_deducted sv user sku (r, t)).1.gate ≡ sv.gate
unfolding on_deducted
gate-on_deducted {S} sv user sku r t = ground arith

gate-on_transaction :
    {S : Server} {C : OrderCache} (sv : Service S C) (user sku : ℤ) (b : Begin S.Db S.Tx)
    → (on_transaction sv user sku b).1.gate ≡ sv.gate
unfolding on_transaction
gate-on_transaction sv user sku (timeout d) = refl
gate-on_transaction {S} sv user sku (begun t) =
    gate-on_deducted sv user sku (S.exec_deduct sku t).0 (S.exec_deduct sku t).1

gate-order_transaction :
    {S : Server} {C : OrderCache} (sv : Service S C) (user sku : ℤ)
    → (order_transaction sv user sku).1.gate ≡ sv.gate
unfolding order_transaction
gate-order_transaction sv user sku = gate-on_transaction sv user sku _

mode-try_acquire :
    (g : Guard) (k : ℕ) → ((try_acquire g k).1.mode ≡ g.mode) × ((try_acquire g k).1.bits ≡ g.bits)
unfolding try_acquire
mode-try_acquire g k = ground arith

mode-release : (g : Guard) (k : ℕ) → ((release g k).mode ≡ g.mode) × ((release g k).bits ≡ g.bits)
unfolding release
mode-release g k = ground arith

-- What the gate holds is what the requests in flight use.
pub record IsMarked (m : Mode) (bits : ℕ) (g : Guard) (fs : List Flight) : Type 0 where
  pub same_mode : g.mode ≡ m
  pub same_bits : g.bits ≡ bits
  pub valid : IsValid g
  pub apart : Apart m bits fs
  pub marks : (j : ℕ) → held g j ≡ in_use m bits j fs

module _ (m : Mode) (bits : ℕ) (g : Guard) (fs : List Flight) (v : IsMarked m bits g fs) where
  same_clash : (j k : ℕ) → clash g j k ≡ clash_in m bits j k
  same_clash j k = ap₂ (λ m' b. clash_in m' b j k) v.same_mode v.same_bits

  held-acquired :
      (j k : ℕ) → held (try_acquire g k).1 j ≡ (clash_in m bits j k || in_use m bits j fs)
  held-acquired j k = (try_acquire_lem g k v.valid).1 j ∙ ap₂ ◌||◌ (same_clash j k) (v.marks j)

  acquired_marks :
      (user sku : ℤ)
      → (try_acquire g (make_key user sku)).0 ≡ true
      → IsMarked m bits
          (try_acquire g (make_key user sku)).1
          (record { user = user; sku = sku; token = some (make_key user sku) } ∷ fs)
  unfolding in_use
  acquired_marks user sku got = record {
    same_mode = (mode-try_acquire g (make_key user sku)).0 ∙ v.same_mode;
    same_bits = (mode-try_acquire g (make_key user sku)).1 ∙ v.same_bits;
    valid = try_acquire-IsValid g (make_key user sku) v.valid;
    apart = (
      ground
          (arith, (try_acquire_lem g (make_key user sku) v.valid).0, v.marks (make_key user sku)),
      refl,
      v.apart,
    );
    marks = λ j. held-acquired j (make_key user sku);
  }

  rejected_marks : (k : ℕ) → (try_acquire g k).0 ≡ false → IsMarked m bits (try_acquire g k).1 fs
  rejected_marks k full = record {
    same_mode = (mode-try_acquire g k).0 ∙ v.same_mode;
    same_bits = (mode-try_acquire g k).1 ∙ v.same_bits;
    valid = try_acquire-IsValid g k v.valid;
    apart = v.apart;
    marks = λ j. ground (
      arith,
      held-acquired j k,
      (try_acquire_lem g k v.valid).0,
      v.marks j,
      v.marks k,
      held-clash g j k,
      same_clash j k,
    );
  }

  released_marks :
      (i : ℕ) (f : Flight)
      → get_elem? fs i ≡ some f
      → IsMarked m bits (release g (key_of f)) (remove_at i fs)
  released_marks i f e = record {
    same_mode = (mode-release g (key_of f)).0 ∙ v.same_mode;
    same_bits = (mode-release g (key_of f)).1 ∙ v.same_bits;
    valid = release-IsValid g (key_of f) v.valid;
    apart = Apart-remove_at m bits i fs f v.apart e;
    marks = λ j.
        held-release g j (key_of f) v.valid
        ∙ ap₂ (λ c h. not c && h) (same_clash j (key_of f)) (v.marks j)
        ∙ sym (in_use-remove_at m bits j i fs f v.apart e);
  }

-- The shop has a gate, and it is marked for the requests in flight.
abbrev pub Marked : {S : Server} {C : OrderCache} → Mode → ℕ → Shop S C → Type 0
Marked m bits x = (g : Guard) × (x.service.gate ≡ some g) × IsMarked m bits g x.flights

module _ {S : Server} {C : OrderCache} (m : Mode) (bits : ℕ) (on : is_none m ≡ false) where
  arrive-Marked :
      (x : Shop S C) (user sku : ℤ) → Marked m bits x → Marked m bits (step x (arrive user sku))
  unfolding step admit arrived
  arrive-Marked x user sku (g, is_g, v) =
      let open_gate : is_none g.mode ≡ false = rw v.same_mode on in
      let k : ℕ = make_key user sku in
      elim (Bool-cases (try_acquire g (make_key user sku)).0) [
        | inl got ↦
            rw (is_g, admit_by, open_gate, got)
              (
                (try_acquire g (make_key user sku)).1,
                refl,
                acquired_marks m bits g x.flights v user sku got,
              )
        | inr full ↦
            rw (is_g, admit_by, open_gate, full)
              (
                (try_acquire g (make_key user sku)).1,
                refl,
                rejected_marks m bits g x.flights v (make_key user sku) full,
              )
      ]

  complete-Marked :
      (x : Shop S C) (i : ℕ) (f : Option Flight)
      → get_elem? x.flights i ≡ f
      → Marked m bits x
      → Marked m bits (complete_one x i f)
  unfolding complete_one drop_token
  complete-Marked x i none e v = v
  complete-Marked x i (some f) e (g, is_g, v) = (
    release g (key_of f),
    ap₂ release_by (gate-order_transaction x.service f.user f.sku ∙ is_g)
        (token_at m bits i x.flights f v.apart e),
    released_marks m bits g x.flights v i f e,
  )

  step-Marked : (x : Shop S C) (e : Event) → Marked m bits x → Marked m bits (step x e)
  unfolding step
  step-Marked x (arrive user sku) v = arrive-Marked x user sku v
  step-Marked x (complete i) v = complete-Marked x i (get_elem? x.flights i) refl v

  -- With the gate on, after any sequence of events the gate holds exactly what the requests in
  -- flight use, and no two of them clash.
  pub run-Marked : (es : List Event) (x : Shop S C) → Marked m bits x → Marked m bits (run x es)
  unfolding run
  run-Marked [] x v = v
  run-Marked (e ∷ es) x v = run-Marked es (step x e) (step-Marked x e v)

-- How many requests of a user for a SKU are in flight.
unfoldable pub in_flight : ℤ → ℤ → List Flight → ℕ
in_flight user sku [] = 0
in_flight user sku (f ∷ fs) =
    let n = in_flight user sku fs in if int_eq user f.user && int_eq sku f.sku then n + 1 else n

module _ (m : Mode) (bits : ℕ) (on : is_none m ≡ false) where
  in_flight-zero :
      (user sku : ℤ) (fs : List Flight)
      → in_use m bits (make_key user sku) fs ≡ false
      → in_flight user sku fs ≡ 0
  unfolding in_flight in_use
  in_flight-zero user sku [] h = refl
  in_flight-zero user sku (f ∷ fs) h = ground (
    arith,
    in_flight-zero user sku fs,
    clash_refl m bits (make_key user sku) on,
    int_eq→eq user f.user,
    int_eq→eq sku f.sku,
  )

  in_flight-le : (user sku : ℤ) (fs : List Flight) → Apart m bits fs → in_flight user sku fs ≤ 1
  unfolding in_flight
  in_flight-le user sku [] a = omega arith
  in_flight-le user sku (f ∷ fs) a = ground (
    arith,
    in_flight-le user sku fs a.2,
    in_flight-zero f.user f.sku fs a.0,
    int_eq→eq user f.user,
    int_eq→eq sku f.sku,
  )

-- With the gate on, whatever the sequence of events, at most one request of a user for a SKU is in
-- flight at the end.
pub in_flight-run :
    {S : Server} {C : OrderCache} (m : Mode) (bits : ℕ)
    → is_none m ≡ false
    → (x : Shop S C) (es : List Event) (user sku : ℤ) → Marked m bits x
    → in_flight user sku (run x es).flights ≤ 1
in_flight-run m bits on x es user sku v =
    in_flight-le m bits on user sku (run x es).flights (run-Marked m bits on es x v).2.apart

-- With the gate on, once no request is in flight after a sequence of events, the gate holds no key:
-- no path through the order, failing or not, leaves a mark behind.
pub run_leaves_no_mark :
    {S : Server} {C : OrderCache} (m : Mode) (bits : ℕ)
    → is_none m ≡ false
    → (x : Shop S C) (es : List Event) → Marked m bits x
    → (run x es).flights ≡ []
    → (g : Guard) × ((run x es).service.gate ≡ some g) × ((k : ℕ) → held g k ≡ false)
run_leaves_no_mark m bits on x es v idle =
    let (g, is_g, w) : Marked m bits (run x es) = run-Marked m bits on es x v in
    (g, is_g, λ k. w.marks k ∙ unfold in_use in ap (in_use m bits k) idle)
