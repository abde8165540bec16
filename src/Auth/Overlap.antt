-- ===== src/Auth/Overlap.antt =====
-- A guard of src/service that is asked when a request arrives and told of it when it ends: requests
-- that overlap, and how many of them a limit lets through.
use seckill_cpp.Base.{
  ℕ, zero, suc, ◌+◌, ◌-◌, ◌<◌, ◌≤◌, Bool, true, false, if◌then◌else◌, ltb, leb, ◌==◌, ◌≡◌, refl,
  ◌∙◌, ap, arith, List, [], ◌∷◌, ◌++◌, inl, inr, Bool-cases,
}

-- An arrival, the end of a request that was let through, which the guard counts or not, or time that
-- goes by.
pub data Event : Type 0 where
  arrive counts leave : Event
  pass : ℕ → Event

-- What the guard does with its store.
pub record Guarded : Type 1 where
  pub Store : Type 0
  pub asks : Store → Bool × Store
  pub marks : Store → Store
  pub waits : ℕ → Store → Store

-- `peak` is the largest number that was in flight at once.
pub record Traffic (S : Type 0) : Type 0 where
  pub store : S
  pub in_flight : ℕ
  pub peak : ℕ
  pub counted : ℕ

abbrev pub larger : ℕ → ℕ → ℕ
larger a b = if leb a b then b else a

abbrev pub idle : {S : Type 0} → S → Traffic S
idle s = record { store = s; in_flight = 0; peak = 0; counted = 0 }

abbrev pub lasts : Event → ℕ
lasts (pass n) = n
lasts _ = 0

-- The time that the events take.
abbrev pub duration : List Event → ℕ
duration [] = 0
duration (e ∷ es) = lasts e + duration es

abbrev pub repeated : Event → ℕ → List Event
repeated e zero = []
repeated e (suc n) = e ∷ repeated e n

module _ (G : Guarded) where
  abbrev pub arrived : Traffic G.Store → Bool × G.Store → Traffic G.Store
  arrived t (true, s) = record {
    store = s;
    in_flight = t.in_flight + 1;
    peak = larger t.peak (t.in_flight + 1);
    counted = t.counted;
  }
  arrived t (false, s) = record t { store = s }

  unfoldable pub step : Event → Traffic G.Store → Traffic G.Store
  step arrive t = arrived t (G.asks t.store)
  step counts t = if t.in_flight == 0 then t else record t {
    store = G.marks t.store;
    in_flight = t.in_flight - 1;
    counted = t.counted + 1;
  }
  step leave t = record t { in_flight = t.in_flight - 1 }
  step (pass n) t = record t { store = G.waits n t.store }

  unfoldable pub run : List Event → Traffic G.Store → Traffic G.Store
  run [] t = t
  run (e ∷ es) t = run es (step e t)

  -- The store counts: with `n` counted and `e` seconds after the start, the guard lets a request
  -- through as long as `n` is below the limit.
  pub record Counts (limit window : ℕ) (At : ℕ → ℕ → G.Store → Type 0) : Type 0 where
    pub asked : (e n : ℕ) (s : G.Store) → e < window → At e n s → G.asks s ≡ (ltb n limit, s)
    pub marked : (e n : ℕ) (s : G.Store) → e < window → At e n s → At e (n + 1) (G.marks s)
    pub waited : (m e n : ℕ) (s : G.Store) → m + e < window → At e n s → At (m + e) n (G.waits m s)

module _ {G : Guarded} {limit window : ℕ} {At : ℕ → ℕ → G.Store → Type 0}
    (law : Counts G limit window At) (limit_pos : 0 < limit) where
  record Inv (e : ℕ) (t : Traffic G.Store) : Type 0 where
    at : At e t.counted t.store
    highest : t.in_flight ≤ t.peak
    bounded : t.counted + t.in_flight + 1 ≤ limit + t.peak

  arrived-Inv :
      (e : ℕ) (t : Traffic G.Store) (b : Bool)
      → Inv e t
      → ltb t.counted limit ≡ b
      → Inv e (arrived G t (b, t.store))
  arrived-Inv e t true v may = record { at = v.at; highest = ground arith; bounded = ground arith }
  arrived-Inv e t false v may = record { at = v.at; highest = v.highest; bounded = v.bounded }

  counts-Inv :
      (e : ℕ) (t : Traffic G.Store)
      → e < window
      → Inv e t
      → (t.in_flight == 0) ≡ false
      → Inv e (record t {
        store = G.marks t.store;
        in_flight = t.in_flight - 1;
        counted = t.counted + 1;
      })
  counts-Inv e t h v busy = record {
    at = law.marked e t.counted t.store h v.at;
    highest = ground arith;
    bounded = ground (arith, v.bounded);
  }

  step-Inv :
      (ev : Event) (e : ℕ) (t : Traffic G.Store)
      → lasts ev + e < window
      → Inv e t
      → Inv (lasts ev + e) (step G ev t)
  unfolding step
  step-Inv arrive e t h v =
      let same : 0 + e ≡ e = omega arith in
      rw (same, law.asked e t.counted t.store (omega arith) v.at)
        (arrived-Inv e t (ltb t.counted limit) v refl)
  step-Inv counts e t h v =
      let same : 0 + e ≡ e = omega arith in
      rw same (elim (Bool-cases (t.in_flight == 0)) [
        | inl none_there ↦ rw none_there v
        | inr busy ↦ rw busy (counts-Inv e t (omega arith) v busy)
      ])
  step-Inv leave e t h v =
      let same : 0 + e ≡ e = omega arith in
      rw same (record {
        at = v.at;
        highest = omega (arith, v.highest);
        bounded = omega (arith, v.bounded);
      })
  step-Inv (pass n) e t h v = record {
    at = law.waited n e t.counted t.store h v.at;
    highest = v.highest;
    bounded = v.bounded;
  }

  run-Inv :
      (es : List Event) (e later : ℕ) (t : Traffic G.Store)
      → duration es + e ≡ later
      → later < window
      → Inv e t
      → Inv later (run G es t)
  unfolding run
  run-Inv [] e later t at h v = let same : e ≡ later = omega (arith, at) in rw (← same) v
  run-Inv (ev ∷ es) e later t at h v =
      run-Inv es (lasts ev + e) later (step G ev t) (omega (arith, at)) h
        (step-Inv ev e t (omega (arith, at)) v)

  let_through :
      (t : Traffic G.Store)
      → 0 < window
      → At 0 0 t.store
      → step G arrive t ≡ arrived G t (true, t.store)
  unfolding step
  let_through t h at =
      let may : ltb 0 limit ≡ true = ground arith in rw (law.asked 0 0 t.store h at, may)

  arrivals_let_in :
      (n : ℕ) (rest : List Event) (t : Traffic G.Store)
      → 0 < window
      → At 0 0 t.store
      → (peak : ℕ) × (run G (repeated arrive n ++ rest) t
          ≡ run G rest (record t { in_flight = n + t.in_flight; peak = peak }))
  unfolding run
  arrivals_let_in zero rest t h at =
      let same : t.in_flight ≡ 0 + t.in_flight = omega arith in
      (t.peak, ap (λ i. run G rest (record t { in_flight = i })) same)
  arrivals_let_in (suc n) rest t h at =
      let (peak, e) = arrivals_let_in n rest (arrived G t (true, t.store)) h at in
      let one_more : n + (t.in_flight + 1) ≡ suc n + t.in_flight = omega arith in
      (
        peak,
        ap (λ u. run G (repeated arrive n ++ rest) u) (let_through t h at)
            ∙ e
            ∙ ap (λ i. run G rest (record t { in_flight = i; peak = peak })) one_more,
      )

  counted_step :
      {n : ℕ} (t : Traffic G.Store)
      → suc n ≤ t.in_flight
      → step G counts t
        ≡ record t { store = G.marks t.store; in_flight = t.in_flight - 1; counted = t.counted + 1 }
  unfolding step
  counted_step t h = let busy : (t.in_flight == 0) ≡ false = ground arith in rw busy

  counts_all :
      (n : ℕ) (t : Traffic G.Store)
      → n ≤ t.in_flight
      → (run G (repeated counts n) t).counted ≡ n + t.counted
  unfolding run
  counts_all zero t h = omega arith
  counts_all (suc n) t h =
      ap (λ (u : Traffic G.Store). (run G (repeated counts n) u).counted) (counted_step t h)
      ∙ counts_all n _ (omega arith)
      ∙ omega arith

  -- While the events take less than the window, fewer are counted than the limit and the peak
  -- together, and any number that arrives before the first is counted is let through.
  pub counted_bounded :
      (s : G.Store) (es : List Event) (n : ℕ)
      → At 0 0 s
      → duration es < window
      → ((run G es (idle s)).counted < limit + (run G es (idle s)).peak)
        × ((run G (repeated arrive n ++ repeated counts n) (idle s)).counted ≡ n)
  counted_bounded s es n at h =
      let start : Inv 0 (idle s) = record {
        at = at;
        highest = omega arith;
        bounded = omega arith;
      } in
      let v = run-Inv es 0 (duration es) (idle s) (omega arith) h start in
      let (peak, let_in) = arrivals_let_in n (repeated counts n) (idle s) (omega arith) at in
      (
        omega (arith, v.bounded),
        ap (λ (t : Traffic G.Store). t.counted) let_in ∙ counts_all n _ (omega arith) ∙ omega arith,
      )
