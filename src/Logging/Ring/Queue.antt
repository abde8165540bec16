-- ===== src/Logging/Ring/Queue.antt =====
-- The ring buffer is a bounded queue that drops the newest item.
use seckill_cpp.Base.{
  ℕ, ◌+◌, ◌%◌, ◌^◌, ◌<◌, true, false, ◌||◌, none, some, if◌then◌else◌, ◌==◌, ltb, some_injective,
  ltb→lt, ==_refl, List, [], ◌∷◌, ◌++◌, length, set, length-set, length-replicate, ◌≡◌, ◌↔◌, refl,
  ◌∙◌, sym, ap, subst, arith, inl, inr, Bool-cases,
}
use native.Mathlib.Nat.{mod-eq_of_lt}
use seckill_cpp.Logging.Ring.{RingBuffer, new_ring, push, pop_all, wait_and_pop_batch}
use seckill_cpp.Logging.Ring.Slots.{
  IsValid, entries, items, entries-append, pop_all-entries, pop_all-head, length-entries,
}

module _ {ℓ} {T : Type ℓ} where
  pub new_ring-IsValid : (c : ℕ) (d : T) → 0 < c → IsValid (new_ring c d)
  unfolding new_ring
  new_ring-IsValid c d h = record {
    some_slot = h;
    slots = length-replicate c d;
    head_in = h;
    count_in = omega arith;
  }

  pub length-items : (b : RingBuffer T) → length (items b) ≡ b.count
  unfolding items
  length-items b = length-entries b.buf b.unwritten b.capacity b.count b.head

  pub push_full :
      (x : T) (b : RingBuffer T)
      → b.count ≡ b.capacity
      → push x b ≡ (false, record b { dropped = (b.dropped + 1) % 2 ^ 64 })
  unfolding push
  push_full x b e = rw (e, ==_refl b.capacity)

  pub push_room :
      (x : T) (b : RingBuffer T)
      → b.count < b.capacity
      → push x b ≡ (
        true,
        record b { buf = set b.buf ((b.head + b.count) % b.capacity) x; count = b.count + 1 },
      )
  unfolding push
  push_room x b h = let differ : (b.count == b.capacity) ≡ false = ground arith in rw differ

  pub append_item :
      (x : T) (b : RingBuffer T)
      → IsValid b
      → b.count < b.capacity
      → items
          (record b { buf = set b.buf ((b.head + b.count) % b.capacity) x; count = b.count + 1 })
        ≡ items b ++ (x ∷ [])
  unfolding items
  append_item x b v room = ground (
    arith,
    entries-append b.buf b.unwritten x b.capacity b.count b.head (b.head + b.count) v.slots
        v.some_slot refl (omega (arith, v.head_in)) room,
  )

  pub pushed-IsValid :
      (x : T) (b : RingBuffer T)
      → IsValid b
      → b.count < b.capacity
      → IsValid
          (record b { buf = set b.buf ((b.head + b.count) % b.capacity) x; count = b.count + 1 })
  pushed-IsValid x b v room = record {
    some_slot = v.some_slot;
    slots = length-set b.buf ((b.head + b.count) % b.capacity) x ∙ v.slots;
    head_in = v.head_in;
    count_in = omega arith;
  }

  pub refused-IsValid :
      (b : RingBuffer T) → IsValid b → IsValid (record b { dropped = (b.dropped + 1) % 2 ^ 64 })
  refused-IsValid b v = record {
    some_slot = v.some_slot;
    slots = v.slots;
    head_in = v.head_in;
    count_in = v.count_in;
  }

  -- On a well-formed buffer, `push` accepts the item exactly if the queue is shorter than the
  -- capacity. An accepted item stands last in the queue, a refused one leaves the queue and counts
  -- as dropped. The buffer stays well-formed.
  pub push_refines :
      (x : T) (b : RingBuffer T)
      → IsValid b
      → IsValid (push x b).1
        × (((push x b).0 ≡ ltb (length (items b)) b.capacity)
            × ((items (push x b).1
                  ≡ (if ltb (length (items b)) b.capacity then items b ++ (x ∷ []) else items b))
                × ((push x b).1.dropped ≡ (
                    if ltb (length (items b)) b.capacity
                    then b.dropped
                    else (b.dropped + 1) % 2 ^ 64))))
  unfolding push items
  push_refines x b v = elim (Bool-cases (ltb b.count b.capacity)) [
    | inl room ↦
        rw (push_room x b (ltb→lt b.count b.capacity room), length-items b, room)
          (
            pushed-IsValid x b v (ltb→lt b.count b.capacity room),
            (refl, (append_item x b v (ltb→lt b.count b.capacity room), refl)),
          )
    | inr full ↦
        rw (push_full x b (ground (arith, full, v.count_in)), length-items b, full)
          (refused-IsValid b v, (refl, (refl, refl)))
  ]

  abbrev pub popped_items : RingBuffer T → List T
  popped_items b = (pop_all b.buf b.unwritten b.capacity b.count b.head).0

  abbrev pub after_pop : RingBuffer T → RingBuffer T
  after_pop b = record b {
    head = (pop_all b.buf b.unwritten b.capacity b.count b.head).1;
    count = 0;
  }

  abbrev pub popped_state : RingBuffer T → List T × RingBuffer T
  popped_state b = (popped_items b, after_pop b)

  pub items-popped : (b : RingBuffer T) → IsValid b → popped_items b ≡ items b
  unfolding items
  items-popped b v =
      pop_all-entries b.buf b.unwritten b.capacity b.count b.head b.head
        (sym (mod-eq_of_lt v.head_in))

  pub after_pop-IsValid :
      (b : RingBuffer T) → IsValid b → (items (after_pop b) ≡ []) × IsValid (after_pop b)
  unfolding items entries
  after_pop-IsValid b v = (
    refl,
    record {
      some_slot = v.some_slot;
      slots = v.slots;
      head_in = pop_all-head b.buf b.unwritten b.capacity b.count b.head v.head_in;
      count_in = omega arith;
    },
  )

  pub pop_ready :
      (b : RingBuffer T)
      → (ltb 0 b.count || b.stop) ≡ true
      → wait_and_pop_batch b ≡ some (popped_state b)
  unfolding wait_and_pop_batch
  pop_ready b h = rw h

  pub pop_waits :
      (b : RingBuffer T) → (ltb 0 b.count || b.stop) ≡ false → wait_and_pop_batch b ≡ none
  unfolding wait_and_pop_batch
  pop_waits b h = rw h

  idle : (b : RingBuffer T) → (ltb 0 b.count || b.stop) ≡ false → (items b ≡ []) × (b.stop ≡ false)
  unfolding items entries
  idle b h = let e : b.count ≡ 0 = ground (arith, h) in (rw e, ground (arith, h))

  not_ready :
      (b : RingBuffer T) → items b ≡ [] → b.stop ≡ false → (ltb 0 b.count || b.stop) ≡ true → ⊥
  not_ready b e s h = ground (arith, h, s, length-items b, ap length e)

  popped :
      (b : RingBuffer T)
      → IsValid b
      → (out : List T) (b' : RingBuffer T) → some (popped_state b) ≡ some (out, b')
      → (out ≡ items b) × ((items b' ≡ []) × IsValid b')
  popped b v out b' e =
      let same : popped_state b ≡ (out, b') = some_injective e in
      (
        sym (ap (λ p. p.0) same) ∙ items-popped b v,
        subst (λ p. (items p.1 ≡ []) × IsValid p.1) same (after_pop-IsValid b v),
      )

  -- On a well-formed buffer, `waitAndPopBatch` waits exactly while the queue is empty and no stop
  -- was asked for. Otherwise it gives the whole queue, oldest item first, and leaves it empty and
  -- the buffer well-formed.
  pub wait_and_pop_batch_refines :
      (b : RingBuffer T)
      → IsValid b
      → ((wait_and_pop_batch b ≡ none) ↔ ((items b ≡ []) × (b.stop ≡ false)))
        × ((out : List T) (b' : RingBuffer T)
            → wait_and_pop_batch b ≡ some (out, b')
            → (out ≡ items b) × ((items b' ≡ []) × IsValid b'))
  wait_and_pop_batch_refines b v = elim (Bool-cases (ltb 0 b.count || b.stop)) [
    | inl ready ↦ rw (pop_ready b ready) (
      (λ e. absurd (cc), λ (none_left, going). absurd (not_ready b none_left going ready)),
      λ out b' e. popped b v out b' (cc),
    )
    | inr waits ↦ rw (pop_waits b waits) ((λ e. idle b waits, λ e. refl), λ out b' e. absurd (cc))
  ]
