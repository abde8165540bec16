-- ===== src/Logging/Ring/Slots.antt =====
-- The slots of src/logging/ring_buffer.h as a list, oldest first, with the wrap-around.
use seckill_cpp.Base.{
  ℕ, zero, suc, ◌+◌, ◌-◌, ◌%◌, ◌≤◌, ◌<◌, if◌then◌else◌, ltb, List, [], ◌∷◌, ◌++◌, length, get_or,
  set, get_or-set_self, get_or-set_ne, ◌≡◌, ◌≢◌, refl, ◌∙◌, sym, ap, arith, inl, inr, Bool-cases,
}
use native.Mathlib.Nat.{mod-eq_of_lt, mod-eq-sub-mod, mod-lt, mod-add-mod}
use seckill_cpp.Logging.Ring.{RingBuffer, pop_all}

module _ {ℓ} {T : Type ℓ} where
  pub record IsValid (b : RingBuffer T) : Type 0 where
    pub some_slot : 0 < b.capacity
    pub slots : length b.buf ≡ b.capacity
    pub head_in : b.head < b.capacity
    pub count_in : b.count ≤ b.capacity

  -- The items from the place `at`, which may lie past the end.
  unfoldable pub entries : List T → T → ℕ → ℕ → ℕ → List T
  entries buf d capacity zero at = []
  entries buf d capacity (suc n) at =
      get_or buf (at % capacity) d ∷ entries buf d capacity n (at + 1)

  -- The items that wait, oldest first.
  unfoldable pub items : RingBuffer T → List T
  unfolding entries
  items b = entries b.buf b.unwritten b.capacity b.count b.head

wrap : (x c : ℕ) → 0 < c → x < c + c → x % c ≡ (if ltb x c then x else x - c)
wrap x c p h = elim (Bool-cases (ltb x c)) [
  | inl low ↦ rw low (mod-eq_of_lt (ground (arith, low)))
  | inr high ↦
      rw high (
        mod-eq-sub-mod {n = x} {m = c} (ground (arith, high)) ∙ mod-eq_of_lt (ground (arith, high)))
]

apart : (a b c : ℕ) → a < b → b < a + c → b < c + c → a % c ≢ b % c
apart a b c h near low e =
    ground (arith, wrap a c (omega arith) (omega arith), wrap b c (omega arith) low, e)

module _ {ℓ} {T : Type ℓ} where
  pub entries-append :
      (buf : List T) (d x : T) (c n at last : ℕ)
      → length buf ≡ c
      → 0 < c
      → last ≡ at + n
      → last < c + c
      → n < c
      → entries (set buf (last % c) x) d c (suc n) at ≡ entries buf d c n at ++ (x ∷ [])
  unfolding entries
  entries-append buf d x c zero at last l p e low h =
      let f : last ≡ at = omega (arith, e) in
      rw (f, get_or-set_self buf (at % c) x d (ground (arith, l, mod-lt at p)))
  entries-append buf d x c (suc n) at last l p e low h = ground (
    arith,
    get_or-set_ne buf (last % c) (at % c) x d
        (λ f. apart at last c (omega arith) (omega arith) low (sym f)),
    entries-append buf d x c n (at + 1) last l p (omega arith) low (omega arith),
  )

  pub pop_all-entries :
      (buf : List T) (d : T) (c n head at : ℕ)
      → head ≡ at % c
      → (pop_all buf d c n head).0 ≡ entries buf d c n at
  unfolding pop_all entries
  pop_all-entries buf d c zero head at e = refl
  pop_all-entries buf d c (suc n) head at e =
      ground
        (arith, e, pop_all-entries buf d c n ((head + 1) % c) (at + 1) (rw e (mod-add-mod at c 1)))

  pub pop_all-head :
      (buf : List T) (d : T) (c n head : ℕ) → head < c → (pop_all buf d c n head).1 < c
  unfolding pop_all
  pop_all-head buf d c zero head h = h
  pop_all-head buf d c (suc n) head h =
      pop_all-head buf d c n ((head + 1) % c) (mod-lt (head + 1) (omega arith))

  pub length-entries : (buf : List T) (d : T) (c n at : ℕ) → length (entries buf d c n at) ≡ n
  unfolding entries
  length-entries buf d c zero at = refl
  length-entries buf d c (suc n) at = ap suc (length-entries buf d c n (at + 1))
