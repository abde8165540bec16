-- ===== src/Auth/Password/Compare.antt =====
-- password.cc: `constantTimeEquals` is equality, though it looks at every byte.
use seckill_cpp.Base.{
  ℕ, zero, suc, ◌+◌, ◌≤◌, ◌<◌, bit_xor, true, Bytes, if◌then◌else◌, ◌==◌, ==_refl, length, get_or,
  [], ◌∷◌, ◌≡◌, ◌↔◌, refl, arith, max, Bool-cases, inl, inr,
}
use seckill_cpp.Base.Bits.{bit_or_zero, bit_xor_zero, bit_xor_self}
use seckill_cpp.Auth.Password.{byte_at, diff_from, max_len, constant_time_equals}

same_bytes :
    (a b : Bytes)
    → length a ≡ length b
    → ((i : ℕ) → i < length a → get_or a i 0 ≡ get_or b i 0)
    → a ≡ b
same_bytes [] [] l h = refl
same_bytes [] (y ∷ b) l h = absurd (omega arith)
same_bytes (x ∷ a) [] l h = absurd (omega arith)
same_bytes (x ∷ a) (y ∷ b) l h =
    let head = h 0 (omega arith) in
    let rest = same_bytes a b (omega arith) (λ i k. h (suc i) (omega arith)) in cc

diff_zero :
    (a b : Bytes) (n i diff : ℕ)
    → diff_from a b n i diff ≡ 0
    → (diff ≡ 0) × ((j : ℕ) → i ≤ j → j < i + n → byte_at a j ≡ byte_at b j)
unfolding diff_from
diff_zero a b zero i diff h = (h, λ j p q. absurd (omega arith))
diff_zero a b (suc n) i diff h =
    let (now, later) = diff_zero a b n (i + 1) _ h in
    let x : ℕ = bit_xor (byte_at a i) (byte_at b i) in
    let (d, e) = bit_or_zero (max diff x) diff x (omega arith) (omega arith) now in
    let here : byte_at a i ≡ byte_at b i =
      bit_xor_zero (max (byte_at a i) (byte_at b i)) (byte_at a i) (byte_at b i) (omega arith)
        (omega arith) e in
    (
      d,
      λ j p q. elim (Bool-cases (i == j)) [
        | inl same ↦ let e : i ≡ j = ground (arith, same) in rw (← e) here
        | inr other ↦ later j (ground (arith, other, p)) (omega arith)
      ],
    )

diff_same : (a : Bytes) (n i : ℕ) → diff_from a a n i 0 ≡ 0
unfolding diff_from
diff_same a zero i = refl
diff_same a (suc n) i =
    rw (bit_xor_self (byte_at a i) (byte_at a i) (omega arith)) (diff_same a n (i + 1))

zero_from :
    (a b : Bytes)
    → constant_time_equals a b ≡ true
    → diff_from a b (max_len a b) 0 (if length a == length b then 0 else 1) ≡ 0
unfolding constant_time_equals
zero_from a b h = ground (arith, h)

equals_self : (a : Bytes) → constant_time_equals a a ≡ true
unfolding constant_time_equals
equals_self a = rw (==_refl (length a), diff_same a (max_len a a) 0)

-- For all byte strings, of the same length or not, `constantTimeEquals` answers true exactly if
-- they are equal.
pub constant_time_equals_iff : (a b : Bytes) → (constant_time_equals a b ≡ true) ↔ (a ≡ b)
constant_time_equals_iff a b = (
  λ h.
      let (l, at) = diff_zero a b (max_len a b) 0 _ (zero_from a b h) in
      let lengths : length a ≡ length b = ground (arith, l) in
      same_bytes a b lengths (λ i k. ground (arith, at i (omega arith) (ground (arith, lengths)))),
  λ e. rw e (equals_self b),
)
