-- ===== src/Base/Decimal.antt =====
-- `std::to_string` on an `int64_t`, and that it is injective.
pub mod Parse
use Prim.Native.Nat.{ℕ, zero, suc, ◌+◌, ◌-◌, ◌*◌, ◌/◌, ◌%◌, ◌≤◌}
use mathlib.Core.Path.{◌≡◌, refl, sym, ap, ◌∙◌}
use mathlib.Core.Logic.{inl, inr}
use mathlib.Core.List.{[], ◌∷◌, ◌++◌}
use native.Mathlib.Omega.{arith}
use seckill_cpp.Base.Logic.{if◌then◌else◌, ltb, Bool-cases}
use seckill_cpp.Base.Text.{Bytes}
use seckill_cpp.Base.Int.{ℤ, pos, negsuc}

-- The digits of a number at most the fuel.
digits : ℕ → ℕ → Bytes
digits zero n = (b'0' + n) ∷ []
digits (suc fuel) n =
    let rest = digits fuel (n / 10) in
    if ltb n 10 then (b'0' + n) ∷ [] else rest ++ ((b'0' + n % 10) ∷ [])

unfoldable pub to_string : ℤ → Bytes
unfolding digits
to_string (pos n) = digits n n
to_string (negsuc n) = b'-' ∷ digits (suc n) (suc n)

value : ℕ → Bytes → ℕ
value acc [] = acc
value acc (c ∷ s) = value (10 * acc + (c - b'0')) s

value-append : (acc c : ℕ) (s : Bytes) → value acc (s ++ (c ∷ [])) ≡ 10 * value acc s + (c - b'0')
unfolding value
value-append acc c [] = refl
value-append acc c (x ∷ s) = value-append (10 * acc + (x - b'0')) c s

value-digits : (fuel n : ℕ) → n ≤ fuel → value 0 (digits fuel n) ≡ n
unfolding digits value
value-digits zero n h = omega arith
value-digits (suc fuel) n h = elim (Bool-cases (ltb n 10)) [
  | inl small ↦ rw small (omega arith)
  | inr large ↦
      rw
        (
          large,
          value-append 0 (b'0' + n % 10) (digits fuel (n / 10)),
          value-digits fuel (n / 10) (omega arith),
        )
        (omega arith)
]

-- No number starts with the minus sign.
abbrev first : Bytes → ℕ
first [] = b'0'
first (c ∷ s) = c

first-append : (s : Bytes) (c : ℕ) → b'0' ≤ c → b'0' ≤ first s → b'0' ≤ first (s ++ (c ∷ []))
first-append [] c h k = h
first-append (x ∷ s) c h k = k

first-digits : (fuel n : ℕ) → b'0' ≤ first (digits fuel n)
unfolding digits
first-digits zero n = omega arith
first-digits (suc fuel) n = elim (Bool-cases (ltb n 10)) [
  | inl small ↦ rw small (omega arith)
  | inr large ↦ rw large (
      first-append (digits fuel (n / 10)) (b'0' + n % 10) (omega arith)
        (first-digits fuel (n / 10)))
]

tail : Bytes → Bytes
tail [] = []
tail (c ∷ s) = s

pub to_string_injective : (a b : ℤ) → to_string a ≡ to_string b → a ≡ b
unfolding to_string tail
to_string_injective (pos a) (pos b) h =
    ap pos (sym (value-digits a a (omega arith)) ∙ ap (value 0) h ∙ value-digits b b (omega arith))
to_string_injective (pos a) (negsuc b) h = absurd (omega (arith, first-digits a a, ap first h))
to_string_injective (negsuc a) (pos b) h = absurd (omega (arith, first-digits b b, ap first h))
to_string_injective (negsuc a) (negsuc b) h =
    let same =
      sym (value-digits (suc a) (suc a) (omega arith))
      ∙ ap (λ s. value 0 (tail s)) h
      ∙ value-digits (suc b) (suc b) (omega arith) in
    ap negsuc (omega (arith, same))
