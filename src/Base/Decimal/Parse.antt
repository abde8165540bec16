-- ===== src/Base/Decimal/Parse.antt =====
-- `std::stoll`, and that it reads what `std::to_string` writes. `none` stands for its exceptions.
use Prim.Native.Nat.{ℕ, zero, suc, ◌+◌, ◌-◌, ◌*◌, ◌/◌, ◌%◌, ◌^◌, ◌≤◌, ◌<◌}
use mathlib.Core.Path.{◌≡◌, refl, ◌∙◌}
use mathlib.Core.Logic.{inl, inr}
use mathlib.Core.Bool.{Bool, true, false, ◌&&◌, ◌||◌}
use mathlib.Core.Option.{Option, none, some}
use mathlib.Core.List.{[], ◌∷◌, ◌++◌}
use native.Mathlib.Omega.{arith}
use seckill_cpp.Base.Logic.{if◌then◌else◌, ltb, leb, ◌==◌, Bool-cases, lt→ltb}
use seckill_cpp.Base.Text.{Bytes}
use seckill_cpp.Base.Int.{ℤ, pos, negsuc, InInt64}
use seckill_cpp.Base.Decimal.{digits, to_string, value, value-digits}

abbrev pub is_decimal : ℕ → Bool
is_decimal c = leb b'0' c && leb c b'9'

abbrev pub is_white : ℕ → Bool
is_white c = c == 32 || (leb 9 c && leb c 13)

unfoldable pub skip_white : Bytes → Bytes
skip_white [] = []
skip_white (c ∷ s) = if is_white c then skip_white s else c ∷ s

-- The number in front; what follows its digits is ignored.
unfoldable pub read_digits : ℕ → Bytes → ℕ
read_digits acc [] = acc
read_digits acc (c ∷ s) =
    let rest = read_digits (10 * acc + (c - b'0')) s in if is_decimal c then rest else acc

abbrev pub starts_decimal : Bytes → Bool
starts_decimal [] = false
starts_decimal (c ∷ s) = is_decimal c

unfoldable pub negated : ℕ → Option ℤ
negated zero = some (pos 0)
negated (suc n) = if ltb n (2 ^ 63) then some (negsuc n) else none

unfoldable pub read_positive : Bytes → Option ℤ
unfolding read_digits
read_positive s =
    if starts_decimal s && ltb (read_digits 0 s) (2 ^ 63)
    then some (pos (read_digits 0 s))
    else none

unfoldable pub read_negative : Bytes → Option ℤ
unfolding read_digits negated
read_negative s = if starts_decimal s then negated (read_digits 0 s) else none

unfoldable pub read_signed : Bytes → Option ℤ
unfolding read_positive read_negative
read_signed [] = none
read_signed (c ∷ s) =
    if c == b'-'
    then read_negative s
    else if c == b'+'
    then read_positive s
    else read_positive (c ∷ s)

unfoldable pub stoll : Bytes → Option ℤ
unfolding skip_white read_signed
stoll s = read_signed (skip_white s)

abbrev AllDecimal : Bytes → Type 0
AllDecimal [] = Unit
AllDecimal (c ∷ s) = (is_decimal c ≡ true) × AllDecimal s

AllDecimal-append :
    (s : Bytes) (c : ℕ) → AllDecimal s → is_decimal c ≡ true → AllDecimal (s ++ (c ∷ []))
AllDecimal-append [] c h k = (k, tt)
AllDecimal-append (x ∷ s) c h k = (h.0, AllDecimal-append s c h.1 k)

digit_decimal : (n : ℕ) → n < 10 → is_decimal (b'0' + n) ≡ true
digit_decimal n h = ground arith

digits-AllDecimal : (fuel n : ℕ) → n ≤ fuel → AllDecimal (digits fuel n)
unfolding digits
digits-AllDecimal zero n h = (digit_decimal n (omega arith), tt)
digits-AllDecimal (suc fuel) n h = elim (Bool-cases (ltb n 10)) [
  | inl small ↦ rw small (digit_decimal n (ground (arith, small)), tt)
  | inr large ↦ rw large (
      AllDecimal-append (digits fuel (n / 10)) (b'0' + n % 10)
        (digits-AllDecimal fuel (n / 10) (omega arith)) (digit_decimal (n % 10) (omega arith)))
]

append_starts :
    (s : Bytes) (c : ℕ) → starts_decimal s ≡ true → starts_decimal (s ++ (c ∷ [])) ≡ true
append_starts [] c h = absurd (cc)
append_starts (x ∷ s) c h = h

starts-digits : (fuel n : ℕ) → n ≤ fuel → starts_decimal (digits fuel n) ≡ true
unfolding digits
starts-digits zero n h = digit_decimal n (omega arith)
starts-digits (suc fuel) n h = elim (Bool-cases (ltb n 10)) [
  | inl small ↦ rw small (digit_decimal n (ground (arith, small)))
  | inr large ↦ rw large (
      append_starts (digits fuel (n / 10)) (b'0' + n % 10)
        (starts-digits fuel (n / 10) (omega arith)))
]

read_digits-value : (acc : ℕ) (s : Bytes) → AllDecimal s → read_digits acc s ≡ value acc s
unfolding read_digits value
read_digits-value acc [] h = refl
read_digits-value acc (c ∷ s) h = rw h.0 (read_digits-value (10 * acc + (c - b'0')) s h.1)

read-digits : (n : ℕ) → read_digits 0 (digits n n) ≡ n
read-digits n =
    read_digits-value 0 (digits n n) (digits-AllDecimal n n (omega arith))
    ∙ value-digits n n (omega arith)

-- A digit is neither white nor a sign.
read_decimal : (s : Bytes) → starts_decimal s ≡ true → read_signed (skip_white s) ≡ read_positive s
unfolding read_signed skip_white
read_decimal [] h = absurd (cc)
read_decimal (c ∷ s) h =
    let plain : is_white c ≡ false = ground (arith, h) in
    let minus : (c == b'-') ≡ false = ground (arith, h) in
    let plus : (c == b'+') ≡ false = ground (arith, h) in rw (plain, minus, plus)

stolls : (s : Bytes) → starts_decimal s ≡ true → stoll s ≡ read_positive s
unfolding stoll
stolls s h = read_decimal s h

positive_reads :
    (s : Bytes) (n : ℕ)
    → starts_decimal s ≡ true
    → read_digits 0 s ≡ n
    → n < 2 ^ 63
    → read_positive s ≡ some (pos n)
unfolding read_positive
positive_reads s n d e h = let fits : ltb n (2 ^ 63) ≡ true = lt→ltb n (2 ^ 63) h in rw (d, e, fits)

negative_reads :
    (s : Bytes) (n : ℕ)
    → starts_decimal s ≡ true
    → read_digits 0 s ≡ suc n
    → n < 2 ^ 63
    → stoll (b'-' ∷ s) ≡ some (negsuc n)
unfolding stoll read_negative skip_white read_signed negated
negative_reads s n d e h = let fits : ltb n (2 ^ 63) ≡ true = lt→ltb n (2 ^ 63) h in rw (d, e, fits)

-- On `int64_t`, `stoll` reads back what `to_string` wrote.
pub stoll-to_string : (a : ℤ) → InInt64 a → stoll (to_string a) ≡ some a
unfolding to_string
stoll-to_string (pos n) h =
    stolls (digits n n) (starts-digits n n (omega arith))
    ∙ positive_reads (digits n n) n (starts-digits n n (omega arith)) (read-digits n) h
stoll-to_string (negsuc n) h =
    negative_reads (digits (suc n) (suc n)) n (starts-digits (suc n) (suc n) (omega arith))
      (read-digits (suc n)) h
