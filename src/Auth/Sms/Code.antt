-- ===== src/Auth/Sms/Code.antt =====
-- SmsService.cc, `genNumericCode`: rejection sampling on the words that `RAND_bytes` gives. The
-- loop takes them from a list, where `none` is a failed call.
use seckill_cpp.Base.{
  ℕ, ◌+◌, ◌*◌, ◌-◌, ◌%◌, ◌/◌, ◌≤◌, ◌<◌, Option, none, some, Bytes, if◌then◌else◌, leb, ◌≡◌, refl,
  ◌∙◌, sym, ap, arith, List, [], ◌∷◌, ◌↔◌, some_injective,
}

abbrev limit : ℕ
limit = 4294000000

-- One digit of "%06u".
digit_at : ℕ → ℕ → ℕ
digit_at n unit = b'0' + n / unit % 10

-- "%06u" of a number below 10^6.
unfoldable pub six_digits : ℕ → Bytes
unfolding digit_at
six_digits n =
    digit_at n 100000
    ∷ digit_at n 10000
    ∷ digit_at n 1000
    ∷ digit_at n 100
    ∷ digit_at n 10
    ∷ digit_at n 1
    ∷ []

-- The code, empty if `RAND_bytes` fails; `none` if the words run out before the loop ends.
unfoldable pub gen_numeric_code : List (Option ℕ) → Option Bytes
gen_numeric_code [] = none
gen_numeric_code (none ∷ words) = some []
gen_numeric_code (some v ∷ words) =
    let rest = gen_numeric_code words in
    if leb limit v then rest else some (six_digits (v % 1000000))

-- The words that are drawn again.
abbrev pub AllRejected : List ℕ → Type 0
AllRejected [] = Unit {0}
AllRejected (v ∷ vs) = (limit ≤ v) × AllRejected vs

abbrev pub drawn : List ℕ → List (Option ℕ) → List (Option ℕ)
drawn [] words = words
drawn (v ∷ vs) words = some v ∷ drawn vs words

-- The value that six digits spell.
abbrev spelled : Bytes → ℕ
spelled (a ∷ b ∷ c ∷ d ∷ e ∷ f ∷ []) =
    (a - b'0') * 100000
    + (b - b'0') * 10000
    + (c - b'0') * 1000
    + (d - b'0') * 100
    + (e - b'0') * 10
    + (f - b'0')
spelled _ = 0

spelled-six_digits : (n : ℕ) → n < 1000000 → spelled (six_digits n) ≡ n
unfolding six_digits digit_at
spelled-six_digits n h = ground arith

gen_after :
    (vs : List ℕ) (words : List (Option ℕ))
    → AllRejected vs
    → gen_numeric_code (drawn vs words) ≡ gen_numeric_code words
unfolding gen_numeric_code
gen_after [] words h = refl
gen_after (v ∷ vs) words (h, t) = ground (arith, gen_after vs words t)

ends :
    (v : ℕ) (words : List (Option ℕ))
    → v < limit
    → gen_numeric_code (some v ∷ words) ≡ some (six_digits (v % 1000000))
unfolding gen_numeric_code
ends v words h = ground arith

quotient : (v : ℕ) → v < limit → v / 1000000 < 4294
quotient v h = omega arith

-- After any number of words that are drawn again, the first word below the limit ends the loop.
-- Each code from 000000 to 999999 is the result for exactly 4294 of the words below the limit,
-- those that are its number plus a multiple of a million.
pub gen_numeric_code-IsUniform :
    (vs : List ℕ) (words : List (Option ℕ)) (v n : ℕ)
    → AllRejected vs
    → v < limit
    → n < 1000000
    → (gen_numeric_code (drawn vs (some v ∷ words)) ≡ some (six_digits n))
      ↔ ((j : ℕ) × ((j < 4294) × (v ≡ n + 1000000 * j)))
gen_numeric_code-IsUniform vs words v n r h below =
    let result = gen_after vs (some v ∷ words) r ∙ ends v words h in
    (
      λ e.
          let same =
            sym (spelled-six_digits (v % 1000000) (omega arith))
            ∙ ap spelled (some_injective (sym result ∙ e))
            ∙ spelled-six_digits n below in
          (v / 1000000, (quotient v h, omega (arith, same))),
      λ (j, (small, e)). result ∙ ap (λ m. some (six_digits m)) (omega (arith, e, below)),
    )
