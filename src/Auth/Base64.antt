-- ===== src/Auth/Base64.antt =====
-- src/service/Jwt.cc: `base64UrlEncode` and `base64UrlDecode`. Shifted parts that are joined by `|`
-- have no bit in common, so they are added; a mask of low bits is a remainder.
pub mod RoundTrip
mod Tests
use seckill_cpp.Base.{
  ℕ, zero, suc, ◌+◌, ◌-◌, ◌*◌, ◌/◌, ◌%◌, ◌^◌, Bool, true, false, Option, none, some, Bytes, lit,
  if◌then◌else◌, ◌==◌, leb, get_or, List, [], ◌∷◌,
}

abbrev pub alphabet : Bytes
alphabet = lit "ABCDEFGHIJKLMNOPQRSTUVWXYZabcdefghijklmnopqrstuvwxyz0123456789-_"

unfoldable pub symbol : ℕ → ℕ
symbol i = get_or alphabet i 0

unfoldable pub base64_url_encode : Bytes → Bytes
base64_url_encode [] = []
base64_url_encode (a ∷ []) =
    let chunk : ℕ = a * 2 ^ 16 in symbol (chunk / 2 ^ 18 % 64) ∷ symbol (chunk / 2 ^ 12 % 64) ∷ []
base64_url_encode (a ∷ b ∷ []) =
    let chunk : ℕ = a * 2 ^ 16 + b * 2 ^ 8 in
    symbol (chunk / 2 ^ 18 % 64) ∷ symbol (chunk / 2 ^ 12 % 64) ∷ symbol (chunk / 2 ^ 6 % 64) ∷ []
base64_url_encode (a ∷ b ∷ c ∷ raw) =
    let chunk : ℕ = a * 2 ^ 16 + b * 2 ^ 8 + c in
    symbol (chunk / 2 ^ 18 % 64)
    ∷ symbol (chunk / 2 ^ 12 % 64)
    ∷ symbol (chunk / 2 ^ 6 % 64)
    ∷ symbol (chunk % 64)
    ∷ base64_url_encode raw

-- The loop that fills the table `reverse`, at one entry: the last match stands.
unfoldable pub later : ℕ → Option ℕ → Bool → Option ℕ
later i (some j) here = some j
later i none true = some i
later i none false = none

unfoldable pub reverse_in : Bytes → ℕ → ℕ → Option ℕ
unfolding later
reverse_in [] i c = none
reverse_in (x ∷ xs) i c = later i (reverse_in xs (i + 1) c) (x == c)

-- The entry of `reverse`: `none` is -1.
unfoldable pub reverse : ℕ → Option ℕ
unfolding reverse_in
reverse c = reverse_in alphabet 0 c

unfoldable pub emit : Bool → ℕ → Option Bytes → Option Bytes
emit true byte (some out) = some (byte ∷ out)
emit true byte none = none
emit false byte out = out

-- What a symbol adds to the accumulator, in `unsigned int`.
unfoldable pub shift_in : ℕ → ℕ → ℕ
shift_in acc v = acc * 2 ^ 6 % 2 ^ 32 + v

abbrev pub bits_left : ℕ → ℕ
bits_left bits = if leb 8 (bits + 6) then bits + 6 - 8 else bits + 6

unfoldable pub and_then : Option ℕ → (ℕ → Option Bytes) → Option Bytes
and_then none next = none
and_then (some v) next = next v

-- The loop of `base64UrlDecode`, from an accumulator and a number of bits; `none` is `false`.
unfoldable pub decode_from : Bytes → ℕ → ℕ → Option Bytes
decode_from [] acc bits = some []
decode_from (c ∷ s) acc bits = and_then (reverse c) (λ v.
    emit (leb 8 (bits + 6)) (shift_in acc v / 2 ^ bits_left bits % 256)
      (decode_from s (shift_in acc v) (bits_left bits)))

unfoldable pub base64_url_decode : Bytes → Option Bytes
base64_url_decode s = decode_from s 0 0
