-- ===== src/Auth/Password.antt =====
-- src/service/password.h and password.cc: hexadecimal text, and the comparison of two hashes that
-- runs over the longer one. What OpenSSL computes is an argument.
pub mod Compare
pub mod Hex
mod Tests
use seckill_cpp.Base.{
  ℕ, zero, suc, ◌+◌, ◌/◌, ◌%◌, ◌^◌, bit_or, bit_xor, bit_and, Bool, true, false, Option, none, some,
  Bytes, lit, if◌then◌else◌, ◌==◌, ltb, length, get_or, List, [], ◌∷◌, max,
}

abbrev hex_digits : Bytes
hex_digits = lit "0123456789abcdef"

-- `toHex`
unfoldable pub to_hex : Bytes → Bytes
to_hex [] = []
to_hex (c ∷ rest) =
    get_or hex_digits (c / 2 ^ 4) 0 ∷ get_or hex_digits (bit_and c 0x0f) 0 ∷ to_hex rest

-- `genSalt`, for what `RAND_bytes` wrote; `none` if it failed.
unfoldable pub gen_salt : Option Bytes → Bytes
gen_salt none = []
gen_salt (some raw) = to_hex raw

-- `pbkdf2Hex`, for what `PKCS5_PBKDF2_HMAC` makes of the password and the salt.
unfoldable pub pbkdf2_hex : (Bytes → Bytes → Option Bytes) → Bytes → Bytes → Bytes
pbkdf2_hex kdf password salt = elim (kdf password salt) [ none ↦ [] | some dk ↦ to_hex dk ]

-- The byte `i`, or 0 past the end.
abbrev pub byte_at : Bytes → ℕ → ℕ
byte_at s i = if ltb i (length s) then get_or s i 0 else 0

-- The loop of `constantTimeEquals`, for `n` turns from `i`.
unfoldable pub diff_from : Bytes → Bytes → ℕ → ℕ → ℕ → ℕ
diff_from a b zero i diff = diff
diff_from a b (suc n) i diff =
    diff_from a b n (i + 1) (bit_or diff (bit_xor (byte_at a i) (byte_at b i)))

abbrev pub max_len : Bytes → Bytes → ℕ
max_len a b = if ltb (length b) (length a) then length a else length b

unfoldable pub constant_time_equals : Bytes → Bytes → Bool
constant_time_equals a b =
    diff_from a b (max_len a b) 0 (if length a == length b then 0 else 1) == 0
