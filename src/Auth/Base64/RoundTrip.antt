-- ===== src/Auth/Base64/RoundTrip.antt =====
-- Jwt.cc: base64url text decodes to the bytes that were encoded.
use seckill_cpp.Base.{
  ℕ, zero, suc, ◌+◌, ◌*◌, ◌/◌, ◌%◌, ◌^◌, ◌<◌, Bool, true, false, Option, none, some, Bytes, ◌==◌,
  leb, [], ◌∷◌, ◌&&◌, ◌≡◌, refl, ◌∙◌, arith, inl, inr, Bool-cases,
}
use seckill_cpp.Auth.Base64.{
  symbol, base64_url_encode, reverse, emit, shift_in, bits_left, decode_from, base64_url_decode,
  and_then,
}

abbrev pub AreBytes : Bytes → Type 0
AreBytes [] = Unit {0}
AreBytes (a ∷ s) = (a < 256) × AreBytes s

abbrev holds_value : ℕ → Option ℕ → Bool
holds_value i none = false
holds_value i (some j) = i == j

value_held : (i : ℕ) (o : Option ℕ) → holds_value i o ≡ true → o ≡ some i
value_held i none h = absurd (cc)
value_held i (some j) h = ground (arith, h)

-- The table is right at every symbol below a bound.
right_below : ℕ → Bool
right_below zero = true
right_below (suc n) = holds_value n (reverse (symbol n)) && right_below n

all_right : right_below 64 ≡ true
unfolding right_below reverse symbol
all_right = refl

right_at : (n i : ℕ) → i < n → right_below n ≡ true → reverse (symbol i) ≡ some i
unfolding right_below
right_at zero i h r = absurd (omega arith)
right_at (suc n) i h r = elim (Bool-cases (i == n)) [
  | inl last ↦
      let e : i ≡ n = ground (arith, last) in
      rw e (value_held n (reverse (symbol n)) (ground (arith, r)))
  | inr other ↦ right_at n i (ground (arith, other)) (ground (arith, r))
]

pub reverse-symbol : (i : ℕ) → i < 64 → reverse (symbol i) ≡ some i
reverse-symbol i h = right_at 64 i h all_right

one_symbol :
    (i acc bits : ℕ) (s : Bytes)
    → i < 64
    → decode_from (symbol i ∷ s) acc bits
      ≡ emit
          (leb 8 (bits + 6))
          (shift_in acc i / 2 ^ bits_left bits % 256)
          (decode_from s (shift_in acc i) (bits_left bits))
unfolding decode_from and_then
one_symbol i acc bits s h = rw (reverse-symbol i h)

bytes_of :
    (acc a b c : ℕ)
    → a < 256
    → b < 256
    → c < 256
    → let n : ℕ = a * 2 ^ 16 + b * 2 ^ 8 + c in
      let t : ℕ = shift_in (shift_in acc (n / 2 ^ 18 % 64)) (n / 2 ^ 12 % 64) in
      let u : ℕ = shift_in t (n / 2 ^ 6 % 64) in
      (t / 2 ^ 4 % 256 ≡ a) × ((u / 2 ^ 2 % 256 ≡ b) × (shift_in u (n % 64) / 2 ^ 0 % 256 ≡ c))
unfolding shift_in
bytes_of acc a b c h k l = (omega arith, (omega arith, omega arith))

bits_of_two :
    (acc a : ℕ)
    → a < 256
    → shift_in (shift_in acc (a * 2 ^ 16 / 2 ^ 18 % 64)) (a * 2 ^ 16 / 2 ^ 12 % 64) / 2 ^ 4 % 256
      ≡ a
unfolding shift_in
bits_of_two acc a h = omega arith

bits_of_three :
    (acc a b : ℕ)
    → a < 256
    → b < 256
    → let n : ℕ = a * 2 ^ 16 + b * 2 ^ 8 in
      let t : ℕ = shift_in (shift_in acc (n / 2 ^ 18 % 64)) (n / 2 ^ 12 % 64) in
      (t / 2 ^ 4 % 256 ≡ a) × (shift_in t (n / 2 ^ 6 % 64) / 2 ^ 2 % 256 ≡ b)
unfolding shift_in
bits_of_three acc a b h k = (omega arith, omega arith)

small : (n : ℕ) → n % 64 < 64
small n = omega arith

end : (acc bits : ℕ) → decode_from [] acc bits ≡ some []
unfolding decode_from
end acc bits = refl

decode-encode :
    (s : Bytes) (acc : ℕ) → AreBytes s → decode_from (base64_url_encode s) acc 0 ≡ some s
unfolding base64_url_encode emit
decode-encode [] acc h = end acc 0
decode-encode (a ∷ []) acc (h, t) =
    let n : ℕ = a * 2 ^ 16 in
    one_symbol (n / 2 ^ 18 % 64) acc 0 _ (small (n / 2 ^ 18))
    ∙ one_symbol (n / 2 ^ 12 % 64) (shift_in acc (n / 2 ^ 18 % 64)) 6 [] (small (n / 2 ^ 12))
    ∙ rw (end (shift_in (shift_in acc (n / 2 ^ 18 % 64)) (n / 2 ^ 12 % 64)) 4, bits_of_two acc a h)
decode-encode (a ∷ b ∷ []) acc (h, (k, t)) =
    let n : ℕ = a * 2 ^ 16 + b * 2 ^ 8 in
    let u : ℕ = shift_in acc (n / 2 ^ 18 % 64) in
    let v : ℕ = shift_in u (n / 2 ^ 12 % 64) in
    let (p, q) = bits_of_three acc a b h k in
    rw (
      one_symbol (n / 2 ^ 18 % 64) acc 0 _ (small (n / 2 ^ 18)),
      one_symbol (n / 2 ^ 12 % 64) u 6 _ (small (n / 2 ^ 12)),
      one_symbol (n / 2 ^ 6 % 64) v 4 [] (small (n / 2 ^ 6)),
      end (shift_in v (n / 2 ^ 6 % 64)) 2,
      p,
      q,
    )
decode-encode (a ∷ b ∷ c ∷ s) acc (h, (k, (l, t))) =
    let n : ℕ = a * 2 ^ 16 + b * 2 ^ 8 + c in
    let u : ℕ = shift_in acc (n / 2 ^ 18 % 64) in
    let v : ℕ = shift_in u (n / 2 ^ 12 % 64) in
    let w : ℕ = shift_in v (n / 2 ^ 6 % 64) in
    let (p, (q, r)) = bytes_of acc a b c h k l in
    rw (
      one_symbol (n / 2 ^ 18 % 64) acc 0 _ (small (n / 2 ^ 18)),
      one_symbol (n / 2 ^ 12 % 64) u 6 _ (small (n / 2 ^ 12)),
      one_symbol (n / 2 ^ 6 % 64) v 4 _ (small (n / 2 ^ 6)),
      one_symbol (n % 64) w 2 (base64_url_encode s) (small n),
      decode-encode s (shift_in w (n % 64)) t,
      p,
      q,
      r,
    )

-- Every string of bytes, of any length, is what its base64url text decodes to.
pub base64_url_decode-encode :
    (s : Bytes) → AreBytes s → base64_url_decode (base64_url_encode s) ≡ some s
unfolding base64_url_decode
base64_url_decode-encode s h = decode-encode s 0 h
