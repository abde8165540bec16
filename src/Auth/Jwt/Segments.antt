-- ===== src/Auth/Jwt/Segments.antt =====
-- Jwt.cc: the parts of a token, and the text that base64url writes.
use seckill_cpp.Base.{
  ℕ, ◌+◌, ◌*◌, ◌/◌, ◌%◌, ◌^◌, ◌≡◌, false, refl, sym, ap, ◌∙◌, arith, none, some, Bytes, ◌++◌,
  is_empty, ◌==◌, [], ◌∷◌, inl, inr, Bool-cases, Option-cases, ==_iff,
}
use seckill_cpp.Auth.Base64.{symbol, base64_url_encode, reverse}
use seckill_cpp.Auth.Base64.RoundTrip.{reverse-symbol}
use seckill_cpp.Auth.Jwt.{split_dot, has_dot, segments}

dot_reverse : reverse b'.' ≡ none
unfolding reverse
dot_reverse = refl

symbol-ne-dot : (i : ℕ) → (symbol (i % 64) == b'.') ≡ false
symbol-ne-dot i = elim (Bool-cases (symbol (i % 64) == b'.')) [
  | inl dot ↦
      let same : symbol (i % 64) ≡ b'.' = (==_iff _ _).0 dot in
      let none_some : none ≡ some (i % 64) =
        sym dot_reverse ∙ ap reverse (sym same) ∙ reverse-symbol (i % 64) (omega arith) in
      absurd (cc)
  | inr other ↦ other
]

pub has_dot-encode : (s : Bytes) → has_dot (base64_url_encode s) ≡ false
unfolding has_dot base64_url_encode
has_dot-encode [] = refl
has_dot-encode (a ∷ []) =
    rw (symbol-ne-dot (a * 2 ^ 16 / 2 ^ 18), symbol-ne-dot (a * 2 ^ 16 / 2 ^ 12))
has_dot-encode (a ∷ b ∷ []) =
    let n : ℕ = a * 2 ^ 16 + b * 2 ^ 8 in
    rw (symbol-ne-dot (n / 2 ^ 18), symbol-ne-dot (n / 2 ^ 12), symbol-ne-dot (n / 2 ^ 6))
has_dot-encode (a ∷ b ∷ c ∷ s) =
    let n : ℕ = a * 2 ^ 16 + b * 2 ^ 8 + c in
    rw
      (
        symbol-ne-dot (n / 2 ^ 18),
        symbol-ne-dot (n / 2 ^ 12),
        symbol-ne-dot (n / 2 ^ 6),
        symbol-ne-dot n,
      )
      (has_dot-encode s)

pub is_empty-encode : (s : Bytes) → is_empty s ≡ false → is_empty (base64_url_encode s) ≡ false
unfolding base64_url_encode
is_empty-encode [] e = e
is_empty-encode (a ∷ []) e = refl
is_empty-encode (a ∷ b ∷ []) e = refl
is_empty-encode (a ∷ b ∷ c ∷ s) e = refl

pub split_dot-append :
    (h rest : Bytes) → has_dot h ≡ false → split_dot (h ++ (b'.' ∷ rest)) ≡ some (h, rest)
unfolding split_dot has_dot
split_dot-append [] rest e = refl
split_dot-append (c ∷ h) rest e = elim (Bool-cases (c == b'.')) [
  | inl dot ↦ ground (arith, dot, e)
  | inr other ↦ rw (other, split_dot-append h rest (ground (arith, other, e)))
]

pub split_dot-eq : (s a b : Bytes) → split_dot s ≡ some (a, b) → s ≡ a ++ (b'.' ∷ b)
unfolding split_dot
split_dot-eq [] a b e = absurd (cc)
split_dot-eq (c ∷ s) a b e = elim (Bool-cases (c == b'.')) [
  | inl dot ↦ ground (arith, dot, e)
  | inr other ↦ elim (Option-cases (split_dot s)) [
    | inl gone ↦ ground (arith, other, gone, e)
    | inr (r, found) ↦ ground (arith, other, found, e, split_dot-eq s r.0 r.1 found)
  ]
]

-- A token that is put together from three parts has these parts.
pub segments-append :
    (h p s : Bytes)
    → has_dot h ≡ false
    → has_dot p ≡ false
    → has_dot s ≡ false
    → is_empty h ≡ false
    → is_empty p ≡ false
    → is_empty s ≡ false
    → segments (h ++ (b'.' ∷ (p ++ (b'.' ∷ s)))) ≡ some (h, p, s)
unfolding segments
segments-append h p s e1 e2 e3 e4 e5 e6 =
    rw (split_dot-append h (p ++ (b'.' ∷ s)) e1, split_dot-append p s e2, e3, e4, e5, e6)

-- And the other way round.
pub segments-eq :
    (token h p s : Bytes)
    → segments token ≡ some (h, p, s)
    → token ≡ h ++ (b'.' ∷ (p ++ (b'.' ∷ s)))
unfolding segments
segments-eq token h p s e = elim (Option-cases (split_dot token)) [
  | inl gone ↦ ground (arith, gone, e)
  | inr ((h', r), first) ↦ elim (Option-cases (split_dot r)) [
    | inl gone ↦ ground (arith, first, gone, e)
    | inr ((p', s'), second) ↦
        ground (arith, first, second, e, split_dot-eq token h' r first, split_dot-eq r p' s' second)
  ]
]
