-- ===== src/Auth/Jwt.antt =====
-- src/service/Jwt.h and Jwt.cc: signing and verifying a token. HMAC, jsoncpp and the clock are
-- parameters; times are not negative.
mod Segments
pub mod Accepted
pub mod Tokens
pub mod Tests
use seckill_cpp.Base.{
  ℕ, ◌+◌, Bool, true, false, not, ◌&&◌, ◌||◌, Option, none, some, Bytes, lit, ◌++◌, is_empty,
  if◌then◌else◌, ◌==◌, ltb, leb, str_eq, List, [], ◌∷◌, ◌>>=◌,
}
use seckill_cpp.Json.{Field, str, num, Json, lacks}
use seckill_cpp.Base.Int.{ℤ, pos, negsuc}
use seckill_cpp.Base.Decimal.{to_string}
use seckill_cpp.Base.Decimal.Parse.{stoll}
use seckill_cpp.Auth.Base64.{base64_url_encode, base64_url_decode}
use seckill_cpp.Auth.Password.{constant_time_equals}

pub record JwtClaims : Type 0 where
  pub user_id : ℤ
  pub jti : Bytes
  pub issuer : Bytes
  pub issued_at : ℤ
  pub expires_at : ℤ

pub record Jwt : Type 0 where
  pub secret : Bytes
  pub issuer : Bytes
  pub ttl_seconds : ℕ

-- How `verify` ends: with `false`, with an exception, or with `true` and the claims.
pub data Verdict : Type 0 where
  invalid raised : Verdict
  valid : JwtClaims → Verdict

-- `nowSeconds`, or the clock if that is 0.
unfoldable pub now_or : ℕ → ℕ → ℕ
now_or clock now_seconds = if ltb 0 now_seconds then now_seconds else clock

abbrev pub header_fields : List (Bytes × Field)
header_fields = (lit "alg", str (lit "HS256")) ∷ (lit "typ", str (lit "JWT")) ∷ []

abbrev pub payload_fields : Jwt → ℤ → Bytes → ℕ → List (Bytes × Field)
payload_fields jwt user jti now =
    (lit "iss", str jwt.issuer)
    ∷ (lit "sub", str (to_string user))
    ∷ (lit "jti", str jti)
    ∷ (lit "iat", num (pos now))
    ∷ (lit "exp", num (pos (now + jwt.ttl_seconds)))
    ∷ []

-- The text before the first dot, and the text after it.
unfoldable pub split_dot : Bytes → Option (Bytes × Bytes)
split_dot [] = none
split_dot (c ∷ s) = if c == b'.' then some ([], s) else (split_dot s >>= λ r. some (c ∷ r.0, r.1))

unfoldable pub has_dot : Bytes → Bool
has_dot [] = false
has_dot (c ∷ s) = c == b'.' || has_dot s

-- The three parts of a token.
unfoldable pub segments : Bytes → Option (Bytes × Bytes × Bytes)
segments token = do
  (h, rest) ← split_dot token
  (p, s) ← split_dot rest
  if has_dot s || (is_empty h || (is_empty p || is_empty s)) then none else some (h, p, s)

-- A reading that may throw, and what follows it.
unfoldable pub reading : {A : Type 0} → Option A → (A → Verdict) → Verdict
reading none next = raised
reading (some a) next = next a

unfoldable pub unless : Bool → Verdict → Verdict
unless true next = invalid
unless false next = next

module _ (J : Json) (hmac : Bytes → Bytes → Bytes) where
  unfoldable pub sign : Jwt → ℤ → Bytes → ℕ → Bytes
  sign jwt user jti now =
      let input : Bytes =
        base64_url_encode (J.write (J.object header_fields))
        ++ (lit "." ++ base64_url_encode (J.write (J.object (payload_fields jwt user jti now)))) in
      input ++ (lit "." ++ base64_url_encode (hmac jwt.secret input))

  -- `!header.isMember("alg") || header["alg"].asString() != "HS256"`
  unfoldable pub wrong_alg : J.Value → Option Bool
  wrong_alg header = do
    m ← J.is_member (lit "alg") header
    if m
        then (J.get_string (lit "alg") header >>= λ a. some (not (str_eq a (lit "HS256"))))
        else some true

  -- `out.issuedAt`
  unfoldable pub issued : J.Value → Option ℤ
  issued payload = do
    m ← J.is_member (lit "iat") payload
    if m then J.get_int64 (lit "iat") payload else some (pos 0)

  unfoldable pub is_over : ℕ → ℤ → Bool
  is_over now (pos t) = leb t now
  is_over now (negsuc t) = true

  unfoldable pub on_sub : (ℤ → JwtClaims) → Option ℤ → Verdict
  on_sub claims none = invalid
  on_sub claims (some user) = valid (claims user)

  -- From the check of the issuer on.
  unfoldable pub check_claims : Jwt → ℕ → J.Value → Verdict
  check_claims jwt now payload = reading (J.get_string (lit "iss") payload) λ iss.
      unless (not (str_eq iss jwt.issuer)) (
        reading (J.get_int64 (lit "exp") payload) λ exp. unless (is_over now exp) (
          reading (J.get_string (lit "jti") payload) λ jti. reading (issued payload) λ iat.
            reading (J.get_string (lit "sub") payload) λ sub.
              on_sub
                (λ user. record {
                  user_id = user;
                  jti = jti;
                  issuer = iss;
                  issued_at = iat;
                  expires_at = exp;
                })
                (stoll sub)))

  unfoldable pub on_payload : Jwt → ℕ → Option J.Value → Verdict
  on_payload jwt now none = invalid
  on_payload jwt now (some payload) =
      reading (lacks J (lit "iss" ∷ lit "exp" ∷ lit "sub" ∷ lit "jti" ∷ []) payload)
        λ missing. unless missing (check_claims jwt now payload)

  -- `constantTimeEquals` of the HMAC and the decoded third part.
  unfoldable pub on_signature : Jwt → ℕ → Bytes → Bytes → Option Bytes → Verdict
  on_signature jwt now h p none = invalid
  on_signature jwt now h p (some given) =
      unless (not (constant_time_equals (hmac jwt.secret (h ++ (lit "." ++ p))) given))
        (on_payload jwt now (base64_url_decode p >>= J.parse))

  unfoldable pub on_header : Jwt → ℕ → Bytes → Bytes → Bytes → Option J.Value → Verdict
  on_header jwt now h p s none = invalid
  on_header jwt now h p s (some header) =
      reading (wrong_alg header)
        λ wrong. unless wrong (on_signature jwt now h p (base64_url_decode s))

  unfoldable pub on_segments : Jwt → ℕ → Option (Bytes × Bytes × Bytes) → Verdict
  on_segments jwt now none = invalid
  on_segments jwt now (some (h, p, s)) = on_header jwt now h p s (base64_url_decode h >>= J.parse)

  unfoldable pub verify : Jwt → Bytes → ℕ → Verdict
  verify jwt token now = on_segments jwt now (segments token)
