-- ===== src/Auth/Jwt/Accepted.antt =====
-- Jwt.cc: what `verify` has established when it accepts.
use seckill_cpp.Base.{
  ℕ, ◌≡◌, Bool, true, false, not, refl, sym, ap, ◌∙◌, Option, none, some, Bytes, lit, ◌++◌,
  if◌then◌else◌, str_eq, str_eq→eq, ◌∷◌, ◌>>=◌, some_injective,
}
use seckill_cpp.Json.{Json}
use seckill_cpp.Base.Int.{ℤ}
use seckill_cpp.Base.Decimal.Parse.{stoll}
use seckill_cpp.Auth.Base64.{base64_url_decode}
use seckill_cpp.Auth.Password.Compare.{constant_time_equals_iff}
use seckill_cpp.Auth.Jwt.{
  JwtClaims, Jwt, Verdict, invalid, raised, valid, segments, reading, unless, wrong_alg, issued,
  is_over, on_sub, check_claims, on_payload, on_signature, on_header, on_segments, verify,
}
use seckill_cpp.Auth.Jwt.Segments.{segments-eq}

reading_valid :
    {A : Type 0} (o : Option A) (next : A → Verdict) (c : JwtClaims)
    → reading o next ≡ valid c
    → (a : A) × (o ≡ some a) × (next a ≡ valid c)
unfolding reading
reading_valid none next c e = absurd (cc)
reading_valid (some a) next c e = (a, refl, e)

unless_valid :
    (b : Bool) (v : Verdict) (c : JwtClaims) → unless b v ≡ valid c → (b ≡ false) × (v ≡ valid c)
unfolding unless
unless_valid true v c e = absurd (cc)
unless_valid false v c e = (refl, e)

true_of_not : (b : Bool) → not b ≡ false → b ≡ true
true_of_not true h = refl
true_of_not false h = absurd (cc)

alg_of :
    (m : Option Bool) (a : Option Bytes)
    → (m >>= λ x. if x then (a >>= λ t. some (not (str_eq t (lit "HS256")))) else some true)
      ≡ some false
    → a ≡ some (lit "HS256")
alg_of none a e = absurd (cc)
alg_of (some false) a e = absurd (cc)
alg_of (some true) none e = absurd (cc)
alg_of (some true) (some a) e =
    ap some (str_eq→eq a (lit "HS256") (true_of_not _ (some_injective e)))

module _ (J : Json) (hmac : Bytes → Bytes → Bytes) (jwt : Jwt) where
  -- The claims are those of a payload of this issuer that is not over.
  pub record IsCurrent (now : ℕ) (payload : J.Value) (c : JwtClaims) : Type 0 where
    pub issuer_read : J.get_string (lit "iss") payload ≡ some jwt.issuer
    pub issuer_given : c.issuer ≡ jwt.issuer
    pub jti_read : J.get_string (lit "jti") payload ≡ some c.jti
    pub expiry_read : J.get_int64 (lit "exp") payload ≡ some c.expires_at
    pub not_over : is_over J hmac now c.expires_at ≡ false
    pub sub : Bytes
    pub sub_read : J.get_string (lit "sub") payload ≡ some sub
    pub user_read : stoll sub ≡ some c.user_id

  -- The three parts of the token: the header names HS256, the third part is the HMAC of the first
  -- two under the secret, and the payload holds the claims.
  pub record IsSigned (token : Bytes) (now : ℕ) (c : JwtClaims) : Type 0 where
    pub head : Bytes
    pub middle : Bytes
    pub last : Bytes
    pub parts : token ≡ head ++ (b'.' ∷ (middle ++ (b'.' ∷ last)))
    pub header : J.Value
    pub header_read : (base64_url_decode head >>= J.parse) ≡ some header
    pub algorithm : J.get_string (lit "alg") header ≡ some (lit "HS256")
    pub signature : base64_url_decode last ≡ some (hmac jwt.secret (head ++ (lit "." ++ middle)))
    pub payload : J.Value
    pub payload_read : (base64_url_decode middle >>= J.parse) ≡ some payload
    pub current : IsCurrent now payload c

  sub_valid :
      (claims : ℤ → JwtClaims) (o : Option ℤ) (c : JwtClaims)
      → on_sub J hmac claims o ≡ valid c
      → (user : ℤ) × (o ≡ some user) × (valid (claims user) ≡ valid c)
  unfolding on_sub
  sub_valid claims none c e = absurd (cc)
  sub_valid claims (some user) c e = (user, refl, e)

  claims_of_valid : JwtClaims → Verdict → JwtClaims
  claims_of_valid d invalid = d
  claims_of_valid d raised = d
  claims_of_valid d (valid c) = c

  check_claims-IsCurrent :
      (now : ℕ) (payload : J.Value) (c : JwtClaims)
      → check_claims J hmac jwt now payload ≡ valid c
      → IsCurrent now payload c
  unfolding check_claims claims_of_valid
  check_claims-IsCurrent now payload c e =
      let (iss, iss_read, e1) = reading_valid (J.get_string (lit "iss") payload) _ c e in
      let (same, e2) = unless_valid _ _ c e1 in
      let (exp, exp_read, e3) = reading_valid (J.get_int64 (lit "exp") payload) _ c e2 in
      let (fresh, e4) = unless_valid _ _ c e3 in
      let (jti, jti_read, e5) = reading_valid (J.get_string (lit "jti") payload) _ c e4 in
      let (iat, iat_read, e6) = reading_valid (issued J hmac payload) _ c e5 in
      let (sub, sub_read, e7) = reading_valid (J.get_string (lit "sub") payload) _ c e6 in
      let (user, user_read, e8) = sub_valid _ (stoll sub) c e7 in
      let iss_same : iss ≡ jwt.issuer = str_eq→eq iss jwt.issuer (true_of_not _ same) in
      let done = ap (claims_of_valid c) e8 in
      record {
        issuer_read = iss_read ∙ ap some iss_same;
        issuer_given = sym (ap (λ r. r.issuer) done) ∙ iss_same;
        jti_read = jti_read ∙ ap (λ r. some r.jti) done;
        expiry_read = exp_read ∙ ap (λ r. some r.expires_at) done;
        not_over = rw (sym (ap (λ r. r.expires_at) done)) fresh;
        sub = sub;
        sub_read = sub_read;
        user_read = user_read ∙ ap (λ r. some r.user_id) done;
      }

  payload_valid :
      (now : ℕ) (o : Option J.Value) (c : JwtClaims)
      → on_payload J hmac jwt now o ≡ valid c
      → (payload : J.Value) × (o ≡ some payload) × IsCurrent now payload c
  unfolding on_payload
  payload_valid now none c e = absurd (cc)
  payload_valid now (some payload) c e =
      let (missing, read, e1) = reading_valid _ _ c e in
      let (all, e2) = unless_valid missing _ c e1 in
      (payload, refl, check_claims-IsCurrent now payload c e2)

  signature_valid :
      (now : ℕ) (h p : Bytes) (o : Option Bytes) (c : JwtClaims)
      → on_signature J hmac jwt now h p o ≡ valid c
      → (payload : J.Value) × (o ≡ some (hmac jwt.secret (h ++ (lit "." ++ p))))
        × ((base64_url_decode p >>= J.parse) ≡ some payload)
        × IsCurrent now payload c
  unfolding on_signature
  signature_valid now h p none c e = absurd (cc)
  signature_valid now h p (some given) c e =
      let (equal, e1) = unless_valid _ _ c e in
      let (payload, read, current) = payload_valid now _ c e1 in
      (
        payload,
        ap some (sym ((constant_time_equals_iff _ given).0 (true_of_not _ equal))),
        read,
        current,
      )

  right_alg :
      (header : J.Value)
      → wrong_alg J hmac header ≡ some false
      → J.get_string (lit "alg") header ≡ some (lit "HS256")
  unfolding wrong_alg
  right_alg header e = alg_of (J.is_member (lit "alg") header) (J.get_string (lit "alg") header) e

  header_valid :
      (now : ℕ) (h p s : Bytes) (o : Option J.Value) (c : JwtClaims)
      → on_header J hmac jwt now h p s o ≡ valid c
      → (header : J.Value) × (o ≡ some header)
        × (J.get_string (lit "alg") header ≡ some (lit "HS256"))
        × (on_signature J hmac jwt now h p (base64_url_decode s) ≡ valid c)
  unfolding on_header
  header_valid now h p s none c e = absurd (cc)
  header_valid now h p s (some header) c e =
      let (wrong, read, e1) = reading_valid _ _ c e in
      let (no_wrong, e2) = unless_valid wrong _ c e1 in
      (header, refl, right_alg header (read ∙ ap some no_wrong), e2)

  segments_valid :
      (now : ℕ) (token : Bytes) (o : Option (Bytes × Bytes × Bytes)) (c : JwtClaims)
      → segments token ≡ o
      → on_segments J hmac jwt now o ≡ valid c
      → IsSigned token now c
  unfolding on_segments
  segments_valid now token none c same e = absurd (cc)
  segments_valid now token (some (h, p, s)) c same e =
      let (header, header_read, alg, e1) = header_valid now h p s _ c e in
      let (payload, signature, payload_read, current) =
        signature_valid now h p (base64_url_decode s) c e1 in
      record {
        head = h;
        middle = p;
        last = s;
        parts = segments-eq token h p s same;
        header = header;
        header_read = header_read;
        algorithm = alg;
        signature = signature;
        payload = payload;
        payload_read = payload_read;
        current = current;
      }

  -- Whatever HMAC and jsoncpp do: a token that `verify` accepts consists of three parts. Its header
  -- names HS256, its third part is the HMAC of the first two under the secret, and its payload
  -- names the issuer of this server, is not over, and holds the user, the session id and the expiry
  -- that `verify` hands out.
  pub verify-IsSigned :
      (token : Bytes) (now : ℕ) (c : JwtClaims)
      → verify J hmac jwt token now ≡ valid c
      → IsSigned token now c
  unfolding verify
  verify-IsSigned token now c e = segments_valid now token (segments token) c refl e
