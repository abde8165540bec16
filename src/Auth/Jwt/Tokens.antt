-- ===== src/Auth/Jwt/Tokens.antt =====
-- Jwt.cc: what `verify` says of a token that `sign` made, and what an accepted token is.
use mathlib.Core.List.{append_assoc}
use seckill_cpp.Base.{
  ℕ, ◌+◌, ◌^◌, ◌≡◌, ◌<◌, false, refl, ap, ◌∙◌, arith, some, Bytes, lit, ◌++◌, is_empty,
  if◌then◌else◌, leb, str_eq, str_eq_refl, List, [], ◌∷◌, ◌>>=◌, inl, inr, Bool-cases,
}
use seckill_cpp.Json.{Field, Json, IsJson, lacks}
use seckill_cpp.Base.Int.{ℤ, pos, InInt64}
use seckill_cpp.Base.Decimal.{to_string}
use seckill_cpp.Base.Decimal.Parse.{stoll-to_string}
use seckill_cpp.Auth.Base64.{base64_url_encode, base64_url_decode}
use seckill_cpp.Auth.Base64.RoundTrip.{AreBytes, base64_url_decode-encode}
use seckill_cpp.Auth.Password.Compare.{constant_time_equals_iff}
use seckill_cpp.Auth.Jwt.{
  JwtClaims, Jwt, invalid, valid, header_fields, payload_fields, segments, reading, unless, sign,
  wrong_alg, issued, is_over, on_sub, check_claims, on_payload, on_signature, on_header,
  on_segments, verify,
}
use seckill_cpp.Auth.Jwt.Segments.{has_dot-encode, is_empty-encode, segments-append}

-- An object that jsoncpp reads back from its own text, such as one with ASCII texts.
pub record ReadsBack (J : Json) (fs : List (Bytes × Field)) : Type 0 where
  pub parsed : J.parse (J.write (J.object fs)) ≡ some (J.object fs)
  pub written : AreBytes (J.write (J.object fs))
  pub not_empty : is_empty (J.write (J.object fs)) ≡ false

pub record IsHmac (hmac : Bytes → Bytes → Bytes) : Type 0 where
  pub hmac_bytes : (k d : Bytes) → AreBytes (hmac k d)
  pub hmac_not_empty : (k d : Bytes) → is_empty (hmac k d) ≡ false

-- The claims of a token.
abbrev pub claims_for : Jwt → ℤ → Bytes → ℕ → JwtClaims
claims_for jwt user jti now = record {
  user_id = user;
  jti = jti;
  issuer = jwt.issuer;
  issued_at = pos now;
  expires_at = pos (now + jwt.ttl_seconds);
}

module _ {J : Json} {hmac : Bytes → Bytes → Bytes} (json : IsJson J) (mac : IsHmac hmac) where
  read_back :
      (fs : List (Bytes × Field))
      → ReadsBack J fs
      → (base64_url_decode (base64_url_encode (J.write (J.object fs))) >>= J.parse)
        ≡ some (J.object fs)
  read_back fs r = rw (base64_url_decode-encode (J.write (J.object fs)) r.written) r.parsed

  right_alg : wrong_alg J hmac (J.object header_fields) ≡ some false
  unfolding wrong_alg str_eq
  right_alg = rw (
    json.member_law (lit "alg") header_fields,
    json.string_law (lit "alg") (lit "HS256") header_fields refl,
  )

  module _ (jwt : Jwt) (user : ℤ) (jti : Bytes) (now : ℕ) (user_fits : InInt64 user)
      (fits : now + jwt.ttl_seconds < 2 ^ 63) where
    complete :
        lacks J
          (lit "iss" ∷ lit "exp" ∷ lit "sub" ∷ lit "jti" ∷ [])
          (J.object (payload_fields jwt user jti now))
        ≡ some false
    unfolding lacks str_eq
    complete = rw (
      json.member_law (lit "iss") (payload_fields jwt user jti now),
      json.member_law (lit "exp") (payload_fields jwt user jti now),
      json.member_law (lit "sub") (payload_fields jwt user jti now),
      json.member_law (lit "jti") (payload_fields jwt user jti now),
    )

    checked :
        (later : ℕ)
        → check_claims J hmac jwt later (J.object (payload_fields jwt user jti now)) ≡ (
            if leb (now + jwt.ttl_seconds) later
            then invalid
            else valid (claims_for jwt user jti now))
    unfolding check_claims reading unless issued is_over on_sub str_eq
    checked later = elim (Bool-cases (leb (now + jwt.ttl_seconds) later)) [
      | inl over ↦ rw (
        json.string_law (lit "iss") jwt.issuer (payload_fields jwt user jti now) refl,
        str_eq_refl jwt.issuer,
        json.int64_law (lit "exp") (pos (now + jwt.ttl_seconds)) (payload_fields jwt user jti now)
            refl fits,
        over,
      )
      | inr fresh ↦ rw (
        json.string_law (lit "iss") jwt.issuer (payload_fields jwt user jti now) refl,
        str_eq_refl jwt.issuer,
        json.int64_law (lit "exp") (pos (now + jwt.ttl_seconds)) (payload_fields jwt user jti now)
            refl fits,
        fresh,
        json.string_law (lit "jti") jti (payload_fields jwt user jti now) refl,
        json.member_law (lit "iat") (payload_fields jwt user jti now),
        json.int64_law (lit "iat") (pos now) (payload_fields jwt user jti now) refl (omega arith),
        json.string_law (lit "sub") (to_string user) (payload_fields jwt user jti now) refl,
        stoll-to_string user user_fits,
      )
    ]

    header : Bytes
    header = base64_url_encode (J.write (J.object header_fields))

    payload : Bytes
    payload = base64_url_encode (J.write (J.object (payload_fields jwt user jti now)))

    signed : Bytes
    signed = base64_url_encode (hmac jwt.secret (header ++ (lit "." ++ payload)))

    parts :
        ReadsBack J header_fields
        → ReadsBack J (payload_fields jwt user jti now)
        → segments (sign J hmac jwt user jti now) ≡ some (header, payload, signed)
    unfolding sign header payload signed
    parts h p =
        ap segments (append_assoc header (lit "." ++ payload) (lit "." ++ signed))
        ∙ segments-append header payload signed (has_dot-encode _) (has_dot-encode _)
            (has_dot-encode _) (is_empty-encode _ h.not_empty) (is_empty-encode _ p.not_empty)
            (is_empty-encode _ (mac.hmac_not_empty _ _))

    accepted_signature :
        (later : ℕ)
        → ReadsBack J (payload_fields jwt user jti now)
        → on_signature J hmac jwt later header payload (base64_url_decode signed)
          ≡ on_payload J hmac jwt later (some (J.object (payload_fields jwt user jti now)))
    unfolding on_signature unless header payload signed
    accepted_signature later p = rw (
      base64_url_decode-encode (hmac jwt.secret (header ++ (lit "." ++ payload)))
          (mac.hmac_bytes _ _),
      (constant_time_equals_iff (hmac jwt.secret (header ++ (lit "." ++ payload))) _).1 refl,
      read_back (payload_fields jwt user jti now) p,
    )

    -- For a jsoncpp that reads an object as it was written and reads back the header and the payload
    -- of this token, an HMAC that is not empty, and a user and times in 64 bits: a token is accepted
    -- with the user, the session id, the issuer and the times that it was signed with as long as its
    -- time is not over, and is rejected, without an exception, from then on.
    pub verify-sign :
        (later : ℕ)
        → ReadsBack J header_fields
        → ReadsBack J (payload_fields jwt user jti now)
        → verify J hmac jwt (sign J hmac jwt user jti now) later ≡ (
            if leb (now + jwt.ttl_seconds) later
            then invalid
            else valid (claims_for jwt user jti now))
    unfolding verify on_segments on_header on_payload reading unless header
    verify-sign later h p =
        rw (parts h p, read_back header_fields h, right_alg, accepted_signature later p, complete)
          (checked later)
