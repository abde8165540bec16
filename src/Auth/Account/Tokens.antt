-- ===== src/Auth/Account/Tokens.antt =====
-- UserService.cc with the tokens of Jwt.cc: what a login gives, and whom a token can stand for.
use seckill_cpp.Base.{
  ℕ, ◌+◌, ◌^◌, ◌<◌, leb, true, false, some, Bytes, ◌≡◌, ◌≢◌, ◌∙◌, refl, sym, arith, some_injective,
  inl, inr, Bool-cases,
}
use seckill_cpp.Base.Int.{ℤ, pos, InInt64}
use seckill_cpp.Json.{Json, IsJson}
use seckill_cpp.Redis.{Redis, IsRedis, Link, answered, unreachable, answer_lost}
use seckill_cpp.Auth.LoginGuard.{check_locked}
use seckill_cpp.Auth.Sms.{is_valid_phone}
use seckill_cpp.Auth.Session.{session_exists, session_key, holds}
use seckill_cpp.Auth.Jwt.{
  JwtClaims, Jwt, Verdict, invalid, raised, valid, header_fields, payload_fields, sign, verify,
}
use seckill_cpp.Auth.Jwt.Tokens.{ReadsBack, IsHmac, claims_for, verify-sign}
use seckill_cpp.Auth.Jwt.Accepted.{IsSigned, verify-IsSigned}
use seckill_cpp.Auth.Account.{
  User, done, World, Settings, State, login, authenticate_of, authenticate,
}
use seckill_cpp.Auth.Account.Login.{Accepts, IsLogin, login_ok}

-- The accounts with `Jwt` as it is.
abbrev pub with_tokens : (J : Json) → (Bytes → Bytes → Bytes) → Jwt → World → World
with_tokens J hmac jwt W = record W {
  sign_token = sign J hmac jwt;
  verify_token = verify J hmac jwt;
}

-- Only an answer of Redis shows a session.
alive-stored :
    (R : Redis) (link : Link) (jti : Bytes) (s : R.Store)
    → (session_exists R link jti s).0 ≡ true
    → (link ≡ answered) × (R.exists s (session_key jti) ≡ true)
unfolding session_exists holds
alive-stored R answered jti s h = (refl, h)
alive-stored R unreachable jti s h = absurd (cc)
alive-stored R answer_lost jti s h = absurd (cc)

module _ (J : Json) (hmac : Bytes → Bytes → Bytes) (jwt : Jwt) (W : World) {R : Redis}
    (cfg : Settings) where
  authenticated :
      (link : Link) (token : Bytes) (now : ℕ) (st : State (with_tokens J hmac jwt W) R)
      → (v : Verdict) (user : ℤ) → verify J hmac jwt token now ≡ v
      → user ≢ pos 0
      → (authenticate_of cfg link v st).0 ≡ some user
      → (c : JwtClaims) × IsSigned J hmac jwt token now c
        × (c.user_id ≡ user)
        × ((link ≡ answered) × (R.exists st.store (session_key c.jti) ≡ true))
  unfolding authenticate_of
  authenticated link token now st invalid user e other h = absurd (other (sym (some_injective h)))
  authenticated link token now st raised user e other h = absurd (cc)
  authenticated link token now st (valid c) user e other h =
      elim (Bool-cases (session_exists R link c.jti st.store).0) [
        | inr gone ↦ absurd (other (sym (some_injective (rw gone at h))))
        | inl alive ↦ (
          c,
          verify-IsSigned J hmac jwt token now c e,
          some_injective (rw alive at h),
          alive-stored R link c.jti st.store alive,
        )
      ]

  -- Whatever Redis, HMAC and jsoncpp do: if a token authenticates a user other than 0, it is signed
  -- with this server's secret, its claims name that user and are not over, and Redis has answered
  -- that the key of its session exists. A Redis that does not answer lets nobody in.
  pub authenticate-IsSigned :
      (link : Link) (token : Bytes) (now : ℕ) (st : State (with_tokens J hmac jwt W) R) (user : ℤ)
      → user ≢ pos 0
      → (authenticate cfg link token now st).0 ≡ some user
      → (c : JwtClaims) × IsSigned J hmac jwt token now c
        × (c.user_id ≡ user)
        × ((link ≡ answered) × (R.exists st.store (session_key c.jti) ≡ true))
  unfolding authenticate
  authenticate-IsSigned link token now st user other h =
      authenticated link token now st (verify J hmac jwt token now) user refl other h

-- The user and the token of a login can be written and read back.
pub record IsReadable (J : Json) (jwt : Jwt) (jti : Bytes) (now : ℕ) (u : User) : Type 0 where
  pub fits : InInt64 u.id
  pub payload : ReadsBack J (payload_fields jwt u.id jti now)

module _ {J : Json} {hmac : Bytes → Bytes → Bytes} (json : IsJson J) (mac : IsHmac hmac) (jwt : Jwt)
    (W : World) {R : Redis} (law : IsRedis R) (cfg : Settings) (ttl_pos : 0 < cfg.session_ttl)
    (password jti : Bytes) (now later : ℕ) (fits : now + jwt.ttl_seconds < 2 ^ 63)
    (in_time : later < now + jwt.ttl_seconds) (header : ReadsBack J header_fields) where
  accepts :
      (u : User)
      → IsReadable J jwt jti now u
      → Accepts (with_tokens J hmac jwt W) jti now later u.id
  accepts u r = (
    claims_for jwt u.id jti now,
    verify-sign json mac jwt u.id jti now r.fits fits later header r.payload ∙ rw in_time' refl,
    refl,
    refl,
  )
    where
      in_time' : leb (now + jwt.ttl_seconds) later ≡ false
      in_time' = ground arith

  -- For a jsoncpp that reads back the header and the payload of this token, an HMAC that is not
  -- empty, sessions and tokens with a lifetime above 0 and times within 64 bits, and Redis
  -- answering: if a login answers ok, then the phone is valid and was not locked,
  -- the table has an active user for it, the hash of the password is the stored one, and the signed
  -- token that the login gives authenticates that user in the store that it leaves, as long as the
  -- token's time is not over.
  pub login-authenticate :
      (phone : Bytes) (st : State (with_tokens J hmac jwt W) R)
      → ((u : User) → (W.find_user phone st.db).0 ≡ done (some u) → IsReadable J jwt jti now u)
      → (login cfg (answered, (answered, answered)) phone password jti now st).0.ok ≡ true
      → (is_valid_phone phone ≡ true)
        × (((check_locked R answered phone st.store).0.0 ≡ false)
            × ((u : User) × (((W.find_user phone st.db).0 ≡ done (some u))
                  × IsLogin law cfg ttl_pos password jti now later u
                      (login cfg (answered, (answered, answered)) phone password jti now st))))
  login-authenticate phone st readable h =
      login_ok law cfg ttl_pos password jti now later phone st
        (λ u found. accepts u (readable u found)) h
