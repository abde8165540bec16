-- ===== src/Auth/Account/Sessions.antt =====
-- UserService.cc: what a login gives, and what a logout takes away.
use seckill_cpp.Base.{ℕ, ◌<◌, true, false, some, Bytes, str_eq_refl, if◌then◌else◌, ◌≡◌, lit, []}
use seckill_cpp.Base.Int.{ℤ, pos}
use seckill_cpp.Base.Decimal.{to_string}
use seckill_cpp.Redis.{Redis, IsRedis, answered}
use seckill_cpp.Auth.Session.{save, session_exists, revoke, session_key, saved, holds}
use seckill_cpp.Auth.Jwt.{JwtClaims, valid}
use seckill_cpp.Auth.Account.{
  User, World, Settings, State, save_session, on_saved, logout, authenticate,
}

module _ {R : Redis} (law : IsRedis R) (ttl : ℕ) where
  -- After a session is saved it exists, after it is revoked it does not.
  pub saved_exists :
      (jti : Bytes) (user : ℤ) (s : R.Store)
      → 0 < ttl
      → (session_exists R answered jti (save R ttl answered jti user s).1).0 ≡ true
  unfolding session_exists save holds
  saved_exists jti user s h = rw (
    law.exists_law,
    law.setex_law s (session_key jti) ttl (to_string user) h,
    str_eq_refl (session_key jti),
  )

  revoked_gone :
      (jti : Bytes) (s : R.Store)
      → (session_exists R answered jti (revoke R answered jti s).1).0 ≡ false
  unfolding session_exists revoke holds
  revoked_gone jti s = rw (law.exists_law, law.del_law, str_eq_refl (session_key jti))

module _ {W : World} {R : Redis} (law : IsRedis R) (cfg : Settings) where
  pub authenticates :
      (token : Bytes) (c : JwtClaims) (now : ℕ) (st : State W R)
      → W.verify_token token now ≡ valid c
      → (authenticate cfg answered token now st).0
        ≡ some (if (session_exists R answered c.jti st.store).0 then c.user_id else pos 0)
  unfolding authenticate
  authenticates token c now st e = rw e

  pub logged_out :
      (token : Bytes) (c : JwtClaims) (now : ℕ) (st : State W R)
      → W.verify_token token now ≡ valid c
      → (msg : Bytes) × (logout cfg answered token now st ≡ (
        some (record { ok = true; token = []; msg = msg }),
        (logout cfg answered token now st).1,
      ))
  unfolding logout
  logged_out token c now st e =
      (if (revoke R answered c.jti st.store).0 then lit "OK" else lit "ALREADY_LOGGED_OUT", rw e)

  -- For a token that verifies: after a logout that Redis answered, the same token authenticates nobody, whatever sessions
  -- there were.
  pub authenticate-logout :
      (token : Bytes) (c : JwtClaims) (now : ℕ) (st : State W R)
      → W.verify_token token now ≡ valid c
      → (authenticate cfg answered token now (logout cfg answered token now st).1).0 ≡ some (pos 0)
  unfolding logout
  authenticate-logout token c now st e = rw (
    authenticates token c now (logout cfg answered token now st).1 e,
    e,
    revoked_gone law cfg.session_ttl c.jti st.store,
  )

  pub signed_in :
      (phone jti : Bytes) (u : User) (now later : ℕ) (c : JwtClaims) (st : State W R)
      → 0 < cfg.session_ttl
      → W.verify_token (W.sign_token u.id jti now) later ≡ valid c
      → c.jti ≡ jti
      → c.user_id ≡ u.id
      → let r = on_saved cfg (W.sign_token u.id jti now) (save_session cfg answered jti u.id st) in
        (authenticate cfg answered r.0.token later r.1).0 ≡ some u.id
  unfolding save_session on_saved save saved
  signed_in phone jti u now later c st h e same_jti same_user = rw (
    authenticates (W.sign_token u.id jti now) c later
        (record st { store = (save R cfg.session_ttl answered jti u.id st.store).1 }) e,
    same_jti,
    same_user,
    saved_exists law cfg.session_ttl jti u.id st.store h,
  )
