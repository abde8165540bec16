-- ===== src/Auth/Account/Login.antt =====
-- UserService.cc: what a login that answers ok has established.
use seckill_cpp.Base.{
  ℕ, ◌<◌, true, false, Option, none, some, Bytes, is_empty, ◌≡◌, refl, arith, inl, inr, Bool-cases,
}
use seckill_cpp.Base.Int.{ℤ, pos, int_eq, int_eq→eq}
use seckill_cpp.Redis.{Redis, IsRedis, answered}
use seckill_cpp.Auth.LoginGuard.{check_locked, on_success}
use seckill_cpp.Auth.Sms.{is_valid_phone}
use seckill_cpp.Auth.Password.{constant_time_equals}
use seckill_cpp.Auth.Password.Compare.{constant_time_equals_iff}
use seckill_cpp.Auth.Jwt.{JwtClaims, valid}
use seckill_cpp.Auth.Account.{
  User, Outcome, done, failed, World, Settings, AccountAnswer, State, look_up, fail_login,
  save_session, on_saved, on_computed, on_found, login, authenticate,
}
use seckill_cpp.Auth.Account.Sessions.{signed_in}

-- The token of a user is accepted, with the session id and the user.
abbrev pub Accepts : World → Bytes → ℕ → ℕ → ℤ → Type 0
Accepts W jti now later user =
    (c : JwtClaims) × (W.verify_token (W.sign_token user jti now) later ≡ valid c)
    × (c.jti ≡ jti)
    × (c.user_id ≡ user)

module _ {W : World} {R : Redis} (law : IsRedis R) (cfg : Settings) (ttl_pos : 0 < cfg.session_ttl)
    (password jti : Bytes) (now later : ℕ) where
  -- The user is active, the password is theirs, and the token authenticates them.
  pub record IsLogin (u : User) (r : AccountAnswer × State W R) : Type 0 where
    pub status : u.status ≡ pos 1
    pub hash : W.pbkdf2 password u.salt ≡ u.password_hash
    pub user : (authenticate cfg answered r.0.token later r.1).0 ≡ some u.id

  computed :
      (phone : Bytes) (u : User) (st : State W R)
      → u.status ≡ pos 1
      → Accepts W jti now later u.id
      → (on_computed cfg (answered, answered) phone u jti now (W.pbkdf2 password u.salt) st).0.ok
        ≡ true
      → IsLogin u
          (on_computed cfg (answered, answered) phone u jti now (W.pbkdf2 password u.salt) st)
  unfolding on_computed fail_login
  computed phone u st active claims h = elim (Bool-cases (is_empty (W.pbkdf2 password u.salt))) [
    | inl none_made ↦ absurd (ground (arith, h, none_made))
    | inr made ↦
        elim (Bool-cases (constant_time_equals (W.pbkdf2 password u.salt) u.password_hash)) [
          | inr wrong ↦ absurd (ground (arith, h, made, wrong))
          | inl right ↦
              rw (made, right)
                (opened phone u st active claims
                  ((constant_time_equals_iff (W.pbkdf2 password u.salt) u.password_hash).0 right))
        ]
  ]
    where
      opened :
          (phone : Bytes) (u : User) (st : State W R)
          → u.status ≡ pos 1
          → Accepts W jti now later u.id
          → W.pbkdf2 password u.salt ≡ u.password_hash
          → IsLogin u (
              on_saved cfg (W.sign_token u.id jti now) (
                save_session cfg answered jti u.id
                  (record st { store = on_success R answered phone st.store })))
      opened phone u st active claims e =
          let (c, accepted, same_jti, same_user) = claims in
          record {
            status = active;
            hash = e;
            user =
                signed_in law cfg phone jti u now later c
                  (record st { store = on_success R answered phone st.store }) ttl_pos accepted
                  same_jti same_user;
          }

  found_ok :
      (phone : Bytes) (o : Outcome (Option User)) (st : State W R)
      → ((u : User) → o ≡ done (some u) → Accepts W jti now later u.id)
      → (on_found cfg (answered, answered) phone password jti now (o, st)).0.ok ≡ true
      → (u : User) × ((o ≡ done (some u))
          × IsLogin u (on_found cfg (answered, answered) phone password jti now (o, st)))
  unfolding on_found fail_login
  found_ok phone (failed err) st claims h = absurd (ground (arith, h))
  found_ok phone (done none) st claims h = absurd (ground (arith, h))
  found_ok phone (done (some u)) st claims h = elim (Bool-cases (int_eq u.status (pos 1))) [
    | inr other ↦ absurd (ground (arith, h, other))
    | inl active ↦ (
      u,
      (
        refl,
        rw active (
            computed phone u st (int_eq→eq u.status (pos 1) active) (claims u refl)
              (ground (arith, h, active))),
      ),
    )
  ]

  -- A login that answers ok, with Redis answering and a token that is accepted for the user in the
  -- table.
  pub login_ok :
      (phone : Bytes) (st : State W R)
      → ((u : User) → (W.find_user phone st.db).0 ≡ done (some u) → Accepts W jti now later u.id)
      → (login cfg (answered, (answered, answered)) phone password jti now st).0.ok ≡ true
      → (is_valid_phone phone ≡ true)
        × (((check_locked R answered phone st.store).0.0 ≡ false)
            × ((u : User) × (((W.find_user phone st.db).0 ≡ done (some u))
                  × IsLogin u
                      (login cfg (answered, (answered, answered)) phone password jti now st))))
  unfolding login look_up
  login_ok phone st claims h = elim (Bool-cases (is_valid_phone phone)) [
    | inr bad ↦ absurd (ground (arith, h, bad))
    | inl good ↦ elim (Bool-cases (check_locked R answered phone st.store).0.0) [
      | inl locked ↦ absurd (ground (arith, h, good, locked))
      | inr unlocked ↦ (
        good,
        (
          unlocked,
          rw (good, unlocked) (found_ok phone _ _ claims (ground (arith, h, good, unlocked))),
        ),
      )
    ]
  ]
