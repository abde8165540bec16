-- ===== src/Auth/Account/Code.antt =====
-- UserService.cc and SmsService.cc: a registration with the code that was sent to the phone.
use seckill_cpp.Base.{
  ℕ, ◌<◌, true, false, none, Bytes, lit, [], is_empty, length, ltb, leb, ◌≡◌, ◌∙◌, refl,
}
use seckill_cpp.Redis.{Redis, IsRedis, IsCounter, Link, answered}
use seckill_cpp.Auth.RegisterGuard.{check, check_script}
use seckill_cpp.Auth.Sms.{
  SendResult, VerifyResult, is_valid_phone, send_code, verify_code, try_key, daily_key,
  number_or_zero,
}
use seckill_cpp.Auth.Sms.Send.{verify-send}
use seckill_cpp.Auth.Account.{
  World, Settings, State, done, register_user, on_verified, code_refusal, do_register, look_up,
  on_looked_up, insert_into, on_user_inserted,
}

module _ {W : World} {R : Redis} (cfg : Settings) (phone password ip salt : Bytes) where
  accepted :
      (l3 : Link) (code : Bytes) (st : State W R) (d1 d2 : W.Db)
      → cfg.require_sms_on_register ≡ true
      → (check R cfg.register_guard answered ip st.store).0 ≡ true
      → is_valid_phone phone ≡ true
      → ltb (length password) cfg.min_password_length ≡ false
      → (verify_code R cfg.sms answered phone code st.store).0 ≡ VerifyResult.verified
      → is_empty salt ≡ false
      → is_empty (W.pbkdf2 password salt) ≡ false
      → W.find_user phone st.db ≡ (done none, d1)
      → W.insert_user phone (W.pbkdf2 password salt) salt d1 ≡ (done tt, d2)
      → (register_user cfg (answered, (answered, l3)) phone password code ip salt st).0
        ≡ record { ok = true; token = []; msg = lit "OK" }
  unfolding register_user check check_script on_verified code_refusal do_register look_up
      on_looked_up insert_into on_user_inserted
  accepted l3 code st d1 d2 asked may valid strong verified salted hashed found inserted =
      rw (may, valid, strong, asked, verified, found, salted, hashed, inserted)

-- For a Redis that keeps its laws, positive times, settings that ask for a code, and a code that
-- the generator gave: once a code was sent to a valid phone whose attempts are below the limit, a
-- registration with that code is answered OK, if the guard lets its address through, the password
-- is long enough and is hashed, the phone is not in the table, and the INSERT succeeds.
pub register-send :
    (W : World) {R : Redis} (law : IsRedis R) (cfg : Settings)
    → (ttl_pos : 0 < cfg.sms.code_ttl_seconds) (resend_pos : 0 < cfg.sms.resend_interval_seconds)
    → (why phone password ip salt code day : Bytes) (daily_ttl : ℕ) (s : R.Store) (l3 : Link)
    → (d d1 d2 : W.Db) → cfg.require_sms_on_register ≡ true
    → is_valid_phone phone ≡ true
    → is_empty code ≡ false
    → IsCounter (R.keys s (daily_key phone day))
    → leb cfg.sms.max_verify_attempts (number_or_zero (R.get s (try_key phone))) ≡ false
    → (send_code R cfg.sms answered why phone code day daily_ttl s).0.result ≡ SendResult.sent
    → (check R cfg.register_guard answered ip
        (send_code R cfg.sms answered why phone code day daily_ttl s).1).0
      ≡ true
    → ltb (length password) cfg.min_password_length ≡ false
    → is_empty salt ≡ false
    → is_empty (W.pbkdf2 password salt) ≡ false
    → W.find_user phone d ≡ (done none, d1)
    → W.insert_user phone (W.pbkdf2 password salt) salt d1 ≡ (done tt, d2)
    → (register_user {W = W} {R = R} cfg
        (answered, (answered, l3))
        phone
        password
        code
        ip
        salt
        (record {
          db = d;
          store = (send_code R cfg.sms answered why phone code day daily_ttl s).1;
        })).0
      ≡ record { ok = true; token = []; msg = lit "OK" }
register-send W {R} law cfg ttl_pos resend_pos why phone password ip salt code day daily_ttl s l3 d
      d1 d2 asked valid given counter few sent may strong salted hashed found inserted =
    let right =
      verify-send law cfg.sms ttl_pos resend_pos why phone code day daily_ttl s valid given counter
        sent in
    accepted {W = W} {R = R} cfg phone password ip salt l3 code _ d1 d2 asked may valid strong
      (right ∙ rw few refl) salted hashed found inserted
