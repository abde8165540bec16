-- ===== src/Auth/Account/Tests.antt =====
-- An account in a small world, and the theorems on it.
use seckill_cpp.Base.{
  zero, suc, true, false, Option, none, some, Bytes, lit, ◌++◌, is_empty, ltb, leb, length, List,
  [], ◌∷◌, ◌+◌, ◌<◌, ◌≡◌, ◌∙◌, refl, arith, str_eq, subst, some_injective,
}
use seckill_cpp.Base.Int.{ℤ, pos, negsuc}
use seckill_cpp.Redis.{Link, answered, Keys}
use seckill_cpp.Redis.Model.{Plain, Plain-IsRedis, empty}
use seckill_cpp.Auth.LoginGuard.{check_locked, on_success, check_result, lock_key, fail_key}
use seckill_cpp.Auth.RegisterGuard.{check, ip_key, below_limit, allowed, check_script}
use seckill_cpp.Auth.Overlap.{Guarded, Event, arrive, counts, leave, pass, run, repeated, idle}
use seckill_cpp.Auth.RegisterGuard.Overlap.{per_address, registered_bounded}
use seckill_cpp.Auth.Sms.{
  is_valid_phone, verify_code, VerifyResult, SendResult, send_code, send_script, send_reply,
  on_send_array, finish_send, on_delivered, c_str, code_key, cooldown_key, daily_key, try_key,
  number_or_zero,
}
use seckill_cpp.Auth.Account.Code.{register-send}
use seckill_cpp.Auth.Password.{constant_time_equals, diff_from}
use seckill_cpp.Auth.Session.{save, session_key, saved}
use seckill_cpp.Auth.Jwt.{JwtClaims, Verdict, invalid, valid}
use seckill_cpp.Auth.Account.{
  User, done, World, Settings, State, login, authenticate, register_user, do_register, look_up,
  on_looked_up, insert_into, on_user_inserted, on_found, on_computed, on_saved, save_session,
}
use seckill_cpp.Auth.Account.Sessions.{saved_exists, authenticates}
use seckill_cpp.Auth.Account.Tokens.{
  IsReadable, with_tokens, authenticate-IsSigned, login-authenticate,
}
use seckill_cpp.Auth.Jwt.{sign}
use seckill_cpp.Auth.Jwt.Accepted.{IsSigned}
use seckill_cpp.Auth.Jwt.Tokens.{claims_for}
use seckill_cpp.Auth.Jwt.Tests as JwtTests
use seckill_cpp.Auth.Account.Login.{IsLogin}
use seckill_cpp.Auth.Account.Register.{register_ok}

abbrev anna : User
anna = record { id = pos 7; password_hash = lit "salt:secret"; salt = lit "salt:"; status = pos 1 }

abbrev token_for : ℤ → Bytes → Bytes
token_for (pos n) jti = 0 ∷ n ∷ jti
token_for (negsuc n) jti = 1 ∷ n ∷ jti

abbrev pub claims_with : Bytes → ℤ → JwtClaims
claims_with jti user = record {
  user_id = user;
  jti = jti;
  issuer = [];
  issued_at = pos 0;
  expires_at = pos 0;
}

abbrev claims_of : Bytes → Verdict
claims_of (zero ∷ n ∷ jti) = valid (claims_with jti (pos n))
claims_of (suc zero ∷ n ∷ jti) = valid (claims_with jti (negsuc n))
claims_of _ = invalid

-- A table of one row or none, a hash that is the salt and the password, tokens that are the
-- user and the session id.
abbrev pub Small : World
Small = record {
  Db = Option User;
  find_user = λ phone d. (done d, d);
  insert_user =
      λ phone hash salt d. (done tt, some (record anna { password_hash = hash; salt = salt }));
  pbkdf2 = λ password salt. salt ++ password;
  sign_token = λ user jti now. token_for user jti;
  verify_token = λ token now. claims_of token;
}

abbrev pub settings : Settings
settings = record {
  require_sms_on_register = false;
  min_password_length = 6;
  session_ttl = 3600;
  guard = record { max_fail = 5; lock_seconds = 600 };
  register_guard = record { max_per_ip = 3; window_seconds = 3600 };
  sms = record {
    code_ttl_seconds = 300;
    resend_interval_seconds = 60;
    daily_limit = 10;
    max_verify_attempts = 5;
  };
}

abbrev pub known : State Small Plain
known = record { db = some anna; store = empty }

abbrev pub nobody : State Small Plain
nobody = record { db = none; store = empty }

abbrev pub phone : Bytes
phone = lit "13800000000"

abbrev all_answered : Link × (Link × Link)
all_answered = (answered, (answered, answered))

enters : (login settings all_answered phone (lit "secret") (lit "j") 0 known).0.ok ≡ true
unfolding login on_found on_computed on_saved save_session save saved constant_time_equals diff_from
    str_eq session_key is_valid_phone check_locked check_result on_success lock_key fail_key look_up
enters = refl

registers :
    (register_user settings all_answered phone
      (lit "secret")
      []
      (lit "10.0.0.1")
      (lit "ab")
      nobody).0.ok
    ≡ true
unfolding register_user do_register look_up on_looked_up insert_into on_user_inserted check
    check_script below_limit allowed ip_key is_valid_phone str_eq
registers = refl

abbrev pub token : Bytes
token = 0 ∷ 7 ∷ lit "j"

register_ok_example :
    ((check Plain settings.register_guard answered (lit "10.0.0.1") nobody.store).0 ≡ true)
    × ((is_valid_phone phone ≡ true)
        × ((ltb (length (lit "secret")) settings.min_password_length ≡ false)
            × ((settings.require_sms_on_register ≡ true
                  → (verify_code Plain settings.sms answered phone []
                      (check Plain settings.register_guard answered
                        (lit "10.0.0.1")
                        nobody.store).1).0
                    ≡ VerifyResult.verified)
                × (((Small.find_user phone nobody.db).0 ≡ done none)
                    × (is_empty (Small.pbkdf2 (lit "secret") (lit "ab")) ≡ false)))))
register_ok_example =
    register_ok settings phone (lit "secret") (lit "10.0.0.1") (lit "ab") answered answered answered
      [] nobody registers

abbrev Signed : World
Signed = with_tokens JwtTests.small JwtTests.mac JwtTests.jwt Small

abbrev signed : Bytes
signed = sign JwtTests.small JwtTests.mac JwtTests.jwt (pos 42) (lit "j") 1000

abbrev in_session : State Signed Plain
in_session = record {
  db = some anna;
  store = (save Plain 3600 answered (lit "j") (pos 42) empty).1;
}

recognised : (authenticate settings answered signed 1059 in_session).0 ≡ some (pos 42)
recognised =
    authenticates Plain-IsRedis settings signed (claims_for JwtTests.jwt (pos 42) (lit "j") 1000)
      1059 in_session JwtTests.accepted
    ∙ rw (saved_exists Plain-IsRedis 3600 (lit "j") (pos 42) empty (omega arith)) refl

authenticate-IsSigned_example :
    (c : JwtClaims) × IsSigned JwtTests.small JwtTests.mac JwtTests.jwt signed 1059 c
    × (c.user_id ≡ pos 42)
    × ((answered ≡ answered) × (Plain.exists in_session.store (session_key c.jti) ≡ true))
authenticate-IsSigned_example =
    authenticate-IsSigned JwtTests.small JwtTests.mac JwtTests.jwt Small settings answered signed
      1059 in_session (pos 42) (λ e. ground (arith, e)) recognised

abbrev bea : User
bea = record anna { id = pos 42 }

abbrev bea_known : State Signed Plain
bea_known = record { db = some bea; store = empty }

bea_enters : (login settings all_answered phone (lit "secret") (lit "j") 1000 bea_known).0.ok ≡ true
unfolding login on_found on_computed on_saved save_session save saved constant_time_equals diff_from
    str_eq session_key is_valid_phone check_locked check_result on_success lock_key fail_key look_up
bea_enters = refl

readable : (u : User) → some bea ≡ some u → IsReadable JwtTests.small JwtTests.jwt (lit "j") 1000 u
readable u e =
    subst (IsReadable JwtTests.small JwtTests.jwt (lit "j") 1000) (some_injective e)
      (record { fits = omega arith; payload = JwtTests.payload-ReadsBack })

done_injective : (o p : Option User) → done o ≡ done p → o ≡ p
done_injective o p e = cc

login-authenticate_example :
    (is_valid_phone phone ≡ true)
    × (((check_locked Plain answered phone bea_known.store).0.0 ≡ false)
        × ((u : User) × (((Small.find_user phone bea_known.db).0 ≡ done (some u))
              × IsLogin Plain-IsRedis settings
                  (omega arith)
                  (lit "secret")
                  (lit "j")
                  1000
                  1059
                  u
                  (login settings all_answered phone (lit "secret") (lit "j") 1000 bea_known))))
login-authenticate_example =
    login-authenticate JwtTests.small-IsJson JwtTests.mac-IsHmac JwtTests.jwt Small Plain-IsRedis
      settings (omega arith) (lit "secret") (lit "j") 1000 1059 (omega arith) (omega arith)
      JwtTests.header-ReadsBack phone bea_known
      (λ u found. readable u (done_injective (some bea) (some u) found)) bea_enters

abbrev rush : List Event
rush = arrive ∷ arrive ∷ counts ∷ pass 10 ∷ arrive ∷ leave ∷ counts ∷ []

abbrev address : Guarded
address = per_address Plain settings.register_guard (lit "10.0.0.1")

registered_bounded_example :
    ((run address rush (idle empty)).counted < 3 + (run address rush (idle empty)).peak)
    × ((run address (repeated arrive 5 ++ repeated counts 5) (idle empty)).counted ≡ 5)
registered_bounded_example =
    registered_bounded Plain-IsRedis settings.register_guard (omega arith) (omega arith)
      (lit "10.0.0.1") empty rush 5 refl (omega arith)

-- A code for a phone that is not in the table, in a server that asks for codes.
abbrev strict : Settings
strict = record settings { require_sms_on_register = true }

abbrev sent_store : Keys
sent_store =
    (send_code Plain strict.sms answered (lit "") phone (lit "042117") (lit "20261126") 3600
      empty).1

code_sent :
    (send_code Plain strict.sms answered
      (lit "")
      phone
      (lit "042117")
      (lit "20261126")
      3600
      empty).0.result
    ≡ SendResult.sent
unfolding send_code send_script send_reply on_send_array finish_send on_delivered c_str
    is_valid_phone str_eq code_key cooldown_key daily_key
code_sent = refl

no_attempts :
    leb strict.sms.max_verify_attempts (number_or_zero (Plain.get empty (try_key phone))) ≡ false
no_attempts = refl

may_register : (check Plain strict.register_guard answered (lit "10.0.0.1") sent_store).0 ≡ true
unfolding check check_script below_limit allowed ip_key send_code send_script send_reply
    on_send_array finish_send on_delivered c_str is_valid_phone str_eq code_key cooldown_key
    daily_key
may_register = refl

phone_valid : is_valid_phone phone ≡ true
unfolding is_valid_phone
phone_valid = refl

register-send_example :
    (register_user {W = Small} {R = Plain} strict all_answered phone
      (lit "secret")
      (lit "042117")
      (lit "10.0.0.1")
      (lit "ab")
      (record { db = none; store = sent_store })).0
    ≡ record { ok = true; token = []; msg = lit "OK" }
register-send_example =
    register-send Small Plain-IsRedis strict (omega arith) (omega arith) (lit "") phone
      (lit "secret") (lit "10.0.0.1") (lit "ab") (lit "042117") (lit "20261126") 3600 empty answered
      none none (some (record anna { password_hash = lit "absecret"; salt = lit "ab" })) refl
      phone_valid refl tt no_attempts code_sent may_register refl refl refl refl refl
