-- ===== src/Auth/Account.antt =====
-- src/service/UserService.cc: registration, login, logout, and the check of a token. The chain of
-- callbacks is a chain of functions. The user table, PBKDF2 and the tokens are interfaces; the
-- salt, the session id and how each Redis command ends are arguments.
pub mod Sessions
pub mod Register
pub mod Code
pub mod Login
pub mod Tokens
pub mod Tests
use seckill_cpp.Base.{
  ℕ, zero, suc, ◌+◌, Bool, true, false, not, ◌||◌, Option, none, some, Bytes, lit, ◌++◌, is_empty,
  has_text, if◌then◌else◌, ◌==◌, ltb, length, List, [], ◌∷◌,
}
use seckill_cpp.Base.Int.{ℤ, pos, int_eq}
use seckill_cpp.Base.Decimal.{to_string}
use seckill_cpp.Redis.{Redis, Link}
use seckill_cpp.Auth.LoginGuard.{
  LoginGuard, FailResult, counting, check_locked, on_failure, on_success,
}
use seckill_cpp.Auth.RegisterGuard.{RegisterGuard, check, mark_success}
use seckill_cpp.Auth.Sms.{VerifyResult, is_valid_phone, verify_code}
use seckill_cpp.Auth.Password.{constant_time_equals}
use seckill_cpp.Auth.Session.{save, session_exists, revoke}
use seckill_cpp.Auth.Jwt.{Verdict, invalid, raised, valid}

-- A row of the table `user`.
pub record User : Type 0 where
  pub id : ℤ
  pub password_hash : Bytes
  pub salt : Bytes
  pub status : ℤ

-- What a statement on the table ends with: its result, or the text of an exception.
pub data Outcome (A : Type 0) : Type 0 where
  done : A → Outcome A
  failed : Bytes → Outcome A

-- The table, PBKDF2 (empty if it fails), and the tokens of `Jwt`.
pub record World : Type 1 where
  pub Db : Type 0
  pub find_user : Bytes → Db → Outcome (Option User) × Db
  pub insert_user : Bytes → Bytes → Bytes → Db → Outcome (Unit {0}) × Db
  pub pbkdf2 : Bytes → Bytes → Bytes
  pub sign_token : ℤ → Bytes → ℕ → Bytes
  pub verify_token : Bytes → ℕ → Verdict

pub record Settings : Type 0 where
  pub require_sms_on_register : Bool
  pub min_password_length : ℕ
  pub session_ttl : ℕ
  pub guard : LoginGuard
  pub register_guard : RegisterGuard
  pub sms : seckill_cpp.Auth.Sms.Config

-- A call of a business callback; `token` is empty where the callback has none.
pub record AccountAnswer : Type 0 where
  pub ok : Bool
  pub token : Bytes
  pub msg : Bytes

abbrev pub refused : Bytes → AccountAnswer
refused msg = record { ok = false; token = []; msg = msg }

-- `isDuplicateEntry`
unfoldable pub is_duplicate_entry : Bytes → Bool
is_duplicate_entry err =
    has_text (lit "Duplicate entry") err
    || (has_text (lit "ER_DUP_ENTRY") err || has_text (lit "uk_phone") err)

-- The `switch` on the result of `verifyCode`.
unfoldable pub code_refusal : VerifyResult → Option Bytes
code_refusal VerifyResult.verified = none
code_refusal VerifyResult.empty_code = some (lit "CODE_EXPIRED")
code_refusal VerifyResult.wrong_code = some (lit "CODE_WRONG")
code_refusal VerifyResult.too_many_attempts = some (lit "CODE_TOO_MANY_ATTEMPTS")
code_refusal VerifyResult.invalid_phone = some (lit "CODE_INVALID")
code_refusal VerifyResult.redis_error = some (lit "CODE_INVALID")

-- The callback of `onFailure` after a wrong password.
unfoldable pub wrong_password : FailResult → Bytes
wrong_password r = elim r.kind [
  | counting ↦ lit "WRONG_PASSWORD:" ++ to_string r.fail_count
  | _ ↦ lit "ACCOUNT_LOCKED:" ++ to_string r.lock_seconds
]

module _ (W : World) (R : Redis) where
  pub record State : Type 0 where
    pub db : W.Db
    pub store : R.Store

module _ {W : World} {R : Redis} (cfg : Settings) where
  -- The callbacks of the INSERT.
  unfoldable pub on_user_inserted :
      Link → Bytes → Outcome (Unit {0}) × State W R → AccountAnswer × State W R
  on_user_inserted link ip (done r, st) = (
    record { ok = true; token = []; msg = lit "OK" },
    record st { store = mark_success R cfg.register_guard link ip st.store },
  )
  on_user_inserted link ip (failed err, st) = (
    if is_duplicate_entry err
        then refused (lit "PHONE_REGISTERED")
        else refused (lit "DB_ERROR:" ++ err),
    st,
  )

  unfoldable pub insert_into : Bytes → Bytes → Bytes → State W R → Outcome (Unit {0}) × State W R
  insert_into phone hash salt st =
      let (r, d) = W.insert_user phone hash salt st.db in (r, record st { db = d })

  -- The callbacks of the SELECT in `doRegister`; an empty salt is a failed `genSalt`.
  unfoldable pub on_looked_up :
      Link
      → Bytes
      → Bytes
      → Bytes
      → Bytes
      → Outcome (Option User) × State W R
      → AccountAnswer × State W R
  on_looked_up link phone password ip salt (failed err, st) = (refused (lit "DB_ERROR:" ++ err), st)
  on_looked_up link phone password ip salt (done (some u), st) =
      (refused (lit "PHONE_REGISTERED"), st)
  on_looked_up link phone password ip salt (done none, st) =
      if is_empty salt
      then (refused (lit "HASH_FAILED"), st)
      else (if is_empty (W.pbkdf2 password salt)
          then (refused (lit "HASH_FAILED"), st)
          else on_user_inserted link ip (insert_into phone (W.pbkdf2 password salt) salt st))

  unfoldable pub look_up : Bytes → State W R → Outcome (Option User) × State W R
  look_up phone st = let (r, d) = W.find_user phone st.db in (r, record st { db = d })

  unfoldable pub do_register :
      Link → Bytes → Bytes → Bytes → Bytes → State W R → AccountAnswer × State W R
  do_register link phone password ip salt st =
      on_looked_up link phone password ip salt (look_up phone st)

  unfoldable pub on_verified :
      Link → Bytes → Bytes → Bytes → Bytes → Option Bytes → State W R → AccountAnswer × State W R
  on_verified link phone password ip salt none st = do_register link phone password ip salt st
  on_verified link phone password ip salt (some msg) st = (refused msg, st)

  -- The links of a registration: the check of the address, the code, and the mark.
  unfoldable pub register_user :
      Link × (Link × Link)
      → Bytes
      → Bytes
      → Bytes
      → Bytes
      → Bytes
      → State W R
      → AccountAnswer × State W R
  register_user (l1, (l2, l3)) phone password code ip salt st =
      let (may, s1) = check R cfg.register_guard l1 ip st.store in
      let st1 : State W R = record st { store = s1 } in
      if not may
      then (refused (lit "REGISTER_IP_LIMITED"), st1)
      else (if not (is_valid_phone phone)
          then (refused (lit "INVALID_PHONE"), st1)
          else (if ltb (length password) cfg.min_password_length
              then (refused (lit "WEAK_PASSWORD"), st1)
              else (if not cfg.require_sms_on_register
                  then do_register l3 phone password ip salt st1
                  else (let (r, s2) = verify_code R cfg.sms l2 phone code s1 in
                      on_verified l3 phone password ip salt (code_refusal r)
                        (record st1 { store = s2 })))))

  -- The callback of `save`.
  unfoldable pub on_saved : Bytes → Bool × State W R → AccountAnswer × State W R
  on_saved token (true, st) = (record { ok = true; token = token; msg = lit "OK" }, st)
  on_saved token (false, st) = (refused (lit "REDIS_ERROR:session save failed"), st)

  unfoldable pub fail_login :
      Link → Bytes → (FailResult → Bytes) → State W R → AccountAnswer × State W R
  fail_login link phone msg st =
      let (r, s) = on_failure R cfg.guard link phone st.store in
      (refused (msg r), record st { store = s })

  unfoldable pub save_session : Link → Bytes → ℤ → State W R → Bool × State W R
  save_session link jti user st =
      let (ok, s) = save R cfg.session_ttl link jti user st.store in (ok, record st { store = s })

  -- The callback of PBKDF2 in `login`.
  unfoldable pub on_computed :
      Link × Link → Bytes → User → Bytes → ℕ → Bytes → State W R → AccountAnswer × State W R
  on_computed (l2, l3) phone u jti now computed st =
      if is_empty computed
      then (refused (lit "HASH_FAILED"), st)
      else (if not (constant_time_equals computed u.password_hash)
          then fail_login l2 phone wrong_password st
          else on_saved (W.sign_token u.id jti now)
              (save_session l3 jti u.id (record st { store = on_success R l2 phone st.store })))

  -- The callbacks of the SELECT in `login`.
  unfoldable pub on_found :
      Link × Link
      → Bytes
      → Bytes
      → Bytes
      → ℕ
      → Outcome (Option User) × State W R
      → AccountAnswer × State W R
  on_found ls phone password jti now (failed err, st) = (refused (lit "DB_ERROR:" ++ err), st)
  on_found ls phone password jti now (done none, st) =
      fail_login ls.0 phone (λ r. lit "USER_NOT_FOUND") st
  on_found ls phone password jti now (done (some u), st) =
      if not (int_eq u.status (pos 1))
      then (refused (lit "ACCOUNT_DISABLED"), st)
      else on_computed ls phone u jti now (W.pbkdf2 password u.salt) st

  -- The links of a login: the lock, the failure or success, and the session.
  unfoldable pub login :
      Link × (Link × Link) → Bytes → Bytes → Bytes → ℕ → State W R → AccountAnswer × State W R
  login (l1, ls) phone password jti now st =
      if not (is_valid_phone phone)
      then (refused (lit "INVALID_PHONE"), st)
      else (let ((locked, secs), s1) = check_locked R l1 phone st.store in
          let st1 : State W R = record st { store = s1 } in
          if locked
          then (refused (lit "ACCOUNT_LOCKED:" ++ to_string secs), st1)
          else on_found ls phone password jti now (look_up phone st1))

  logout_of : Link → Verdict → State W R → Option AccountAnswer × State W R
  logout_of link invalid st = (some (refused (lit "TOKEN_INVALID")), st)
  logout_of link raised st = (none, st)
  logout_of link (valid claims) st =
      let (deleted, s) = revoke R link claims.jti st.store in
      (
        some (record {
          ok = true;
          token = [];
          msg = if deleted then lit "OK" else lit "ALREADY_LOGGED_OUT";
        }),
        record st { store = s },
      )

  -- `logout`; `none` if `verify` throws, and then the callback is not called.
  unfoldable pub logout : Link → Bytes → ℕ → State W R → Option AccountAnswer × State W R
  unfolding logout_of
  logout link token now st = logout_of link (W.verify_token token now) st

  authenticate_of : Link → Verdict → State W R → Option ℤ × State W R
  authenticate_of link invalid st = (some (pos 0), st)
  authenticate_of link raised st = (none, st)
  authenticate_of link (valid claims) st =
      let (alive, s) = session_exists R link claims.jti st.store in
      (some (if alive then claims.user_id else pos 0), record st { store = s })

  -- `authenticate`: the user, or 0; `none` if `verify` throws.
  unfoldable pub authenticate : Link → Bytes → ℕ → State W R → Option ℤ × State W R
  unfolding authenticate_of
  authenticate link token now st = authenticate_of link (W.verify_token token now) st
