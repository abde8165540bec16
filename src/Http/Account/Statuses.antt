-- ===== src/Http/Account/Statuses.antt =====
-- UserController.cc: when a client is told to slow down, and what a logout does to a token.
use seckill_cpp.Base.{
  Bool, true, false, not, Option, none, some, Bytes, lit, is_empty, starts_with, str_eq,
  if◌then◌else◌, ◌==◌, ◌≡◌, refl, inl, inr, Bool-cases,
}
use seckill_cpp.Json.{Json}
use seckill_cpp.Redis.{Redis, Link}
use seckill_cpp.Auth.RegisterGuard.{check}
use seckill_cpp.Auth.Sms.{VerifyResult, verify_code}
use seckill_cpp.Auth.Account.{
  World, State, Settings, AccountAnswer, Outcome, User, done, failed, refused, code_refusal,
  is_duplicate_entry, on_user_inserted, on_looked_up, do_register, on_verified, register_user,
}
use seckill_cpp.Http.{reply, ok_with_data}
use seckill_cpp.Http.Account.{status_for_failure, register_reply}

-- The answer is not a request to slow down.
abbrev IsOther : Json → AccountAnswer → Type 0
IsOther J a = ((register_reply J a).status == 429) ≡ false

module _ (J : Json) {W : World} {R : Redis} (cfg : Settings) where
  inserted-IsOther :
      (link : Link) (ip : Bytes) (r : Outcome (Unit {0}) × State W R)
      → IsOther J (on_user_inserted cfg link ip r).0
  unfolding on_user_inserted register_reply status_for_failure str_eq starts_with reply ok_with_data
  inserted-IsOther link ip (done r, st) = refl
  inserted-IsOther link ip (failed err, st) = elim (Bool-cases (is_duplicate_entry err)) [
    | inl dup ↦ rw dup
    | inr other ↦ rw other
  ]

  looked_up-IsOther :
      (link : Link) (phone password ip salt : Bytes) (r : Outcome (Option User) × State W R)
      → IsOther J (on_looked_up cfg link phone password ip salt r).0
  unfolding on_looked_up register_reply status_for_failure str_eq starts_with reply
  looked_up-IsOther link phone password ip salt (failed err, st) = refl
  looked_up-IsOther link phone password ip salt (done (some u), st) = refl
  looked_up-IsOther link phone password ip salt (done none, st) =
      elim (Bool-cases (is_empty salt)) [
        | inl no_salt ↦ rw no_salt
        | inr salted ↦ elim (Bool-cases (is_empty (W.pbkdf2 password salt))) [
          | inl no_hash ↦ rw (salted, no_hash)
          | inr hashed ↦ rw (salted, hashed) (inserted-IsOther link ip _)
        ]
      ]

  verified-IsOther :
      (link : Link) (phone password ip salt : Bytes) (r : VerifyResult) (st : State W R)
      → IsOther J (on_verified cfg link phone password ip salt (code_refusal r) st).0
  unfolding on_verified code_refusal do_register register_reply status_for_failure str_eq
      starts_with reply
  verified-IsOther link phone password ip salt VerifyResult.verified st =
      looked_up-IsOther link phone password ip salt _
  verified-IsOther link phone password ip salt VerifyResult.empty_code st = refl
  verified-IsOther link phone password ip salt VerifyResult.wrong_code st = refl
  verified-IsOther link phone password ip salt VerifyResult.too_many_attempts st = refl
  verified-IsOther link phone password ip salt VerifyResult.invalid_phone st = refl
  verified-IsOther link phone password ip salt VerifyResult.redis_error st = refl

  after_checks :
      (l2 l3 : Link) (phone password code ip salt : Bytes) (st : State W R) (g1 g2 g3 : Bool)
      → IsOther J
          (if g1
            then (refused (lit "INVALID_PHONE"), st)
            else (if g2
                then (refused (lit "WEAK_PASSWORD"), st)
                else (if g3
                    then do_register cfg l3 phone password ip salt st
                    else (let (r, s2) = verify_code R cfg.sms l2 phone code st.store in
                        on_verified cfg l3 phone password ip salt
                          (code_refusal r)
                          (record st { store = s2 }))))).0
  unfolding do_register register_reply status_for_failure str_eq starts_with reply
  after_checks l2 l3 phone password code ip salt st true g2 g3 = refl
  after_checks l2 l3 phone password code ip salt st false true g3 = refl
  after_checks l2 l3 phone password code ip salt st false false true =
      looked_up-IsOther l3 phone password ip salt _
  after_checks l2 l3 phone password code ip salt st false false false =
      verified-IsOther l3 phone password ip salt _ _

  -- For every registration, whatever fails on the way: the client is answered with 429 exactly if
  -- the limit of its address turned it away.
  pub register_user-429 :
      (l1 l2 l3 : Link) (phone password code ip salt : Bytes) (st : State W R)
      → ((register_reply J
            (register_user cfg (l1, (l2, l3)) phone password code ip salt st).0).status
          == 429)
        ≡ not (check R cfg.register_guard l1 ip st.store).0
  unfolding register_user register_reply status_for_failure str_eq reply
  register_user-429 l1 l2 l3 phone password code ip salt st =
      elim (Bool-cases (check R cfg.register_guard l1 ip st.store).0) [
        | inl may ↦ rw may (after_checks l2 l3 phone password code ip salt _ _ _ _)
        | inr stopped ↦ rw stopped
      ]
