-- ===== src/Auth/Sms/Verify.antt =====
-- SmsService.cc, `verifyCode`: a code serves once, and what a code that was sent is good for.
use seckill_cpp.Base.{
  true, false, Option, none, some, Bytes, if◌then◌else◌, leb, ◌||◌, ◌≡◌, refl, inl, inr, arith,
  Bool-cases,
}
use seckill_cpp.Redis.{Redis, IsRedis, Keys, Value, put, put_self, answered}
use seckill_cpp.Auth.Sms.{
  Config, VerifyResult, is_valid_phone, code_key, try_key, number_or_zero, is_text, c_str,
  verify_reply, verify_stored, verify_script, verify_code,
}

module _ {R : Redis} (law : IsRedis R) (cfg : Config) (phone : Bytes) where
  gone : (k : Bytes) (s : R.Store) → R.get (R.del s k) k ≡ none
  gone k s = rw (law.get_law, law.del_law, put_self k none (R.keys s))

  put_none : (k j : Bytes) (m : Keys) → m k ≡ none → put j none m k ≡ none
  put_none k j m h = ground (arith, h)

  gone_twice : (k j : Bytes) (s : R.Store) → R.get (R.del (R.del s k) j) k ≡ none
  gone_twice k j s = rw (
    law.get_law,
    law.del_law,
    put_none k j (R.keys (R.del s k)) (rw (law.del_law, put_self k none (R.keys s))),
  )

  -- Without a code the phone gets `empty_code`, and the store stays.
  no_code :
      (input : Bytes) (s : R.Store)
      → is_valid_phone phone ≡ true
      → R.get s (code_key phone) ≡ none
      → (verify_code R cfg answered phone input s).0 ≡ VerifyResult.empty_code
  unfolding verify_code verify_script verify_stored verify_reply
  no_code input s v e = rw (v, e)

  -- A right code below the limit of attempts is accepted, and it is gone. At the limit every code
  -- is refused, and it is gone. A wrong one is refused, and the attempts of the store count.
  pub verify_at :
      (input : Bytes) (s : R.Store) (stored : Value)
      → is_valid_phone phone ≡ true
      → R.get s (code_key phone) ≡ some stored
      → (verify_code R cfg answered phone input s).0 ≡ (
          if leb cfg.max_verify_attempts (number_or_zero (R.get s (try_key phone)))
          then VerifyResult.too_many_attempts
          else (if is_text stored (c_str input)
              then VerifyResult.verified
              else VerifyResult.wrong_code))
  unfolding verify_code verify_script verify_stored verify_reply
  verify_at input s stored v e =
      elim (Bool-cases (leb cfg.max_verify_attempts (number_or_zero (R.get s (try_key phone))))) [
        | inl many ↦ rw (v, e, many)
        | inr few ↦ elim (Bool-cases (is_text stored (c_str input))) [
          | inl right ↦ rw (v, e, few, right)
          | inr wrong ↦ rw (v, e, few, wrong)
        ]
      ]

  voids :
      (input : Bytes) (s : R.Store) (stored : Value)
      → is_valid_phone phone ≡ true
      → R.get s (code_key phone) ≡ some stored
      → (leb cfg.max_verify_attempts (number_or_zero (R.get s (try_key phone)))
          || is_text stored (c_str input))
        ≡ true
      → R.get (verify_code R cfg answered phone input s).1 (code_key phone) ≡ none
  unfolding verify_code verify_script verify_stored
  voids input s stored v e h =
      elim (Bool-cases (leb cfg.max_verify_attempts (number_or_zero (R.get s (try_key phone))))) [
        | inl many ↦ rw (v, e, many) (gone (code_key phone) s)
        | inr few ↦ elim (Bool-cases (is_text stored (c_str input))) [
          | inl right ↦ rw (v, e, few, right) (gone_twice (code_key phone) (try_key phone) s)
          | inr wrong ↦ absurd (ground (arith, h, few, wrong))
        ]
      ]

  spent :
      (input : Bytes) (s : R.Store) (o : Option Value)
      → is_valid_phone phone ≡ true
      → R.get s (code_key phone) ≡ o
      → (verify_code R cfg answered phone input s).0 ≡ VerifyResult.verified
      → R.get (verify_code R cfg answered phone input s).1 (code_key phone) ≡ none
  spent input s none v e h = absurd (cc (h, no_code input s v e))
  spent input s (some stored) v e h =
      voids input s stored v e (ground (arith, h, verify_at input s stored v e))

  bad_phone :
      (input : Bytes) (s : R.Store)
      → is_valid_phone phone ≡ false
      → (verify_code R cfg answered phone input s).0 ≡ VerifyResult.invalid_phone
  unfolding verify_code
  bad_phone input s w = rw w

  valid_phone :
      (input : Bytes) (s : R.Store)
      → (verify_code R cfg answered phone input s).0 ≡ VerifyResult.verified
      → is_valid_phone phone ≡ true
  valid_phone input s h = elim (Bool-cases (is_valid_phone phone)) [
    | inl v ↦ v
    | inr w ↦ absurd (cc (h, bad_phone input s w))
  ]

  -- A code is good for one use: once it has been verified, verifying it again, or any other code,
  -- is answered `empty_code`.
  pub verified_once :
      (input again : Bytes) (s : R.Store)
      → (verify_code R cfg answered phone input s).0 ≡ VerifyResult.verified
      → (verify_code R cfg answered phone again (verify_code R cfg answered phone input s).1).0
        ≡ VerifyResult.empty_code
  verified_once input again s h =
      let v = valid_phone input s h in
      no_code again _ v (spent input s (R.get s (code_key phone)) v refl h)
