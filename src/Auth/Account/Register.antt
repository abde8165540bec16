-- ===== src/Auth/Account/Register.antt =====
-- UserService.cc: what a registration that answers ok has passed.
use seckill_cpp.Base.{
  true, false, Option, none, some, Bytes, is_empty, ltb, length, ◌≡◌, refl, arith, inl, inr,
  Bool-cases,
}
use seckill_cpp.Redis.{Redis, Link}
use seckill_cpp.Auth.Sms.{is_valid_phone, verify_code, VerifyResult}
use seckill_cpp.Auth.RegisterGuard.{check}
use seckill_cpp.Auth.Account.{
  User, Outcome, done, failed, World, Settings, State, look_up, on_looked_up, do_register,
  code_refusal, on_verified, register_user,
}

module _ {W : World} {R : Redis} (cfg : Settings) (phone password ip salt : Bytes) where
  looked_up_ok :
      (link : Link) (o : Outcome (Option User)) (st : State W R)
      → (on_looked_up cfg link phone password ip salt (o, st)).0.ok ≡ true
      → (o ≡ done none) × (is_empty (W.pbkdf2 password salt) ≡ false)
  unfolding on_looked_up
  looked_up_ok link (failed err) st h = absurd (ground (arith, h))
  looked_up_ok link (done (some u)) st h = absurd (ground (arith, h))
  looked_up_ok link (done none) st h = elim (Bool-cases (is_empty salt)) [
    | inl no_salt ↦ absurd (ground (arith, h, no_salt))
    | inr salted ↦ elim (Bool-cases (is_empty (W.pbkdf2 password salt))) [
      | inl no_hash ↦ absurd (ground (arith, h, salted, no_hash))
      | inr hashed ↦ (refl, hashed)
    ]
  ]

  registered_ok :
      (link : Link) (st : State W R)
      → (do_register cfg link phone password ip salt st).0.ok ≡ true
      → ((W.find_user phone st.db).0 ≡ done none) × (is_empty (W.pbkdf2 password salt) ≡ false)
  unfolding do_register look_up
  registered_ok link st h = looked_up_ok link _ _ h

  verified_ok :
      (link : Link) (r : VerifyResult) (st : State W R)
      → (on_verified cfg link phone password ip salt (code_refusal r) st).0.ok ≡ true
      → (r ≡ VerifyResult.verified)
        × (((W.find_user phone st.db).0 ≡ done none) × (is_empty (W.pbkdf2 password salt) ≡ false))
  unfolding on_verified code_refusal
  verified_ok link VerifyResult.verified st h = (refl, registered_ok link st h)
  verified_ok link VerifyResult.invalid_phone st h = absurd (ground (arith, h))
  verified_ok link VerifyResult.empty_code st h = absurd (ground (arith, h))
  verified_ok link VerifyResult.wrong_code st h = absurd (ground (arith, h))
  verified_ok link VerifyResult.too_many_attempts st h = absurd (ground (arith, h))
  verified_ok link VerifyResult.redis_error st h = absurd (ground (arith, h))

  -- A registration that answers ok, however each Redis command ended: the guard let the address
  -- through, the phone is valid and was not in the table, the password is long enough and was
  -- hashed, and where the settings ask for a code, the code was verified.
  pub register_ok :
      (l1 l2 l3 : Link) (code : Bytes) (st : State W R)
      → (register_user cfg (l1, (l2, l3)) phone password code ip salt st).0.ok ≡ true
      → ((check R cfg.register_guard l1 ip st.store).0 ≡ true)
        × ((is_valid_phone phone ≡ true)
            × ((ltb (length password) cfg.min_password_length ≡ false)
                × ((cfg.require_sms_on_register ≡ true
                      → (verify_code R cfg.sms l2 phone code
                          (check R cfg.register_guard l1 ip st.store).1).0
                        ≡ VerifyResult.verified)
                    × (((W.find_user phone st.db).0 ≡ done none)
                        × (is_empty (W.pbkdf2 password salt) ≡ false)))))
  unfolding register_user
  register_ok l1 l2 l3 code st h = elim (Bool-cases (check R cfg.register_guard l1 ip st.store).0) [
    | inr limited ↦ absurd (ground (arith, h, limited))
    | inl may ↦ elim (Bool-cases (is_valid_phone phone)) [
      | inr bad ↦ absurd (ground (arith, h, may, bad))
      | inl good ↦ elim (Bool-cases (ltb (length password) cfg.min_password_length)) [
        | inl weak ↦ absurd (ground (arith, h, may, good, weak))
        | inr strong ↦ elim (Bool-cases cfg.require_sms_on_register) [
          | inr free ↦ (
            may,
            (
              good,
              (
                strong,
                (
                  λ e. absurd (cc (e, free)),
                  registered_ok l3
                      (record st { store = (check R cfg.register_guard l1 ip st.store).1 })
                      (ground (arith, h, may, good, strong, free)),
                ),
              ),
            ),
          )
          | inl asked ↦
              let (v, rest) =
                verified_ok l3
                  (verify_code R cfg.sms l2 phone code
                    (check R cfg.register_guard l1 ip st.store).1).0
                  (record st {
                    store =
                        (verify_code R cfg.sms l2 phone code
                          (check R cfg.register_guard l1 ip st.store).1).1;
                  })
                  (ground (arith, h, may, good, strong, asked)) in
              (may, (good, (strong, (λ e. v, rest))))
        ]
      ]
    ]
  ]
