-- ===== src/Auth/Sms/Send.antt =====
-- SmsService.cc, `sendCode`: what a code that was sent is good for, and the pause between two.
use seckill_cpp.Base.{
  ℕ, ◌<◌, ◌-◌, ◌++◌, true, false, some, Bytes, lit, str_eq, str_eq_refl, if◌then◌else◌, leb,
  is_empty, ◌≡◌, refl, sym, subst, inl, inr, arith, Bool-cases, ◌==◌, lt→ltb,
}
use seckill_cpp.Base.Int.{ℤ, pos}
use seckill_cpp.Base.Decimal.{to_string}
use seckill_cpp.Redis.{Redis, IsRedis, text, put, answered, IsCounter}
use seckill_cpp.Auth.Sms.{
  Config, SendResult, SendAnswer, VerifyResult, c_str, on_send_array, on_delivered, is_valid_phone,
  code_key, cooldown_key, try_key, daily_key, number_or_zero, send_reply, finish_send, send_script,
  send_code, verify_code,
}
use seckill_cpp.Auth.Sms.Verify.{verify_at}

-- The four keys of a phone are different.
code_ne_cooldown : (p : Bytes) → str_eq (code_key p) (cooldown_key p) ≡ false
unfolding code_key cooldown_key str_eq
code_ne_cooldown p = refl

code_ne_daily : (p d : Bytes) → str_eq (code_key p) (daily_key p d) ≡ false
unfolding code_key daily_key str_eq
code_ne_daily p d = refl

cooldown_ne_daily : (p d : Bytes) → str_eq (cooldown_key p) (daily_key p d) ≡ false
unfolding cooldown_key daily_key str_eq
cooldown_ne_daily p d = refl

try_ne_code : (p : Bytes) → str_eq (try_key p) (code_key p) ≡ false
unfolding try_key code_key str_eq
try_ne_code p = refl

try_ne_cooldown : (p : Bytes) → str_eq (try_key p) (cooldown_key p) ≡ false
unfolding try_key cooldown_key str_eq
try_ne_cooldown p = refl

try_ne_daily : (p d : Bytes) → str_eq (try_key p) (daily_key p d) ≡ false
unfolding try_key daily_key str_eq
try_ne_daily p d = refl

daily_ne_code : (p d : Bytes) → str_eq (daily_key p d) (code_key p) ≡ false
unfolding code_key daily_key str_eq
daily_ne_code p d = refl

daily_ne_cooldown : (p d : Bytes) → str_eq (daily_key p d) (cooldown_key p) ≡ false
unfolding cooldown_key daily_key str_eq
daily_ne_cooldown p d = refl

-- The answers of `sendCode` to a phone and a code in order.
abbrev pub retry_in : ℤ → SendAnswer
retry_in left = record {
  result = SendResult.too_frequent;
  detail = lit "retry in " ++ (to_string left ++ lit "s");
}

abbrev limit_reached : ℕ → SendAnswer
limit_reached used = record {
  result = SendResult.daily_limit;
  detail = lit "daily limit reached, used=" ++ to_string (pos used);
}

abbrev sent_as : ℤ → SendAnswer
sent_as n = record {
  result = SendResult.sent;
  detail = lit "SELF_ISSUED" ++ (lit " (today #" ++ (to_string n ++ lit ")"));
}

module _ {R : Redis} (law : IsRedis R) (cfg : Config) (ttl_pos : 0 < cfg.code_ttl_seconds)
    (resend_pos : 0 < cfg.resend_interval_seconds) (why phone code day : Bytes)
    (daily_ttl : ℕ) where
  -- The store after a code was accepted for sending, before the expiry of the counter.
  abbrev stored : R.Store → R.Store
  stored s =
      R.setex (R.setex s (code_key phone) cfg.code_ttl_seconds (c_str code)) (cooldown_key phone)
        cfg.resend_interval_seconds (lit "1")

  abbrev counted : R.Store → R.Store
  counted s =
      let (n, s3) = R.incr (stored s) (daily_key phone day) in
      if n == 1 then R.expire s3 (daily_key phone day) (pos daily_ttl) else s3

  -- The answer and the store of `sendCode`, on every branch.
  send_branches :
      (s : R.Store)
      → is_valid_phone phone ≡ true
      → is_empty code ≡ false
      → send_code R cfg answered why phone code day daily_ttl s ≡ (
          if R.exists s (cooldown_key phone)
          then (retry_in (R.ttl s (cooldown_key phone)), s)
          else (let used : ℕ = number_or_zero (R.get s (daily_key phone day)) in
              if leb cfg.daily_limit used
              then (limit_reached used, s)
              else (sent_as (pos (R.incr (stored s) (daily_key phone day)).0), counted s)))
  unfolding send_code send_script send_reply on_send_array finish_send on_delivered
  send_branches s v c = elim (Bool-cases (R.exists s (cooldown_key phone))) [
    | inl cooling ↦ rw (v, c, cooling)
    | inr idle ↦
        elim (Bool-cases (leb cfg.daily_limit (number_or_zero (R.get s (daily_key phone day))))) [
          | inl full ↦ rw (v, c, idle, full)
          | inr room ↦ rw (v, c, idle, room)
        ]
  ]

  after_setex :
      (s : R.Store)
      → R.keys (stored s)
        ≡ put
            (cooldown_key phone)
            (some (record { value = text (lit "1"); left = some cfg.resend_interval_seconds }))
            (put
              (code_key phone)
              (some (record { value = text (c_str code); left = some cfg.code_ttl_seconds }))
              (R.keys s))
  after_setex s = rw (
    law.setex_law (R.setex s (code_key phone) cfg.code_ttl_seconds (c_str code))
        (cooldown_key phone) cfg.resend_interval_seconds (lit "1") resend_pos,
    law.setex_law s (code_key phone) cfg.code_ttl_seconds (c_str code) ttl_pos,
  )

  others_stay :
      (k : Bytes) (s : R.Store)
      → str_eq k (code_key phone) ≡ false
      → str_eq k (cooldown_key phone) ≡ false
      → R.keys (stored s) k ≡ R.keys s k
  others_stay k s a b = rw (after_setex s, a, b)

  IsCounter-stays :
      (s : R.Store)
      → IsCounter (R.keys s (daily_key phone day))
      → IsCounter (R.keys (stored s) (daily_key phone day))
  IsCounter-stays s c =
      subst IsCounter
        (sym (
          others_stay (daily_key phone day) s (daily_ne_code phone day)
            (daily_ne_cooldown phone day)))
        c

  incr_elsewhere :
      (k : Bytes) (s : R.Store)
      → str_eq k (daily_key phone day) ≡ false
      → IsCounter (R.keys s (daily_key phone day))
      → R.keys (R.incr (stored s) (daily_key phone day)).1 k ≡ R.keys (stored s) k
  incr_elsewhere k s h c =
      rw (law.incr_law (stored s) (daily_key phone day) (IsCounter-stays s c), h)

  counted_elsewhere :
      (k : Bytes) (s : R.Store)
      → str_eq k (daily_key phone day) ≡ false
      → IsCounter (R.keys s (daily_key phone day))
      → R.keys (counted s) k ≡ R.keys (stored s) k
  counted_elsewhere k s h c = elim (Bool-cases ((R.incr (stored s) (daily_key phone day)).0 == 1)) [
    | inl first ↦ rw (first, law.expire_law, h) (incr_elsewhere k s h c)
    | inr later ↦ rw later (incr_elsewhere k s h c)
  ]

  sent_code :
      (s : R.Store)
      → IsCounter (R.keys s (daily_key phone day))
      → R.get (counted s) (code_key phone) ≡ some (text (c_str code))
  sent_code s c = rw (
    law.get_law,
    counted_elsewhere (code_key phone) s (code_ne_daily phone day) c,
    after_setex s,
    code_ne_cooldown phone,
    str_eq_refl (code_key phone),
  )

  sent_tries :
      (s : R.Store)
      → IsCounter (R.keys s (daily_key phone day))
      → R.get (counted s) (try_key phone) ≡ R.get s (try_key phone)
  sent_tries s c =
      rw
        (
          law.get_law,
          counted_elsewhere (try_key phone) s (try_ne_daily phone day) c,
          others_stay (try_key phone) s (try_ne_code phone) (try_ne_cooldown phone),
        )
        (sym (law.get_law s (try_key phone)))

  when_sent :
      (s : R.Store)
      → is_valid_phone phone ≡ true
      → is_empty code ≡ false
      → (send_code R cfg answered why phone code day daily_ttl s).0.result ≡ SendResult.sent
      → (send_code R cfg answered why phone code day daily_ttl s).1 ≡ counted s
  when_sent s v c h = elim (Bool-cases (R.exists s (cooldown_key phone))) [
    | inl cooling ↦ absurd (ground (arith, h, cooling, send_branches s v c))
    | inr idle ↦
        elim (Bool-cases (leb cfg.daily_limit (number_or_zero (R.get s (daily_key phone day))))) [
          | inl full ↦ absurd (ground (arith, h, idle, full, send_branches s v c))
          | inr room ↦ ground (arith, idle, room, send_branches s v c)
        ]
  ]

  -- For a valid phone, a code that the generator gave, positive times, and a count of the day that
  -- is a number: after a code was sent, that code is verified exactly if the attempts that the
  -- store counts for the phone are below the limit. They are those from before the code was sent:
  -- a phone at the limit gets `too_many_attempts` for the right new code.
  pub verify-send :
      (s : R.Store)
      → is_valid_phone phone ≡ true
      → is_empty code ≡ false
      → IsCounter (R.keys s (daily_key phone day))
      → (send_code R cfg answered why phone code day daily_ttl s).0.result ≡ SendResult.sent
      → (verify_code R cfg answered phone code
          (send_code R cfg answered why phone code day daily_ttl s).1).0
        ≡ (if leb cfg.max_verify_attempts (number_or_zero (R.get s (try_key phone)))
            then VerifyResult.too_many_attempts
            else VerifyResult.verified)
  verify-send s v c n h = rw (
    when_sent s v c h,
    verify_at law cfg phone code (counted s) (text (c_str code)) v (sent_code s n),
    sent_tries s n,
    str_eq_refl (c_str code),
  )

  cooling :
      (s : R.Store) (after : ℕ)
      → after < cfg.resend_interval_seconds
      → IsCounter (R.keys s (daily_key phone day))
      → R.exists (R.elapse after (counted s)) (cooldown_key phone) ≡ true
  cooling s after h c = rw (
    law.exists_law,
    law.elapse_law,
    counted_elsewhere (cooldown_key phone) s (cooldown_ne_daily phone day) c,
    after_setex s,
    str_eq_refl (cooldown_key phone),
    lt→ltb after cfg.resend_interval_seconds h,
  )

  pause_left :
      (s : R.Store) (after : ℕ)
      → after < cfg.resend_interval_seconds
      → IsCounter (R.keys s (daily_key phone day))
      → R.ttl (R.elapse after (counted s)) (cooldown_key phone)
        ≡ pos (cfg.resend_interval_seconds - after)
  pause_left s after h c = rw (
    law.ttl_law,
    law.elapse_law,
    counted_elsewhere (cooldown_key phone) s (cooldown_ne_daily phone day) c,
    after_setex s,
    str_eq_refl (cooldown_key phone),
    lt→ltb after cfg.resend_interval_seconds h,
  )

-- For a valid phone, codes that the generator gave, positive times, and a count of the day that is
-- a number: for the resend interval after a code was sent, no other is sent to the phone. The
-- answer is `too_frequent`, with the seconds that are left of the interval as its text, and the
-- store stays as it is.
pub send_spacing :
    {R : Redis} (law : IsRedis R) (cfg : Config)
    → (ttl_pos : 0 < cfg.code_ttl_seconds) (resend_pos : 0 < cfg.resend_interval_seconds)
    → (why phone code next day today : Bytes) (daily_ttl left_today : ℕ) (s : R.Store) (after : ℕ)
    → is_valid_phone phone ≡ true
    → is_empty code ≡ false
    → is_empty next ≡ false
    → IsCounter (R.keys s (daily_key phone day))
    → (send_code R cfg answered why phone code day daily_ttl s).0.result ≡ SendResult.sent
    → after < cfg.resend_interval_seconds
    → send_code R cfg answered why phone next today left_today
        (R.elapse after (send_code R cfg answered why phone code day daily_ttl s).1)
      ≡ (
        retry_in (pos (cfg.resend_interval_seconds - after)),
        R.elapse after (send_code R cfg answered why phone code day daily_ttl s).1,
      )
send_spacing {R} law cfg tp rp why phone code next day today ttl left s after v c d n h soon =
    let e = when_sent law cfg tp rp why phone code day ttl s v c h in
    rw (
      e,
      send_branches law cfg tp rp why phone next today left
          (R.elapse after (counted law cfg tp rp why phone code day ttl s)) v d,
      cooling law cfg tp rp why phone code day ttl s after soon n,
      pause_left law cfg tp rp why phone code day ttl s after soon n,
    )
