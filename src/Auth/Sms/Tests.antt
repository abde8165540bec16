-- ===== src/Auth/Sms/Tests.antt =====
-- The theorems on codes at a store, and a phone whose attempts outlive its code.
use seckill_cpp.Base.{
  ℕ, ◌+◌, ◌*◌, ◌<◌, ◌↔◌, [], ◌∷◌, true, none, some, Bytes, lit, ◌≡◌, refl, arith, str_eq,
}
use seckill_cpp.Redis.{Keys, answered, count, put}
use seckill_cpp.Redis.Model.{Plain, Plain-IsRedis, empty}
use seckill_cpp.Base.Decimal.{to_string}
use seckill_cpp.Auth.Sms.{
  Config, SendResult, VerifyResult, on_send_array, on_delivered, c_str, is_valid_phone, send_code,
  verify_code, code_key, try_key, cooldown_key, daily_key, send_script, verify_script,
  verify_stored, send_reply, verify_reply, finish_send,
}
use seckill_cpp.Auth.Sms.Code.{gen_numeric_code, six_digits, gen_numeric_code-IsUniform}
use seckill_cpp.Auth.Sms.Verify.{verified_once}
use seckill_cpp.Auth.Sms.Send.{verify-send, send_spacing}

abbrev cfg : Config
cfg = record {
  code_ttl_seconds = 300;
  resend_interval_seconds = 60;
  daily_limit = 10;
  max_verify_attempts = 5;
}

abbrev phone : Bytes
phone = lit "13800000000"

abbrev code : Bytes
code = lit "042117"

-- What an exception would say.
abbrev why : Bytes
why = lit "timed out"

abbrev day : Bytes
day = lit "2026-11-26"

-- Five wrong attempts are counted, and the code that they were made on is gone.
abbrev tried : Keys
tried = put (lit "sms:try:13800000000") (some (record { value = count 5; left = some 200 })) empty

abbrev sent_at : Keys → Keys
sent_at s = (send_code Plain cfg answered why phone code day 3600 s).1

is_valid : is_valid_phone phone ≡ true
unfolding is_valid_phone
is_valid = refl

sends : (send_code Plain cfg answered why phone code day 3600 empty).0.result ≡ SendResult.sent
unfolding send_code send_script send_reply on_send_array finish_send on_delivered c_str
    is_valid_phone str_eq code_key cooldown_key daily_key
sends = refl

sends_tried :
    (send_code Plain cfg answered why phone code day 3600 tried).0.result ≡ SendResult.sent
unfolding send_code send_script send_reply on_send_array finish_send on_delivered c_str
    is_valid_phone str_eq code_key cooldown_key daily_key
sends_tried = refl

verifies : (verify_code Plain cfg answered phone code (sent_at empty)).0 ≡ VerifyResult.verified
unfolding send_code send_script send_reply on_send_array finish_send on_delivered c_str
    is_valid_phone str_eq code_key cooldown_key daily_key try_key verify_code verify_script
    verify_stored verify_reply
verifies = refl

tries_left : Plain.get tried (try_key phone) ≡ some (count 5)
unfolding str_eq try_key
tries_left = refl

no_count : Plain.keys tried (daily_key phone day) ≡ none
unfolding str_eq daily_key
no_count = refl

-- The right new code is refused, for the attempts on the old one.
new_code_refused :
    (verify_code Plain cfg answered phone code (sent_at tried)).0 ≡ VerifyResult.too_many_attempts
unfolding send_code send_script send_reply on_send_array finish_send on_delivered c_str
    is_valid_phone str_eq code_key cooldown_key daily_key try_key verify_code verify_script
    verify_stored verify_reply
new_code_refused = refl

verify-send_example :
    (verify_code Plain cfg answered phone code (sent_at empty)).0 ≡ VerifyResult.verified
verify-send_example =
    verify-send Plain-IsRedis cfg (omega arith) (omega arith) why phone code day 3600 empty is_valid
      refl tt sends

send_spacing_example :
    send_code Plain cfg answered why phone (lit "990011") day 3590 (Plain.elapse 10 (sent_at empty))
    ≡ (
      record { result = SendResult.too_frequent; detail = lit "retry in 50s" },
      Plain.elapse 10 (sent_at empty),
    )
unfolding to_string
send_spacing_example =
    send_spacing Plain-IsRedis cfg (omega arith) (omega arith) why phone code (lit "990011") day day
      3600 3590 empty 10 is_valid refl refl tt sends (omega arith)

verified_once_example :
    (verify_code Plain cfg answered phone code
      (verify_code Plain cfg answered phone code (sent_at empty)).1).0
    ≡ VerifyResult.empty_code
verified_once_example = verified_once Plain-IsRedis cfg phone code code (sent_at empty) verifies

gen_numeric_code-IsUniform_example :
    (gen_numeric_code (some 4294967295 ∷ some 3000000042 ∷ []) ≡ some (six_digits 42))
    ↔ ((j : ℕ) × ((j < 4294) × (3000000042 ≡ 42 + 1000000 * j)))
gen_numeric_code-IsUniform_example =
    gen_numeric_code-IsUniform (4294967295 ∷ []) [] 3000000042 42 (omega arith, tt) (omega arith)
      (omega arith)
