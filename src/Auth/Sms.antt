-- ===== src/Auth/Sms.antt =====
-- src/service/SmsService.h, SmsService.cc and SmsSender.cc: one-time codes for a phone, their
-- limits, and their verification. The two Lua scripts run whole in the server. The random words
-- and the local day are arguments.
pub mod Code
pub mod Verify
pub mod Send
mod Tests
use seckill_cpp.Base.{
  ℕ, zero, suc, ◌+◌, ◌%◌, ◌/◌, Bool, true, false, not, ◌&&◌, ◌||◌, Option, none, some, Bytes, lit,
  str_eq, is_empty, ◌++◌, if◌then◌else◌, ◌==◌, leb, ltb, length, List, [], ◌∷◌,
}
use seckill_cpp.Base.Int.{ℤ, pos, negsuc, int_eq}
use seckill_cpp.Base.Decimal.{to_string}
use seckill_cpp.Redis.{Redis, Link, exec, Value, text, count, count_in}

-- The settings, which are not negative.
pub record Config : Type 0 where
  pub code_ttl_seconds : ℕ
  pub resend_interval_seconds : ℕ
  pub daily_limit : ℕ
  pub max_verify_attempts : ℕ

pub data SendResult : Type 0 where
  sent invalid_phone too_frequent daily_limit redis_error : SendResult

pub data VerifyResult : Type 0 where
  verified invalid_phone empty_code wrong_code too_many_attempts redis_error : VerifyResult

is_digit : ℕ → Bool
is_digit c = not (ltb c b'0' || ltb b'9' c)

all_digits : Bytes → Bool
unfolding is_digit
all_digits [] = true
all_digits (c ∷ s) = let rest = all_digits s in is_digit c && rest

starts_with_one : Bytes → Bool
starts_with_one [] = false
starts_with_one (c ∷ s) = c == b'1'

unfoldable pub is_valid_phone : Bytes → Bool
unfolding all_digits starts_with_one
is_valid_phone phone =
    if not (length phone == 11) || not (starts_with_one phone) then false else all_digits phone

unfoldable pub code_key : Bytes → Bytes
code_key phone = lit "sms:code:" ++ phone

unfoldable pub cooldown_key : Bytes → Bytes
cooldown_key phone = lit "sms:cd:" ++ phone

unfoldable pub try_key : Bytes → Bytes
try_key phone = lit "sms:try:" ++ phone

unfoldable pub daily_key : Bytes → Bytes → Bytes
daily_key phone day = lit "sms:day:" ++ (phone ++ (lit ":" ++ day))

-- tonumber(redis.call('GET', k) or '0')
abbrev pub number_or_zero : Option Value → ℕ
number_or_zero none = 0
number_or_zero (some v) = count_in v

-- stored == ARGV[1]
abbrev pub is_text : Value → Bytes → Bool
is_text (text t) s = str_eq t s
is_text (count n) s = false

-- What the callback of `sendCode` is given.
pub record SendAnswer : Type 0 where
  pub result : SendResult
  pub detail : Bytes

-- The branches on the send script's array, which send the code or not. `why` is the text of the
-- exception, if there was one.
pub data SendReply : Type 0 where
  final : SendAnswer → SendReply
  deliver : ℤ → SendReply

unfoldable pub on_send_array : List ℤ → SendReply
on_send_array (code0 ∷ num ∷ rest) =
    if int_eq code0 (negsuc 0)
    then final (record {
      result = SendResult.too_frequent;
      detail = lit "retry in " ++ (to_string num ++ lit "s");
    })
    else (if int_eq code0 (negsuc 1)
        then final (record {
          result = SendResult.daily_limit;
          detail = lit "daily limit reached, used=" ++ to_string num;
        })
        else deliver num)
on_send_array _ =
    final (record { result = SendResult.redis_error; detail = lit "unexpected lua result" })

unfoldable pub send_reply : Bytes → Option (List ℤ) → SendReply
send_reply why (some reply) = on_send_array reply
send_reply why none = final (record { result = SendResult.redis_error; detail = why })

unfoldable pub verify_reply : Option (List ℤ) → VerifyResult
verify_reply (some (code0 ∷ num ∷ rest)) =
    if int_eq code0 (pos 0)
    then VerifyResult.verified
    else (if int_eq code0 (negsuc 0)
        then VerifyResult.empty_code
        else (if int_eq code0 (negsuc 1)
            then VerifyResult.wrong_code
            else VerifyResult.too_many_attempts))
verify_reply _ = VerifyResult.redis_error

-- What `SmsSender::sendCode` gives its callback, after it has written the code to the log.
abbrev pub self_issued : Bool × Bytes
self_issued = (true, lit "SELF_ISSUED")

-- The callback that `sendCode` gives the sender.
unfoldable pub on_delivered : ℤ → Bool × Bytes → SendAnswer
on_delivered num (false, detail) = record {
  result = SendResult.redis_error;
  detail = lit "send failed: " ++ detail;
}
on_delivered num (true, detail) = record {
  result = SendResult.sent;
  detail = detail ++ (lit " (today #" ++ (to_string num ++ lit ")"));
}

unfoldable pub finish_send : SendReply → SendAnswer
finish_send (final a) = a
finish_send (deliver num) = on_delivered num self_issued

-- `c_str()`, as the client of Redis reads it: up to the first zero byte.
unfoldable pub c_str : Bytes → Bytes
c_str [] = []
c_str (b ∷ s) = let rest = c_str s in if b == 0 then [] else b ∷ rest

module _ (R : Redis) where
  -- kSendScript
  unfoldable pub send_script :
      Bytes → Bytes → Bytes → Bytes → Config → ℕ → R.Store → List ℤ × R.Store
  send_script ck cdk dk code cfg daily_ttl s =
      if R.exists s cdk
      then (negsuc 0 ∷ R.ttl s cdk ∷ [], s)
      else (let used : ℕ = number_or_zero (R.get s dk) in
          if leb cfg.daily_limit used
          then (negsuc 1 ∷ pos used ∷ [], s)
          else (let s1 = R.setex s ck cfg.code_ttl_seconds code in
              let s2 = R.setex s1 cdk cfg.resend_interval_seconds (lit "1") in
              let (n, s3) = R.incr s2 dk in
              (pos 0 ∷ pos n ∷ [], if n == 1 then R.expire s3 dk (pos daily_ttl) else s3)))

  unfoldable pub verify_stored :
      Bytes → Bytes → Bytes → ℕ → Option Value → R.Store → List ℤ × R.Store
  verify_stored ck tk input max_attempts none s = (negsuc 0 ∷ pos 0 ∷ [], s)
  verify_stored ck tk input max_attempts (some stored) s =
      let tries : ℕ = number_or_zero (R.get s tk) in
      if leb max_attempts tries
      then (negsuc 2 ∷ pos 0 ∷ [], R.del s ck)
      else (if is_text stored input
          then (pos 0 ∷ pos 0 ∷ [], R.del (R.del s ck) tk)
          else (let (t, s1) = R.incr s tk in (negsuc 1 ∷ pos t ∷ [], R.expire s1 tk (R.ttl s1 ck))))

  -- kVerifyScript
  unfoldable pub verify_script : Bytes → Bytes → Bytes → ℕ → R.Store → List ℤ × R.Store
  unfolding verify_stored
  verify_script ck tk input max_attempts s = verify_stored ck tk input max_attempts (R.get s ck) s

  -- `sendCode`, for the text of an exception, the code that the generator gave (empty if it failed),
  -- the local day, and the seconds to its end.
  unfoldable pub send_code :
      Config → Link → Bytes → Bytes → Bytes → Bytes → ℕ → R.Store → SendAnswer × R.Store
  unfolding finish_send
  send_code cfg link why phone code day daily_ttl s =
      if not (is_valid_phone phone)
      then (record { result = SendResult.invalid_phone; detail = lit "invalid phone" }, s)
      else (if is_empty code
          then (record { result = SendResult.redis_error; detail = lit "csprng unavailable" }, s)
          else (let (r, s') =
                exec link
                  (send_script (code_key phone) (cooldown_key phone) (daily_key phone day)
                    (c_str code) cfg daily_ttl)
                  s in
              (finish_send (send_reply why r), s')))

  -- `verifyCode`
  unfoldable pub verify_code : Config → Link → Bytes → Bytes → R.Store → VerifyResult × R.Store
  verify_code cfg link phone input s =
      if not (is_valid_phone phone)
      then (VerifyResult.invalid_phone, s)
      else (let (r, s') =
            exec link
              (verify_script (code_key phone) (try_key phone) (c_str input) cfg.max_verify_attempts)
              s in
          (verify_reply r, s'))
