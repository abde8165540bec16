-- ===== src/Http/Phone.antt =====
-- src/controllers/SmsController.cc: the request for a code.
use seckill_cpp.Base.{ℕ, Option, none, some, Bytes, lit, ◌++◌, if◌then◌else◌, [], ◌∷◌}
use seckill_cpp.Json.{Json, lacks}
use seckill_cpp.Redis.{Redis, Link}
use seckill_cpp.Auth.Sms.{Config, SendResult, SendAnswer, send_code}
use seckill_cpp.Http.{HttpResponse, Handled, answered, reply, read_or_throw}

-- The `switch` on the result of `sendCode`.
unfoldable pub send_result_reply {ℓ} : {D : Type ℓ} → SendResult → Bytes → HttpResponse D
send_result_reply SendResult.sent detail = reply 0 (lit "success") 200
send_result_reply SendResult.invalid_phone detail = reply 400 (lit "invalid phone") 400
send_result_reply SendResult.too_frequent detail = reply 1 (lit "too frequent: " ++ detail) 429
send_result_reply SendResult.daily_limit detail =
    reply 1 (lit "daily limit reached: " ++ detail) 429
send_result_reply SendResult.redis_error detail = reply 1 (lit "send failed: " ++ detail) 500

module _ (J : Json) (R : Redis) (cfg : Config) where
  code_answered : SendAnswer × R.Store → Handled J.Value R.Store
  code_answered (a, s) = answered (send_result_reply a.result a.detail) s

  -- `sendCode`, for the text of an exception, the code that is drawn, the local day and the seconds to its end.
  unfoldable pub code_request :
      Link → Bytes → Bytes → Bytes → ℕ → Option J.Value → R.Store → Handled J.Value R.Store
  unfolding code_answered
  code_request link why code day daily_ttl none s = answered (reply 400 (lit "missing phone") 400) s
  code_request link why code day daily_ttl (some json) s =
      read_or_throw s (lacks J (lit "phone" ∷ []) json) λ missing.
        if missing
        then answered (reply 400 (lit "missing phone") 400) s
        else (read_or_throw s (J.get_string (lit "phone") json)
            λ phone. code_answered (send_code R cfg link why phone code day daily_ttl s))
