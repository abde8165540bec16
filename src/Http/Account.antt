-- ===== src/Http/Account.antt =====
-- src/controllers/UserController.cc: registration, login and logout.
pub mod Logout
pub mod Statuses
use seckill_cpp.Base.{
  ℕ, Bool, true, false, not, ◌&&◌, ◌||◌, Option, none, some, Bytes, lit, is_empty, starts_with,
  str_eq, if◌then◌else◌, ◌==◌, List, [], ◌∷◌, zero, suc, ◌>>=◌,
}
use seckill_cpp.Json.{Json, str, lacks}
use seckill_cpp.Redis.{Redis, Link}
use seckill_cpp.Auth.Account.{World, State, Settings, AccountAnswer, register_user, login, logout}
use seckill_cpp.Http.{HttpResponse, Handled, answered, threw, reply, ok_with_data, read_or_throw}

unfoldable pub drop_bytes : ℕ → Bytes → Bytes
drop_bytes zero s = s
drop_bytes (suc n) [] = []
drop_bytes (suc n) (c ∷ s) = drop_bytes n s

abbrev pub is_blank : ℕ → Bool
is_blank c = c == b' ' || c == 13

-- The loop that takes blanks off the end.
unfoldable pub trim_end : Bytes → Bytes
trim_end [] = []
trim_end (c ∷ s) = let rest = trim_end s in if is_empty rest && is_blank c then [] else c ∷ rest

-- `extractBearerToken`, on the value of the header; a value of seven bytes or less has no token.
unfoldable pub extract_bearer_token : Bytes → Bytes
extract_bearer_token auth =
    if is_empty (drop_bytes 7 auth)
    then []
    else (if starts_with (lit "Bearer ") auth then trim_end (drop_bytes 7 auth) else [])

unfoldable pub status_for_failure : Bytes → ℕ
status_for_failure msg =
    if str_eq msg (lit "REGISTER_IP_LIMITED")
    then 429
    else (if starts_with (lit "DB_ERROR:") msg
          || (starts_with (lit "REDIS_ERROR:") msg || str_eq msg (lit "HASH_FAILED"))
        then 500
        else 409)

abbrev pub account_bad {ℓ} : {D : Type ℓ} → HttpResponse D
account_bad = reply 400 (lit "missing phone/password") 400

-- `object []` is the empty `Json::Value`.
unfoldable pub register_reply : (J : Json) → AccountAnswer → HttpResponse J.Value
register_reply J a =
    if a.ok then ok_with_data (J.object []) else reply 1 a.msg (status_for_failure a.msg)

unfoldable pub login_reply : (J : Json) → AccountAnswer → HttpResponse J.Value
login_reply J a =
    if a.ok
    then ok_with_data
        (J.object ((lit "token", str a.token) ∷ (lit "tokenType", str (lit "Bearer")) ∷ []))
    else reply 1 a.msg (status_for_failure a.msg)

unfoldable pub logout_reply : (J : Json) → AccountAnswer → HttpResponse J.Value
logout_reply J a = if a.ok then ok_with_data (J.object []) else reply 401 a.msg 401

-- `json->isMember("code") ? (*json)["code"].asString() : std::string()`
unfoldable pub code_of : (J : Json) → J.Value → Option Bytes
code_of J json = do
  m ← J.is_member (lit "code") json
  if m then J.get_string (lit "code") json else some []

module _ (J : Json) {W : World} {R : Redis} (cfg : Settings) where
  register_answered : AccountAnswer × State W R → Handled J.Value (State W R)
  register_answered (a, st) = answered (register_reply J a) st

  login_answered : AccountAnswer × State W R → Handled J.Value (State W R)
  login_answered (a, st) = answered (login_reply J a) st

  unfoldable pub logout_answered : Option AccountAnswer × State W R → Handled J.Value (State W R)
  logout_answered (none, st) = threw st
  logout_answered (some a, st) = answered (logout_reply J a) st

  -- `registerUser`, for the address of the client and the salt that is drawn.
  unfoldable pub register_request :
      Link × (Link × Link)
      → Bytes
      → Bytes
      → Option J.Value
      → State W R
      → Handled J.Value (State W R)
  unfolding register_answered
  register_request ls ip salt none st = answered account_bad st
  register_request ls ip salt (some json) st =
      read_or_throw st (lacks J (lit "phone" ∷ lit "password" ∷ []) json) λ missing.
        if missing
        then answered account_bad st
        else (read_or_throw st (J.get_string (lit "phone") json) λ phone.
            read_or_throw st (J.get_string (lit "password") json) λ password.
              read_or_throw st (code_of J json)
                λ code. register_answered (register_user cfg ls phone password code ip salt st))

  -- `login`, for the session id that is drawn and the time.
  unfoldable pub login_request :
      Link × (Link × Link) → Bytes → ℕ → Option J.Value → State W R → Handled J.Value (State W R)
  unfolding login_answered
  login_request ls jti now none st = answered account_bad st
  login_request ls jti now (some json) st =
      read_or_throw st (lacks J (lit "phone" ∷ lit "password" ∷ []) json) λ missing.
        if missing
        then answered account_bad st
        else (read_or_throw st (J.get_string (lit "phone") json) λ phone.
            read_or_throw st (J.get_string (lit "password") json)
              λ password. login_answered (login cfg ls phone password jti now st))

  -- `logout`, for the value of the header `Authorization`.
  unfoldable pub logout_request : Link → Bytes → ℕ → State W R → Handled J.Value (State W R)
  unfolding logout_answered
  logout_request link header now st =
      let token = extract_bearer_token header in
      if is_empty token
      then answered (reply 401 (lit "missing bearer token") 401) st
      else logout_answered (logout cfg link token now st)
