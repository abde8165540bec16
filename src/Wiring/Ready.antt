-- ===== src/Wiring/Ready.antt =====
-- src/main.cc: the names of the modes, and which routes a server without Redis serves.
use seckill_cpp.Base.{
  ℕ, Bool, true, false, not, ◌&&◌, Option, none, some, Bytes, lit, is_empty, str_eq, if◌then◌else◌,
  ◌==◌, [], ◌∷◌, ◌≡◌, refl, arith, inl, inr, Bool-cases,
}
use seckill_cpp.Json.{Json, lacks}
use seckill_cpp.Gate.{Mode, mutex, spin, atomic}
use seckill_cpp.Redis.{Redis, Link}
use seckill_cpp.Cache.SkuCache.{InvalidateOnOrder, nothing, item, item_and_list}
use seckill_cpp.Auth.Account.{World, State, Settings, AccountAnswer, register_user, login, logout}
use seckill_cpp.Auth.Sms.{Config, SendResult, send_code}
use seckill_cpp.Http.{Handled, answered, threw, reply, ok_with_data, read_or_throw}
use seckill_cpp.Http.Account.{
  extract_bearer_token, status_for_failure, register_reply, login_reply, logout_reply,
  logout_answered, code_of, register_request, login_request, logout_request,
}
use seckill_cpp.Http.Phone.{send_result_reply, code_request}
use seckill_cpp.Wiring.{
  Tree, build_bundle, build_cache_cfg, parse_lock_mode, lock_mode_name, parse_invalidate_on_order,
  invalidate_name,
}
use seckill_cpp.Wiring.Routes.{
  unavailable, if_ready, register_route, login_route, logout_route, sms_route,
}

pub parse-lock_mode_name : (m : Mode) → parse_lock_mode (lock_mode_name m) ≡ m
unfolding parse_lock_mode lock_mode_name str_eq
parse-lock_mode_name mutex = refl
parse-lock_mode_name spin = refl
parse-lock_mode_name atomic = refl
parse-lock_mode_name Mode.none = refl

pub parse-invalidate_name :
    (m : InvalidateOnOrder) → parse_invalidate_on_order (invalidate_name m) ≡ m
unfolding parse_invalidate_on_order invalidate_name str_eq
parse-invalidate_name nothing = refl
parse-invalidate_name item = refl
parse-invalidate_name item_and_list = refl

-- The answer has the status 503.
abbrev pub is_503 {ℓ κ} : {D : Type ℓ} {S : Type κ} → Handled D S → Bool
is_503 (answered r s) = r.status == 503
is_503 (threw s) = false

read_not_503 :
    {D S A : Type 0} (s : S) (o : Option A) (next : A → Handled D S)
    → ((a : A) → is_503 (next a) ≡ false)
    → is_503 (read_or_throw s o next) ≡ false
unfolding read_or_throw
read_not_503 s none next h = refl
read_not_503 s (some a) next h = h a

unless_not_503 :
    {D S : Type 0} (b : Bool) (bad h : Handled D S)
    → is_503 bad ≡ false
    → is_503 h ≡ false
    → is_503 (if b then bad else h) ≡ false
unless_not_503 true bad h p q = p
unless_not_503 false bad h p q = q

failure_not_503 : (msg : Bytes) → (status_for_failure msg == 503) ≡ false
unfolding status_for_failure
failure_not_503 msg = ground arith

register_not_503 : (J : Json) (a : AccountAnswer) → ((register_reply J a).status == 503) ≡ false
unfolding register_reply ok_with_data reply
register_not_503 J a = ground (arith, failure_not_503 a.msg)

login_not_503 : (J : Json) (a : AccountAnswer) → ((login_reply J a).status == 503) ≡ false
unfolding login_reply ok_with_data reply
login_not_503 J a = ground (arith, failure_not_503 a.msg)

logout_not_503 : (J : Json) (a : AccountAnswer) → ((logout_reply J a).status == 503) ≡ false
unfolding logout_reply ok_with_data reply
logout_not_503 J a = ground arith

code_not_503 :
    (D : Type 0) (r : SendResult) (detail : Bytes)
    → ((send_result_reply {D = D} r detail).status == 503) ≡ false
unfolding send_result_reply reply
code_not_503 D SendResult.sent detail = refl
code_not_503 D SendResult.invalid_phone detail = refl
code_not_503 D SendResult.too_frequent detail = refl
code_not_503 D SendResult.daily_limit detail = refl
code_not_503 D SendResult.redis_error detail = refl

logout_answered_not_503 :
    (J : Json) {W : World} {R : Redis} (cfg : Settings) (a : Option AccountAnswer × State W R)
    → is_503 (logout_answered J cfg a) ≡ false
unfolding logout_answered
logout_answered_not_503 J cfg (none, st) = refl
logout_answered_not_503 J cfg (some a, st) = logout_not_503 J a

module _ (J : Json) {W : World} {R : Redis} (cfg : Settings) where
  register_served :
      (ls : Link × (Link × Link)) (ip salt : Bytes) (body : Option J.Value) (st : State W R)
      → is_503 (register_request J cfg ls ip salt body st) ≡ false
  unfolding register_request reply
  register_served ls ip salt none st = refl
  register_served ls ip salt (some json) st =
      read_not_503 st (lacks J (lit "phone" ∷ lit "password" ∷ []) json) _ λ missing.
        unless_not_503 missing _ _ refl (
          read_not_503 st (J.get_string (lit "phone") json) _ λ phone.
            read_not_503 st (J.get_string (lit "password") json) _ λ password.
              read_not_503 st (code_of J json) _
                λ code. register_not_503 J (register_user cfg ls phone password code ip salt st).0)

  login_served :
      (ls : Link × (Link × Link)) (jti : Bytes) (now : ℕ) (body : Option J.Value) (st : State W R)
      → is_503 (login_request J cfg ls jti now body st) ≡ false
  unfolding login_request reply
  login_served ls jti now none st = refl
  login_served ls jti now (some json) st =
      read_not_503 st (lacks J (lit "phone" ∷ lit "password" ∷ []) json) _ λ missing.
        unless_not_503 missing _ _ refl (
          read_not_503 st (J.get_string (lit "phone") json) _ λ phone.
            read_not_503 st (J.get_string (lit "password") json) _
              λ password. login_not_503 J (login cfg ls phone password jti now st).0)

  logout_served :
      (link : Link) (header : Bytes) (now : ℕ) (st : State W R)
      → is_503 (logout_request J cfg link header now st) ≡ false
  unfolding logout_request reply
  logout_served link header now st = elim (Bool-cases (is_empty (extract_bearer_token header))) [
    | inl gone ↦ rw gone
    | inr token ↦
        rw token
          (logout_answered_not_503 J cfg (logout cfg link (extract_bearer_token header) now st))
  ]

code_served :
    (J : Json) (R : Redis) (cfg : Config) (link : Link) (why code day : Bytes) (ttl : ℕ)
    → (body : Option J.Value) (s : R.Store)
    → is_503 (code_request J R cfg link why code day ttl body s) ≡ false
unfolding code_request reply
code_served J R cfg link why code day ttl none s = refl
code_served J R cfg link why code day ttl (some json) s =
    read_not_503 s (lacks J (lit "phone" ∷ []) json) _ λ missing. unless_not_503 missing _ _ refl (
      read_not_503 s (J.get_string (lit "phone") json) _
        λ phone. code_not_503 J.Value _ (send_code R cfg link why phone code day ttl s).0.detail)

and_false : (b : Bool) → (b && false) ≡ false
and_false true = refl
and_false false = refl

-- Whatever the configuration: each of the four routes for accounts and codes answers with 503
-- exactly if there is no client for Redis, and the cache is switched off then.
pub served_iff_redis :
    (J : Json) {W : World} {R : Redis} (C : Tree) (cc : C.Value) (has_redis : Bool)
    → (ls : Link × (Link × Link)) (link : Link) (ip salt jti header why code day : Bytes)
    → (now ttl : ℕ) (body : Option J.Value) (st : State W R)
    → let b = build_bundle C cc has_redis in
      (is_503 (register_route J b ls ip salt body st) ≡ not has_redis)
      × ((is_503 (login_route J b ls jti now body st) ≡ not has_redis)
          × ((is_503 (logout_route J b link header now st) ≡ not has_redis)
              × ((is_503 (sms_route J R b link why code day ttl body st.store) ≡ not has_redis)
                  × ((b.cache_cfg.enabled && not has_redis) ≡ false))))
unfolding build_bundle build_cache_cfg if_ready unavailable reply register_route login_route
    logout_route sms_route
served_iff_redis J C cc false ls link ip salt jti header why code day now ttl body st =
    (refl, (refl, (refl, (refl, refl))))
served_iff_redis J C cc true ls link ip salt jti header why code day now ttl body st = (
  register_served J _ ls ip salt body st,
  (
    login_served J _ ls jti now body st,
    (
      logout_served J _ link header now st,
      (code_served J _ _ link why code day ttl body st.store, and_false _),
    ),
  ),
)
