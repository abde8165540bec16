-- ===== src/Wiring/Tests.antt =====
-- A server with an empty configuration, and with one that names a mode.
use seckill_cpp.Products.Tests.{Whole}
use seckill_cpp.Base.{true, false, ◌&&◌, none, some, lit, str_eq, if◌then◌else◌, ◌≡◌, refl, ◌++◌}
use seckill_cpp.Gate.{Mode, spin}
use seckill_cpp.Redis.{answered}
use seckill_cpp.Redis.Model.{Plain}
use seckill_cpp.Auth.Account.Tests.{known, token}
use seckill_cpp.Auth.Jwt.Tests.{small}
use seckill_cpp.Wiring.{Tree, build_bundle, build_lock, cfg_str, cfg_int, parse_lock_mode}
use seckill_cpp.Wiring.Routes.{register_route, login_route, logout_route, sms_route}
use seckill_cpp.Wiring.Ready.{is_503, served_iff_redis}

abbrev spinning : Tree
spinning = record {
  Value = Unit {0};
  child = λ k v. tt;
  string_at = λ k v. if str_eq k (lit "mode") then some (lit "spin") else none;
  number_at = λ k v. none;
  bool_at = λ k v. none;
  doubles = Whole;
  double_at = λ k v. none;
}

mode_test : (build_lock spinning tt).mode ≡ spin
unfolding build_lock cfg_str cfg_int parse_lock_mode str_eq seckill_cpp.Gate.init
mode_test = refl

served_iff_redis_example :
    let b = build_bundle spinning tt false in
    (is_503 (
        register_route small b
          (answered, (answered, answered))
          (lit "10.0.0.1")
          (lit "ab")
          none
          known)
      ≡ true)
    × ((is_503 (login_route small b (answered, (answered, answered)) (lit "j") 1 none known) ≡ true)
        × ((is_503 (logout_route small b answered (lit "Bearer " ++ token) 1 known) ≡ true)
            × ((is_503 (
                    sms_route small Plain b answered
                      (lit "")
                      (lit "123456")
                      (lit "0")
                      60
                      none
                      known.store)
                  ≡ true)
                × ((b.cache_cfg.enabled && true) ≡ false))))
served_iff_redis_example =
    served_iff_redis small spinning tt false (answered, (answered, answered)) answered
      (lit "10.0.0.1") (lit "ab") (lit "j") (lit "Bearer " ++ token) (lit "") (lit "123456")
      (lit "0") 1 60 none known
