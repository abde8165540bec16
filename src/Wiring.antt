-- ===== src/Wiring.antt =====
-- src/main.cc: the reading of the configuration and the construction of the services. The reading
-- of config.json by Drogon is an interface; a client for MySQL is there, since the program ends
-- without one.
pub mod Routes
pub mod Ready
mod Tests
use seckill_cpp.Base.{
  ℕ, Bool, true, false, not, Option, none, some, Bytes, lit, str_eq, from_option, if◌then◌else◌,
  ltb,
}
use seckill_cpp.Base.Double.{Doubles}
use seckill_cpp.Gate.{Mode, mutex, spin, atomic, Guard, init}
use seckill_cpp.Cache.Keys.{CacheKeys}
use seckill_cpp.Cache.SkuCache.{InvalidateOnOrder, nothing, item, item_and_list, CacheConfig}
use seckill_cpp.Auth.Jwt.{Jwt}
use seckill_cpp.Auth.Account.{Settings}

-- `getCustomConfig` as jsoncpp reads it: what stands under a name, if it has the kind that is asked
-- for. Numbers are not negative.
pub record Tree : Type 1 where
  pub Value : Type 0
  pub child : Bytes → Value → Value
  pub string_at : Bytes → Value → Option Bytes
  pub number_at : Bytes → Value → Option ℕ
  pub bool_at : Bytes → Value → Option Bool
  pub doubles : Doubles
  pub double_at : Bytes → Value → Option doubles.Double

unfoldable pub parse_lock_mode : Bytes → Mode
parse_lock_mode s =
    if str_eq s (lit "mutex")
    then mutex
    else (if str_eq s (lit "spin")
        then spin
        else (if str_eq s (lit "atomic") then atomic else Mode.none))

unfoldable pub lock_mode_name : Mode → Bytes
lock_mode_name mutex = lit "mutex"
lock_mode_name spin = lit "spin"
lock_mode_name atomic = lit "atomic"
lock_mode_name Mode.none = lit "none"

unfoldable pub parse_invalidate_on_order : Bytes → InvalidateOnOrder
parse_invalidate_on_order s =
    if str_eq s (lit "none")
    then nothing
    else (if str_eq s (lit "all") then item_and_list else item)

unfoldable pub invalidate_name : InvalidateOnOrder → Bytes
invalidate_name nothing = lit "none"
invalidate_name item_and_list = lit "all"
invalidate_name item = lit "item"

-- What the account and the code routes need.
pub record Accounts : Type 0 where
  pub jwt : Jwt
  pub settings : Settings
  pub require_sms_on_login : Bool

-- `AppBundle`: `accounts` is `none` if `authReady` is false.
pub record AppBundle (F : Doubles) : Type 0 where
  pub lock : Guard
  pub cache_cfg : CacheConfig
  pub cache_keys : CacheKeys
  pub local_enabled : Bool
  pub local_capacity : ℕ
  pub bloom_enabled : Bool
  pub bloom_capacity : ℕ
  pub bloom_error_rate : F.Double
  pub accounts : Option Accounts

module _ (C : Tree) where
  unfoldable pub cfg_str : C.Value → Bytes → Bytes → Bytes
  cfg_str root key def = from_option def (C.string_at key root)

  unfoldable pub cfg_int : C.Value → Bytes → ℕ → ℕ
  cfg_int root key def = from_option def (C.number_at key root)

  unfoldable pub cfg_bool : C.Value → Bytes → Bool → Bool
  cfg_bool root key def = from_option def (C.bool_at key root)

  -- The in-flight gate.
  unfoldable pub build_lock : C.Value → Guard
  build_lock lk =
      init (parse_lock_mode (cfg_str lk (lit "mode") (lit "none"))) (cfg_int lk (lit "shards") 64)
        (cfg_int lk (lit "bits") 65536)

  -- The cache is switched off without a client for Redis.
  unfoldable pub build_cache_cfg : C.Value → Bool → CacheConfig
  build_cache_cfg c has_redis = record {
    enabled = if not has_redis then false else cfg_bool c (lit "enabled") true;
    list_ttl_seconds = cfg_int c (lit "list_ttl_seconds") 30;
    detail_ttl_seconds = cfg_int c (lit "detail_ttl_seconds") 60;
    null_ttl_seconds = cfg_int c (lit "null_ttl_seconds") 60;
    jitter_seconds = cfg_int c (lit "jitter_seconds") 30;
    double_delete_ms = cfg_int c (lit "double_delete_ms") 0;
    invalidate_on_order =
        parse_invalidate_on_order (cfg_str c (lit "invalidate_on_order") (lit "item"));
  }

  unfoldable pub build_keys : C.Value → CacheKeys
  build_keys c = record {
    prefix = cfg_str c (lit "key_prefix") (lit "seckill");
    version = cfg_str c (lit "key_version") (lit "v1");
  }

  unfoldable pub build_jwt : C.Value → Jwt
  build_jwt j = record {
    secret = cfg_str j (lit "secret") (lit "seckill-cpp-dev-secret");
    issuer = cfg_str j (lit "issuer") (lit "seckill-cpp");
    ttl_seconds = cfg_int j (lit "ttl_seconds") 7200;
  }

  unfoldable pub build_sms : C.Value → seckill_cpp.Auth.Sms.Config
  build_sms s = record {
    code_ttl_seconds = cfg_int s (lit "code_ttl_seconds") 300;
    resend_interval_seconds = cfg_int s (lit "resend_interval_seconds") 60;
    daily_limit = cfg_int s (lit "daily_limit") 10;
    max_verify_attempts = cfg_int s (lit "max_verify_attempts") 5;
  }

  -- The services behind the client for Redis; a session lives as long as a token.
  unfoldable pub build_accounts : C.Value → Accounts
  build_accounts cc =
      let jwt = build_jwt (C.child (lit "jwt") cc) in
      let guard = C.child (lit "login_guard") cc in
      let limit = C.child (lit "register_limit") cc in
      let auth = C.child (lit "auth") cc in
      record {
        jwt = jwt;
        settings = record {
          require_sms_on_register = cfg_bool auth (lit "require_sms_on_register") true;
          min_password_length = cfg_int auth (lit "min_password_length") 6;
          session_ttl = jwt.ttl_seconds;
          guard = record {
            max_fail = cfg_int guard (lit "max_fail") 5;
            lock_seconds = cfg_int guard (lit "lock_seconds") 600;
          };
          register_guard = record {
            max_per_ip = cfg_int limit (lit "max_per_ip") 5;
            window_seconds = cfg_int limit (lit "window_seconds") 3600;
          };
          sms = build_sms (C.child (lit "sms") cc);
        };
        require_sms_on_login = cfg_bool auth (lit "require_sms_on_login") false;
      }

  -- `buildBundle`
  unfoldable pub build_bundle : C.Value → Bool → AppBundle C.doubles
  build_bundle cc has_redis =
      let c = C.child (lit "cache") cc in
      record {
        lock = build_lock (C.child (lit "seckill_lock") cc);
        cache_cfg = build_cache_cfg c has_redis;
        cache_keys = build_keys c;
        local_enabled = cfg_bool c (lit "local_enabled") false;
        local_capacity = cfg_int c (lit "local_capacity") 4096;
        bloom_enabled = cfg_bool cc (lit "bloom_enabled") false;
        bloom_capacity = cfg_int cc (lit "bloom_capacity") 500000;
        bloom_error_rate =
            from_option (C.doubles.decimal 1 3) (C.double_at (lit "bloom_error_rate") cc);
        accounts = if has_redis then some (build_accounts cc) else none;
      }
