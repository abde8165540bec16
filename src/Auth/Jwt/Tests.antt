-- ===== src/Auth/Jwt/Tests.antt =====
-- Tokens of a small jsoncpp, which keeps its objects, and of an HMAC that names its key.
use seckill_cpp.Base.{
  ◌+◌, ◌≡◌, refl, arith, Option, none, some, Bytes, lit, if◌then◌else◌, leb, str_eq, List, [],
}
use seckill_cpp.Json.{Field, str, num, Json, IsJson, field, has_field}
use seckill_cpp.Base.Int.{ℤ, pos}
use seckill_cpp.Base.Decimal.{to_string}
use seckill_cpp.Auth.Jwt.{Jwt, invalid, valid, header_fields, payload_fields, sign, verify}
use seckill_cpp.Auth.Jwt.Tokens.{IsHmac, ReadsBack, claims_for, verify-sign}
use seckill_cpp.Auth.Jwt.Accepted.{IsSigned, verify-IsSigned}

abbrev pub jwt : Jwt
jwt = record { secret = lit "k"; issuer = lit "seckill"; ttl_seconds = 60 }

pub string_of : Option Field → Option Bytes
string_of (some (str s)) = some s
string_of (some (num z)) = some (to_string z)
string_of none = some []

pub int64_of : Option Field → Option ℤ
int64_of (some (num z)) = some z
int64_of (some (str s)) = none
int64_of none = some (pos 0)

-- The two objects of the token have the texts "h" and "p".
abbrev pub small : Json
small = record {
  Value = List (Bytes × Field);
  object = λ fs. fs;
  write = λ fs. if has_field (lit "alg") fs then lit "h" else lit "p";
  parse = λ s.
      if str_eq s (lit "h")
      then some header_fields
      else some (payload_fields jwt (pos 42) (lit "j") 1000);
  is_member = λ k fs. some (has_field k fs);
  get_string = λ k fs. string_of (field k fs);
  get_int64 = λ k fs. int64_of (field k fs);
}

abbrev pub mac : Bytes → Bytes → Bytes
mac k d = lit "m"

pub small-IsJson : IsJson small
unfolding string_of int64_of
small-IsJson = record {
  member_law = λ k fs. refl;
  string_law = λ k s fs e. rw e;
  int64_law = λ k z fs e h. rw e;
}

pub mac-IsHmac : IsHmac mac
mac-IsHmac = record { hmac_bytes = λ k d. omega arith; hmac_not_empty = λ k d. refl }

pub header-ReadsBack : ReadsBack small header_fields
unfolding str_eq
header-ReadsBack = record { parsed = refl; written = omega arith; not_empty = refl }

pub payload-ReadsBack : ReadsBack small (payload_fields jwt (pos 42) (lit "j") 1000)
unfolding str_eq
payload-ReadsBack = record { parsed = refl; written = omega arith; not_empty = refl }

verify-sign_example :
    verify small mac jwt (sign small mac jwt (pos 42) (lit "j") 1000) 1059
    ≡ (if leb (1000 + 60) 1059 then invalid else valid (claims_for jwt (pos 42) (lit "j") 1000))
verify-sign_example =
    verify-sign small-IsJson mac-IsHmac jwt (pos 42) (lit "j") 1000 (omega arith) (omega arith) 1059
      header-ReadsBack payload-ReadsBack

pub accepted :
    verify small mac jwt (sign small mac jwt (pos 42) (lit "j") 1000) 1059
    ≡ valid (claims_for jwt (pos 42) (lit "j") 1000)
accepted =
    verify-sign small-IsJson mac-IsHmac jwt (pos 42) (lit "j") 1000 (omega arith) (omega arith) 1059
      header-ReadsBack payload-ReadsBack

verify-IsSigned_example :
    IsSigned small mac jwt
      (sign small mac jwt (pos 42) (lit "j") 1000)
      1059
      (claims_for jwt (pos 42) (lit "j") 1000)
verify-IsSigned_example =
    verify-IsSigned small mac jwt (sign small mac jwt (pos 42) (lit "j") 1000) 1059
      (claims_for jwt (pos 42) (lit "j") 1000) accepted
