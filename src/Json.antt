-- ===== src/Json.antt =====
-- jsoncpp, as the token code and the controllers use it, and how it reads an object. It is a parameter.
use seckill_cpp.Base.{
  Bool, true, false, ◌||◌, Option, none, some, Bytes, if◌then◌else◌, str_eq, List, [], ◌∷◌, ◌≡◌,
  ◌>>=◌,
}
use seckill_cpp.Base.Int.{ℤ, InInt64}

-- A value that is put under a name.
pub data Field : Type 0 where
  str : Bytes → Field
  num : ℤ → Field

-- `object` stands for the assignments `v[name] = value` to an empty value; `write` and
-- `parse` are `jsonToString` and `stringToJson`. A reading is `none` where jsoncpp throws.
pub record Json : Type 1 where
  pub Value : Type 0
  pub object : List (Bytes × Field) → Value
  pub write : Value → Bytes
  pub parse : Bytes → Option Value
  pub is_member : Bytes → Value → Option Bool
  pub get_string : Bytes → Value → Option Bytes
  pub get_int64 : Bytes → Value → Option ℤ

-- One of the names is missing: `!isMember(a) || !isMember(b) || ...` stops at the first.
unfoldable pub lacks : (J : Json) → List Bytes → J.Value → Option Bool
lacks J [] v = some false
lacks J (k ∷ ks) v =
    let rest = lacks J ks v in J.is_member k v >>= λ m. if m then rest else some true

-- The value under a name.
abbrev pub field : Bytes → List (Bytes × Field) → Option Field
unfolding str_eq
field k [] = none
field k ((j, x) ∷ fs) = if str_eq j k then some x else field k fs

abbrev pub has_field : Bytes → List (Bytes × Field) → Bool
unfolding str_eq
has_field k [] = false
has_field k ((j, x) ∷ fs) = str_eq j k || has_field k fs

-- How jsoncpp reads an object with texts and 64-bit integers.
pub record IsJson (J : Json) : Type 0 where
  pub member_law :
      (k : Bytes) (fs : List (Bytes × Field)) → J.is_member k (J.object fs) ≡ some (has_field k fs)
  pub string_law :
      (k s : Bytes) (fs : List (Bytes × Field))
      → field k fs ≡ some (str s)
      → J.get_string k (J.object fs) ≡ some s
  pub int64_law :
      (k : Bytes) (z : ℤ) (fs : List (Bytes × Field))
      → field k fs ≡ some (num z)
      → InInt64 z
      → J.get_int64 k (J.object fs) ≡ some z
