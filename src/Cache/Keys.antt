-- ===== src/Cache/Keys.antt =====
-- src/service/CacheKeys.h: the only place where the keys of the product cache are built.
use seckill_cpp.Base.{ℕ, arith, Bytes, lit, ◌++◌, ◌≡◌, ◌≢◌, ap, append_left_cancel, ◌∷◌}
use seckill_cpp.Base.Int.{ℤ}
use seckill_cpp.Base.Decimal.{to_string, to_string_injective}

pub record CacheKeys : Type 0 where
  pub prefix : Bytes
  pub version : Bytes

unfoldable pub base : CacheKeys → Bytes
base k = k.prefix ++ (lit ":sku:" ++ k.version)

unfoldable pub list_key : CacheKeys → Bytes
list_key k = base k ++ lit ":list"

unfoldable pub item_key : CacheKeys → ℤ → Bytes
item_key k sku = base k ++ (lit ":item:" ++ to_string sku)

unfoldable pub stock_key : CacheKeys → ℤ → Bytes
stock_key k sku = base k ++ (lit ":stock:" ++ to_string sku)

-- What an operator scans Redis for; `*` stands for any text.
unfoldable pub item_pattern : CacheKeys → Bytes
item_pattern k = base k ++ lit ":item:*"

unfoldable pub all_pattern : CacheKeys → Bytes
all_pattern k = base k ++ lit ":*"

abbrev kind : Bytes → ℕ
kind (a ∷ b ∷ s) = b
kind _ = 0

-- The keys of a prefix and a version: two products never share an item key or a stock key, and
-- the list key, an item key and a stock key are never the same.
pub keys_differ :
    (k : CacheKeys) (a b : ℤ)
    → (item_key k a ≡ item_key k b → a ≡ b)
      × ((stock_key k a ≡ stock_key k b → a ≡ b)
          × ((item_key k a ≢ list_key k)
              × ((item_key k a ≢ stock_key k b) × (stock_key k a ≢ list_key k))))
unfolding item_key stock_key list_key
keys_differ k a b = (
  λ h. to_string_injective a b (append_left_cancel (lit ":item:") (append_left_cancel (base k) h)),
  (
    λ h.
        to_string_injective a b
          (append_left_cancel (lit ":stock:") (append_left_cancel (base k) h)),
    (
      λ h. omega (arith, ap kind (append_left_cancel (base k) h)),
      (
        λ h. omega (arith, ap kind (append_left_cancel (base k) h)),
        λ h. omega (arith, ap kind (append_left_cancel (base k) h)),
      ),
    ),
  ),
)
