-- ===== src/Http.antt =====
-- src/util/HttpJson.h and what the controllers share: responses, and a handler that may throw.
-- Drogon, which reads the body and answers a thrown exception, is not modelled.
pub mod Seckill
pub mod Product
pub mod Account
pub mod Phone
mod Tests
use seckill_cpp.Base.{ℕ, Bytes, Option, none, some, lit}

-- A response: its status, and the members `code`, `msg` and `data` of its body.
pub record HttpResponse {ℓ} (D : Type ℓ) : Type ℓ where
  pub status : ℕ
  pub code : ℕ
  pub msg : Option Bytes
  pub payload : Option D

-- How a handler ends, with the state that it leaves.
pub data Handled {ℓ κ} (D : Type ℓ) (S : Type κ) : Type (ℓ ⊔ κ) where
  answered : HttpResponse D → S → Handled D S
  threw : S → Handled D S

module _ {ℓ} {D : Type ℓ} where
  -- `reply`, and `jsonResp` and `resp` of the controllers
  unfoldable pub reply : ℕ → Bytes → ℕ → HttpResponse D
  reply code msg status = record { status = status; code = code; msg = some msg; payload = none }

  unfoldable pub reply_data : ℕ → D → HttpResponse D
  reply_data code d = record { status = 200; code = code; msg = none; payload = some d }

  -- `okWithData`
  unfoldable pub ok_with_data : D → HttpResponse D
  ok_with_data d = record { status = 200; code = 0; msg = some (lit "success"); payload = some d }

  -- A reading of the body, and what follows it.
  unfoldable pub read_or_throw {κ ι} :
      {S : Type κ} {A : Type ι} → S → Option A → (A → Handled D S) → Handled D S
  read_or_throw s none next = threw s
  read_or_throw s (some a) next = next a
