-- ===== src/Order.antt =====
-- `SeckillService::doSeckill` of src/service/SeckillService.cc. Its chain of callbacks is a chain
-- of functions; the token that each lambda holds a copy of is dropped after the last of them.
pub mod Transaction
pub mod Whole
pub mod Shop
pub mod Tests
use seckill_cpp.Base.{
  ℕ, Bool, true, false, Option, none, some, Bytes, lit, if◌then◌else◌, ◌==◌, ◌++◌,
}
use seckill_cpp.Base.Int.{ℤ}
use seckill_cpp.Database.{Server, Reply, rows, raised, Begin, timeout, begun}
use seckill_cpp.Gate.{Guard, is_none, make_key, try_acquire, release}

-- What the order path asks of the product cache: `SkuCache::invalidateOnOrder`.
pub record OrderCache : Type 1 where
  pub State : Type 0
  pub invalidate_on_order : State → ℤ → State

-- A call of the business callback: `(ok, msg)`.
pub record Answer : Type 0 where
  pub ok : Bool
  pub msg : Bytes

abbrev pub refuse : Bytes → Answer
refuse msg = record { ok = false; msg = msg }

abbrev pub accept : Bytes → Answer
accept msg = record { ok = true; msg = msg }

-- The pointers `inflight_` and `cache_` may be null.
pub record Service (S : Server) (C : OrderCache) : Type 0 where
  pub gate : Option Guard
  pub cache : Option C.State
  pub db : S.Db

-- What the gate made of a request: turned away, or let in with a token that holds a key or none.
pub data Admission : Type 0 where
  turned_away : Admission
  let_in : Option ℕ → Admission

admit_by : Option Guard → ℕ → Admission × Option Guard
admit_by none key = (let_in none, none)
admit_by (some g) key =
    let (got, g') = try_acquire g key in
    if is_none g.mode
    then (let_in none, some g)
    else (if got then let_in (some key) else turned_away, some g')

invalidate_if : (C : OrderCache) → Option C.State → ℤ → Option C.State
invalidate_if C none sku = none
invalidate_if C (some c) sku = some (C.invalidate_on_order c sku)

release_by : Option Guard → Option ℕ → Option Guard
release_by (some g) (some key) = some (release g key)
release_by g _ = g

module _ {S : Server} {C : OrderCache} where
  -- The part before `newTransactionAsync`.
  unfoldable pub admit : Service S C → ℤ → ℤ → Admission × Service S C
  unfolding admit_by
  admit sv user sku =
      let (a, g) = admit_by sv.gate (make_key user sku) in (a, record sv { gate = g })

  -- The commit callback.
  on_commit : Service S C → ℤ → Bool → Answer × Service S C
  on_commit sv sku true = (accept (lit "OK"), record sv { cache = invalidate_if C sv.cache sku })
  on_commit sv sku false = (refuse (lit "DB_ERROR: commit failed"), sv)

  -- The callbacks of the INSERT. On success the last copy of the transaction commits.
  on_inserted : Service S C → ℤ → Reply × S.Tx → Answer × Service S C
  unfolding on_commit invalidate_if
  on_inserted sv sku (raised e, t) =
      (refuse (lit "DB_ERROR: " ++ e), record sv { db = S.rollback t })
  on_inserted sv sku (rows n, t) =
      if n == 0
      then (refuse (lit "DUPLICATE_ORDER"), record sv { db = S.rollback t })
      else (let (committed, d) = S.commit t in on_commit (record sv { db = d }) sku committed)

  -- The callbacks of the UPDATE.
  on_deducted : Service S C → ℤ → ℤ → Reply × S.Tx → Answer × Service S C
  unfolding on_inserted
  on_deducted sv user sku (raised e, t) =
      (refuse (lit "DB_ERROR: " ++ e), record sv { db = S.rollback t })
  on_deducted sv user sku (rows n, t) =
      if n == 0
      then (refuse (lit "SOLD_OUT"), record sv { db = S.rollback t })
      else on_inserted sv sku (S.exec_insert_order user sku t)

  -- The callback of `newTransactionAsync`, which gets a null pointer after a timeout.
  on_transaction : Service S C → ℤ → ℤ → Begin S.Db S.Tx → Answer × Service S C
  unfolding on_deducted
  on_transaction sv user sku (timeout d) =
      (refuse (lit "DB_ERROR: no transaction (timeout)"), record sv { db = d })
  on_transaction sv user sku (begun t) = on_deducted sv user sku (S.exec_deduct sku t)

  unfoldable pub order_transaction : Service S C → ℤ → ℤ → Answer × Service S C
  unfolding on_transaction
  order_transaction sv user sku = on_transaction sv user sku (S.new_transaction sv.db)

  -- The last copy of the token goes.
  unfoldable pub drop_token : Service S C → Option ℕ → Service S C
  unfolding release_by
  drop_token sv token = record sv { gate = release_by sv.gate token }

  finish : ℤ → ℤ → Admission × Service S C → Answer × Service S C
  finish user sku (turned_away, sv) = (refuse (lit "DUPLICATE_ORDER"), sv)
  finish user sku (let_in token, sv) =
      let (answer, sv') = order_transaction sv user sku in (answer, drop_token sv' token)

  -- `doSeckill` with no other request in between.
  unfoldable pub do_seckill : Service S C → ℤ → ℤ → Answer × Service S C
  unfolding finish
  do_seckill sv user sku = finish user sku (admit sv user sku)
