-- ===== src/Order/Whole.antt =====
-- `doSeckill` as a whole: the gate, the transaction and the release of the token.
use seckill_cpp.Base.{refl}
use seckill_cpp.Base.Int.{ℤ}
use seckill_cpp.Database.{Server, IsTransactional}
use seckill_cpp.Order.{
  Admission, turned_away, let_in, Service, OrderCache, admit, drop_token, finish, do_seckill,
}
use seckill_cpp.Order.Transaction.{Sale, nothing, order_transaction-Sale}

module _ {S : Server} {C : OrderCache} (law : IsTransactional S) where
  finish-Sale :
      (user sku : ℤ) (r : Admission × Service S C)
      → Sale user sku (S.tables r.1.db) (finish user sku r).0.ok (S.tables (finish user sku r).1.db)
  unfolding finish drop_token
  finish-Sale user sku (turned_away, sv) = nothing _ refl
  finish-Sale user sku (let_in token, sv) = order_transaction-Sale law sv user sku

  -- A request sells one piece and answers `true`, or leaves the tables alone and answers `false`.
  pub do_seckill-Sale :
      (sv : Service S C) (user sku : ℤ)
      → Sale user sku
          (S.tables sv.db)
          (do_seckill sv user sku).0.ok
          (S.tables (do_seckill sv user sku).1.db)
  unfolding do_seckill admit
  do_seckill-Sale sv user sku = finish-Sale user sku (admit sv user sku)
