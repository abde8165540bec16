-- ===== src/Order/Transaction/Ends.antt =====
-- The two statements of an order transaction on the tables, and how the transaction may end.
use seckill_cpp.Base.{
  ℕ, suc, Bool, true, false, some, ◌==◌, ◌≡◌, refl, ◌∙◌, ap, inl, inr, arith, Bool-cases,
}
use seckill_cpp.Base.Int.{ℤ, pos}
use seckill_cpp.Database.{
  Server, KeepsStatements, Tables, Reply, rows, raised, Begin, timeout, begun, sql_deduct,
  sql_insert_order, put_stock, put_order,
}
use seckill_cpp.Order.{
  Service, OrderCache, on_commit, on_inserted, on_deducted, on_transaction, order_transaction,
}

-- The tables after a sale that left `left` pieces.
abbrev pub sold : ℤ → ℤ → ℕ → Tables → Tables
sold user sku left t = record t {
  stock = put_stock sku (pos left) t.stock;
  ordered = put_order user sku t.ordered;
}

pub deduct_inv :
    (s : ℤ) (t t' : Tables) (n : ℕ)
    → (n, t') ≡ sql_deduct s t
    → (n == 0) ≡ false
    → (left : ℕ) × (t.stock s ≡ some (pos (suc left)))
      × (t' ≡ record t { stock = put_stock s (pos left) t.stock })
unfolding sql_deduct
deduct_inv s t t' n e h = ground arith

pub insert_inv :
    (u s : ℤ) (t t' : Tables) (n : ℕ)
    → (n, t') ≡ sql_insert_order u s t
    → (n == 0) ≡ false
    → (t.ordered u s ≡ false) × (t' ≡ record t { ordered = put_order u s t.ordered })
unfolding sql_insert_order
insert_inv u s t t' n e h = ground arith

both_steps :
    (u s : ℤ) (before t t' : Tables) (left : ℕ)
    → t ≡ record before { stock = put_stock s (pos left) before.stock }
    → (t.ordered u s ≡ false) × (t' ≡ record t { ordered = put_order u s t.ordered })
    → (before.ordered u s ≡ false) × (t' ≡ sold u s left before)
both_steps u s before t t' left taken ins = rw taken at ins

-- `End` is a view of how a transaction ends: with nothing done, or at a commit after both
-- statements.
module _ {S : Server} {C : OrderCache} (law : KeepsStatements S)
    (End : ℤ → ℤ → Tables → Bool → Tables → Type 0)
    (kept : (u s : ℤ) (before after : Tables) → after ≡ before → End u s before false after)
    (committed : (u s : ℤ) (before : Tables) (left : ℕ) (t : S.Tx)
      → before.stock s ≡ some (pos (suc left))
      → before.ordered u s ≡ false
      → S.base t ≡ before
      → S.seen t ≡ sold u s left before
      → End u s before (S.commit t).0 (S.tables (S.commit t).1)) where
  open law use {
    timeout_keeps, begun_base, begun_seen, deduct_base, deduct_seen, insert_base, insert_seen,
    rollback_tables,
  }

  -- The tables behind a service.
  abbrev tables : Service S C → Tables
  tables sv = S.tables sv.db

  on_commit-End :
      (sv : Service S C) (u s : ℤ) (b : Bool) (before : Tables)
      → End u s before b (tables sv)
      → End u s before (on_commit sv s b).0.ok (tables (on_commit sv s b).1)
  unfolding on_commit
  on_commit-End sv u s true before h = h
  on_commit-End sv u s false before h = h

  on_inserted-End :
      (sv : Service S C) (u s : ℤ) (r : Reply) (t : S.Tx) (before : Tables) (left : ℕ)
      → before.stock s ≡ some (pos (suc left))
      → S.base t ≡ before
      → ((n : ℕ)
          → r ≡ rows n
          → (n == 0) ≡ false
          → (before.ordered u s ≡ false) × (S.seen t ≡ sold u s left before))
      → End u s before (on_inserted sv s (r, t)).0.ok (tables (on_inserted sv s (r, t)).1)
  unfolding on_inserted
  on_inserted-End sv u s (raised e) t before left q b h = kept _ _ _ _ (rollback_tables t ∙ b)
  on_inserted-End sv u s (rows n) t before left q b h = elim (Bool-cases (n == 0)) [
    | inl z ↦ rw z (kept _ _ _ _ (rollback_tables t ∙ b))
    | inr nz ↦
        let (free, seen) : (before.ordered u s ≡ false) × (S.seen t ≡ sold u s left before) =
          h n refl nz in
        rw nz (
          on_commit-End (record sv { db = (S.commit t).1 }) u s (S.commit t).0 before
            (committed u s before left t q free b seen))
  ]

  on_deducted-End :
      (sv : Service S C) (u s : ℤ) (r : Reply) (t : S.Tx) (before : Tables)
      → S.base t ≡ before
      → ((n : ℕ) → r ≡ rows n → (n, S.seen t) ≡ sql_deduct s before)
      → End u s before (on_deducted sv u s (r, t)).0.ok (tables (on_deducted sv u s (r, t)).1)
  unfolding on_deducted
  on_deducted-End sv u s (raised e) t before b h = kept _ _ _ _ (rollback_tables t ∙ b)
  on_deducted-End sv u s (rows n) t before b h = elim (Bool-cases (n == 0)) [
    | inl z ↦ rw z (kept _ _ _ _ (rollback_tables t ∙ b))
    | inr nz ↦
        let (left, there, taken) : (left : ℕ) × (before.stock s ≡ some (pos (suc left)))
            × (S.seen t ≡ record before { stock = put_stock s (pos left) before.stock }) =
          deduct_inv s before (S.seen t) n (h n refl) nz in
        rw nz (
          on_inserted-End sv u s (S.exec_insert_order u s t).0 (S.exec_insert_order u s t).1 before
            left there (insert_base u s t ∙ b)
            (λ m e added.
              both_steps u s before (S.seen t) _ left taken
                (insert_inv u s (S.seen t) _ m (insert_seen u s t m e) added)))
  ]

  pub order_transaction-End :
      (sv : Service S C) (user sku : ℤ)
      → End user sku
          (tables sv)
          (order_transaction sv user sku).0.ok
          (tables (order_transaction sv user sku).1)
  unfolding order_transaction
  order_transaction-End sv user sku = begin (S.new_transaction sv.db) refl
    where
      begin :
          (r : Begin S.Db S.Tx)
          → S.new_transaction sv.db ≡ r
          → End user sku
              (tables sv)
              (on_transaction sv user sku r).0.ok
              (tables (on_transaction sv user sku r).1)
      begin (timeout d) e = kept _ _ _ _ (timeout_keeps sv.db d e)
      begin (begun t) e =
          on_deducted-End sv user sku (S.exec_deduct sku t).0 (S.exec_deduct sku t).1 (tables sv)
            (deduct_base sku t ∙ begun_base sv.db t e)
            (λ n r. deduct_seen sku t n r ∙ ap (sql_deduct sku) (begun_seen sv.db t e))
