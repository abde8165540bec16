-- ===== src/Order/Transaction.antt =====
-- What one order transaction does to the tables, and what it answers.
mod Ends
use seckill_cpp.Base.{
  ℕ, suc, Bool, true, false, Option, some, lit, if◌then◌else◌, ◌==◌, ◌≡◌, refl, ◌∙◌, ap, ◌⊎◌, inl,
  inr, arith, Bool-cases,
}
use seckill_cpp.Base.Int.{ℤ, pos}
use seckill_cpp.Database.{
  Server, IsTransactional, MayLoseCommits, Tables, rows, begun, sql_deduct, sql_insert_order,
  put_stock,
}
use seckill_cpp.Order.{
  Answer, Service, OrderCache, refuse, accept, on_commit, on_inserted, on_deducted, on_transaction,
  order_transaction,
}
use seckill_cpp.Order.Transaction.Ends.{deduct_inv, insert_inv, order_transaction-End}
pub use seckill_cpp.Order.Transaction.Ends.{sold}

-- What a transaction may make of the tables: a sale of one piece that was there, to a user without
-- an order, answered with `true`; or nothing at all, answered with `false`.
pub data Sale (user sku : ℤ) (before : Tables) : Bool → Tables → Type 0 where
  done :
      (left : ℕ)
      → before.stock sku ≡ some (pos (suc left))
      → before.ordered user sku ≡ false
      → (after : Tables) → after ≡ sold user sku left before
      → Sale user sku before true after
  nothing : (after : Tables) → after ≡ before → Sale user sku before false after

-- What a lost acknowledgement adds: a sale that is answered with `false`.
pub data Fate (user sku : ℤ) (before : Tables) : Bool → Tables → Type 0 where
  told :
      (ok : Bool) (after : Tables) → Sale user sku before ok after → Fate user sku before ok after
  lost : (after : Tables) → Sale user sku before true after → Fate user sku before false after

sold_or_not :
    (u s : ℤ) (before after : Tables) (left : ℕ) (b : Bool)
    → before.stock s ≡ some (pos (suc left))
    → before.ordered u s ≡ false
    → after ≡ (if b then sold u s left before else before)
    → Sale u s before b after
sold_or_not u s before after left true e o h = done left e o after h
sold_or_not u s before after left false e o h = nothing after h

module _ {S : Server} {C : OrderCache} (law : IsTransactional S) where
  -- For every server that keeps transactions: the order transaction sells exactly one piece, to a
  -- user with no order for it, and answers `true`; or it leaves the tables as they were and
  -- answers `false`. There is no third outcome, whatever fails on the way.
  pub order_transaction-Sale :
      (sv : Service S C) (user sku : ℤ)
      → Sale user sku
          (S.tables sv.db)
          (order_transaction sv user sku).0.ok
          (S.tables (order_transaction sv user sku).1.db)
  order_transaction-Sale =
      order_transaction-End law.statements Sale (λ u s before. nothing)
        λ u s before left t e o b seen.
          sold_or_not u s before _ left _ e o (law.commit_tables t ∙ rw (b, seen))

lost_or_not :
    (u s : ℤ) (before base seen after : Tables) (left : ℕ) (b : Bool)
    → before.stock s ≡ some (pos (suc left))
    → before.ordered u s ≡ false
    → base ≡ before
    → seen ≡ sold u s left before
    → (b ≡ true → after ≡ seen)
    → (b ≡ false → (after ≡ base) ⊎ (after ≡ seen))
    → Fate u s before b after
lost_or_not u s before base seen after left true e o kept sale h h' =
    told _ _ (done left e o after (h refl ∙ sale))
lost_or_not u s before base seen after left false e o kept sale h h' = elim (h' refl) [
  | inl same ↦ told _ _ (nothing after (same ∙ kept))
  | inr changed ↦ lost after (done left e o after (changed ∙ sale))
]

module _ {S : Server} {C : OrderCache} (law : MayLoseCommits S) where
  -- If a commit that was carried out may be reported as failed, there is one more outcome: the
  -- piece is sold to a user with no order for it, and the answer is `false`. An answer `true` still
  -- stands for a sale.
  pub order_transaction-Fate :
      (sv : Service S C) (user sku : ℤ)
      → Fate user sku
          (S.tables sv.db)
          (order_transaction sv user sku).0.ok
          (S.tables (order_transaction sv user sku).1.db)
  order_transaction-Fate =
      order_transaction-End law.statements Fate (λ u s before after e. told _ _ (nothing after e))
        λ u s before left t e o b seen.
          lost_or_not u s before (S.base t) (S.seen t) _ left _ e o b seen (law.commit_done t)
            (law.commit_failed t)

-- A server on which nothing fails.
pub record IsAvailable (S : Server) : Type 0 where
  pub begins : (d : S.Db) → (t : S.Tx) × (S.new_transaction d ≡ begun t)
  pub deducts : (s : ℤ) (t : S.Tx) → (n : ℕ) × ((S.exec_deduct s t).0 ≡ rows n)
  pub inserts : (u s : ℤ) (t : S.Tx) → (n : ℕ) × ((S.exec_insert_order u s t).0 ≡ rows n)
  pub commits : (t : S.Tx) → (S.commit t).0 ≡ true

-- The answer that the tables call for. Being sold out comes before having ordered.
abbrev pub verdict : Option ℤ → Bool → Answer
verdict (some (pos (suc n))) false = accept (lit "OK")
verdict (some (pos (suc n))) true = refuse (lit "DUPLICATE_ORDER")
verdict _ already = refuse (lit "SOLD_OUT")

deduct_rows :
    (s : ℤ) (t t' : Tables) (n : ℕ)
    → (n, t') ≡ sql_deduct s t
    → (b : Bool) → (n == 0) ≡ true
    → verdict (t.stock s) b ≡ refuse (lit "SOLD_OUT")
unfolding sql_deduct
deduct_rows s t t' n e b z = ground arith

insert_rows :
    (u s : ℤ) (t t' : Tables) (n left : ℕ)
    → (n, t') ≡ sql_insert_order u s t
    → (n == 0) ≡ true
    → verdict (some (pos (suc left))) (t.ordered u s) ≡ refuse (lit "DUPLICATE_ORDER")
unfolding sql_insert_order
insert_rows u s t t' n left e z = ground arith

module _ {S : Server} {C : OrderCache} (law : IsTransactional S) (up : IsAvailable S) where
  on_inserted-verdict :
      (sv : Service S C) (u s : ℤ) (t : S.Tx) (n left : ℕ) (seen seen' : Tables)
      → (n, seen') ≡ sql_insert_order u s seen
      → (on_inserted sv s (rows n, t)).0 ≡ verdict (some (pos (suc left))) (seen.ordered u s)
  unfolding on_inserted on_commit
  on_inserted-verdict sv u s t n left seen seen' e = elim (Bool-cases (n == 0)) [
    | inl z ↦ rw (z, insert_rows u s seen seen' n left e z)
    | inr nz ↦ rw (nz, up.commits t, (insert_inv u s seen seen' n e nz).0)
  ]

  on_deducted-verdict :
      (sv : Service S C) (u s : ℤ) (t : S.Tx) (n : ℕ) (before : Tables)
      → (n, S.seen t) ≡ sql_deduct s before
      → (on_deducted sv u s (rows n, t)).0 ≡ verdict (before.stock s) (before.ordered u s)
  unfolding on_deducted
  on_deducted-verdict sv u s t n before e = elim (Bool-cases (n == 0)) [
    | inl z ↦ rw (z, deduct_rows s before (S.seen t) n e (before.ordered u s) z)
    | inr nz ↦
        let (left, there, taken) : (left : ℕ) × (before.stock s ≡ some (pos (suc left)))
            × (S.seen t ≡ record before { stock = put_stock s (pos left) before.stock }) =
          deduct_inv s before (S.seen t) n e nz in
        let (m, added) : (m : ℕ) × ((S.exec_insert_order u s t).0 ≡ rows m) = up.inserts u s t in
        let t' : S.Tx = (S.exec_insert_order u s t).1 in
        rw (nz, there)
          (ap (λ r. (on_inserted {C = C} sv s (r, t')).0) added
            ∙ on_inserted-verdict sv u s t' m left (S.seen t) (S.seen t')
                (law.statements.insert_seen u s t m added)
            ∙ ap (λ (T : Tables). verdict (some (pos (suc left))) (T.ordered u s)) taken)
  ]

  -- For a server that keeps transactions and on which nothing fails, the answer is the one that
  -- the tables call for: `SOLD_OUT` unless a piece is left, else `DUPLICATE_ORDER` if the user has
  -- an order for the SKU, else `OK`.
  pub order_transaction-verdict :
      (sv : Service S C) (user sku : ℤ)
      → (order_transaction sv user sku).0
        ≡ verdict ((S.tables sv.db).stock sku) ((S.tables sv.db).ordered user sku)
  unfolding order_transaction
  order_transaction-verdict sv user sku =
      let (t, e) : (t : S.Tx) × (S.new_transaction sv.db ≡ begun t) = up.begins sv.db in
      let (n, r) : (n : ℕ) × ((S.exec_deduct sku t).0 ≡ rows n) = up.deducts sku t in
      let t' : S.Tx = (S.exec_deduct sku t).1 in
      ap (λ b. (on_transaction {C = C} sv user sku b).0) e
      ∙ unfold on_transaction in
        ap (λ r. (on_deducted {C = C} sv user sku (r, t')).0) r
        ∙ on_deducted-verdict sv user sku t' n (S.tables sv.db) (
            law.statements.deduct_seen sku t n r
            ∙ ap (sql_deduct sku) (law.statements.begun_seen sv.db t e))
