-- ===== src/Database.antt =====
-- The two tables of sql/schema.sql as the order transaction of src/service/SeckillService.cc uses
-- them: its SQL statements as functions on the tables, and what the code relies on of the MySQL
-- server and of Drogon's client, which are not part of the repository, as an interface.
use seckill_cpp.Base.{
  ℕ, suc, Bool, ◌||◌, ◌&&◌, Option, some, ◌≡◌, Bytes, if◌then◌else◌, true, false, ◌⊎◌, inl, refl,
  ◌∙◌,
}
use seckill_cpp.Base.Int.{ℤ, pos, int_eq}

-- `seckill_sku.stock` by primary key (no row: `none`), and which rows `seckill_order` has.
pub record Tables : Type 0 where
  pub stock : ℤ → Option ℤ
  pub ordered : ℤ → ℤ → Bool

abbrev pub put_stock : ℤ → ℤ → (ℤ → Option ℤ) → ℤ → Option ℤ
put_stock sku v f s = if int_eq s sku then some v else f s

abbrev pub put_order : ℤ → ℤ → (ℤ → ℤ → Bool) → ℤ → ℤ → Bool
put_order user sku f u s = int_eq u user && int_eq s sku || f u s

deduct_row : Option ℤ → ℤ → Tables → ℕ × Tables
deduct_row (some (pos (suc n))) sku t = (1, record t { stock = put_stock sku (pos n) t.stock })
deduct_row _ sku t = (0, t)

-- UPDATE seckill_sku SET stock = stock - 1 WHERE id = ? AND stock > 0: the affected rows, and the
-- tables.
unfoldable pub sql_deduct : ℤ → Tables → ℕ × Tables
unfolding deduct_row
sql_deduct sku t = deduct_row (t.stock sku) sku t

-- INSERT INTO seckill_order (user_id, sku_id, ...) ON DUPLICATE KEY UPDATE id = id, under the
-- unique key (user_id, sku_id).
unfoldable pub sql_insert_order : ℤ → ℤ → Tables → ℕ × Tables
sql_insert_order user sku t =
    if t.ordered user sku then (0, t) else (1, record t { ordered = put_order user sku t.ordered })

-- What a statement's callbacks get: `affectedRows()`, or the text of an exception.
pub data Reply : Type 0 where
  rows : ℕ → Reply
  raised : Bytes → Reply

pub data Begin (Db Tx : Type 0) : Type 0 where
  timeout : Db → Begin Db Tx
  begun : Tx → Begin Db Tx

-- The server with its client. A `Db` and a `Tx` may hold anything besides the tables, such as when
-- the next fault strikes. `base` is what the tables were when the transaction began, `seen` what
-- its statements see.
pub record Server : Type 1 where
  pub Db : Type 0
  pub Tx : Type 0
  pub tables : Db → Tables
  pub base : Tx → Tables
  pub seen : Tx → Tables
  pub new_transaction : Db → Begin Db Tx
  pub exec_deduct : ℤ → Tx → Reply × Tx
  pub exec_insert_order : ℤ → ℤ → Tx → Reply × Tx
  pub rollback : Tx → Db
  pub commit : Tx → Bool × Db

-- The documented behaviour of the server up to the commit: a transaction works on the tables as
-- they stood, a statement that does not raise does what its SQL says, and a rollback undoes it.
-- That a transaction runs whole is InnoDB's lock on the SKU's row, which the first statement takes.
pub record KeepsStatements (S : Server) : Type 0 where
  pub timeout_keeps : (d d' : S.Db) → S.new_transaction d ≡ timeout d' → S.tables d' ≡ S.tables d
  pub begun_base : (d : S.Db) (t : S.Tx) → S.new_transaction d ≡ begun t → S.base t ≡ S.tables d
  pub begun_seen : (d : S.Db) (t : S.Tx) → S.new_transaction d ≡ begun t → S.seen t ≡ S.tables d
  pub deduct_base : (s : ℤ) (t : S.Tx) → S.base (S.exec_deduct s t).1 ≡ S.base t
  pub deduct_seen :
      (s : ℤ) (t : S.Tx) (n : ℕ)
      → (S.exec_deduct s t).0 ≡ rows n
      → (n, S.seen (S.exec_deduct s t).1) ≡ sql_deduct s (S.seen t)
  pub insert_base : (u s : ℤ) (t : S.Tx) → S.base (S.exec_insert_order u s t).1 ≡ S.base t
  pub insert_seen :
      (u s : ℤ) (t : S.Tx) (n : ℕ)
      → (S.exec_insert_order u s t).0 ≡ rows n
      → (n, S.seen (S.exec_insert_order u s t).1) ≡ sql_insert_order u s (S.seen t)
  pub rollback_tables : (t : S.Tx) → S.tables (S.rollback t) ≡ S.base t

-- A commit that succeeds publishes what the transaction saw, and one that fails publishes nothing.
pub record IsTransactional (S : Server) : Type 0 where
  pub statements : KeepsStatements S
  pub commit_tables :
      (t : S.Tx) → S.tables (S.commit t).1 ≡ (if (S.commit t).0 then S.seen t else S.base t)

-- The same, but for the acknowledgement of a COMMIT that was carried out: it may get lost, and
-- Drogon then reports a failure although the tables have changed.
pub record MayLoseCommits (S : Server) : Type 0 where
  pub statements : KeepsStatements S
  pub commit_done : (t : S.Tx) → (S.commit t).0 ≡ true → S.tables (S.commit t).1 ≡ S.seen t
  pub commit_failed :
      (t : S.Tx)
      → (S.commit t).0 ≡ false
      → (S.tables (S.commit t).1 ≡ S.base t) ⊎ (S.tables (S.commit t).1 ≡ S.seen t)

pub IsTransactional-MayLoseCommits : {S : Server} → IsTransactional S → MayLoseCommits S
IsTransactional-MayLoseCommits {S} law = record {
  statements = law.statements;
  commit_done = λ t h. law.commit_tables t ∙ rw h refl;
  commit_failed = λ t h. inl (law.commit_tables t ∙ rw h refl);
}
