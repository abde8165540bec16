-- ===== src/Order/Tests.antt =====
-- Order runs on a concrete server, and the theorems on it.
use seckill_cpp.Base.{
  ℕ, zero, suc, ◌+◌, ◌≤◌, true, false, none, some, List, [], ◌∷◌, if◌then◌else◌, ◌≡◌, refl, arith,
  inr, lit,
}
use seckill_cpp.Base.Int.{ℤ, pos, int_eq, to_u64}
use seckill_cpp.Database.{
  Server, IsTransactional, MayLoseCommits, IsTransactional-MayLoseCommits, Tables, Reply, rows,
  raised, begun, sql_deduct, sql_insert_order,
}
use seckill_cpp.Gate.{Guard, Mode, init, make_key, try_acquire, release}
use seckill_cpp.Gate.Laws.{held-init, init-IsValid}
use seckill_cpp.Gate.Held.{held}
use seckill_cpp.Order.{Service, OrderCache, refuse, accept, admit, drop_token, order_transaction}
use seckill_cpp.Order.Transaction.{
  Sale, IsAvailable, verdict, order_transaction-Sale, order_transaction-verdict,
}
use seckill_cpp.Order.Shop.{
  Shop, Event, arrive, complete, step, remove_at, run, sales, sales_to, one_if,
}
use seckill_cpp.Order.Shop.Ledger.{Ledger, Ledger-start, run-Ledger, sales_bounded}
use seckill_cpp.Order.Shop.Lost.{sales_to_bounded}
use seckill_cpp.Order.Shop.Flights.{in_use}
use seckill_cpp.Order.Shop.Marks.{Marked, in_flight, in_flight-run, run_leaves_no_mark}

abbrev insert_order : ℤ → ℤ → Tables × Tables × ℕ → Reply × (Tables × Tables × ℕ)
insert_order u s (b, t, suc faults) = (raised (lit "gone away"), (b, t, faults))
insert_order u s (b, t, zero) =
    (rows (sql_insert_order u s t).0, (b, (sql_insert_order u s t).1, 0))

-- The tables, and on how many of the coming inserts the connection breaks.
abbrev Simple : Server
Simple = record {
  Db = Tables × ℕ;
  Tx = Tables × Tables × ℕ;
  tables = λ d. d.0;
  base = λ t. t.0;
  seen = λ t. t.1;
  new_transaction = λ d. begun (d.0, d.0, d.1);
  exec_deduct = λ s t. (rows (sql_deduct s t.1).0, (t.0, (sql_deduct s t.1).1, t.2));
  exec_insert_order = λ u s t. insert_order u s t;
  rollback = λ t. (t.0, t.2);
  commit = λ t. (true, (t.1, t.2));
}

insert_law :
    (u s : ℤ) (t : Tables × Tables × ℕ) (n : ℕ)
    → (insert_order u s t).0 ≡ rows n
    → (n, (insert_order u s t).1.1) ≡ sql_insert_order u s t.1
insert_law u s (b, t, suc faults) n e = cc
insert_law u s (b, t, zero) n e = ground arith

insert_base_law : (u s : ℤ) (t : Tables × Tables × ℕ) → (insert_order u s t).1.0 ≡ t.0
insert_base_law u s (b, t, suc faults) = refl
insert_base_law u s (b, t, zero) = refl

Simple-IsTransactional : IsTransactional Simple
Simple-IsTransactional = record {
  statements = record {
    timeout_keeps = λ d d' e. cc;
    begun_base = λ d t e. ground arith;
    begun_seen = λ d t e. ground arith;
    deduct_base = λ s t. refl;
    deduct_seen = λ s t n e. ground arith;
    insert_base = insert_base_law;
    insert_seen = insert_law;
    rollback_tables = λ t. refl;
  };
  commit_tables = λ t. refl;
}

-- Nothing fails on this one.
abbrev pub Steady : Server
Steady = record Simple {
  exec_insert_order =
      λ u s t. (rows (sql_insert_order u s t.1).0, (t.0, (sql_insert_order u s t.1).1, t.2));
}

pub Steady-IsTransactional : IsTransactional Steady
Steady-IsTransactional = record {
  statements = record {
    timeout_keeps = λ d d' e. cc;
    begun_base = λ d t e. ground arith;
    begun_seen = λ d t e. ground arith;
    deduct_base = λ s t. refl;
    deduct_seen = λ s t n e. ground arith;
    insert_base = λ u s t. refl;
    insert_seen = λ u s t n e. ground arith;
    rollback_tables = λ t. refl;
  };
  commit_tables = λ t. refl;
}

Steady-IsAvailable : IsAvailable Steady
Steady-IsAvailable = record {
  begins = λ d. ((d.0, d.0, d.1), refl);
  deducts = λ s t. ((sql_deduct s t.1).0, refl);
  inserts = λ u s t. ((sql_insert_order u s t.1).0, refl);
  commits = λ t. refl;
}

-- This one carries out every COMMIT and loses each acknowledgement.
abbrev Lossy : Server
Lossy = record Steady { commit = λ t. (false, (t.1, t.2)) }

Lossy-MayLoseCommits : MayLoseCommits Lossy
Lossy-MayLoseCommits = record {
  statements = record {
    timeout_keeps = λ d d' e. cc;
    begun_base = λ d t e. ground arith;
    begun_seen = λ d t e. ground arith;
    deduct_base = λ s t. refl;
    deduct_seen = λ s t n e. ground arith;
    insert_base = λ u s t. refl;
    insert_seen = λ u s t n e. ground arith;
    rollback_tables = λ t. refl;
  };
  commit_done = λ t e. refl;
  commit_failed = λ t e. inr refl;
}

-- A cache that counts its invalidations.
abbrev pub Counting : OrderCache
Counting = record { State = ℕ; invalidate_on_order = λ n sku. n + 1 }

abbrev stocked : ℕ → Tables
stocked n = record {
  stock = λ s. if int_eq s (pos 1) then some (pos n) else none;
  ordered = λ u s. false;
}

abbrev gate : Guard
gate = init Mode.atomic 64 65536

abbrev opening : Shop Simple Counting
opening = record {
  service = record { gate = some gate; cache = some 0; db = (stocked 2, 1) };
  flights = [];
  answers = [];
}

abbrev pub steady : Service Steady Counting
steady = record { gate = some gate; cache = some 0; db = (stocked 1, 0) }

opening-Marked : Marked Mode.atomic 65536 opening
unfolding init in_use
opening-Marked = (
  gate,
  refl,
  record {
    same_mode = refl;
    same_bits = refl;
    valid = init-IsValid Mode.atomic 64 65536 (omega arith) (omega arith) (omega arith);
    apart = tt;
    marks = λ j. held-init Mode.atomic 64 65536 j;
  },
)

-- Two pieces, one insert that breaks, one request that overlaps with its twin.
abbrev story : List Event
story =
    arrive (pos 7) (pos 1)
    ∷ arrive (pos 7) (pos 1)
    ∷ complete 0
    ∷ arrive (pos 7) (pos 1)
    ∷ arrive (pos 8) (pos 1)
    ∷ complete 1
    ∷ complete 0
    ∷ arrive (pos 9) (pos 1)
    ∷ complete 0
    ∷ []

-- What a run of the model computes with.
all_of_it : Unit {0}
unfolding run step admit try_acquire make_key to_u64 order_transaction drop_token release remove_at
    sales sales_to sql_deduct sql_insert_order init in_flight
all_of_it = tt

story-sales : sales (pos 1) (run opening story).answers ≡ 2
unfolding all_of_it
story-sales = refl

story_idle : (run opening story).flights ≡ []
unfolding all_of_it
story_idle = refl

story_answers :
    Shop.answers (run opening story)
    ≡ record { user = pos 9; sku = pos 1; answer = refuse (lit "SOLD_OUT") }
      ∷ record { user = pos 8; sku = pos 1; answer = accept (lit "OK") }
      ∷ record { user = pos 7; sku = pos 1; answer = accept (lit "OK") }
      ∷ record { user = pos 7; sku = pos 1; answer = refuse (lit "DB_ERROR: gone away") }
      ∷ record { user = pos 7; sku = pos 1; answer = refuse (lit "DUPLICATE_ORDER") }
      ∷ []
unfolding all_of_it
story_answers = refl

abbrev lossy : Shop Lossy Counting
lossy = record {
  service = record { gate = some gate; cache = some 0; db = (stocked 2, 0) };
  flights = [];
  answers = [];
}

-- A sale whose acknowledgement is lost is answered as a failure, and a second try as a duplicate.
lossy_answers :
    Shop.answers
      (run lossy (arrive (pos 7) (pos 1) ∷ complete 0 ∷ arrive (pos 7) (pos 1) ∷ complete 0 ∷ []))
    ≡ record { user = pos 7; sku = pos 1; answer = refuse (lit "DUPLICATE_ORDER") }
      ∷ record { user = pos 7; sku = pos 1; answer = refuse (lit "DB_ERROR: commit failed") }
      ∷ []
unfolding all_of_it
lossy_answers = refl

order_transaction-Sale_example :
    Sale
      (pos 7)
      (pos 1)
      (stocked 2)
      (order_transaction opening.service (pos 7) (pos 1)).0.ok
      (order_transaction opening.service (pos 7) (pos 1)).1.db.0
order_transaction-Sale_example =
    order_transaction-Sale {S = Simple} {C = Counting} Simple-IsTransactional opening.service
      (pos 7) (pos 1)

order_transaction-verdict_example :
    (order_transaction steady (pos 7) (pos 1)).0
    ≡ verdict ((stocked 1).stock (pos 1)) ((stocked 1).ordered (pos 7) (pos 1))
order_transaction-verdict_example =
    order_transaction-verdict {S = Steady} {C = Counting} Steady-IsTransactional Steady-IsAvailable
      steady (pos 7) (pos 1)

run-Ledger_example : Ledger (stocked 2) (run opening story).service.db.0 (run opening story).answers
run-Ledger_example =
    run-Ledger {S = Simple} {C = Counting} Simple-IsTransactional (stocked 2) story opening
      (Ledger-start (stocked 2))

sales_bounded_example :
    (left : ℕ) × ((run opening story).service.db.0.stock (pos 1) ≡ some (pos left))
    × (left + sales (pos 1) (run opening story).answers ≡ 2)
sales_bounded_example =
    sales_bounded {S = Simple} {C = Counting} Simple-IsTransactional opening story (pos 1) 2 refl
      refl

sales_to_bounded_example :
    one_if ((stocked 2).ordered (pos 7) (pos 1))
      + sales_to (pos 7) (pos 1) (run opening story).answers
    ≤ 1
sales_to_bounded_example =
    sales_to_bounded {S = Simple} {C = Counting}
      (IsTransactional-MayLoseCommits Simple-IsTransactional) opening story (pos 7) (pos 1) refl

in_flight-run_example : in_flight (pos 7) (pos 1) (run opening story).flights ≤ 1
in_flight-run_example =
    in_flight-run {S = Simple} {C = Counting} Mode.atomic 65536 refl opening story (pos 7) (pos 1)
      opening-Marked

run_leaves_no_mark_example :
    (g : Guard) × ((run opening story).service.gate ≡ some g) × ((k : ℕ) → held g k ≡ false)
run_leaves_no_mark_example =
    run_leaves_no_mark {S = Simple} {C = Counting} Mode.atomic 65536 refl opening story
      opening-Marked story_idle
