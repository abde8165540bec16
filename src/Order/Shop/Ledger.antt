-- ===== src/Order/Shop/Ledger.antt =====
-- The tables and the answers of overlapping orders, over every sequence of events.
use seckill_cpp.Base.{
  ℕ, suc, ◌+◌, Bool, true, false, ◌&&◌, Option, none, some, List, [], ◌∷◌, get_elem?, if◌then◌else◌,
  ◌≡◌, refl, ◌∙◌, ap, ◌⊎◌, inl, inr, arith, Bool-cases,
}
use seckill_cpp.Base.Int.{ℤ, pos, int_eq, int_eq→eq}
use seckill_cpp.Database.{Server, IsTransactional, Tables, put_stock, put_order}
use seckill_cpp.Order.{Service, OrderCache, Admission, turned_away, let_in, admit, drop_token}
use seckill_cpp.Order.Transaction.{Sale, done, nothing, sold, order_transaction-Sale}
use seckill_cpp.Order.Shop.{
  Shop, Flight, Entry, Event, arrive, complete, step, run, sales, sales_to, one_if, arrived,
  complete_one,
}

-- What `k` sales make of a stock.
abbrev pub StockAfter : Option ℤ → ℕ → Option ℤ → Type 0
StockAfter before k after =
    ((k ≡ 0) × (after ≡ before))
    ⊎ ((left : ℕ) × (after ≡ some (pos left)) × (before ≡ some (pos (left + k))))

-- The tables now, against those at the start and the answers since.
pub record Ledger (start now : Tables) (answers : List Entry) : Type 0 where
  pub stock : (s : ℤ) → StockAfter (start.stock s) (sales s answers) (now.stock s)
  pub orders :
      (u s : ℤ) → one_if (now.ordered u s) ≡ one_if (start.ordered u s) + sales_to u s answers

StockAfter-suc :
    (start now : Option ℤ) (k left : ℕ)
    → StockAfter start k now
    → now ≡ some (pos (suc left))
    → StockAfter start (k + 1) (some (pos left))
StockAfter-suc start now k left (inl h) e = inr (left, refl, ground arith)
StockAfter-suc start now k left (inr (m, now_is, start_is)) e = inr (left, refl, ground arith)

StockAfter-sale :
    (start : Option ℤ) (now : Tables) (s sku : ℤ) (k left : ℕ)
    → StockAfter start k (now.stock s)
    → now.stock sku ≡ some (pos (suc left))
    → StockAfter start (if int_eq s sku then k + 1 else k) (put_stock sku (pos left) now.stock s)
StockAfter-sale start now s sku k left h e = elim (Bool-cases (int_eq s sku)) [
  | inl same ↦
      rw same
        (StockAfter-suc start (now.stock s) k left h (ap now.stock (int_eq→eq s sku same) ∙ e))
  | inr other ↦ rw other h
]

Ledger-sale :
    (start now : Tables) (es : List Entry) (a : Entry) (left : ℕ)
    → Ledger start now es
    → a.answer.ok ≡ true
    → now.stock a.sku ≡ some (pos (suc left))
    → now.ordered a.user a.sku ≡ false
    → Ledger start (sold a.user a.sku left now) (a ∷ es)
unfolding sales sales_to
Ledger-sale start now es a left l ok e o = record {
  stock = λ s. rw ok (StockAfter-sale (start.stock s) now s a.sku (sales s es) left (l.stock s) e);
  orders = λ u s. rw ok (orders_of u s);
}
  where
    orders_of :
        (u s : ℤ)
        → one_if (put_order a.user a.sku now.ordered u s)
          ≡ one_if (start.ordered u s)
            + (if int_eq u a.user && int_eq s a.sku then sales_to u s es + 1 else sales_to u s es)
    orders_of u s = ground (arith, l.orders u s, int_eq→eq u a.user, int_eq→eq s a.sku)

pub Ledger-refusal :
    (start now : Tables) (es : List Entry) (a : Entry)
    → Ledger start now es
    → a.answer.ok ≡ false
    → Ledger start now (a ∷ es)
unfolding sales sales_to
Ledger-refusal start now es a l ng = record {
  stock = λ s. rw ng (l.stock s);
  orders = λ u s. rw ng (l.orders u s);
}

pub Ledger-outcome :
    (start before after : Tables) (es : List Entry) (a : Entry)
    → Ledger start before es
    → Sale a.user a.sku before a.answer.ok after
    → Ledger start after (a ∷ es)
Ledger-outcome start before after es a l sale = cases a.answer.ok refl sale
  where
    cases :
        (b : Bool)
        → a.answer.ok ≡ b
        → Sale a.user a.sku before b after
        → Ledger start after (a ∷ es)
    cases b e (done left q o after h) = rw h (Ledger-sale start before es a left l e q o)
    cases b e (nothing after h) = rw h (Ledger-refusal start before es a l e)

pub Ledger-start : (t : Tables) → Ledger t t []
unfolding sales sales_to
Ledger-start t = record { stock = λ s. inl (refl, refl); orders = λ u s. omega arith }

module _ {S : Server} {C : OrderCache} (law : IsTransactional S) (start : Tables) where
  abbrev InBooks : Shop S C → Type 0
  InBooks x = Ledger start (S.tables x.service.db) x.answers

  arrived-Ledger :
      (x : Shop S C) (user sku : ℤ) (a : Admission) (sv : Service S C)
      → sv.db ≡ x.service.db
      → InBooks x
      → InBooks (arrived x user sku (a, sv))
  unfolding arrived
  arrived-Ledger x user sku turned_away sv e l = Ledger-refusal start _ x.answers _ (rw e l) refl
  arrived-Ledger x user sku (let_in token) sv e l = rw e l

  complete_one-Ledger :
      (x : Shop S C) (i : ℕ) (f : Option Flight) → InBooks x → InBooks (complete_one x i f)
  unfolding complete_one drop_token
  complete_one-Ledger x i none l = l
  complete_one-Ledger x i (some f) l =
      Ledger-outcome start _ _ x.answers _ l (order_transaction-Sale law x.service f.user f.sku)

  step-Ledger : (x : Shop S C) (e : Event) → InBooks x → InBooks (step x e)
  unfolding step admit
  step-Ledger x (arrive user sku) l = arrived-Ledger x user sku _ _ refl l
  step-Ledger x (complete i) l = complete_one-Ledger x i (get_elem? x.flights i) l

  -- For a server that keeps transactions and any sequence of events: the stock of every SKU is the
  -- one at the start less the pieces sold, and the orders of every user for it are the one at the
  -- start and those sold since.
  pub run-Ledger : (es : List Event) (x : Shop S C) → InBooks x → InBooks (run x es)
  unfolding run
  run-Ledger [] x l = l
  run-Ledger (e ∷ es) x l = run-Ledger es (step x e) (step-Ledger x e l)

module _ {S : Server} {C : OrderCache} (law : IsTransactional S) where
  books_from :
      (x : Shop S C) (es : List Event)
      → x.answers ≡ []
      → Ledger (S.tables x.service.db) (S.tables (run x es).service.db) (run x es).answers
  books_from x es e =
      run-Ledger law (S.tables x.service.db) es x (rw e (Ledger-start (S.tables x.service.db)))

pub sold_within :
    (start now : Option ℤ) (k n : ℕ)
    → StockAfter start k now
    → start ≡ some (pos n)
    → (left : ℕ) × (now ≡ some (pos left)) × (left + k ≡ n)
sold_within start now k n (inl h) e = (n, ground arith, omega arith)
sold_within start now k n (inr (left, is_now, is_start)) e = (left, is_now, ground arith)

-- Nothing is oversold: for a server that keeps transactions, from an empty list of answers, no
-- sequence of events sells more pieces of a SKU than were in stock, and what is left and what was
-- sold make up the stock.
pub sales_bounded :
    {S : Server} {C : OrderCache}
    → IsTransactional S
    → (x : Shop S C) (es : List Event) (sku : ℤ) (n : ℕ) → x.answers ≡ []
    → (S.tables x.service.db).stock sku ≡ some (pos n)
    → (left : ℕ) × ((S.tables (run x es).service.db).stock sku ≡ some (pos left))
      × (left + sales sku (run x es).answers ≡ n)
sales_bounded {S} {C} law x es sku n e q = sold_within _ _ _ n ((books_from law x es e).stock sku) q
