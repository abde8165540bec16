-- ===== src/Order/Shop/Lost.antt =====
-- Overlapping orders on a server that may carry out a COMMIT and report that it failed.
use seckill_cpp.Base.{
  ℕ, ◌+◌, ◌≤◌, Bool, true, false, Option, none, some, List, [], ◌∷◌, get_elem?, ◌≡◌, refl, arith,
  lit,
}
use seckill_cpp.Base.Int.{ℤ, pos}
use seckill_cpp.Database.{Server, MayLoseCommits, Tables}
use seckill_cpp.Order.{
  Service, OrderCache, Admission, turned_away, let_in, accept, admit, drop_token,
}
use seckill_cpp.Order.Transaction.{Fate, told, lost, order_transaction-Fate}
use seckill_cpp.Order.Shop.{
  Shop, Flight, Entry, Event, arrive, complete, step, run, sales, sales_to, one_if, arrived,
  complete_one,
}
use seckill_cpp.Order.Shop.Ledger.{
  Ledger, Ledger-start, Ledger-outcome, Ledger-refusal, sold_within,
}

-- The answers as they were given, and as they would be if no acknowledgement had been lost.
pub data Truth : List Entry → List Entry → Type 0 where
  no_answers : Truth [] []
  as_told : (a : Entry) (es es' : List Entry) → Truth es es' → Truth (a ∷ es) (a ∷ es')
  was_sold :
      (a : Entry) (es es' : List Entry)
      → a.answer.ok ≡ false
      → Truth es es'
      → Truth (a ∷ es) (record a { answer = accept (lit "OK") } ∷ es')

sales-Truth : (s : ℤ) (es es' : List Entry) → Truth es es' → sales s es ≤ sales s es'
unfolding sales
sales-Truth s _ _ no_answers = omega arith
sales-Truth s _ _ (as_told a es es' t) = ground (arith, sales-Truth s es es' t)
sales-Truth s _ _ (was_sold a es es' e t) = ground (arith, sales-Truth s es es' t)

sales_to-Truth : (u s : ℤ) (es es' : List Entry) → Truth es es' → sales_to u s es ≤ sales_to u s es'
unfolding sales_to
sales_to-Truth u s _ _ no_answers = omega arith
sales_to-Truth u s _ _ (as_told a es es' t) = ground (arith, sales_to-Truth u s es es' t)
sales_to-Truth u s _ _ (was_sold a es es' e t) = ground (arith, sales_to-Truth u s es es' t)

-- The books are right for the answers as they should have been.
pub record TrueBooks (start now : Tables) (answers : List Entry) : Type 0 where
  pub true_answers : List Entry
  pub truth : Truth answers true_answers
  pub ledger : Ledger start now true_answers

TrueBooks-refusal :
    (start now : Tables) (es : List Entry) (a : Entry)
    → TrueBooks start now es
    → a.answer.ok ≡ false
    → TrueBooks start now (a ∷ es)
TrueBooks-refusal start now es a b ng = record {
  true_answers = a ∷ b.true_answers;
  truth = as_told a es b.true_answers b.truth;
  ledger = Ledger-refusal start now b.true_answers a b.ledger ng;
}

TrueBooks-outcome :
    (start before after : Tables) (es : List Entry) (a : Entry)
    → TrueBooks start before es
    → Fate a.user a.sku before a.answer.ok after
    → TrueBooks start after (a ∷ es)
TrueBooks-outcome start before after es a b fate = by_fate a.answer.ok refl fate
  where
    by_fate :
        (ok : Bool)
        → a.answer.ok ≡ ok
        → Fate a.user a.sku before ok after
        → TrueBooks start after (a ∷ es)
    by_fate ok e (told _ _ sale) = record {
      true_answers = a ∷ b.true_answers;
      truth = as_told a es b.true_answers b.truth;
      ledger = Ledger-outcome start before after b.true_answers a b.ledger (rw e sale);
    }
    by_fate ok e (lost _ sale) = record {
      true_answers = record a { answer = accept (lit "OK") } ∷ b.true_answers;
      truth = was_sold a es b.true_answers e b.truth;
      ledger = Ledger-outcome start before after b.true_answers _ b.ledger sale;
    }

module _ {S : Server} {C : OrderCache} (law : MayLoseCommits S) (start : Tables) where
  abbrev InBooks : Shop S C → Type 0
  InBooks x = TrueBooks start (S.tables x.service.db) x.answers

  arrived-TrueBooks :
      (x : Shop S C) (user sku : ℤ) (a : Admission) (sv : Service S C)
      → sv.db ≡ x.service.db
      → InBooks x
      → InBooks (arrived x user sku (a, sv))
  unfolding arrived
  arrived-TrueBooks x user sku turned_away sv e b =
      TrueBooks-refusal start _ x.answers _ (rw e b) refl
  arrived-TrueBooks x user sku (let_in token) sv e b = rw e b

  complete_one-TrueBooks :
      (x : Shop S C) (i : ℕ) (f : Option Flight) → InBooks x → InBooks (complete_one x i f)
  unfolding complete_one drop_token
  complete_one-TrueBooks x i none b = b
  complete_one-TrueBooks x i (some f) b =
      TrueBooks-outcome start _ _ x.answers _ b (order_transaction-Fate law x.service f.user f.sku)

  step-TrueBooks : (x : Shop S C) (e : Event) → InBooks x → InBooks (step x e)
  unfolding step admit
  step-TrueBooks x (arrive user sku) b = arrived-TrueBooks x user sku _ _ refl b
  step-TrueBooks x (complete i) b = complete_one-TrueBooks x i (get_elem? x.flights i) b

  run-TrueBooks : (es : List Event) (x : Shop S C) → InBooks x → InBooks (run x es)
  unfolding run
  run-TrueBooks [] x b = b
  run-TrueBooks (e ∷ es) x b = run-TrueBooks es (step x e) (step-TrueBooks x e b)

one_if_le : (b : Bool) → one_if b ≤ 1
one_if_le true = omega arith
one_if_le false = omega arith

module _ {S : Server} {C : OrderCache} (law : MayLoseCommits S) where
  TrueBooks-from :
      (x : Shop S C) (es : List Event)
      → x.answers ≡ []
      → TrueBooks (S.tables x.service.db) (S.tables (run x es).service.db) (run x es).answers
  TrueBooks-from x es e = run-TrueBooks law (S.tables x.service.db) es x (
      rw e (record {
        true_answers = [];
        truth = no_answers;
        ledger = Ledger-start (S.tables x.service.db);
      }))

  -- Also if acknowledgements of commits get lost, nothing is oversold: what is left and what was
  -- answered as sold are at most the stock.
  sales_within :
      (x : Shop S C) (es : List Event) (sku : ℤ) (n : ℕ)
      → x.answers ≡ []
      → (S.tables x.service.db).stock sku ≡ some (pos n)
      → (left : ℕ) × ((S.tables (run x es).service.db).stock sku ≡ some (pos left))
        × (left + sales sku (run x es).answers ≤ n)
  sales_within x es sku n e q =
      let b = TrueBooks-from x es e in
      let (left, is_now, total) : (left : ℕ) × ((S.tables (run x es).service.db).stock sku
            ≡ some (pos left))
          × (left + sales sku b.true_answers ≡ n) =
        sold_within _ _ _ n (b.ledger.stock sku) q in
      (left, is_now, omega (arith, total, sales-Truth sku _ _ b.truth))

-- Nobody buys twice: for a server that keeps transactions, but may report a commit that it carried
-- out as failed, from an empty list of answers, no sequence of events gives a user two answers that
-- a piece of a SKU was sold, or one if the user had an order for it at the start.
pub sales_to_bounded :
    {S : Server} {C : OrderCache}
    → MayLoseCommits S
    → (x : Shop S C) (es : List Event) (user sku : ℤ) → x.answers ≡ []
    → one_if ((S.tables x.service.db).ordered user sku) + sales_to user sku (run x es).answers ≤ 1
sales_to_bounded {S} law x es user sku e =
    let b = TrueBooks-from law x es e in
    omega (
      arith,
      b.ledger.orders user sku,
      one_if_le ((S.tables (run x es).service.db).ordered user sku),
      sales_to-Truth user sku _ _ b.truth,
    )
