-- ===== src/Order/Shop.antt =====
-- Requests to `doSeckill` that overlap: one that was let in waits with its token, while others
-- arrive and finish in any order. A transaction is one step, under its lock on the SKU's row.
pub mod Ledger
pub mod Flights
pub mod Lost
pub mod Marks
use seckill_cpp.Base.{
  ℕ, zero, suc, ◌+◌, Bool, true, false, ◌&&◌, ◌||◌, Option, none, some, List, [], ◌∷◌, get_elem?,
  lit, if◌then◌else◌,
}
use seckill_cpp.Base.Int.{ℤ, int_eq}
use seckill_cpp.Database.{Server}
use seckill_cpp.Order.{
  Answer, Service, OrderCache, Admission, turned_away, let_in, refuse, admit, order_transaction,
  drop_token,
}

-- A request between `newTransactionAsync` and its callback.
pub record Flight : Type 0 where
  pub user : ℤ
  pub sku : ℤ
  pub token : Option ℕ

pub record Entry : Type 0 where
  pub user : ℤ
  pub sku : ℤ
  pub answer : Answer

pub record Shop (S : Server) (C : OrderCache) : Type 0 where
  pub service : Service S C
  pub flights : List Flight
  pub answers : List Entry

pub data Event : Type 0 where
  arrive : ℤ → ℤ → Event
  complete : ℕ → Event

unfoldable pub remove_at : ℕ → List Flight → List Flight
remove_at i [] = []
remove_at zero (f ∷ fs) = fs
remove_at (suc i) (f ∷ fs) = f ∷ remove_at i fs

module _ {S : Server} {C : OrderCache} where
  arrived : Shop S C → ℤ → ℤ → Admission × Service S C → Shop S C
  arrived x user sku (turned_away, sv) = record x {
    service = sv;
    answers =
        record { user = user; sku = sku; answer = refuse (lit "DUPLICATE_ORDER") } ∷ x.answers;
  }
  arrived x user sku (let_in token, sv) = record x {
    service = sv;
    flights = record { user = user; sku = sku; token = token } ∷ x.flights;
  }

  completed : Shop S C → ℕ → Flight → Answer × Service S C → Shop S C
  completed x i f (answer, sv) = record x {
    service = drop_token sv f.token;
    flights = remove_at i x.flights;
    answers = record { user = f.user; sku = f.sku; answer = answer } ∷ x.answers;
  }

  -- The i-th request in flight gets its transaction.
  complete_one : Shop S C → ℕ → Option Flight → Shop S C
  unfolding completed
  complete_one x i none = x
  complete_one x i (some f) = completed x i f (order_transaction x.service f.user f.sku)

  unfoldable pub step : Shop S C → Event → Shop S C
  unfolding arrived complete_one
  step x (arrive user sku) = arrived x user sku (admit x.service user sku)
  step x (complete i) = complete_one x i (get_elem? x.flights i)

  unfoldable pub run : Shop S C → List Event → Shop S C
  run x [] = x
  run x (e ∷ es) = run (step x e) es

-- How many pieces of a SKU were sold, to one user and in all.
abbrev pub one_if : Bool → ℕ
one_if true = 1
one_if false = 0

abbrev pub is_sale : ℤ → Entry → Bool
is_sale sku a = a.answer.ok && int_eq sku a.sku

abbrev pub is_sale_to : ℤ → ℤ → Entry → Bool
is_sale_to user sku a = a.answer.ok && (int_eq user a.user && int_eq sku a.sku)

unfoldable pub sales : ℤ → List Entry → ℕ
sales sku [] = 0
sales sku (a ∷ rest) = let n = sales sku rest in if is_sale sku a then n + 1 else n

unfoldable pub sales_to : ℤ → ℤ → List Entry → ℕ
sales_to user sku [] = 0
sales_to user sku (a ∷ rest) =
    let n = sales_to user sku rest in if is_sale_to user sku a then n + 1 else n
