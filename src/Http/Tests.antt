-- ===== src/Http/Tests.antt =====
-- Requests at the interface, and the theorems on them.
use seckill_cpp.Base.{
  suc, true, not, some, Bytes, lit, ◌++◌, [], ◌∷◌, List, ◌==◌, ◌≡◌, refl, starts_with, ap, sym,
  some_injective,
}
use seckill_cpp.Base.Int.{ℤ, pos}
use seckill_cpp.Base.Decimal.Parse.{stoll}
use seckill_cpp.Json.{Field, num}
use seckill_cpp.Redis.{answered, unreachable}
use seckill_cpp.Redis.Model.{Plain, Plain-IsRedis}
use seckill_cpp.Auth.RegisterGuard.{check}
use seckill_cpp.Auth.Account.{State, register_user, authenticate}
use seckill_cpp.Auth.Account.Tests as AccountTests
use seckill_cpp.Auth.Account.Tests.{settings, known, nobody, phone, token, claims_with}
use seckill_cpp.Auth.Jwt.Tests.{small}
use seckill_cpp.Order.Tests.{Steady, Steady-IsTransactional, Counting, steady}
use seckill_cpp.Products.Tests.{products, Small}
use seckill_cpp.Products.{bloom_allows, filter_allows}
use seckill_cpp.Http.{HttpResponse, Handled}
use seckill_cpp.Http.Seckill.{Outcome, order_request, order_request-Outcome}
use seckill_cpp.Http.Product.{detail_request, wanted, detail_request_lem}
use seckill_cpp.Http.Account.{
  extract_bearer_token, drop_bytes, trim_end, register_reply, logout_request,
}
use seckill_cpp.Http.Account.Statuses.{register_user-429}
use seckill_cpp.Http.Account.Logout.{authenticate-logout_request}

bearer_test : extract_bearer_token (lit "Bearer abc  ") ≡ lit "abc"
unfolding extract_bearer_token drop_bytes trim_end starts_with
bearer_test = refl

-- A blank in front of the token is kept.
bearer_front : extract_bearer_token (lit "Bearer  abc") ≡ lit " abc"
unfolding extract_bearer_token drop_bytes trim_end starts_with
bearer_front = refl

register_user-429_example :
    ((register_reply small
        (register_user settings
          (answered, (answered, answered))
          phone
          (lit "secret")
          []
          (lit "10.0.0.1")
          (lit "ab")
          nobody).0).status
      == 429)
    ≡ not (check Plain settings.register_guard answered (lit "10.0.0.1") nobody.store).0
register_user-429_example =
    register_user-429 small settings answered answered answered phone (lit "secret") []
      (lit "10.0.0.1") (lit "ab") nobody

authenticate-logout_request_example :
    (r : HttpResponse small.Value) × (st : State AccountTests.Small Plain) × (logout_request small
        settings answered
        (lit "Bearer " ++ (token ++ lit "  "))
        1
        known
      ≡ Handled.answered r st)
    × (r.status ≡ 200)
    × ((authenticate settings answered token 1 st).0 ≡ some (pos 0))
authenticate-logout_request_example =
    authenticate-logout_request small Plain-IsRedis settings token (lit "  ")
      (claims_with (lit "j") (pos 7)) 1 known refl (refl, (refl, tt)) refl

abbrev order_body : List (Bytes × Field)
order_body = (lit "userId", num (pos 7)) ∷ (lit "skuId", num (pos 1)) ∷ []

order_request-Outcome_example :
    Outcome small {S = Steady} {C = Counting}
      (some order_body)
      steady
      (order_request small (some order_body) steady)
order_request-Outcome_example =
    order_request-Outcome {J = small} Steady-IsTransactional steady (some order_body)

bloom_open : (sku : ℤ) → bloom_allows sku products ≡ true
unfolding bloom_allows filter_allows
bloom_open sku = refl

detail_request_lem_example :
    (detail_request (unreachable, answered) 5 3 (lit "2") products).0
    ≡ wanted Small products.db (stoll (lit "2"))
detail_request_lem_example =
    detail_request_lem answered 5 3 (lit "2") products
      (λ c e. ap (λ x. x.lru) (sym (some_injective e))) (λ n e. bloom_open (pos (suc n)))
