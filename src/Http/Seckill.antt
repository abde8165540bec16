-- ===== src/Http/Seckill.antt =====
-- src/controllers/SeckillController.cc: the order request.
use seckill_cpp.Base.{
  Bool, true, false, ◌||◌, Option, none, some, lit, if◌then◌else◌, ◌==◌, str_eq, [], ◌∷◌, ◌≡◌, refl,
  sym, subst, arith,
}
use seckill_cpp.Base.Int.{ℤ}
use seckill_cpp.Json.{Json, lacks}
use seckill_cpp.Database.{Server, IsTransactional}
use seckill_cpp.Order.{Answer, Service, OrderCache, do_seckill}
use seckill_cpp.Order.Transaction.{Sale}
use seckill_cpp.Order.Whole.{do_seckill-Sale}
use seckill_cpp.Http.{HttpResponse, Handled, answered, threw, reply, read_or_throw}

-- The callback of `doSeckill`.
unfoldable pub order_reply {ℓ} : {D : Type ℓ} → Answer → HttpResponse D
order_reply a =
    if a.ok
    then reply 0 (lit "success") 200
    else (if str_eq a.msg (lit "SOLD_OUT") || str_eq a.msg (lit "DUPLICATE_ORDER")
        then reply 1 a.msg 409
        else reply 1 a.msg 500)

unfoldable pub order_bad {ℓ} : {D : Type ℓ} → HttpResponse D
order_bad = reply 400 (lit "missing or invalid userId/skuId") 400

order_reply-ok {ℓ} : (D : Type ℓ) (a : Answer) → ((order_reply {D = D} a).status == 200) ≡ a.ok
unfolding order_reply reply
order_reply-ok D a = ground arith

order_reply_statuses {ℓ} :
    (D : Type ℓ) (a : Answer)
    → (let n = (order_reply {D = D} a).status in n == 200 || n == 409 || n == 500) ≡ true
unfolding order_reply reply
order_reply_statuses D a = ground arith

module _ (J : Json) where
  -- The body has both members.
  pub record IsComplete (json : J.Value) : Type 0 where
    pub user : J.is_member (lit "userId") json ≡ some true
    pub sku : J.is_member (lit "skuId") json ≡ some true

  -- The body is no JSON or lacks a member.
  pub data Lacking (body : Option J.Value) : Type 0 where
    no_json : body ≡ none → Lacking body
    no_user :
        (json : J.Value)
        → body ≡ some json
        → J.is_member (lit "userId") json ≡ some false
        → Lacking body
    no_sku :
        (json : J.Value)
        → body ≡ some json
        → J.is_member (lit "userId") json ≡ some true
        → J.is_member (lit "skuId") json ≡ some false
        → Lacking body

  -- jsoncpp throws: at the look for a member, or at the reading of a number in a body with both.
  pub data Unreadable (body : Option J.Value) : Type 0 where
    unclear_user :
        (json : J.Value)
        → body ≡ some json
        → J.is_member (lit "userId") json ≡ none
        → Unreadable body
    unclear_sku :
        (json : J.Value)
        → body ≡ some json
        → J.is_member (lit "userId") json ≡ some true
        → J.is_member (lit "skuId") json ≡ none
        → Unreadable body
    bad_user :
        (json : J.Value)
        → body ≡ some json
        → IsComplete json
        → J.get_int64 (lit "userId") json ≡ none
        → Unreadable body
    bad_sku :
        (json : J.Value) (user : ℤ)
        → body ≡ some json
        → IsComplete json
        → J.get_int64 (lit "userId") json ≡ some user
        → J.get_int64 (lit "skuId") json ≡ none
        → Unreadable body

module _ (J : Json) {S : Server} {C : OrderCache} where
  order_answered : Answer × Service S C → Handled J.Value (Service S C)
  order_answered (a, sv) = answered (order_reply a) sv

  unfoldable pub order_fields : Service S C → J.Value → Handled J.Value (Service S C)
  unfolding order_answered
  order_fields sv json = read_or_throw sv (J.get_int64 (lit "userId") json) λ user.
      read_or_throw sv (J.get_int64 (lit "skuId") json)
        λ sku. order_answered (do_seckill sv user sku)

  -- `seckill`, for the body as JSON if it is that.
  unfoldable pub order_request : Option J.Value → Service S C → Handled J.Value (Service S C)
  order_request none sv = answered order_bad sv
  order_request (some json) sv =
      read_or_throw sv (lacks J (lit "userId" ∷ lit "skuId" ∷ []) json)
        λ missing. if missing then answered order_bad sv else order_fields sv json

  -- What a request comes to: for a body with both members and their numbers, a response after an
  -- attempt of that user to buy that SKU, with status 200 if it was sold and 409 or 500 if nothing
  -- was changed; for one that lacks something, 400; and for one that cannot be read, an exception,
  -- the last two with the service untouched. No body is in two of the cases.
  pub data Outcome (body : Option J.Value) (sv : Service S C) (h : Handled J.Value (Service S C))
      : Type 0 where
    attempted :
        (json : J.Value) (user sku : ℤ) (r : HttpResponse J.Value) (sv' : Service S C)
        → body ≡ some json
        → IsComplete J json
        → J.get_int64 (lit "userId") json ≡ some user
        → J.get_int64 (lit "skuId") json ≡ some sku
        → h ≡ answered r sv'
        → Sale user sku (S.tables sv.db) (r.status == 200) (S.tables sv'.db)
        → (r.status == 200 || r.status == 409 || r.status == 500) ≡ true
        → Outcome body sv h
    untouched :
        (r : HttpResponse J.Value)
        → Lacking J body
        → h ≡ answered r sv
        → r.status ≡ 400
        → Outcome body sv h
    unread : Unreadable J body → h ≡ threw sv → Outcome body sv h

module _ {J : Json} {S : Server} {C : OrderCache} (law : IsTransactional S) where
  fields-Outcome :
      (sv : Service S C) (json : J.Value)
      → IsComplete J json
      → Outcome J (some json) sv (order_fields J sv json)
  unfolding order_fields read_or_throw
  fields-Outcome sv json both = by_user (J.get_int64 (lit "userId") json) refl
    where
      by_sku :
          (user : ℤ)
          → J.get_int64 (lit "userId") json ≡ some user
          → (o : Option ℤ) → J.get_int64 (lit "skuId") json ≡ o
          → Outcome J
              (some json)
              sv
              (read_or_throw sv o λ sku. order_answered J (do_seckill sv user sku))
      by_sku user e none e' = unread (bad_sku json user refl both e e') refl
      by_sku user e (some sku) e' =
          attempted json user sku (order_reply (do_seckill sv user sku).0)
            (do_seckill sv user sku).1 refl both e e' refl
            (subst (λ b. Sale user sku (S.tables sv.db) b (S.tables (do_seckill sv user sku).1.db))
              (sym (order_reply-ok J.Value (do_seckill sv user sku).0))
              (do_seckill-Sale law sv user sku))
            (order_reply_statuses J.Value (do_seckill sv user sku).0)

      by_user :
          (o : Option ℤ)
          → J.get_int64 (lit "userId") json ≡ o
          → Outcome J (some json) sv (
              read_or_throw sv o λ user.
                read_or_throw sv
                  (J.get_int64 (lit "skuId") json)
                  λ sku. order_answered J (do_seckill sv user sku))
      by_user none e = unread (bad_user json refl both e) refl
      by_user (some user) e = by_sku user e (J.get_int64 (lit "skuId") json) refl

  by_members :
      (sv : Service S C) (json : J.Value) (o o' : Option Bool)
      → J.is_member (lit "userId") json ≡ o
      → J.is_member (lit "skuId") json ≡ o'
      → Outcome J (some json) sv (order_request J (some json) sv)
  unfolding order_request lacks read_or_throw order_bad reply
  by_members sv json none o' e e' = unread (unclear_user json refl e) (rw e refl)
  by_members sv json (some false) o' e e' =
      untouched order_bad (no_user json refl e) (rw e refl) refl
  by_members sv json (some true) none e e' = unread (unclear_sku json refl e e') (rw (e, e') refl)
  by_members sv json (some true) (some false) e e' =
      untouched order_bad (no_sku json refl e e') (rw (e, e') refl) refl
  by_members sv json (some true) (some true) e e' =
      rw (e, e') (fields-Outcome sv json (record { user = e; sku = e' }))

  -- For a server that keeps transactions, any service and any body: the answer is 200 exactly if
  -- one piece of the SKU in the body was sold to the user in the body, who had no order for it. With
  -- 409 or 500 the tables are as they were. A body that is no JSON or lacks a member is answered
  -- with 400, and one that jsoncpp cannot read by an exception, both with the service untouched.
  pub order_request-Outcome :
      (sv : Service S C) (body : Option J.Value) → Outcome J body sv (order_request J body sv)
  unfolding order_request order_bad reply
  order_request-Outcome sv none = untouched order_bad (no_json refl) refl refl
  order_request-Outcome sv (some json) = by_members sv json _ _ refl refl
