-- ===== src/Billing/Orders.antt =====
-- modules/billing/billing.service.ts: the orders, their creation under an idempotency key, and the
-- queries; modules/billing/order.serializer.ts. `serializeOrder` adds to a row the text of its
-- amount; the column values stay, so an answer is the row and that text. The tenant filter of
-- `Rbac/Tenant` comes on top of the reads.
use mib_server.Prelude.{
  ℕ, String, str_eq, Bool, true, false, ◌&&◌, ◌||◌, Option, none, some, List, [], ◌∷◌, Result, ok,
  err, ◌>>=◌, if◌then◌else◌,
}
use mib_server.Database.{Delegate, is_prisma_unique_violation}
use mib_server.Http.{HttpError}
use mib_server.Rbac.Scope.{AccessContext}
use mib_server.Rbac.Tenant.{
  Args, Operation, all_operations, resolve_tenant_where, rewrite_query, rewrite_create,
}

pub data OrderStatus : Type 0 where
  pending paid refunded cancelled : OrderStatus

pub data PaymentProvider : Type 0 where
  mock wechat alipay : PaymentProvider

pub record Order : Type 0 where
  pub id : String
  pub tenant_id : Option String
  pub order_no : String
  pub student_id : Option String
  pub title : String
  pub amount_cents : ℕ
  pub currency : String
  pub status : OrderStatus
  pub payment_provider : Option PaymentProvider
  pub provider_trade_no : Option String
  pub idempotency_key : Option String
  pub paid_at : Option ℕ
  pub refunded_at : Option ℕ
  pub created_by : Option String
  pub updated_by : Option String

-- `===` of two statuses, and of two providers.
abbrev pub status_eq : OrderStatus → OrderStatus → Bool
status_eq OrderStatus.pending OrderStatus.pending = true
status_eq OrderStatus.paid OrderStatus.paid = true
status_eq OrderStatus.refunded OrderStatus.refunded = true
status_eq OrderStatus.cancelled OrderStatus.cancelled = true
status_eq _ _ = false

abbrev pub provider_eq : PaymentProvider → PaymentProvider → Bool
provider_eq PaymentProvider.mock PaymentProvider.mock = true
provider_eq PaymentProvider.wechat PaymentProvider.wechat = true
provider_eq PaymentProvider.alipay PaymentProvider.alipay = true
provider_eq _ _ = false

-- A nullable column against a value.
abbrev pub provider_is : Option PaymentProvider → PaymentProvider → Bool
provider_is none p = false
provider_is (some q) p = provider_eq q p

abbrev pub text_is : Option String → String → Bool
text_is none s = false
text_is (some t) s = str_eq t s

abbrev pub providers_meet : Option PaymentProvider → Option PaymentProvider → Bool
providers_meet none q = false
providers_meet (some p) q = provider_is q p

abbrev pub texts_meet : Option String → Option String → Bool
texts_meet none t = false
texts_meet (some s) t = text_is t s

-- The unique constraints of `Order`: id, orderNo, idempotencyKey, (paymentProvider,
-- providerTradeNo).
abbrev pub order_conflict : Order → Order → Bool
order_conflict a b =
    str_eq a.id b.id
    || (str_eq a.order_no b.order_no
        || (texts_meet a.idempotency_key b.idempotency_key
            || (providers_meet a.payment_provider b.payment_provider
                && texts_meet a.provider_trade_no b.provider_trade_no)))

-- dto/create-order.dto.ts
pub record CreateOrderDto : Type 0 where
  pub student_id : Option String
  pub title : String
  pub amount_cents : ℕ
  pub currency : Option String

-- The part of a student row that is read.
pub record StudentRow : Type 0 where
  pub id : String
  pub tenant_id : Option String

abbrev pub student_conflict : StudentRow → StudentRow → Bool
student_conflict a b = str_eq a.id b.id

abbrev pub default_currency : String
default_currency = "CNY"

abbrev pub currency_or_default : Option String → String
currency_or_default none = default_currency
currency_or_default (some c) = c

module _ (students : Delegate StudentRow student_conflict) (orders : Delegate Order order_conflict)
    (audit : Option String) where
  -- The tenant of the order: that of the student, if the request names one. An empty id counts as
  -- none.
  unfoldable pub order_tenant : Option String → List StudentRow → Result HttpError (Option String)
  order_tenant none rows = ok none
  order_tenant (some id) rows =
      if str_eq id "" then ok none else elim (students.find_first (λ s. str_eq s.id id) rows) [
        | none ↦ err (HttpError.not_found "学员不存在")
        | some s ↦ ok s.tenant_id
      ]

  -- The row that `createOrder` inserts; `id` and `order_no` are what the generators give.
  unfoldable pub new_order : String → String → Option String → CreateOrderDto → String → Order
  new_order id order_no tenant_id dto key = record {
    id = id;
    tenant_id = tenant_id;
    order_no = order_no;
    student_id = dto.student_id;
    title = dto.title;
    amount_cents = dto.amount_cents;
    currency = currency_or_default dto.currency;
    status = OrderStatus.pending;
    payment_provider = none;
    provider_trade_no = none;
    idempotency_key = some key;
    paid_at = none;
    refunded_at = none;
    created_by = audit;
    updated_by = audit;
  }

  -- The tenant column as the Prisma extension passes the insert on: that of the request's context
  -- where the row names none.
  unfoldable pub created_tenant : Option AccessContext → Option String → Option String
  unfolding all_operations resolve_tenant_where rewrite_query rewrite_create
  created_tenant ctx tenant_id =
      let args : Args = record {
        filter = none;
        data_tenants = tenant_id ∷ [];
        create_tenant = none;
      } in
      elim (all_operations false ctx "Order" Operation.create args).1.data_tenants [
        | [] ↦ none
        | own ∷ _ ↦ own
      ]

  -- The insert, and what follows a unique violation. `race` is what other requests commit between
  -- the look-up by key and the insert.
  unfoldable pub insert_order : Order → String → List Order → Result HttpError (Order × List Order)
  insert_order row key t = elim (orders.create row t) [
    | ok t' ↦ ok (row, t')
    | err error ↦
        if is_prisma_unique_violation error
        then elim (orders.find_first (λ o. text_is o.idempotency_key key) t) [
          | some winner ↦ ok (winner, t)
          | none ↦ err (HttpError.database error)
        ]
        else err (HttpError.database error)
  ]

  -- `createOrder`, in the context of a request
  unfoldable pub create_order :
      Option AccessContext
      → (List Order → List Order)
      → String
      → String
      → CreateOrderDto
      → String
      → List StudentRow
      → List Order
      → Result HttpError (Order × List Order)
  unfolding order_tenant created_tenant new_order insert_order
  create_order ctx race id order_no dto key rows t =
      order_tenant dto.student_id rows >>= λ tenant_id.
      elim (orders.find_first (λ o. text_is o.idempotency_key key) t) [
        | some existing ↦ ok (existing, t)
        | none ↦
            insert_order (new_order id order_no (created_tenant ctx tenant_id) dto key) key (race t)
      ]

  -- `findByOrderNo`
  unfoldable pub find_by_order_no : String → List Order → Option Order
  find_by_order_no order_no t = orders.find_first (λ o. str_eq o.order_no order_no) t
