-- ===== src/Billing/Callback.antt =====
-- modules/billing/billing.service.ts: `handlePaymentCallback` and what it calls. A transaction that
-- throws leaves the orders as they were, so an error carries no state. `race` is what other
-- transactions commit between the first read and the conditional write, `race'` what they commit
-- between that write and the read after it, which sees them only where the write changed nothing.
use mib_server.Prelude.{
  ℕ, String, str_eq, Bool, false, ◌&&◌, ◌||◌, not, Option, none, some, List, Result, ok, err, ◌>>=◌,
  if◌then◌else◌, ◌==◌,
}
use mib_server.Database.{DbError, Delegate, is_prisma_unique_violation}
use mib_server.Http.{HttpError, rethrow}
use mib_server.Lessons.Data.{audit_on_update}
use mib_server.Billing.Orders.{Order, OrderStatus, order_conflict, status_eq, provider_is, text_is}
use mib_server.Billing.Signature.{
  PaymentCallbackDto, PaymentCallbackEvent, Crypto, build_payment_callback_sign_payload,
  verify_payment_callback_signature,
}

-- `dto.paidAt ? new Date(dto.paidAt) : new Date()`, by the runtime's parser and the time `now`
abbrev pub time_or_now : (String → ℕ) → ℕ → Option String → ℕ
time_or_now parse now none = now
time_or_now parse now (some s) = if str_eq s "" then now else parse s

abbrev pub has_order_no : String → Order → Bool
has_order_no order_no o = str_eq o.order_no order_no

-- The provider and the trade number of the callback stand in the order.
abbrev pub same_trade : Order → PaymentCallbackDto → Bool
same_trade o dto =
    provider_is o.payment_provider dto.provider && text_is o.provider_trade_no dto.provider_trade_no

-- `isSamePaidCallback`, `isSameRefundCallback`
abbrev pub is_same_paid_callback : Order → PaymentCallbackDto → Bool
is_same_paid_callback o dto = status_eq o.status OrderStatus.paid && same_trade o dto

abbrev pub is_same_refund_callback : Order → PaymentCallbackDto → Bool
is_same_refund_callback o dto = status_eq o.status OrderStatus.refunded && same_trade o dto

-- A trade number that is neither null nor empty and differs from the callback's.
abbrev pub other_trade_no : Option String → String → Bool
other_trade_no none s = false
other_trade_no (some t) s = not (str_eq t "") && not (str_eq t s)

abbrev pub set_paid : Option String → PaymentCallbackDto → ℕ → Order → Order
set_paid audit dto paid_at o = record o {
  status = OrderStatus.paid;
  payment_provider = some dto.provider;
  provider_trade_no = some dto.provider_trade_no;
  paid_at = some paid_at;
  updated_by = audit_on_update audit o.updated_by;
}

abbrev pub set_refunded : Option String → ℕ → Order → Order
set_refunded audit refunded_at o = record o {
  status = OrderStatus.refunded;
  refunded_at = some refunded_at;
  updated_by = audit_on_update audit o.updated_by;
}

-- The `where` clauses of the two conditional writes.
abbrev pub is_pending_order : String → Order → Bool
is_pending_order order_no o = has_order_no order_no o && status_eq o.status OrderStatus.pending

abbrev pub is_paid_order : String → Order → Bool
is_paid_order order_no o = has_order_no order_no o && status_eq o.status OrderStatus.paid

module _ (orders : Delegate Order order_conflict) (audit : Option String) where
  -- `findUniqueOrThrow`
  unfoldable pub find_or_throw : String → List Order → Result HttpError (Order × List Order)
  find_or_throw order_no t = elim (orders.find_first (has_order_no order_no) t) [
    | none ↦ err (HttpError.database DbError.failure)
    | some o ↦ ok (o, t)
  ]

  -- `resolvePaidCallbackAfterUniqueConflict`
  unfoldable pub resolve_paid_callback_after_unique_conflict :
      PaymentCallbackDto → List Order → Result HttpError (Order × List Order)
  unfolding find_or_throw
  resolve_paid_callback_after_unique_conflict dto t =
      elim (orders.find_first (λ o. same_trade o dto) t) [
        | none ↦ err (HttpError.conflict "支付交易号已被其他订单使用")
        | some by_trade ↦
            if str_eq by_trade.order_no dto.order_no
            then find_or_throw dto.order_no t
            else err (HttpError.conflict "支付交易号已被其他订单使用")
      ]

  -- `resolvePaidCallbackAfterRace`
  unfoldable pub resolve_paid_callback_after_race :
      PaymentCallbackDto → List Order → Result HttpError (Order × List Order)
  unfolding find_or_throw
  resolve_paid_callback_after_race dto t = elim (orders.find_first (has_order_no dto.order_no) t) [
    | none ↦ err (HttpError.conflict "支付处理冲突，请重试")
    | some again ↦
        if is_same_paid_callback again dto
        then find_or_throw dto.order_no t
        else err (HttpError.conflict "支付处理冲突，请重试")
  ]

  -- The conditional write of `markOrderPaid`, and what follows it.
  unfoldable pub write_paid :
      (List Order → List Order)
      → PaymentCallbackDto
      → ℕ
      → List Order
      → Result HttpError (Order × List Order)
  unfolding find_or_throw resolve_paid_callback_after_unique_conflict
      resolve_paid_callback_after_race
  write_paid race' dto paid_at t =
      elim (orders.update_many (is_pending_order dto.order_no) (set_paid audit dto paid_at) t) [
        | ok (n, t') ↦
            if n == 1
            then find_or_throw dto.order_no t'
            else resolve_paid_callback_after_race dto (race' t')
        | err error ↦
            if is_prisma_unique_violation error
            then resolve_paid_callback_after_unique_conflict dto t
            else err (HttpError.database error)
      ]

  -- `markOrderPaid`
  unfoldable pub mark_order_paid :
      (List Order → List Order)
      → (List Order → List Order)
      → PaymentCallbackDto
      → ℕ
      → List Order
      → Result HttpError (Order × List Order)
  unfolding write_paid
  mark_order_paid race race' dto paid_at t =
      elim (orders.find_first (has_order_no dto.order_no) t) [
        | none ↦ err (HttpError.not_found "订单不存在")
        | some order ↦
            if is_same_paid_callback order dto
            then ok (order, t)
            else if status_eq order.status OrderStatus.paid
            then err (HttpError.conflict "订单已支付")
            else if status_eq order.status OrderStatus.refunded
                || status_eq order.status OrderStatus.cancelled
            then err (HttpError.bad_request "订单状态不允许支付")
            else write_paid race' dto paid_at (race t)
      ]

  -- The conditional write of `markOrderRefunded`, and what follows it.
  unfoldable pub write_refunded :
      (List Order → List Order)
      → PaymentCallbackDto
      → ℕ
      → List Order
      → Result HttpError (Order × List Order)
  unfolding find_or_throw
  write_refunded race' dto refunded_at t =
      rethrow (orders.update_many (is_paid_order dto.order_no) (set_refunded audit refunded_at) t)
      >>= λ r.
          if r.0 == 1
          then find_or_throw dto.order_no r.1
          else elim (orders.find_first (has_order_no dto.order_no) (race' r.1)) [
            | none ↦ err (HttpError.conflict "退款处理冲突，请重试")
            | some again ↦
                if is_same_refund_callback again dto
                then find_or_throw dto.order_no (race' r.1)
                else err (HttpError.conflict "退款处理冲突，请重试")
          ]

  -- `markOrderRefunded`
  unfoldable pub mark_order_refunded :
      (List Order → List Order)
      → (List Order → List Order)
      → PaymentCallbackDto
      → ℕ
      → List Order
      → Result HttpError (Order × List Order)
  unfolding write_refunded find_or_throw
  mark_order_refunded race race' dto refunded_at t =
      elim (orders.find_first (has_order_no dto.order_no) t) [
        | none ↦ err (HttpError.not_found "订单不存在")
        | some order ↦
            if status_eq order.status OrderStatus.refunded
            then if is_same_refund_callback order dto
              then find_or_throw dto.order_no t
              else err (HttpError.conflict "订单已退款")
            else if not (status_eq order.status OrderStatus.paid)
            then err (HttpError.bad_request "仅已支付订单可退款")
            else if not (provider_is order.payment_provider dto.provider)
                || other_trade_no order.provider_trade_no dto.provider_trade_no
            then err (HttpError.conflict "退款回调与支付交易不匹配")
            else write_refunded race' dto refunded_at (race t)
      ]

  -- `handlePaymentCallback`, with the secret of the configuration
  unfoldable pub handle_payment_callback :
      Crypto
      → String
      → (String → ℕ)
      → ℕ
      → (List Order → List Order)
      → (List Order → List Order)
      → PaymentCallbackDto
      → Option String
      → List Order
      → Result HttpError (Order × List Order)
  unfolding mark_order_paid mark_order_refunded
  handle_payment_callback crypto secret parse now race race' dto signature t =
      if verify_payment_callback_signature crypto (build_payment_callback_sign_payload dto)
        signature secret
      then elim dto.event [
        | PaymentCallbackEvent.paid ↦
            mark_order_paid race race' dto (time_or_now parse now dto.paid_at) t
        | PaymentCallbackEvent.refunded ↦
            mark_order_refunded race race' dto (time_or_now parse now dto.paid_at) t
      ]
      else err (HttpError.unauthorized "Invalid payment signature")
