-- ===== src/Billing/Status.antt =====
-- Which orders a callback changes: `markOrderPaid` and `markOrderRefunded` of
-- modules/billing/billing.service.ts, when nothing interferes.
use mib_server.Prelude.{
  false, true, Member, ℕ, ◌≡◌, refl, sym, ap, subst, String, str_eq, Bool, ◌||◌, inl, inr, ◌⊎◌,
  Option, none, some, List, Result, ok, err, ok-injective, Bool-cases, if◌then◌else◌, ◌==◌,
  update_where,
}
use mib_server.Database.{DbError, Delegate, is_prisma_unique_violation}
use mib_server.Http.{HttpError}
use mib_server.Billing.Orders.{provider_is, Order, OrderStatus, order_conflict, status_eq}
use mib_server.Billing.Signature.{PaymentCallbackEvent, PaymentCallbackDto}
use mib_server.Billing.Callback.{
  other_trade_no, has_order_no, same_trade, is_same_paid_callback, set_paid, set_refunded,
  is_pending_order, is_paid_order, find_or_throw, resolve_paid_callback_after_unique_conflict,
  resolve_paid_callback_after_race, write_paid, mark_order_paid,
}
use mib_server.Billing.Trade.{find_or_throw-Member}

abbrev pub undisturbed : List Order → List Order
undisturbed t = t

-- The orders after a paid callback: as before, or with the pending orders of its number paid and no
-- other changed.
abbrev pub IsPaidChange : Option String → PaymentCallbackDto → ℕ → List Order → List Order → Type 0
IsPaidChange audit dto at t t' =
    (t' ≡ t) ⊎ (t' ≡ update_where (is_pending_order dto.order_no) (set_paid audit dto at) t)

-- The orders have one of the callback's number and provider, which was paid by the callback's trade
-- or by none that is known.
abbrev pub IsMatched : PaymentCallbackDto → List Order → Type 0
IsMatched dto t =
    (o : Order) × (Member o t
      × ((has_order_no dto.order_no o ≡ true)
          × ((status_eq o.status OrderStatus.paid ≡ true)
              × ((provider_is o.payment_provider dto.provider ≡ true)
                  × (other_trade_no o.provider_trade_no dto.provider_trade_no ≡ false)))))

-- The orders after a refund callback: as before, or, where one matched the callback, with the paid
-- orders of its number refunded and no other changed.
abbrev pub IsRefundChange :
    Option String → PaymentCallbackDto → ℕ → List Order → List Order → Type 0
IsRefundChange audit dto at t t' =
    (t' ≡ t)
    ⊎ (IsMatched dto t × (t' ≡ update_where (is_paid_order dto.order_no) (set_refunded audit at) t))

-- What the event of the callback allows.
abbrev pub IsChange :
    PaymentCallbackEvent → Option String → PaymentCallbackDto → ℕ → List Order → List Order → Type 0
IsChange PaymentCallbackEvent.paid audit dto at t t' = IsPaidChange audit dto at t t'
IsChange PaymentCallbackEvent.refunded audit dto at t t' = IsRefundChange audit dto at t t'

module _ (orders : Delegate Order order_conflict) (audit : Option String) where
  -- What holds of a table holds of the one that a look-up answers with.
  pub find_or_throw-same :
      (P : List Order → Type 0) (dto : PaymentCallbackDto) (t' : List Order)
      {q : Order × List Order}
      → P t'
      → find_or_throw orders audit dto.order_no t' ≡ ok q
      → P q.1
  find_or_throw-same P dto t' change h =
      subst P (sym (find_or_throw-Member orders audit dto.order_no t' h).2) change

  resolve-unique-IsPaidChange :
      (dto : PaymentCallbackDto) (at : ℕ) (t : List Order) {q : Order × List Order}
      → resolve_paid_callback_after_unique_conflict orders audit dto t ≡ ok q
      → IsPaidChange audit dto at t q.1
  unfolding resolve_paid_callback_after_unique_conflict
  resolve-unique-IsPaidChange dto at t {q} h = go (orders.find_first (λ o. same_trade o dto) t) h
    where
      go :
          (found : Option Order)
          → (elim found [
            | none ↦ err (HttpError.conflict "支付交易号已被其他订单使用")
            | some by_trade ↦
                if str_eq by_trade.order_no dto.order_no
                then find_or_throw orders audit dto.order_no t
                else err (HttpError.conflict "支付交易号已被其他订单使用")
          ])
            ≡ ok q
          → IsPaidChange audit dto at t q.1
      go none a = absurd (cc)
      go (some by_trade) a = elim (Bool-cases (str_eq by_trade.order_no dto.order_no)) [
        | inl e ↦ find_or_throw-same (IsPaidChange audit dto at t) dto t (inl refl) (rw e at a)
        | inr e ↦ absurd (cc (rw e at a))
      ]

  resolve-race-IsPaidChange :
      (dto : PaymentCallbackDto) (at : ℕ) (t t' : List Order) {q : Order × List Order}
      → IsPaidChange audit dto at t t'
      → resolve_paid_callback_after_race orders audit dto t' ≡ ok q
      → IsPaidChange audit dto at t q.1
  unfolding resolve_paid_callback_after_race
  resolve-race-IsPaidChange dto at t t' {q} change h =
      go (orders.find_first (has_order_no dto.order_no) t') h
    where
      go :
          (found : Option Order)
          → (elim found [
            | none ↦ err (HttpError.conflict "支付处理冲突，请重试")
            | some again ↦
                if is_same_paid_callback again dto
                then find_or_throw orders audit dto.order_no t'
                else err (HttpError.conflict "支付处理冲突，请重试")
          ])
            ≡ ok q
          → IsPaidChange audit dto at t q.1
      go none a = absurd (cc)
      go (some again) a = elim (Bool-cases (is_same_paid_callback again dto)) [
        | inl e ↦ find_or_throw-same (IsPaidChange audit dto at t) dto t' change (rw e at a)
        | inr e ↦ absurd (cc (rw e at a))
      ]

  write_paid-IsPaidChange :
      (dto : PaymentCallbackDto) (at : ℕ) (t : List Order) {q : Order × List Order}
      → write_paid orders audit undisturbed dto at t ≡ ok q
      → IsPaidChange audit dto at t q.1
  unfolding write_paid
  write_paid-IsPaidChange dto at t {q} h =
      go (orders.update_many (is_pending_order dto.order_no) (set_paid audit dto at) t) refl h
    where
      go :
          (m : Result DbError (ℕ × List Order))
          → orders.update_many (is_pending_order dto.order_no) (set_paid audit dto at) t ≡ m
          → (elim m [
            | ok (n, t') ↦
                if n == 1
                then find_or_throw orders audit dto.order_no t'
                else resolve_paid_callback_after_race orders audit dto t'
            | err error ↦
                if is_prisma_unique_violation error
                then resolve_paid_callback_after_unique_conflict orders audit dto t
                else err (HttpError.database error)
          ])
            ≡ ok q
          → IsPaidChange audit dto at t q.1
      go (err error) w a = elim (Bool-cases (is_prisma_unique_violation error)) [
        | inl e ↦ resolve-unique-IsPaidChange dto at t (rw e at a)
        | inr e ↦ absurd (cc (rw e at a))
      ]
      go (ok (n, t')) w a =
          let change : IsPaidChange audit dto at t t' = inr (orders.update_many_ok _ _ t w).1 in
          elim (Bool-cases (n == 1)) [
            | inl e ↦ find_or_throw-same (IsPaidChange audit dto at t) dto t' change (rw e at a)
            | inr e ↦ resolve-race-IsPaidChange dto at t t' change (rw e at a)
          ]

  pub mark_order_paid-IsPaidChange :
      (dto : PaymentCallbackDto) (at : ℕ) (t : List Order) {q : Order × List Order}
      → mark_order_paid orders audit undisturbed undisturbed dto at t ≡ ok q
      → IsPaidChange audit dto at t q.1
  unfolding mark_order_paid
  mark_order_paid-IsPaidChange dto at t {q} h =
      go (orders.find_first (has_order_no dto.order_no) t) h
    where
      barred : Order → Bool
      barred o = status_eq o.status OrderStatus.refunded || status_eq o.status OrderStatus.cancelled

      go :
          (found : Option Order)
          → (elim found [
            | none ↦ err (HttpError.not_found "订单不存在")
            | some order ↦
                if is_same_paid_callback order dto
                then ok (order, t)
                else if status_eq order.status OrderStatus.paid
                then err (HttpError.conflict "订单已支付")
                else if barred order
                then err (HttpError.bad_request "订单状态不允许支付")
                else write_paid orders audit undisturbed dto at t
          ])
            ≡ ok q
          → IsPaidChange audit dto at t q.1
      go none a = absurd (cc)
      go (some order) a = elim (Bool-cases (is_same_paid_callback order dto)) [
        | inl e ↦ inl (sym (ap (λ r. r.1) (ok-injective (rw e at a))))
        | inr e ↦ elim (Bool-cases (status_eq order.status OrderStatus.paid)) [
          | inl e' ↦ absurd (cc (rw e' at (rw e at a)))
          | inr e' ↦ elim (Bool-cases (barred order)) [
            | inl e″ ↦ absurd (cc (rw e″ at (rw e' at (rw e at a))))
            | inr e″ ↦ write_paid-IsPaidChange dto at t (rw e″ at (rw e' at (rw e at a)))
          ]
        ]
      ]
