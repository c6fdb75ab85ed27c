-- ===== src/Billing/Refund.antt =====
-- Which orders `handlePaymentCallback` of modules/billing/billing.service.ts changes: the refund, and
-- the two events together.
use mib_server.Prelude.{
  arith, sym, false, first_match, true, ℕ, ◌≡◌, refl, String, Bool, ◌||◌, not, inl, inr, Option,
  none, some, List, ok, err, >>=-eq-ok, Bool-cases, if◌then◌else◌, ◌==◌,
}
use mib_server.Database.{Delegate}
use mib_server.Database.Consistency.{first_match-Member}
use mib_server.Http.{HttpError, rethrow}
use mib_server.Courses.Preservation.{rethrow-eq-ok}
use mib_server.Billing.Orders.{Order, OrderStatus, order_conflict, status_eq, provider_is}
use mib_server.Billing.Signature.{
  PaymentCallbackEvent, PaymentCallbackDto, Crypto, verify_payment_callback_signature,
  build_payment_callback_sign_payload,
}
use mib_server.Billing.Callback.{
  time_or_now, has_order_no, same_trade, is_same_refund_callback, other_trade_no, set_refunded,
  is_paid_order, find_or_throw, write_refunded, mark_order_paid, mark_order_refunded,
  handle_payment_callback,
}
use mib_server.Billing.Status.{
  IsChange, IsMatched, IsRefundChange, undisturbed, find_or_throw-same,
  mark_order_paid-IsPaidChange,
}

module _ (orders : Delegate Order order_conflict) (audit : Option String) where
  write_refunded-IsRefundChange :
      (dto : PaymentCallbackDto) (at : ℕ) (t : List Order) {q : Order × List Order}
      → IsMatched dto t
      → write_refunded orders audit undisturbed dto at t ≡ ok q
      → IsRefundChange audit dto at t q.1
  unfolding write_refunded
  write_refunded-IsRefundChange dto at t {q} matched h =
      let (r, written, h') =
        >>=-eq-ok
          (rethrow (orders.update_many (is_paid_order dto.order_no) (set_refunded audit at) t)) _
          h in
      go r.0 r.1 (inr (matched, (orders.update_many_ok _ _ t (rethrow-eq-ok _ written)).1)) h'
    where
      again_or_conflict :
          (t' : List Order) (found : Option Order)
          → IsRefundChange audit dto at t t'
          → (elim found [
            | none ↦ err (HttpError.conflict "退款处理冲突，请重试")
            | some again ↦
                if is_same_refund_callback again dto
                then find_or_throw orders audit dto.order_no t'
                else err (HttpError.conflict "退款处理冲突，请重试")
          ])
            ≡ ok q
          → IsRefundChange audit dto at t q.1
      again_or_conflict t' none change a = absurd (cc)
      again_or_conflict t' (some again) change a =
          elim (Bool-cases (is_same_refund_callback again dto)) [
            | inl e ↦
                find_or_throw-same orders audit (IsRefundChange audit dto at t) dto t' change
                  (rw e at a)
            | inr e ↦ absurd (cc (rw e at a))
          ]

      go :
          (n : ℕ) (t' : List Order)
          → IsRefundChange audit dto at t t'
          → (if n == 1
              then find_or_throw orders audit dto.order_no t'
              else elim (orders.find_first (has_order_no dto.order_no) t') [
                | none ↦ err (HttpError.conflict "退款处理冲突，请重试")
                | some again ↦
                    if is_same_refund_callback again dto
                    then find_or_throw orders audit dto.order_no t'
                    else err (HttpError.conflict "退款处理冲突，请重试")
              ])
            ≡ ok q
          → IsRefundChange audit dto at t q.1
      go n t' change a = elim (Bool-cases (n == 1)) [
        | inl e ↦
            find_or_throw-same orders audit (IsRefundChange audit dto at t) dto t' change
              (rw e at a)
        | inr e ↦
            again_or_conflict t' (orders.find_first (has_order_no dto.order_no) t') change
              (rw e at a)
      ]

  mark_order_refunded-IsRefundChange :
      (dto : PaymentCallbackDto) (at : ℕ) (t : List Order) {q : Order × List Order}
      → mark_order_refunded orders audit undisturbed undisturbed dto at t ≡ ok q
      → IsRefundChange audit dto at t q.1
  unfolding mark_order_refunded
  mark_order_refunded-IsRefundChange dto at t {q} h =
      go (orders.find_first (has_order_no dto.order_no) t) (orders.find_first_law _ t) h
    where
      mismatch : Order → Bool
      mismatch o =
          not (provider_is o.payment_provider dto.provider)
          || other_trade_no o.provider_trade_no dto.provider_trade_no

      matches :
          (order : Order)
          → some order ≡ first_match (has_order_no dto.order_no) t
          → not (status_eq order.status OrderStatus.paid) ≡ false
          → mismatch order ≡ false
          → IsMatched dto t
      matches order w is_paid fits =
          let (named, listed) = first_match-Member (has_order_no dto.order_no) t (sym w) in
          (order, (listed, (named, (ground arith, (ground arith, ground arith)))))

      go :
          (found : Option Order)
          → found ≡ first_match (has_order_no dto.order_no) t
          → (elim found [
            | none ↦ err (HttpError.not_found "订单不存在")
            | some order ↦
                if status_eq order.status OrderStatus.refunded
                then if is_same_refund_callback order dto
                  then find_or_throw orders audit dto.order_no t
                  else err (HttpError.conflict "订单已退款")
                else if not (status_eq order.status OrderStatus.paid)
                then err (HttpError.bad_request "仅已支付订单可退款")
                else if mismatch order
                then err (HttpError.conflict "退款回调与支付交易不匹配")
                else write_refunded orders audit undisturbed dto at t
          ])
            ≡ ok q
          → IsRefundChange audit dto at t q.1
      go none w a = absurd (cc)
      go (some order) w a = elim (Bool-cases (status_eq order.status OrderStatus.refunded)) [
        | inl e ↦ elim (Bool-cases (same_trade order dto)) [
          | inl e' ↦
              find_or_throw-same orders audit (IsRefundChange audit dto at t) dto t (inl refl)
                (rw e' at (rw e at a))
          | inr e' ↦ absurd (cc (rw e' at (rw e at a)))
        ]
        | inr e ↦ elim (Bool-cases (not (status_eq order.status OrderStatus.paid))) [
          | inl e' ↦ absurd (cc (rw e' at (rw e at a)))
          | inr e' ↦ elim (Bool-cases (mismatch order)) [
            | inl e″ ↦ absurd (cc (rw e″ at (rw e' at (rw e at a))))
            | inr e″ ↦
                write_refunded-IsRefundChange dto at t (matches order w e' e″)
                  (rw e″ at (rw e' at (rw e at a)))
          ]
        ]
      ]

  -- A callback that is answered, when no other transaction interferes, was signed. One that says paid
  -- leaves the orders as they were, or turns pending orders of its number into paid ones and changes
  -- no other; one that says refunded leaves them as they were, or, where one of its number and
  -- provider was paid and bears no other trade number, turns paid orders of its number into refunded
  -- ones and changes no other.
  pub handle_payment_callback-IsChange :
      (crypto : Crypto) (secret : String) (parse : String → ℕ) (now : ℕ) (dto : PaymentCallbackDto)
      (signature : Option String) (t : List Order) {q : Order × List Order}
      → handle_payment_callback orders audit crypto secret parse now undisturbed undisturbed dto
          signature t
        ≡ ok q
      → (verify_payment_callback_signature crypto
            (build_payment_callback_sign_payload dto)
            signature
            secret
          ≡ true)
        × IsChange dto.event audit dto (time_or_now parse now dto.paid_at) t q.1
  unfolding handle_payment_callback
  handle_payment_callback-IsChange crypto secret parse now dto signature t {q} h =
      elim (Bool-cases (
        verify_payment_callback_signature crypto (build_payment_callback_sign_payload dto) signature
          secret)) [ inl e ↦ (e, go dto.event (rw e at h)) | inr e ↦ absurd (cc (rw e at h)) ]
    where
      go :
          (event : PaymentCallbackEvent)
          → (elim event [
            | PaymentCallbackEvent.paid ↦
                mark_order_paid orders audit undisturbed undisturbed dto
                  (time_or_now parse now dto.paid_at)
                  t
            | PaymentCallbackEvent.refunded ↦
                mark_order_refunded orders audit undisturbed undisturbed dto
                  (time_or_now parse now dto.paid_at)
                  t
          ])
            ≡ ok q
          → IsChange event audit dto (time_or_now parse now dto.paid_at) t q.1
      go PaymentCallbackEvent.paid a =
          mark_order_paid-IsPaidChange orders audit dto (time_or_now parse now dto.paid_at) t a
      go PaymentCallbackEvent.refunded a =
          mark_order_refunded-IsRefundChange dto (time_or_now parse now dto.paid_at) t a
