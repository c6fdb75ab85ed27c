-- ===== src/Tests/Billing.antt =====
-- An order of modules/billing/billing.service.ts that is created twice under one key, and paid.
use mib_server.Prelude.{
  ℕ, ◌≡◌, refl, String, Bool, true, false, none, some, List, [], ◌∷◌, ok, ◌==◌, ◌&&◌, and-eq-true,
  ==_iff, arith,
}
use mib_server.Database.Memory.{memory}
use mib_server.Billing.Orders.{
  Order, OrderStatus, PaymentProvider, StudentRow, CreateOrderDto, student_conflict, order_conflict,
  order_tenant, created_tenant, new_order, insert_order, create_order,
}
use mib_server.Billing.Signature.{
  PaymentCallbackDto, PaymentCallbackEvent, Crypto, build_payment_callback_sign_payload,
  verify_payment_callback_signature,
}
use mib_server.Billing.Callback.{
  write_refunded, mark_order_refunded, find_or_throw, write_paid, mark_order_paid,
  handle_payment_callback,
}
use mib_server.Billing.Payment.{handle_payment_callback-IsAnswer}
use mib_server.Billing.Status.{IsChange, undisturbed}
use mib_server.Billing.Refund.{handle_payment_callback-IsChange}
use mib_server.Billing.Trade.{IsAnswer}
use mib_server.Billing.Idempotence.{create_order-again}

abbrev amy : StudentRow
amy = record { id = "amy"; tenant_id = some "north" }

abbrev ten_lessons : CreateOrderDto
ten_lessons = record {
  student_id = some "amy";
  title = "ten lessons";
  amount_cents = 99900;
  currency = none;
}

abbrev order : Order
order = record {
  id = "1";
  tenant_id = some "north";
  order_no = "N1";
  student_id = some "amy";
  title = "ten lessons";
  amount_cents = 99900;
  currency = "CNY";
  status = OrderStatus.pending;
  payment_provider = none;
  provider_trade_no = none;
  idempotency_key = some "key-0001";
  paid_at = none;
  refunded_at = none;
  created_by = none;
  updated_by = none;
}

create_first :
    create_order
      (memory student_conflict)
      (memory order_conflict)
      none
      none
      undisturbed
      "1"
      "N1"
      ten_lessons
      "key-0001"
      (amy ∷ [])
      []
    ≡ ok (order, order ∷ [])
unfolding create_order order_tenant created_tenant new_order insert_order
create_first = refl

create_order-again_example :
    create_order
      (memory student_conflict)
      (memory order_conflict)
      none
      none
      undisturbed
      "2"
      "N2"
      ten_lessons
      "key-0001"
      (amy ∷ [])
      (order ∷ [])
    ≡ ok (order, order ∷ [])
create_order-again_example =
    create_order-again (memory student_conflict) (memory order_conflict) none none undisturbed
      undisturbed "1" "2" "N1" "N2" ten_lessons "key-0001" (amy ∷ []) [] create_first

-- A stand-in for the runtime's cryptography: every payload has the signature "00", every text
-- decodes to one byte, and buffers are compared by their lengths and bytes.
abbrev byte_of : String → List ℕ
byte_of s = 0 ∷ []

abbrev equal_bytes : List ℕ → List ℕ → Bool
equal_bytes [] [] = true
equal_bytes (a ∷ xs) (b ∷ ys) = (a == b) && equal_bytes xs ys
equal_bytes _ _ = false

equal_bytes_refl : (a : List ℕ) → equal_bytes a a ≡ true
equal_bytes_refl [] = refl
equal_bytes_refl (a ∷ xs) = ground (arith, equal_bytes_refl xs)

equal_bytes_sound : (a b : List ℕ) → equal_bytes a b ≡ true → a ≡ b
equal_bytes_sound [] [] h = refl
equal_bytes_sound [] (b ∷ ys) h = absurd (cc)
equal_bytes_sound (a ∷ xs) [] h = absurd (cc)
equal_bytes_sound (a ∷ xs) (b ∷ ys) h =
    let (first, rest) = and-eq-true (a == b) (equal_bytes xs ys) h in
    let same = equal_bytes_sound xs ys rest in let same' = (==_iff a b).0 first in cc (same, same')

abbrev unchanged : String → String
unchanged s = s

abbrev one_signature : Crypto
one_signature = record {
  sign_payment_callback = λ payload secret. "00";
  trim = unchanged;
  strip_prefix = unchanged;
  from_hex = byte_of;
  timing_safe_equal = equal_bytes;
  timing_safe_equal_refl = equal_bytes_refl;
  timing_safe_equal_sound = equal_bytes_sound;
}

abbrev callback : PaymentCallbackDto
callback = record {
  order_no = "N1";
  provider = PaymentProvider.wechat;
  provider_trade_no = "T1";
  event = PaymentCallbackEvent.paid;
  paid_at = none;
}

abbrev paid_order : Order
paid_order = record order {
  status = OrderStatus.paid;
  payment_provider = some PaymentProvider.wechat;
  provider_trade_no = some "T1";
  paid_at = some 7;
}

abbrev as_number : String → ℕ
as_number s = 0

pay_order :
    handle_payment_callback
      (memory order_conflict)
      none
      one_signature
      "secret"
      as_number
      7
      undisturbed
      undisturbed
      callback
      (some "00")
      (order ∷ [])
    ≡ ok (paid_order, paid_order ∷ [])
unfolding handle_payment_callback mark_order_paid write_paid find_or_throw
    verify_payment_callback_signature build_payment_callback_sign_payload
pay_order = refl

handle_payment_callback-IsAnswer_example :
    IsAnswer (memory order_conflict) none callback (paid_order, paid_order ∷ [])
    × ((s : String) × (some "00" ≡ some s)
        × (one_signature.from_hex (one_signature.strip_prefix (one_signature.trim s))
            ≡ one_signature.from_hex (
                one_signature.sign_payment_callback
                  (build_payment_callback_sign_payload callback)
                  "secret")))
handle_payment_callback-IsAnswer_example =
    handle_payment_callback-IsAnswer (memory order_conflict) none one_signature "secret" as_number 7
      undisturbed undisturbed callback (some "00") (order ∷ []) refl (λ u h. h) (λ u h. h) refl
      pay_order

-- The same order, refunded by a second callback.
abbrev refund : PaymentCallbackDto
refund = record callback { event = PaymentCallbackEvent.refunded }

abbrev refunded_order : Order
refunded_order = record paid_order { status = OrderStatus.refunded; refunded_at = some 9 }

refund_order :
    handle_payment_callback
      (memory order_conflict)
      none
      one_signature
      "secret"
      as_number
      9
      undisturbed
      undisturbed
      refund
      (some "00")
      (paid_order ∷ [])
    ≡ ok (refunded_order, refunded_order ∷ [])
unfolding handle_payment_callback mark_order_refunded write_refunded find_or_throw
    verify_payment_callback_signature build_payment_callback_sign_payload
refund_order = refl

handle_payment_callback-IsChange_example :
    (verify_payment_callback_signature one_signature
        (build_payment_callback_sign_payload refund)
        (some "00")
        "secret"
      ≡ true)
    × IsChange refund.event none refund 9 (paid_order ∷ []) (refunded_order ∷ [])
handle_payment_callback-IsChange_example =
    handle_payment_callback-IsChange (memory order_conflict) none one_signature "secret" as_number 9
      refund (some "00") (paid_order ∷ []) refund_order
