-- ===== src/Billing/Payment.antt =====
-- What `handlePaymentCallback` of modules/billing/billing.service.ts promises of a paid callback.
use mib_server.Prelude.{
  ℕ, ◌≡◌, refl, sym, ◌∙◌, subst, String, str_eq, true, false, ◌||◌, inl, inr, Option, none, some,
  List, Result, ok, err, ok-injective, Bool-cases, if◌then◌else◌, ◌==◌, ==_iff, and-eq-true, Member,
  length,
}
use mib_server.Database.{DbError, is_consistent, Delegate, is_prisma_unique_violation}
use mib_server.Database.Consistency.{first_match-Member}
use mib_server.Http.{HttpError}
use mib_server.Billing.Orders.{Order, OrderStatus, order_conflict, status_eq}
use mib_server.Billing.Signature.{
  PaymentCallbackDto, PaymentCallbackEvent, Crypto, build_payment_callback_sign_payload,
  verify_payment_callback_signature,
}
use mib_server.Billing.Callback.{
  time_or_now, has_order_no, is_same_paid_callback, set_paid, is_pending_order, find_or_throw,
  resolve_paid_callback_after_unique_conflict, resolve_paid_callback_after_race, write_paid,
  mark_order_paid, handle_payment_callback,
}
use mib_server.Billing.Trade.{
  IsAnswer, Member-count_where, Member-update_where, find_or_throw-IsAnswer,
  resolve-unique-IsAnswer, resolve-race-IsAnswer, set_paid-same_trade,
}

-- A signature that is accepted decodes to the bytes of the HMAC of the payload.
verify_sound :
    (crypto : Crypto) (payload secret : String) (signature : Option String)
    → verify_payment_callback_signature crypto payload signature secret ≡ true
    → (s : String) × (signature ≡ some s)
      × (crypto.from_hex (crypto.strip_prefix (crypto.trim s))
          ≡ crypto.from_hex (crypto.sign_payment_callback payload secret))
unfolding verify_payment_callback_signature
verify_sound crypto payload secret none h = absurd (cc)
verify_sound crypto payload secret (some s) h =
    elim (Bool-cases (str_eq (crypto.trim s) "" || str_eq secret "")) [
      | inl e ↦ absurd (cc (rw e at h))
      | inr e ↦ compare (rw e at h)
    ]
  where
    given : List ℕ
    given = crypto.from_hex (crypto.strip_prefix (crypto.trim s))

    expected : List ℕ
    expected = crypto.from_hex (crypto.sign_payment_callback payload secret)

    compare :
        (if length given == length expected then crypto.timing_safe_equal given expected else false)
          ≡ true
        → (u : String) × (some s ≡ some u)
          × (crypto.from_hex (crypto.strip_prefix (crypto.trim u)) ≡ expected)
    compare k = elim (Bool-cases (length given == length expected)) [
      | inl e ↦ (s, refl, crypto.timing_safe_equal_sound given expected (rw e at k))
      | inr e ↦ absurd (cc (rw e at k))
    ]

module _ (orders : Delegate Order order_conflict) (audit : Option String) where
  write_paid-IsAnswer :
      (race' : List Order → List Order) (dto : PaymentCallbackDto) (paid_at : ℕ) (t : List Order)
      {q : Order × List Order}
      → ((u : List Order)
          → is_consistent order_conflict u ≡ true
          → is_consistent order_conflict (race' u) ≡ true)
      → is_consistent order_conflict t ≡ true
      → write_paid orders audit race' dto paid_at t ≡ ok q
      → IsAnswer orders audit dto q
  unfolding write_paid
  write_paid-IsAnswer race' dto paid_at t {q} keeps fine h =
      go (orders.update_many (is_pending_order dto.order_no) (set_paid audit dto paid_at) t) refl h
    where
      go :
          (m : Result DbError (ℕ × List Order))
          → orders.update_many (is_pending_order dto.order_no) (set_paid audit dto paid_at) t ≡ m
          → (elim m [
            | ok (n, t') ↦
                if n == 1
                then find_or_throw orders audit dto.order_no t'
                else resolve_paid_callback_after_race orders audit dto (race' t')
            | err error ↦
                if is_prisma_unique_violation error
                then resolve_paid_callback_after_unique_conflict orders audit dto t
                else err (HttpError.database error)
          ])
            ≡ ok q
          → IsAnswer orders audit dto q
      go (err error) w a = elim (Bool-cases (is_prisma_unique_violation error)) [
        | inl e ↦ resolve-unique-IsAnswer orders audit dto t fine (rw e at a)
        | inr e ↦ absurd (cc (rw e at a))
      ]
      go (ok (n, t')) w a =
          let fine' = orders.update_many_keeps _ _ t w fine in
          elim (Bool-cases (n == 1)) [
            | inl e ↦
                let (counted, changed) = orders.update_many_ok _ _ t w in
                let (o, m, pending) =
                  Member-count_where (is_pending_order dto.order_no) t
                    (sym counted ∙ (==_iff n 1).0 e) in
                find_or_throw-IsAnswer orders audit dto t' (set_paid audit dto paid_at o) fine'
                  (subst (Member (set_paid audit dto paid_at o)) (sym changed) (
                    Member-update_where (is_pending_order dto.order_no) (set_paid audit dto paid_at)
                      o t m pending))
                  (and-eq-true (has_order_no dto.order_no o) _ pending).0
                  (set_paid-same_trade orders audit dto paid_at o) (rw e at a)
            | inr e ↦ resolve-race-IsAnswer orders audit dto (race' t') (keeps t' fine') (rw e at a)
          ]

  mark_order_paid-IsAnswer :
      (race race' : List Order → List Order) (dto : PaymentCallbackDto) (paid_at : ℕ)
      (t : List Order) {q : Order × List Order}
      → ((u : List Order)
          → is_consistent order_conflict u ≡ true
          → is_consistent order_conflict (race u) ≡ true)
      → ((u : List Order)
          → is_consistent order_conflict u ≡ true
          → is_consistent order_conflict (race' u) ≡ true)
      → is_consistent order_conflict t ≡ true
      → mark_order_paid orders audit race race' dto paid_at t ≡ ok q
      → IsAnswer orders audit dto q
  unfolding mark_order_paid
  mark_order_paid-IsAnswer race race' dto paid_at t {q} keeps keeps' fine h =
      go (orders.find_first (has_order_no dto.order_no) t) refl h
    where
      go :
          (found : Option Order)
          → orders.find_first (has_order_no dto.order_no) t ≡ found
          → (elim found [
            | none ↦ err (HttpError.not_found "订单不存在")
            | some order ↦
                if is_same_paid_callback order dto
                then ok (order, t)
                else if status_eq order.status OrderStatus.paid
                then err (HttpError.conflict "订单已支付")
                else if status_eq order.status OrderStatus.refunded
                    || status_eq order.status OrderStatus.cancelled
                then err (HttpError.bad_request "订单状态不允许支付")
                else write_paid orders audit race' dto paid_at (race t)
          ])
            ≡ ok q
          → IsAnswer orders audit dto q
      go none w a = absurd (cc)
      go (some order) w a = elim (Bool-cases (is_same_paid_callback order dto)) [
        | inl e ↦
            let (hit, m) =
              first_match-Member (has_order_no dto.order_no) t
                (sym (orders.find_first_law (has_order_no dto.order_no) t) ∙ w) in
            subst (IsAnswer orders audit dto) (ok-injective (rw e at a))
              (hit, (and-eq-true (status_eq order.status OrderStatus.paid) _ e).1, m)
        | inr e ↦ later order (rw e at a)
      ]
        where
          later :
              (order : Order)
              → (if status_eq order.status OrderStatus.paid
                  then err (HttpError.conflict "订单已支付")
                  else if status_eq order.status OrderStatus.refunded
                      || status_eq order.status OrderStatus.cancelled
                  then err (HttpError.bad_request "订单状态不允许支付")
                  else write_paid orders audit race' dto paid_at (race t))
                ≡ ok q
              → IsAnswer orders audit dto q
          later order b = elim (Bool-cases (status_eq order.status OrderStatus.paid)) [
            | inl e ↦ absurd (cc (rw e at b))
            | inr e ↦
                elim (Bool-cases (
                  status_eq order.status OrderStatus.refunded
                  || status_eq order.status OrderStatus.cancelled)) [
                    | inl e' ↦ absurd (cc (rw e' at (rw e at b)))
                    | inr e' ↦
                        write_paid-IsAnswer race' dto paid_at (race t) keeps' (keeps t fine)
                          (rw e' at (rw e at b))
                  ]
          ]

  -- A paid callback that is answered was signed, in that its signature decodes to the HMAC of its
  -- payload, and the answer is a stored order with the callback's number, provider and trade
  -- number, whatever other transactions commit meanwhile, as long as they keep the unique
  -- constraints.
  pub handle_payment_callback-IsAnswer :
      (crypto : Crypto) (secret : String) (parse : String → ℕ) (now : ℕ)
      (race race' : List Order → List Order) (dto : PaymentCallbackDto) (signature : Option String)
      (t : List Order) {q : Order × List Order}
      → dto.event ≡ PaymentCallbackEvent.paid
      → ((u : List Order)
          → is_consistent order_conflict u ≡ true
          → is_consistent order_conflict (race u) ≡ true)
      → ((u : List Order)
          → is_consistent order_conflict u ≡ true
          → is_consistent order_conflict (race' u) ≡ true)
      → is_consistent order_conflict t ≡ true
      → handle_payment_callback orders audit crypto secret parse now race race' dto signature t
        ≡ ok q
      → IsAnswer orders audit dto q
        × ((s : String) × (signature ≡ some s)
            × (crypto.from_hex (crypto.strip_prefix (crypto.trim s))
                ≡ crypto.from_hex (
                    crypto.sign_payment_callback (build_payment_callback_sign_payload dto) secret)))
  unfolding handle_payment_callback
  handle_payment_callback-IsAnswer crypto secret parse now race race' dto signature t {q} paid keeps
        keeps' fine h =
      elim (Bool-cases (
        verify_payment_callback_signature crypto (build_payment_callback_sign_payload dto) signature
          secret)) [
            | inl e ↦ (
              mark_order_paid-IsAnswer race race' dto (time_or_now parse now dto.paid_at) t keeps
                  keeps' fine (rw paid at (rw e at h)),
              verify_sound crypto (build_payment_callback_sign_payload dto) secret signature e,
            )
            | inr e ↦ absurd (cc (rw e at h))
          ]
