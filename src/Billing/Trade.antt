-- ===== src/Billing/Trade.antt =====
-- The order of a paid callback: how the branches of `markOrderPaid` in
-- modules/billing/billing.service.ts find it.
use mib_server.Prelude.{
  ℕ, ◌≡◌, refl, sym, ap, ◌∙◌, subst, String, str_eq, Bool, true, inl, inr, Option, none, some, List,
  [], ◌∷◌, arith, ok, err, ok-injective, Bool-cases, eq_iff, eq_refl, if◌then◌else◌, and-eq-true,
  count_where, update_where, Member,
}
use mib_server.Database.{DbError, is_consistent, Delegate}
use mib_server.Database.Consistency.{unique-Member, first_match-Member}
use mib_server.Http.{HttpError}
use mib_server.Billing.Orders.{
  Order, OrderStatus, PaymentProvider, order_conflict, status_eq, provider_eq,
}
use mib_server.Billing.Signature.{PaymentCallbackDto}
use mib_server.Billing.Callback.{
  has_order_no, same_trade, is_same_paid_callback, set_paid, find_or_throw,
  resolve_paid_callback_after_unique_conflict, resolve_paid_callback_after_race,
}

pub Member-count_where :
    {R : Type 0} (p : R → Bool) (t : List R)
    → count_where p t ≡ 1
    → (a : R) × Member a t × (p a ≡ true)
Member-count_where p [] h = absurd (omega arith)
Member-count_where p (x ∷ t) h = elim (Bool-cases (p x)) [
  | inl e ↦ (x, inl refl, e)
  | inr e ↦ let (a, m, k) = Member-count_where p t (rw e at h) in (a, inr m, k)
]

pub Member-update_where :
    {R : Type 0} (p : R → Bool) (f : R → R) (a : R) (t : List R)
    → Member a t
    → p a ≡ true
    → Member (f a) (update_where p f t)
Member-update_where p f a [] m h = absurd m
Member-update_where p f a (x ∷ t) (inl e) h =
    let hit : p x ≡ true = ap p (sym e) ∙ h in rw hit (inl (ap f e))
Member-update_where p f a (x ∷ t) (inr m) h = inr (Member-update_where p f a t m h)

-- Two orders of a consistent table with one number are one.
pub same_order :
    (order_no : String) (t : List Order) (a b : Order)
    → is_consistent order_conflict t ≡ true
    → Member a t
    → Member b t
    → has_order_no order_no a ≡ true
    → has_order_no order_no b ≡ true
    → a ≡ b
same_order order_no t a b h m n p q =
    let e : a.order_no ≡ b.order_no =
      (eq_iff a.order_no order_no).0 p ∙ sym ((eq_iff b.order_no order_no).0 q) in
    let d : str_eq a.order_no b.order_no ≡ true = (eq_iff a.order_no b.order_no).1 e in
    let d' : str_eq b.order_no a.order_no ≡ true = (eq_iff b.order_no a.order_no).1 (sym e) in
    unique-Member order_conflict t a b h m n (ground arith) (ground arith)

provider_eq_refl : (p : PaymentProvider) → provider_eq p p ≡ true
provider_eq_refl PaymentProvider.mock = refl
provider_eq_refl PaymentProvider.wechat = refl
provider_eq_refl PaymentProvider.alipay = refl

module _ (orders : Delegate Order order_conflict) (audit : Option String) where
  -- What an answer to a paid callback shows.
  abbrev pub IsAnswer : PaymentCallbackDto → Order × List Order → Type 0
  IsAnswer dto q =
      (has_order_no dto.order_no q.0 ≡ true) × (same_trade q.0 dto ≡ true) × Member q.0 q.1

  pub find_or_throw-Member :
      (order_no : String) (t : List Order) {q : Order × List Order}
      → find_or_throw orders audit order_no t ≡ ok q
      → (has_order_no order_no q.0 ≡ true) × Member q.0 t × (q.1 ≡ t)
  unfolding find_or_throw
  find_or_throw-Member order_no t {q} h = go (orders.find_first (has_order_no order_no) t) refl h
    where
      go :
          (found : Option Order)
          → orders.find_first (has_order_no order_no) t ≡ found
          → (elim found [ none ↦ err (HttpError.database DbError.failure) | some o ↦ ok (o, t) ])
            ≡ ok q
          → (has_order_no order_no q.0 ≡ true) × Member q.0 t × (q.1 ≡ t)
      go none w a = absurd (cc)
      go (some o) w a =
          let (hit, m) =
            first_match-Member (has_order_no order_no) t
              (sym (orders.find_first_law (has_order_no order_no) t) ∙ w) in
          subst (λ p. (has_order_no order_no p.0 ≡ true) × Member p.0 t × (p.1 ≡ t))
            (ok-injective a) (hit, m, refl)

  -- The order that is answered is the one of which the trade is known.
  pub find_or_throw-IsAnswer :
      (dto : PaymentCallbackDto) (t : List Order) (known : Order) {q : Order × List Order}
      → is_consistent order_conflict t ≡ true
      → Member known t
      → has_order_no dto.order_no known ≡ true
      → same_trade known dto ≡ true
      → find_or_throw orders audit dto.order_no t ≡ ok q
      → IsAnswer dto q
  find_or_throw-IsAnswer dto t known {q} fine there named traded h =
      let (hit, m, same) = find_or_throw-Member dto.order_no t h in
      let one : q.0 ≡ known = same_order dto.order_no t q.0 known fine m there hit named in
      (hit, ap (λ o. same_trade o dto) one ∙ traded, subst (Member q.0) (sym same) m)

  pub resolve-unique-IsAnswer :
      (dto : PaymentCallbackDto) (t : List Order) {q : Order × List Order}
      → is_consistent order_conflict t ≡ true
      → resolve_paid_callback_after_unique_conflict orders audit dto t ≡ ok q
      → IsAnswer dto q
  unfolding resolve_paid_callback_after_unique_conflict
  resolve-unique-IsAnswer dto t {q} fine h = go (orders.find_first (λ o. same_trade o dto) t) refl h
    where
      go :
          (found : Option Order)
          → orders.find_first (λ o. same_trade o dto) t ≡ found
          → (elim found [
            | none ↦ err (HttpError.conflict "支付交易号已被其他订单使用")
            | some by_trade ↦
                if str_eq by_trade.order_no dto.order_no
                then find_or_throw orders audit dto.order_no t
                else err (HttpError.conflict "支付交易号已被其他订单使用")
          ])
            ≡ ok q
          → IsAnswer dto q
      go none w a = absurd (cc)
      go (some by_trade) w a = elim (Bool-cases (str_eq by_trade.order_no dto.order_no)) [
        | inl e ↦
            let (hit, m) =
              first_match-Member (λ o. same_trade o dto) t
                (sym (orders.find_first_law (λ o. same_trade o dto) t) ∙ w) in
            find_or_throw-IsAnswer dto t by_trade fine m e hit (rw e at a)
        | inr e ↦ absurd (cc (rw e at a))
      ]

  pub resolve-race-IsAnswer :
      (dto : PaymentCallbackDto) (t : List Order) {q : Order × List Order}
      → is_consistent order_conflict t ≡ true
      → resolve_paid_callback_after_race orders audit dto t ≡ ok q
      → IsAnswer dto q
  unfolding resolve_paid_callback_after_race
  resolve-race-IsAnswer dto t {q} fine h =
      go (orders.find_first (has_order_no dto.order_no) t) refl h
    where
      go :
          (found : Option Order)
          → orders.find_first (has_order_no dto.order_no) t ≡ found
          → (elim found [
            | none ↦ err (HttpError.conflict "支付处理冲突，请重试")
            | some again ↦
                if is_same_paid_callback again dto
                then find_or_throw orders audit dto.order_no t
                else err (HttpError.conflict "支付处理冲突，请重试")
          ])
            ≡ ok q
          → IsAnswer dto q
      go none w a = absurd (cc)
      go (some again) w a = elim (Bool-cases (is_same_paid_callback again dto)) [
        | inl e ↦
            let (hit, m) =
              first_match-Member (has_order_no dto.order_no) t
                (sym (orders.find_first_law (has_order_no dto.order_no) t) ∙ w) in
            find_or_throw-IsAnswer dto t again fine m hit
              (and-eq-true (status_eq again.status OrderStatus.paid) _ e).1 (rw e at a)
        | inr e ↦ absurd (cc (rw e at a))
      ]

  pub set_paid-same_trade :
      (dto : PaymentCallbackDto) (paid_at : ℕ) (o : Order)
      → same_trade (set_paid audit dto paid_at o) dto ≡ true
  set_paid-same_trade dto paid_at o =
      rw (provider_eq_refl dto.provider) (eq_refl dto.provider_trade_no)
