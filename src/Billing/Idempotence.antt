-- ===== src/Billing/Idempotence.antt =====
-- `createOrder` of modules/billing/billing.service.ts under one idempotency key.
use mib_server.Prelude.{
  ◌≡◌, refl, sym, ◌∙◌, subst, String, Bool, true, false, inl, inr, Option, none, some, List, [],
  ◌∷◌, ◌++◌, arith, any, Result, ok, err, >>=-eq-ok, ok-injective, Bool-cases, eq_refl,
  if◌then◌else◌, first_match,
}
use mib_server.Database.{DbError, Delegate, is_prisma_unique_violation}
use mib_server.Http.{HttpError}
use mib_server.Rbac.Scope.{AccessContext}
use mib_server.Billing.Orders.{
  Order, StudentRow, CreateOrderDto, student_conflict, order_conflict, text_is, texts_meet,
  order_tenant, created_tenant, new_order, insert_order, create_order,
}

first_match-snoc :
    {R : Type 0} (conflict : R → R → Bool) (p : R → Bool) (r : R) (t : List R)
    → ((x : R) → conflict r x ≡ false → p x ≡ false)
    → any (conflict r) t ≡ false
    → p r ≡ true
    → first_match p (t ++ r ∷ []) ≡ some r
first_match-snoc conflict p r [] apart h k = rw k refl
first_match-snoc conflict p r (x ∷ t) apart h k = elim (Bool-cases (conflict r x)) [
  | inl e ↦ absurd (cc (rw e at h))
  | inr e ↦ rw (apart x e) (first_match-snoc conflict p r t apart (rw e at h) k)
]

-- An order with a key meets every other order with that key.
key-apart :
    (key : String) (r x : Order)
    → r.idempotency_key ≡ some key
    → order_conflict r x ≡ false
    → text_is x.idempotency_key key ≡ false
key-apart key r x keyed h =
    let meet : texts_meet r.idempotency_key x.idempotency_key ≡ false = ground arith in
    rw keyed at meet

module _ (students : Delegate StudentRow student_conflict) (orders : Delegate Order order_conflict)
    (audit : Option String) where
  by_key : String → Order → Bool
  by_key key o = text_is o.idempotency_key key

  insert_order-keyed :
      (row : Order) (key : String) (t : List Order) {q : Order × List Order}
      → row.idempotency_key ≡ some key
      → insert_order students orders audit row key t ≡ ok q
      → first_match (by_key key) q.1 ≡ some q.0
  unfolding insert_order by_key
  insert_order-keyed row key t {q} keyed h = go (orders.create row t) refl h
    where
      settle :
          (found : Option Order)
          → orders.find_first (λ o. text_is o.idempotency_key key) t ≡ found
          → (error : DbError)
          → (elim found [ some winner ↦ ok (winner, t) | none ↦ err (HttpError.database error) ])
            ≡ ok q
          → first_match (λ o. text_is o.idempotency_key key) q.1 ≡ some q.0
      settle none w error a = absurd (cc)
      settle (some winner) w error a =
          subst (λ p. first_match (λ o. text_is o.idempotency_key key) p.1 ≡ some p.0)
            (ok-injective a) (sym (orders.find_first_law _ t) ∙ w)

      go :
          (m : Result DbError (List Order))
          → orders.create row t ≡ m
          → (elim m [
            | ok t' ↦ ok (row, t')
            | err error ↦
                if is_prisma_unique_violation error
                then elim (orders.find_first (λ o. text_is o.idempotency_key key) t) [
                  | some winner ↦ ok (winner, t)
                  | none ↦ err (HttpError.database error)
                ]
                else err (HttpError.database error)
          ])
            ≡ ok q
          → first_match (λ o. text_is o.idempotency_key key) q.1 ≡ some q.0
      go (ok t') w a =
          let (added, free) = orders.create_ok row t w in
          subst (λ p. first_match (λ o. text_is o.idempotency_key key) p.1 ≡ some p.0)
            (ok-injective a)
            (rw added (
              first_match-snoc order_conflict (λ o. text_is o.idempotency_key key) row t
                (λ x e. key-apart key row x keyed e) free (rw keyed (eq_refl key))))
      go (err error) w a = elim (Bool-cases (is_prisma_unique_violation error)) [
        | inl e ↦
            settle (orders.find_first (λ o. text_is o.idempotency_key key) t) refl error (rw e at a)
        | inr e ↦ absurd (cc (rw e at a))
      ]

  create_order-keyed :
      (ctx : Option AccessContext) (race : List Order → List Order) (id order_no : String)
      (dto : CreateOrderDto) (key : String) (rows : List StudentRow) (t : List Order)
      {q : Order × List Order}
      → create_order students orders audit ctx race id order_no dto key rows t ≡ ok q
      → (first_match (by_key key) q.1 ≡ some q.0)
        × ((tenant_id : Option String) × (order_tenant students orders audit dto.student_id rows
              ≡ ok tenant_id))
  unfolding create_order new_order by_key
  create_order-keyed ctx race id order_no dto key rows t {q} h =
      let (tenant_id, e, h') =
        >>=-eq-ok (order_tenant students orders audit dto.student_id rows) _ h in
      (
        go tenant_id (orders.find_first (λ o. text_is o.idempotency_key key) t) refl h',
        (tenant_id, e),
      )
    where
      go :
          (tenant_id : Option String) (found : Option Order)
          → orders.find_first (λ o. text_is o.idempotency_key key) t ≡ found
          → (elim found [
            | some existing ↦ ok (existing, t)
            | none ↦
                insert_order students orders audit
                  (new_order students orders audit id order_no
                    (created_tenant students orders audit ctx tenant_id)
                    dto
                    key)
                  key
                  (race t)
          ])
            ≡ ok q
          → first_match (by_key key) q.1 ≡ some q.0
      go tenant_id none w a =
          insert_order-keyed
            (new_order students orders audit id order_no
              (created_tenant students orders audit ctx tenant_id) dto key)
            key (race t) refl a
      go tenant_id (some existing) w a =
          subst (λ p. first_match (λ o. text_is o.idempotency_key key) p.1 ≡ some p.0)
            (ok-injective a) (sym (orders.find_first_law _ t) ∙ w)

  -- A request that is repeated with its idempotency key, with whatever id and order number the
  -- generators give it, answers the order of the first and stores nothing, also where the first lost
  -- a race for the key.
  pub create_order-again :
      (ctx : Option AccessContext) (race race' : List Order → List Order)
      (id id' order_no order_no' : String) (dto : CreateOrderDto) (key : String)
      (rows : List StudentRow) (t : List Order) {q : Order × List Order}
      → create_order students orders audit ctx race id order_no dto key rows t ≡ ok q
      → create_order students orders audit ctx race' id' order_no' dto key rows q.1 ≡ ok q
  unfolding create_order by_key
  create_order-again ctx race race' id id' order_no order_no' dto key rows t {q} h =
      let (found, (tenant_id, known)) = create_order-keyed ctx race id order_no dto key rows t h in
      simp (known, orders.find_first_law, found) refl
