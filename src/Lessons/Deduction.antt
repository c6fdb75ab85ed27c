-- ===== src/Lessons/Deduction.antt =====
-- The loop over the cards of the deduction at check-in settles the accounts, step by step:
-- modules/attendance/attendance-lesson-deduct.ts.
use mib_server.Prelude.{
  All-update_where, none, some, inr, inl, ◌>>=◌, err, if◌then◌else◌, ok-injective, subst, ℕ, Result,
  ◌≡◌, refl, String, Bool, true, false, Option, List, [], ◌∷◌, arith, count_where, update_where, ok,
  >>=-eq-ok,
}
use mib_server.Prelude.Int.{◌≤ℤ◌, ℤ, pos, ◌≡ℤ◌, leb_ℤ, int_laws}
use mib_server.Database.{DbError, is_prisma_unique_violation, is_consistent, Delegate}
use mib_server.Lessons.Data.{transaction_conflict, LessonTransaction, Card, LessonDb, card_conflict}
use mib_server.Lessons.Balance.{
  try_decrement_membership_lessons, decrement, increment, can_decrement,
  increment_membership_lessons,
}
use mib_server.Lessons.Deduct.{
  is_deduction_for, after_failed_create, record_deduction, deduct_from, LessonDeductOutcome,
  deduction_row,
}
use mib_server.Lessons.Totals.{try_decrement_cases, Decremented, total, has_id, total-update_where}
use mib_server.Lessons.Settlement.{
  IsCovered, Outcome, as_is, always, decrement-total, decrement-IsCovered, charged-has_id,
}

module _ (cards : Delegate Card card_conflict) (audit : Option String) where
  increment_write :
      (id : String) (amount : ℤ) (u : List Card) {t' : List Card}
      → leb_ℤ amount (pos 0) ≡ false
      → increment_membership_lessons cards audit id amount u ≡ ok t'
      → t' ≡ update_where (has_id id) (increment audit as_is amount) u
  unfolding increment_membership_lessons
  increment_write id amount u {t'} big e =
      go (cards.update_many (has_id id) (increment audit as_is amount) u) refl (rw big at e)
    where
      go :
          (m : Result DbError (ℕ × List Card))
          → cards.update_many (has_id id) (increment audit as_is amount) u ≡ m
          → (m >>= λ q. ok q.1) ≡ ok t'
          → t' ≡ update_where (has_id id) (increment audit as_is amount) u
      go (err _) w a = cc
      go (ok (n, v)) w a =
          cc (a, (cards.update_many_ok (has_id id) (increment audit as_is amount) u w).1)

  restored-IsCovered :
      (id : String) (amount : ℤ) (u : List Card) {t' : List Card}
      → leb_ℤ amount (pos 0) ≡ false
      → increment_membership_lessons cards audit id amount u ≡ ok t'
      → IsCovered u
      → IsCovered t'
  restored-IsCovered id amount u big e h = rw (increment_write id amount u big e) (
      All-update_where (λ c. pos 0 ≤ℤ c.remaining_lessons) (has_id id)
        (increment audit as_is amount) u
        (λ c _ k. let more : pos 0 ≤ℤ amount = ground arith in omega int_laws) h)

  restored-total :
      (id : String) (amount : ℤ) (t : List Card) {t' : List Card}
      → leb_ℤ amount (pos 0) ≡ false
      → is_consistent card_conflict t ≡ true
      → count_where (can_decrement id amount always) t ≡ 1
      → increment_membership_lessons cards audit id amount
          (update_where (can_decrement id amount always) (decrement audit as_is amount) t)
        ≡ ok t'
      → total t' ≡ℤ total t
  restored-total id amount t big unique one e =
      let u : List Card =
        update_where (can_decrement id amount always) (decrement audit as_is amount) t in
      rw (increment_write id amount u big e) (
        omega (
          int_laws,
          decrement-total audit id amount t one,
          total-update_where (has_id id) (increment audit as_is amount) (pos 0) amount u
              (λ c _. omega int_laws) (charged-has_id audit id amount t unique one),
        ))

module _ (cards : Delegate Card card_conflict)
    (transactions : Delegate LessonTransaction transaction_conflict) (audit : Option String)
    (student_id schedule_id : String) (amount : ℤ) (big : leb_ℤ amount (pos 0) ≡ false) where
  abbrev pub SettlesOk : LessonDb → LessonDeductOutcome × LessonDb → Type 0
  SettlesOk = Outcome audit student_id schedule_id amount

  after_failed_create-Settles :
      (id : String) (error : DbError) (t : List Card) (rows : List LessonTransaction)
      {q : LessonDeductOutcome × LessonDb}
      → is_consistent card_conflict t ≡ true
      → count_where (can_decrement id amount always) t ≡ 1
      → after_failed_create cards transactions audit student_id schedule_id amount id error
          (record {
            cards = update_where (can_decrement id amount always) (decrement audit as_is amount) t;
            transactions = rows;
          })
        ≡ ok q
      → SettlesOk (record { cards = t; transactions = rows }) q
  unfolding after_failed_create
  after_failed_create-Settles id error t rows {q} unique one e =
      go
        (increment_membership_lessons cards audit id amount
          (update_where (can_decrement id amount always) (decrement audit as_is amount) t))
        (λ t' w. (
          restored-total cards audit id amount t big unique one w,
          λ h.
              restored-IsCovered cards audit id amount
                (update_where (can_decrement id amount always) (decrement audit as_is amount) t) big
                w (decrement-IsCovered audit id amount t h),
        ))
        error (transactions.find_first (is_deduction_for student_id schedule_id) rows) e
    where
      go :
          (m : Result DbError (List Card))
          → ((t' : List Card) → m ≡ ok t' → (total t' ≡ℤ total t) × (IsCovered t → IsCovered t'))
          → (error : DbError) (found : Option LessonTransaction)
          → (m >>= λ restored.
              if is_prisma_unique_violation error
              then elim found [
                | some _ ↦ ok (
                  LessonDeductOutcome.already_deducted,
                  record { cards = restored; transactions = rows },
                )
                | none ↦ err error
              ]
              else err error)
            ≡ ok q
          → SettlesOk (record { cards = t; transactions = rows }) q
      go (err _) kept error found a = cc
      go (ok t') kept DbError.failure found a = cc
      go (ok t') kept DbError.unique_violation none a = cc
      go (ok t') kept DbError.unique_violation (some _) a =
          subst (SettlesOk (record { cards = t; transactions = rows })) (ok-injective a)
            ((kept t' refl).0, refl, (kept t' refl).1)

  record_deduction-Settles :
      (card : Card) (t : List Card) (rows : List LessonTransaction)
      {q : LessonDeductOutcome × LessonDb}
      → is_consistent card_conflict t ≡ true
      → count_where (can_decrement card.id amount always) t ≡ 1
      → record_deduction cards transactions audit student_id schedule_id amount card (record {
        cards = update_where (can_decrement card.id amount always) (decrement audit as_is amount) t;
        transactions = rows;
      })
        ≡ ok q
      → SettlesOk (record { cards = t; transactions = rows }) q
  unfolding record_deduction
  record_deduction-Settles card t rows {q} unique one e = go (transactions.create row rows) refl e
    where
      row : LessonTransaction
      row = deduction_row audit student_id schedule_id amount card

      u : List Card
      u = update_where (can_decrement card.id amount always) (decrement audit as_is amount) t

      go :
          (m : Result DbError (List LessonTransaction))
          → transactions.create row rows ≡ m
          → (elim m [
            | ok added ↦
                ok (LessonDeductOutcome.deducted, record { cards = u; transactions = added })
            | err error ↦
                after_failed_create cards transactions audit student_id schedule_id amount card.id
                  error
                  (record { cards = u; transactions = rows })
          ])
            ≡ ok q
          → SettlesOk (record { cards = t; transactions = rows }) q
      go (err error) w a = after_failed_create-Settles card.id error t rows unique one a
      go (ok added) w a =
          subst (SettlesOk (record { cards = t; transactions = rows })) (ok-injective a) (
            decrement-total audit card.id amount t one,
            (card, (transactions.create_ok row rows w).0),
            decrement-IsCovered audit card.id amount t,
          )

  pub deduct_from-Settles :
      (payers : List Card) (t : List Card) (rows : List LessonTransaction)
      {q : LessonDeductOutcome × LessonDb}
      → is_consistent card_conflict t ≡ true
      → deduct_from cards transactions audit student_id schedule_id amount payers
          (record { cards = t; transactions = rows })
        ≡ ok q
      → SettlesOk (record { cards = t; transactions = rows }) q
  unfolding deduct_from
  deduct_from-Settles [] t rows {q} unique e =
      subst (SettlesOk (record { cards = t; transactions = rows })) (ok-injective e)
        (refl, refl, λ h. h)
  deduct_from-Settles (card ∷ rest) t rows {q} unique e =
      let (r, tried, goes_on) =
        >>=-eq-ok (try_decrement_membership_lessons cards audit card.id amount always as_is t) _
          e in
      go r (try_decrement_cases cards audit card.id amount always as_is t unique tried) goes_on
        (λ a. deduct_from-Settles rest t rows unique a)
    where
      go :
          (r : Bool × List Card)
          → Decremented audit card.id amount always as_is t r
          → (if r.0
              then record_deduction cards transactions audit student_id schedule_id amount card
                  (record { cards = r.1; transactions = rows })
              else deduct_from cards transactions audit student_id schedule_id amount rest
                  (record { cards = r.1; transactions = rows }))
            ≡ ok q
          → (deduct_from cards transactions audit student_id schedule_id amount rest
                  (record { cards = t; transactions = rows })
                ≡ ok q
              → SettlesOk (record { cards = t; transactions = rows }) q)
          → SettlesOk (record { cards = t; transactions = rows }) q
      go (done, u) (inl (p, one, wrote, _)) a later =
          record_deduction-Settles card t rows unique one (rw (← wrote) (rw p at a))
      go (done, u) (inr (p, same, _)) a later = later (rw (← same) (rw p at a))
