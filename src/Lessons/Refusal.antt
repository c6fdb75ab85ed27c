-- ===== src/Lessons/Refusal.antt =====
-- When the deduction at check-in refuses or throws: deductLessonsForCheckIn of
-- modules/attendance/attendance-lesson-deduct.ts.
use mib_server.Prelude.{
  ◌∙◌, ℕ, ◌≡◌, ◌≢◌, refl, String, Bool, true, false, inl, inr, Option, none, some, List, [], ◌∷◌,
  arith, Result, ok, err, ◌>>=◌, >>=-eq-ok, if◌then◌else◌, first_match, eq_refl, All, Member, any,
  count_where, All-member, count_where-pos,
}
use mib_server.Prelude.Int.{ℤ, pos, leb_ℤ, ◌≤ℤ◌}
use mib_server.Database.{is_prisma_unique_violation, DbError, is_consistent, Delegate}
use mib_server.Lessons.Data.{Card, LessonTransaction, LessonDb, card_conflict, transaction_conflict}
use mib_server.Lessons.Balance.{
  increment_membership_lessons, can_decrement, try_decrement_membership_lessons,
}
use mib_server.Lessons.Deduct.{
  LessonDeductOutcome, deduction_row, is_deduction_for, after_failed_create, record_deduction,
  deduct_from, deduct_lessons_for_check_in, may_pay,
}
use mib_server.Lessons.Totals.{Decremented, try_decrement_cases}
use mib_server.Lessons.Settlement.{as_is, always}

module _ (cards : Delegate Card card_conflict)
    (transactions : Delegate LessonTransaction transaction_conflict) (audit : Option String)
    (student_id schedule_id : String) (amount : ℤ) where
  record_deduction-ne-insufficient :
      (card : Card) (db : LessonDb) {db' : LessonDb}
      → record_deduction cards transactions audit student_id schedule_id amount card db
        ≢ ok (LessonDeductOutcome.insufficient, db')
  unfolding record_deduction after_failed_create
  record_deduction-ne-insufficient card db e = ground arith

  -- The loop says "insufficient" only after every card that it was given was too low.
  deduct_from_insufficient :
      (payers : List Card) (db : LessonDb) {db' : LessonDb}
      → leb_ℤ amount (pos 0) ≡ false
      → is_consistent card_conflict db.cards ≡ true
      → deduct_from cards transactions audit student_id schedule_id amount payers db
        ≡ ok (LessonDeductOutcome.insufficient, db')
      → All (λ c. count_where (can_decrement c.id amount always) db.cards ≡ 0) payers
  unfolding deduct_from
  deduct_from_insufficient [] db big unique e = tt
  deduct_from_insufficient (card ∷ rest) db {db'} big unique e =
      let (r, tried, goes_on) =
        >>=-eq-ok
          (try_decrement_membership_lessons cards audit card.id amount always as_is db.cards) _ e in
      go r (try_decrement_cases cards audit card.id amount always as_is db.cards unique tried)
        goes_on (λ a. deduct_from_insufficient rest db big unique a)
    where
      go :
          (r : Bool × List Card)
          → Decremented audit card.id amount always as_is db.cards r
          → (if r.0
              then record_deduction cards transactions audit student_id schedule_id amount card
                  (record db { cards = r.1 })
              else deduct_from cards transactions audit student_id schedule_id amount rest
                  (record db { cards = r.1 }))
            ≡ ok (LessonDeductOutcome.insufficient, db')
          → (deduct_from cards transactions audit student_id schedule_id amount rest db
                ≡ ok (LessonDeductOutcome.insufficient, db')
              → All (λ c. count_where (can_decrement c.id amount always) db.cards ≡ 0) rest)
          → (count_where (can_decrement card.id amount always) db.cards ≡ 0)
            × All (λ c. count_where (can_decrement c.id amount always) db.cards ≡ 0) rest
      go (done, u) (inl (p, _, _, _)) a later =
          absurd (record_deduction-ne-insufficient card (record db { cards = u }) (rw p at a))
      go (done, u) (inr (p, same, none_found)) a later =
          (none_found big, later (rw same at (rw p at a)))

  -- "insufficient", for a positive amount and with one row per card id, means that every card of the student that is active and
  -- valid now has fewer lessons left than the amount.
  pub insufficient-means :
      (now : ℕ) (db : LessonDb) {db' : LessonDb} (card : Card)
      → leb_ℤ amount (pos 0) ≡ false
      → is_consistent card_conflict db.cards ≡ true
      → deduct_lessons_for_check_in cards transactions audit student_id schedule_id amount now db
        ≡ ok (LessonDeductOutcome.insufficient, db')
      → Member card db.cards
      → may_pay student_id now card ≡ true
      → ¬ (amount ≤ℤ card.remaining_lessons)
  unfolding deduct_lessons_for_check_in
  insufficient-means now db {db'} card big unique e there pays enough =
      go (transactions.find_first (is_deduction_for student_id schedule_id) db.transactions)
        (rw big at e)
    where
      payers : List Card
      payers = cards.find_many (may_pay student_id now) (λ c. c.valid_to) db.cards

      go :
          (found : Option LessonTransaction)
          → (elim found [
            | some _ ↦ ok (LessonDeductOutcome.already_deducted, db)
            | none ↦ deduct_from cards transactions audit student_id schedule_id amount payers db
          ])
            ≡ ok (LessonDeductOutcome.insufficient, db')
          → ⊥
      go (some _) a = cc
      go none a =
          let low : count_where (can_decrement card.id amount always) db.cards ≡ 0 =
            All-member (λ c. count_where (can_decrement c.id amount always) db.cards ≡ 0) payers
              (deduct_from_insufficient payers db big unique a) card
              (cards.find_many_complete (may_pay student_id now) (λ c. c.valid_to) db.cards card
                there pays) in
          count_where-pos (can_decrement card.id amount always) card db.cards there
            (rw (eq_refl card.id) (ground arith)) low

  record_deduction_blocked :
      (card : Card) (db : LessonDb) {q : LessonDeductOutcome × LessonDb}
      → first_match (is_deduction_for student_id schedule_id) db.transactions ≡ none
      → any
          (transaction_conflict (deduction_row audit student_id schedule_id amount card))
          db.transactions
        ≡ true
      → record_deduction cards transactions audit student_id schedule_id amount card db ≢ ok q
  unfolding record_deduction after_failed_create
  record_deduction_blocked card db {q} free taken =
      go (transactions.create row db.transactions) refl
        (increment_membership_lessons cards audit card.id amount db.cards)
        (transactions.find_first (is_deduction_for student_id schedule_id) db.transactions)
        (transactions.find_first_law (is_deduction_for student_id schedule_id) db.transactions
          ∙ free)
    where
      row : LessonTransaction
      row = deduction_row audit student_id schedule_id amount card

      go :
          (m : Result DbError (List LessonTransaction))
          → transactions.create row db.transactions ≡ m
          → (back : Result DbError (List Card)) (found : Option LessonTransaction) → found ≡ none
          → (elim m [
            | ok rows ↦ ok (LessonDeductOutcome.deducted, record db { transactions = rows })
            | err error ↦ back >>= λ restored.
                if is_prisma_unique_violation error
                then elim found [
                  | some _ ↦
                      ok (LessonDeductOutcome.already_deducted, record db { cards = restored })
                  | none ↦ err error
                ]
                else err error
          ])
            ≢ ok q
      go (ok rows) w back found nothing e =
          cc ((transactions.create_ok row db.transactions w).1, taken)
      go (err error) w back found nothing e = ground arith

  -- A row of another origin for the same card and schedule, such as a manual adjustment, stands in
  -- the way of a check-in for a positive amount: with one row per card id, when the first card that
  -- may pay has such a row and enough lessons, and no deduction is recorded, the call throws.
  pub check_in_blocked :
      (now : ℕ) (db : LessonDb) (card : Card) (rest : List Card)
      {q : LessonDeductOutcome × LessonDb}
      → leb_ℤ amount (pos 0) ≡ false
      → is_consistent card_conflict db.cards ≡ true
      → first_match (is_deduction_for student_id schedule_id) db.transactions ≡ none
      → cards.find_many (may_pay student_id now) (λ c. c.valid_to) db.cards ≡ card ∷ rest
      → amount ≤ℤ card.remaining_lessons
      → any
          (transaction_conflict (deduction_row audit student_id schedule_id amount card))
          db.transactions
        ≡ true
      → deduct_lessons_for_check_in cards transactions audit student_id schedule_id amount now db
        ≢ ok q
  unfolding deduct_lessons_for_check_in deduct_from
  check_in_blocked now db card rest {q} big unique free first enough taken e =
      let e' = (simp (big, transactions.find_first_law, free, first) at e) in
      let (r, tried, goes_on) =
        >>=-eq-ok
          (try_decrement_membership_lessons cards audit card.id amount always as_is db.cards) _
          e' in
      go r (try_decrement_cases cards audit card.id amount always as_is db.cards unique tried)
        goes_on
    where
      go :
          (r : Bool × List Card)
          → Decremented audit card.id amount always as_is db.cards r
          → (if r.0
              then record_deduction cards transactions audit student_id schedule_id amount card
                  (record db { cards = r.1 })
              else deduct_from cards transactions audit student_id schedule_id amount rest
                  (record db { cards = r.1 }))
            ≡ ok q
          → ⊥
      go (done, u) (inl (p, _, _, _)) a =
          record_deduction_blocked card (record db { cards = u }) free taken (rw p at a)
      go (done, u) (inr (_, _, none_found)) a =
          let there : All (λ r. (may_pay student_id now r ≡ true) × Member r db.cards)
              (card ∷ rest) =
            rw first at (cards.find_many_law (may_pay student_id now) (λ c. c.valid_to) db.cards) in
          count_where-pos (can_decrement card.id amount always) card db.cards there.0.1
            (rw (eq_refl card.id) (ground arith)) (none_found big)
