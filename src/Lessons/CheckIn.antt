-- ===== src/Lessons/CheckIn.antt =====
-- What the deduction at check-in promises: deductLessonsForCheckIn of
-- modules/attendance/attendance-lesson-deduct.ts.
use mib_server.Prelude.{
  ℕ, ◌≡◌, refl, String, true, false, inl, inr, Option, none, some, ok, ok-injective, subst,
  Bool-cases, first_match-append, eq_refl,
}
use mib_server.Prelude.Int.{ℤ, pos, leb_ℤ}
use mib_server.Database.{is_consistent, Delegate}
use mib_server.Lessons.Data.{
  Card, LessonTransaction, LessonDb, card_conflict, transaction_conflict,
  build_check_in_business_key,
}
use mib_server.Lessons.Deduct.{
  LessonDeductOutcome, deduction_row, is_deduction_for, deduct_from, deduct_lessons_for_check_in,
  may_pay,
}
use mib_server.Lessons.Deduction.{deduct_from-Settles}
use mib_server.Lessons.Settlement.{Settles, Outcome, Outcome-Settles, Outcome-IsCovered, IsCovered}

-- A row that the deduction writes is found by the look-up for an earlier deduction.
deduction_row_found :
    (audit : Option String) (student_id schedule_id : String) (amount : ℤ) (card : Card)
    → is_deduction_for student_id schedule_id
        (deduction_row audit student_id schedule_id amount card)
      ≡ true
deduction_row_found audit student_id schedule_id amount card =
    rw (eq_refl (build_check_in_business_key student_id schedule_id))

module _ (cards : Delegate Card card_conflict)
    (transactions : Delegate LessonTransaction transaction_conflict) (audit : Option String)
    (student_id schedule_id : String) (amount : ℤ) where
  deduct_lessons-Outcome :
      (now : ℕ) (db : LessonDb) {q : LessonDeductOutcome × LessonDb}
      → is_consistent card_conflict db.cards ≡ true
      → deduct_lessons_for_check_in cards transactions audit student_id schedule_id amount now db
        ≡ ok q
      → Outcome audit student_id schedule_id amount db q
  unfolding deduct_lessons_for_check_in
  deduct_lessons-Outcome now db {q} unique e = elim (Bool-cases (leb_ℤ amount (pos 0))) [
    | inl small ↦
        subst (Outcome audit student_id schedule_id amount db) (ok-injective (rw small at e))
          (refl, refl, λ h. h)
    | inr big ↦
        go big (transactions.find_first (is_deduction_for student_id schedule_id) db.transactions)
          (rw big at e)
  ]
    where
      go :
          leb_ℤ amount (pos 0) ≡ false
          → (found : Option LessonTransaction)
          → (elim found [
            | some _ ↦ ok (LessonDeductOutcome.already_deducted, db)
            | none ↦
                deduct_from cards transactions audit student_id schedule_id amount
                  (cards.find_many (may_pay student_id now) (λ c. c.valid_to) db.cards)
                  db
          ])
            ≡ ok q
          → Outcome audit student_id schedule_id amount db q
      go big (some _) a =
          subst (Outcome audit student_id schedule_id amount db) (ok-injective a)
            (refl, refl, λ h. h)
      go big none a =
          deduct_from-Settles cards transactions audit student_id schedule_id amount big
            (cards.find_many (may_pay student_id now) (λ c. c.valid_to) db.cards) db.cards
            db.transactions unique a

  -- Whatever the deduction answers, with one row per card id: "deducted" takes exactly the amount from
  -- the cards' total and adds one row, the one that records it; the other answers leave the total and
  -- the rows as they were.
  pub deduct_lessons-Settles :
      (now : ℕ) (db : LessonDb) {q : LessonDeductOutcome × LessonDb}
      → is_consistent card_conflict db.cards ≡ true
      → deduct_lessons_for_check_in cards transactions audit student_id schedule_id amount now db
        ≡ ok q
      → Settles audit student_id schedule_id amount db q
  deduct_lessons-Settles now db {q} unique e =
      Outcome-Settles audit student_id schedule_id amount db q
        (deduct_lessons-Outcome now db unique e)

  -- Where no card is overdrawn, with one row per card id, none is after the deduction, whatever it
  -- answers.
  pub deduct_lessons-IsCovered :
      (now : ℕ) (db : LessonDb) {q : LessonDeductOutcome × LessonDb}
      → is_consistent card_conflict db.cards ≡ true
      → IsCovered db.cards
      → deduct_lessons_for_check_in cards transactions audit student_id schedule_id amount now db
        ≡ ok q
      → IsCovered q.1.cards
  deduct_lessons-IsCovered now db {q} unique covered e =
      Outcome-IsCovered audit student_id schedule_id amount db q
        (deduct_lessons-Outcome now db unique e) covered

  -- Once a check-in for a positive amount has answered "deducted", with one row per card id, another
  -- for the same student and schedule answers "already deducted" and changes nothing, at any time,
  -- where no other write came between.
  pub deduct_lessons_twice :
      (now later : ℕ) (db db' : LessonDb)
      → leb_ℤ amount (pos 0) ≡ false
      → is_consistent card_conflict db.cards ≡ true
      → deduct_lessons_for_check_in cards transactions audit student_id schedule_id amount now db
        ≡ ok (LessonDeductOutcome.deducted, db')
      → deduct_lessons_for_check_in cards transactions audit student_id schedule_id amount later db'
        ≡ ok (LessonDeductOutcome.already_deducted, db')
  unfolding deduct_lessons_for_check_in
  deduct_lessons_twice now later db db' big unique e =
      let (_, (card, added)) = deduct_lessons-Settles now db unique e in
      let (row, found) =
        first_match-append (is_deduction_for student_id schedule_id) db.transactions
          (deduction_row audit student_id schedule_id amount card)
          (deduction_row_found audit student_id schedule_id amount card) in
      simp (big, transactions.find_first_law, added, found)
