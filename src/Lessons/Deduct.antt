-- ===== src/Lessons/Deduct.antt =====
-- modules/attendance/attendance-lesson-deduct.ts: the deduction at check-in, inside an open
-- transaction. An error result carries no state, since the transaction is rolled back.
use mib_server.Prelude.{
  ℕ, String, str_eq, Bool, true, false, ◌&&◌, ◌||◌, Option, none, some, List, [], ◌∷◌, Result, ok,
  err, ◌>>=◌, if◌then◌else◌, leb,
}
use mib_server.Prelude.Int.{ℤ, pos, ◌-ℤ◌, leb_ℤ}
use mib_server.Database.{DbError, Delegate, is_prisma_unique_violation}
use mib_server.Lessons.Data.{
  Card, MembershipStatus, LessonTransaction, LessonDb, card_conflict, transaction_conflict,
  build_check_in_business_key, lesson_transaction_create_data,
}
use mib_server.Lessons.Balance.{try_decrement_membership_lessons, increment_membership_lessons}

abbrev pub checkin_deduct_reason : String
checkin_deduct_reason = "CLASS_CHECK_IN"

pub data LessonDeductOutcome : Type 0 where
  deducted already_deducted insufficient : LessonDeductOutcome

abbrev pub is_active : MembershipStatus → Bool
is_active MembershipStatus.active = true
is_active _ = false

abbrev pub has_schedule : Option String → String → Bool
has_schedule none schedule_id = false
has_schedule (some s) schedule_id = str_eq s schedule_id

-- The `where` clause of both look-ups of an earlier deduction.
abbrev pub is_deduction_for : String → String → LessonTransaction → Bool
is_deduction_for student_id schedule_id t =
    str_eq t.business_key (build_check_in_business_key student_id schedule_id)
    || (has_schedule t.schedule_id schedule_id
        && (str_eq t.reason checkin_deduct_reason && str_eq t.student_id student_id))

-- The `where` clause of the cards that may pay at the time `now`.
abbrev pub may_pay : String → ℕ → Card → Bool
may_pay student_id now c =
    str_eq c.student_id student_id
    && (is_active c.status && (leb c.valid_from now && leb now c.valid_to))

-- The transaction row for a check-in paid by a card.
abbrev pub deduction_row : Option String → String → String → ℤ → Card → LessonTransaction
deduction_row audit student_id schedule_id amount card =
    lesson_transaction_create_data audit (record {
      membership_id = card.id;
      student_id = student_id;
      delta = pos 0 -ℤ amount;
      reason = checkin_deduct_reason;
      business_key = build_check_in_business_key student_id schedule_id;
      schedule_id = some schedule_id;
      before_remaining = card.remaining_lessons;
      after_remaining = card.remaining_lessons -ℤ amount;
      metadata = some (record { source = "check_in"; schedule_id = some schedule_id });
    })

module _ (cards : Delegate Card card_conflict)
    (transactions : Delegate LessonTransaction transaction_conflict) (audit : Option String)
    (student_id schedule_id : String) (amount : ℤ) where
  -- The `catch` of the insert: give the lessons back, look for the row that won, or throw on.
  unfoldable pub after_failed_create :
      String → DbError → LessonDb → Result DbError (LessonDeductOutcome × LessonDb)
  after_failed_create card_id error db =
      increment_membership_lessons cards audit card_id amount db.cards >>= λ restored.
      if is_prisma_unique_violation error
      then elim (transactions.find_first (is_deduction_for student_id schedule_id)
          db.transactions) [
            | some _ ↦ ok (LessonDeductOutcome.already_deducted, record db { cards = restored })
            | none ↦ err error
          ]
      else err error

  -- After a successful decrement: the insert of the transaction row.
  unfoldable pub record_deduction :
      Card → LessonDb → Result DbError (LessonDeductOutcome × LessonDb)
  unfolding after_failed_create
  record_deduction card db =
      elim (transactions.create (deduction_row audit student_id schedule_id amount card)
        db.transactions) [
          | ok rows ↦ ok (LessonDeductOutcome.deducted, record db { transactions = rows })
          | err error ↦ after_failed_create card.id error db
        ]

  -- The loop over the cards.
  unfoldable pub deduct_from :
      List Card → LessonDb → Result DbError (LessonDeductOutcome × LessonDb)
  unfolding record_deduction
  deduct_from [] db = ok (LessonDeductOutcome.insufficient, db)
  deduct_from (card ∷ rest) db =
      let next = λ (t : List Card). deduct_from rest (record db { cards = t }) in
      try_decrement_membership_lessons cards audit card.id amount (λ _. true) (λ c. c) db.cards
      >>= λ r. if r.0 then record_deduction card (record db { cards = r.1 }) else next r.1

  -- `deductLessonsForCheckIn`, at the time `now`
  unfoldable pub deduct_lessons_for_check_in :
      ℕ → LessonDb → Result DbError (LessonDeductOutcome × LessonDb)
  unfolding deduct_from
  deduct_lessons_for_check_in now db =
      if leb_ℤ amount (pos 0)
      then ok (LessonDeductOutcome.insufficient, db)
      else elim (transactions.find_first (is_deduction_for student_id schedule_id)
          db.transactions) [
            | some _ ↦ ok (LessonDeductOutcome.already_deducted, db)
            | none ↦
                deduct_from (cards.find_many (may_pay student_id now) (λ c. c.valid_to) db.cards) db
          ]
