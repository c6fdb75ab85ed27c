-- ===== src/Tests/Statistics.antt =====
-- The statistics after a check-in for two lessons.
use mib_server.Prelude.{ℕ, ◌≡◌, refl, none, [], ◌∷◌, ok}
use mib_server.Prelude.Int.{pos, ◌+ℤ◌, ◌-ℤ◌}
use mib_server.Database.Memory.{memory}
use mib_server.Lessons.Data.{
  Card, MembershipStatus, LessonTransaction, LessonDb, card_conflict, transaction_conflict,
}
use mib_server.Lessons.Balance.{try_decrement_membership_lessons}
use mib_server.Lessons.Deduct.{LessonDeductOutcome, deduction_row, deduct_lessons_for_check_in}
use mib_server.Statistics.{lesson_consumption}
use mib_server.Statistics.Conservation.{everything, accounted, deduct_lessons-accounted}

abbrev card : ℕ → Card
card remaining = record {
  id = "b";
  tenant_id = none;
  student_id = "amy";
  title = "ten lessons";
  total_lessons = pos 10;
  remaining_lessons = pos remaining;
  valid_from = 0;
  valid_to = 90;
  status = MembershipStatus.active;
  version = 0;
  created_by = none;
  updated_by = none;
}

abbrev before : LessonDb
before = record { cards = card 5 ∷ []; transactions = [] }

abbrev after : LessonDb
after = record {
  cards = card 3 ∷ [];
  transactions = deduction_row none "amy" "monday" (pos 2) (card 5) ∷ [];
}

abbrev at_zero : LessonTransaction → ℕ
at_zero t = 0

deduct_two :
    deduct_lessons_for_check_in
      (memory card_conflict)
      (memory transaction_conflict)
      none
      "amy"
      "monday"
      (pos 2)
      10
      before
    ≡ ok (LessonDeductOutcome.deducted, after)
unfolding deduct_lessons_for_check_in try_decrement_membership_lessons ◌-ℤ◌
deduct_two = refl

two_deducted : lesson_consumption at_zero after.cards everything after.transactions ≡ pos 2
unfolding lesson_consumption ◌-ℤ◌ ◌+ℤ◌
two_deducted = refl

deduct_lessons-accounted_example : accounted at_zero after ≡ accounted at_zero before
deduct_lessons-accounted_example =
    deduct_lessons-accounted at_zero (memory card_conflict) (memory transaction_conflict) none "amy"
      "monday" (pos 2) 10 before refl deduct_two
