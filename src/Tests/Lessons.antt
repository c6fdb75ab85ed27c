-- ===== src/Tests/Lessons.antt =====
-- The deduction at check-in of modules/attendance/attendance-lesson-deduct.ts, at one student.
use mib_server.Prelude.{◌≡◌, refl, none, some, [], ◌∷◌, ok, inl, ℕ, String, arith}
use mib_server.Prelude.Int.{ℤ, pos, ◌≤ℤ◌, ◌-ℤ◌}
use mib_server.Database.Memory.{memory}
use mib_server.Lessons.Data.{
  Card, MembershipStatus, LessonTransaction, LessonDb, card_conflict, transaction_conflict,
}
use mib_server.Lessons.Balance.{try_decrement_membership_lessons, increment_membership_lessons}
use mib_server.Lessons.Deduct.{
  LessonDeductOutcome, deduction_row, after_failed_create, record_deduction, deduct_from,
  deduct_lessons_for_check_in,
}
use mib_server.Lessons.Settlement.{Settles, IsCovered}
use mib_server.Lessons.CheckIn.{
  deduct_lessons-Settles, deduct_lessons-IsCovered, deduct_lessons_twice,
}
use mib_server.Lessons.Refusal.{insufficient-means, check_in_blocked}

abbrev card : String → ℤ → ℕ → Card
card id remaining valid_to = record {
  id = id;
  tenant_id = none;
  student_id = "amy";
  title = "ten lessons";
  total_lessons = pos 10;
  remaining_lessons = remaining;
  valid_from = 0;
  valid_to = valid_to;
  status = MembershipStatus.active;
  version = 0;
  created_by = none;
  updated_by = none;
}

-- Two cards: the one that ends first has a lesson left, the other five.
abbrev before : LessonDb
before = record { cards = card "b" (pos 5) 90 ∷ card "a" (pos 1) 50 ∷ []; transactions = [] }

abbrev after : LessonDb
after = record {
  cards = card "b" (pos 3) 90 ∷ card "a" (pos 1) 50 ∷ [];
  transactions = deduction_row none "amy" "monday" (pos 2) (card "b" (pos 5) 90) ∷ [];
}

-- A manual adjustment that names the schedule.
abbrev adjustment : LessonTransaction
adjustment = record {
  membership_id = "b";
  student_id = "amy";
  delta = pos 1;
  reason = "gift";
  schedule_id = some "monday";
  business_key = "adjust:b:1";
  operator_id = none;
  before_remaining = pos 4;
  after_remaining = pos 5;
  metadata = none;
  created_by = none;
  updated_by = none;
}

abbrev adjusted : LessonDb
adjusted = record { cards = card "b" (pos 5) 90 ∷ []; transactions = adjustment ∷ [] }

-- The first card is too low for two lessons, so the second pays.
deduct_second :
    deduct_lessons_for_check_in
      (memory card_conflict)
      (memory transaction_conflict)
      none
      "amy"
      "monday"
      (pos 2)
      10
      before
    ≡ ok (LessonDeductOutcome.deducted, after)
unfolding deduct_lessons_for_check_in deduct_from record_deduction after_failed_create
    try_decrement_membership_lessons increment_membership_lessons ◌-ℤ◌
deduct_second = refl

deduct_lessons-Settles_example :
    Settles none "amy" "monday" (pos 2) before (LessonDeductOutcome.deducted, after)
deduct_lessons-Settles_example =
    deduct_lessons-Settles (memory card_conflict) (memory transaction_conflict) none "amy" "monday"
      (pos 2) 10 before refl deduct_second

deduct_lessons-IsCovered_example : IsCovered after.cards
deduct_lessons-IsCovered_example =
    deduct_lessons-IsCovered (memory card_conflict) (memory transaction_conflict) none "amy"
      "monday" (pos 2) 10 before refl (omega arith, (omega arith, tt)) deduct_second

deduct_lessons_twice_example :
    deduct_lessons_for_check_in
      (memory card_conflict)
      (memory transaction_conflict)
      none
      "amy"
      "monday"
      (pos 2)
      11
      after
    ≡ ok (LessonDeductOutcome.already_deducted, after)
deduct_lessons_twice_example =
    deduct_lessons_twice (memory card_conflict) (memory transaction_conflict) none "amy" "monday"
      (pos 2) 10 11 before after refl refl deduct_second

deduct_nothing :
    deduct_lessons_for_check_in
      (memory card_conflict)
      (memory transaction_conflict)
      none
      "amy"
      "monday"
      (pos 7)
      10
      before
    ≡ ok (LessonDeductOutcome.insufficient, before)
unfolding deduct_lessons_for_check_in deduct_from record_deduction after_failed_create
    try_decrement_membership_lessons increment_membership_lessons
deduct_nothing = refl

insufficient-means_example : ¬ (pos 7 ≤ℤ pos 5)
insufficient-means_example =
    insufficient-means (memory card_conflict) (memory transaction_conflict) none "amy" "monday"
      (pos 7) 10 before (card "b" (pos 5) 90) refl refl deduct_nothing (inl refl) refl

check_in_blocked_example : ¬ (
    deduct_lessons_for_check_in
      (memory card_conflict)
      (memory transaction_conflict)
      none
      "amy"
      "monday"
      (pos 2)
      10
      adjusted
    ≡ ok (LessonDeductOutcome.deducted, adjusted))
check_in_blocked_example =
    check_in_blocked (memory card_conflict) (memory transaction_conflict) none "amy" "monday"
      (pos 2) 10 adjusted (card "b" (pos 5) 90) [] refl refl refl refl (omega arith) refl
