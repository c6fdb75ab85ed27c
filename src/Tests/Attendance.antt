-- ===== src/Tests/Attendance.antt =====
-- A check-in of modules/attendance/attendance.service.ts that takes two lessons from the only card.
use mib_server.Prelude.{false, ◌≡◌, refl, true, none, some, [], ◌∷◌, ok}
use mib_server.Prelude.Int.{ℤ, pos, ◌-ℤ◌}
use mib_server.Database.Memory.{memory}
use mib_server.Lessons.Data.{Card, MembershipStatus, card_conflict, transaction_conflict}
use mib_server.Lessons.Balance.{try_decrement_membership_lessons, increment_membership_lessons}
use mib_server.Lessons.Deduct.{
  deduction_row, after_failed_create, record_deduction, deduct_from, deduct_lessons_for_check_in,
}
use mib_server.Courses.Schedules.{ScheduleStatus}
use mib_server.Attendance.Data.{
  AttendanceDb, AttendanceMethod, AttendanceStatus, CheckInDto, Delegates, ScheduleInfo,
  enrollment_conflict, leave_conflict, record_conflict, schedule_conflict, token_conflict,
}
use mib_server.Attendance.Service.{
  check_in, check_in_enrolled, check_method, deduct_part, status_at, upsert_attendance,
  upsert_record,
}
use mib_server.Attendance.Accounts.{Accounts, check_in-Accounts}

abbrev tables : Delegates
tables = record {
  schedules = memory schedule_conflict;
  enrollments = memory enrollment_conflict;
  leaves = memory leave_conflict;
  tokens = memory token_conflict;
  records = memory record_conflict;
  cards = memory card_conflict;
  transactions = memory transaction_conflict;
}

abbrev card : ℤ → Card
card remaining = record {
  id = "a";
  tenant_id = none;
  student_id = "amy";
  title = "ten lessons";
  total_lessons = pos 10;
  remaining_lessons = remaining;
  valid_from = 0;
  valid_to = 9000000;
  status = MembershipStatus.active;
  version = 0;
  created_by = none;
  updated_by = none;
}

abbrev monday : ScheduleInfo
monday = record {
  id = "monday";
  class_id = "swimming";
  starts_at = 1000;
  ends_at = 900000;
  late_grace_minutes = 15;
  status = ScheduleStatus.scheduled;
  default_lesson_deduct = pos 2;
  has_geofence = false;
}

abbrev before : AttendanceDb
before = record {
  schedules = monday ∷ [];
  enrollments = record { class_id = "swimming"; student_id = "amy" } ∷ [];
  leaves = [];
  tokens = [];
  records = [];
  lessons = record { cards = card (pos 5) ∷ []; transactions = [] };
}

abbrev request : CheckInDto
request = record {
  student_id = "amy";
  schedule_id = "monday";
  method = AttendanceMethod.manual;
  qr_token = none;
  in_range = none;
}

abbrev after : AttendanceDb
after = record before {
  records =
      record {
        student_id = "amy";
        schedule_id = "monday";
        status = AttendanceStatus.present;
        method = AttendanceMethod.manual;
        check_in_at = some 2000;
        check_out_at = none;
      }
      ∷ [];
  lessons = record {
    cards = card (pos 3) ∷ [];
    transactions = deduction_row none "amy" "monday" (pos 2) (card (pos 5)) ∷ [];
  };
}

check_in_first : check_in tables none (λ d. d) request 2000 before ≡ ok (true, after)
unfolding check_in check_in_enrolled check_method status_at upsert_attendance upsert_record
    deduct_part deduct_lessons_for_check_in deduct_from record_deduction after_failed_create
    try_decrement_membership_lessons increment_membership_lessons ◌-ℤ◌
check_in_first = refl

check_in-Accounts_example : Accounts none "amy" "monday" before.lessons (true, after.lessons)
check_in-Accounts_example =
    check_in-Accounts tables none (λ d. d) request 2000 before refl check_in_first
