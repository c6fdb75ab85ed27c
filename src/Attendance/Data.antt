-- ===== src/Attendance/Data.antt =====
-- The rows and requests of modules/attendance/attendance.service.ts.
use mib_server.Prelude.{ℕ, String, str_eq, Bool, true, false, ◌&&◌, Option, none, some, List}
use mib_server.Prelude.Int.{ℤ, pos, ltb_ℤ}
use mib_server.Database.{Delegate}
use mib_server.Lessons.Data.{Card, LessonTransaction, LessonDb, card_conflict, transaction_conflict}
use mib_server.Lessons.Deduct.{LessonDeductOutcome}
use mib_server.Courses.Schedules.{ScheduleStatus}

pub data AttendanceStatus : Type 0 where
  present late absent leave : AttendanceStatus

pub data AttendanceMethod : Type 0 where
  qr manual gps : AttendanceMethod

pub data LeaveStatus : Type 0 where
  pending approved rejected : LeaveStatus

-- What `checkIn` reads of a schedule, its class and its course type.
pub record ScheduleInfo : Type 0 where
  pub id : String
  pub class_id : String
  pub starts_at : ℕ
  pub ends_at : ℕ
  pub late_grace_minutes : ℕ
  pub status : ScheduleStatus
  pub default_lesson_deduct : ℤ
  -- the venue has a latitude, a longitude and a radius that is not 0
  pub has_geofence : Bool

pub record AttendanceRecord : Type 0 where
  pub student_id : String
  pub schedule_id : String
  pub status : AttendanceStatus
  pub method : AttendanceMethod
  pub check_in_at : Option ℕ
  pub check_out_at : Option ℕ

pub record LeaveRequest : Type 0 where
  pub student_id : String
  pub schedule_id : String
  pub status : LeaveStatus

pub record Enrollment : Type 0 where
  pub class_id : String
  pub student_id : String

pub record QrToken : Type 0 where
  pub schedule_id : String
  pub token : String
  pub expires_at : ℕ

abbrev pub schedule_conflict : ScheduleInfo → ScheduleInfo → Bool
schedule_conflict a b = str_eq a.id b.id

abbrev pub record_conflict : AttendanceRecord → AttendanceRecord → Bool
record_conflict a b = str_eq a.student_id b.student_id && str_eq a.schedule_id b.schedule_id

abbrev pub leave_conflict : LeaveRequest → LeaveRequest → Bool
leave_conflict a b = str_eq a.student_id b.student_id && str_eq a.schedule_id b.schedule_id

abbrev pub enrollment_conflict : Enrollment → Enrollment → Bool
enrollment_conflict a b = str_eq a.class_id b.class_id && str_eq a.student_id b.student_id

abbrev pub token_conflict : QrToken → QrToken → Bool
token_conflict a b = str_eq a.token b.token

pub record AttendanceDb : Type 0 where
  pub schedules : List ScheduleInfo
  pub enrollments : List Enrollment
  pub leaves : List LeaveRequest
  pub tokens : List QrToken
  pub records : List AttendanceRecord
  pub lessons : LessonDb

-- dto/check-in.dto.ts; `in_range` is what `distanceMeters` against the radius says of the
-- coordinates, where both are given.
pub record CheckInDto : Type 0 where
  pub student_id : String
  pub schedule_id : String
  pub method : AttendanceMethod
  pub qr_token : Option String
  pub in_range : Option Bool

abbrev pub is_approved : LeaveStatus → Bool
is_approved LeaveStatus.approved = true
is_approved _ = false

abbrev pub has_approved_leave : Option LeaveRequest → Bool
has_approved_leave none = false
has_approved_leave (some l) = is_approved l.status

abbrev pub is_record_of : String → String → AttendanceRecord → Bool
is_record_of student_id schedule_id r =
    str_eq r.student_id student_id && str_eq r.schedule_id schedule_id

-- The `params` of `upsertAttendance`; an amount of `none` is `skipDeduct`.
pub record UpsertParams : Type 0 where
  pub status : AttendanceStatus
  pub method : AttendanceMethod
  pub check_in_at : Option ℕ
  pub deduct_amount : Option ℤ

abbrev pub needs_deduct : Option ℤ → Bool
needs_deduct none = false
needs_deduct (some amount) = ltb_ℤ (pos 0) amount

abbrev pub amount_of : Option ℤ → ℤ
amount_of none = pos 0
amount_of (some amount) = amount

abbrev pub set_record : UpsertParams → AttendanceRecord → AttendanceRecord
set_record p r = record r { status = p.status; method = p.method; check_in_at = p.check_in_at }

abbrev pub new_record : String → String → UpsertParams → AttendanceRecord
new_record student_id schedule_id p = record {
  student_id = student_id;
  schedule_id = schedule_id;
  status = p.status;
  method = p.method;
  check_in_at = p.check_in_at;
  check_out_at = none;
}

abbrev pub was_deducted : LessonDeductOutcome → Bool
was_deducted LessonDeductOutcome.deducted = true
was_deducted _ = false

-- The delegates of the tables.
pub record Delegates : Type 0 where
  pub schedules : Delegate ScheduleInfo schedule_conflict
  pub enrollments : Delegate Enrollment enrollment_conflict
  pub leaves : Delegate LeaveRequest leave_conflict
  pub tokens : Delegate QrToken token_conflict
  pub records : Delegate AttendanceRecord record_conflict
  pub cards : Delegate Card card_conflict
  pub transactions : Delegate LessonTransaction transaction_conflict
