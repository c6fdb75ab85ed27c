-- ===== src/Statistics.antt =====
-- modules/statistics/statistics.service.ts over the rows of attendance, of the lesson ledger and of
-- orders. Times are milliseconds; an absent or empty parameter is none. An aggregate of Prisma is
-- the sum over the rows that its filter selects, which is null without rows.
pub mod Summaries
pub mod Conservation
use mib_server.Prelude.{
  ℕ, suc, ◌+◌, String, str_eq, Bool, true, false, ◌&&◌, Option, none, some, List, [], ◌∷◌, leb,
  ◌==◌, select_where, first_match, length, if◌then◌else◌,
}
use mib_server.Prelude.Int.{ℤ, pos, ◌+ℤ◌, ◌-ℤ◌, ltb_ℤ}
use mib_server.Lessons.Data.{Card, LessonTransaction}
use mib_server.Attendance.Data.{AttendanceRecord, AttendanceStatus, ScheduleInfo}
use mib_server.Billing.Orders.{Order}
use mib_server.Money.{Codes, format_amount_from_cents}

-- `{ gte, lte }`, where they are given
abbrev pub in_range : Option ℕ → Option ℕ → ℕ → Bool
in_range none none t = true
in_range (some from) none t = leb from t
in_range none (some to) t = leb t to
in_range (some from) (some to) t = leb from t && leb t to

-- A column that can be null is in a range only if the range is not given or the column has a value.
abbrev pub in_range_option : Option ℕ → Option ℕ → Option ℕ → Bool
in_range_option none none column = true
in_range_option from to none = false
in_range_option from to (some t) = in_range from to t

abbrev pub is_given_text : Option String → String → Bool
is_given_text none column = true
is_given_text (some value) column = str_eq column value

pub record AttendanceParams : Type 0 where
  pub from : Option ℕ
  pub to : Option ℕ
  pub student_id : Option String
  pub class_id : Option String

-- `byStatus`
pub record ByStatus : Type 0 where
  pub present : ℕ
  pub late : ℕ
  pub absent : ℕ
  pub leave : ℕ

-- The rate is a quotient, of 0 by 1 where there is no record.
pub record AttendanceSummary : Type 0 where
  pub total_records : ℕ
  pub by_status : ByStatus
  pub attendance_rate : ℕ × ℕ

-- The filter of `attendanceSummary` over a record and its schedule.
unfoldable pub is_counted : AttendanceParams → AttendanceRecord × ScheduleInfo → Bool
is_counted params row =
    is_given_text params.student_id row.0.student_id
    && in_range params.from params.to row.1.starts_at
    && is_given_text params.class_id row.1.class_id

-- A round of the loop.
unfoldable pub count_status : AttendanceStatus → ByStatus → ByStatus
count_status AttendanceStatus.present counts = record counts { present = suc counts.present }
count_status AttendanceStatus.late counts = record counts { late = suc counts.late }
count_status AttendanceStatus.absent counts = record counts { absent = suc counts.absent }
count_status AttendanceStatus.leave counts = record counts { leave = suc counts.leave }

unfoldable pub count_statuses : List (AttendanceRecord × ScheduleInfo) → ByStatus → ByStatus
unfolding count_status
count_statuses [] counts = counts
count_statuses (row ∷ rows) counts = count_statuses rows (count_status row.0.status counts)

abbrev pub no_counts : ByStatus
no_counts = record { present = 0; late = 0; absent = 0; leave = 0 }

-- `attendanceSummary`, over the records with their schedules
unfoldable pub attendance_summary :
    AttendanceParams → List (AttendanceRecord × ScheduleInfo) → AttendanceSummary
unfolding is_counted count_statuses
attendance_summary params rows =
    let records = select_where (is_counted params) rows in
    let counts = count_statuses records no_counts in
    let total = length records in
    record {
      total_records = total;
      by_status = counts;
      attendance_rate = if total == 0 then (0, 1) else (counts.present + counts.late, total);
    }

pub record ConsumptionParams : Type 0 where
  pub from : Option ℕ
  pub to : Option ℕ
  pub student_id : Option String

-- The student of the card that a row is of.
abbrev pub is_of_student : List Card → Option String → LessonTransaction → Bool
is_of_student cards none t = true
is_of_student cards (some student_id) t =
    elim (first_match (λ (c : Card). str_eq c.id t.membership_id) cards) [
      | none ↦ false
      | some c ↦ str_eq c.student_id student_id
    ]

-- The filter of `lessonConsumption`; the time of a row's creation is the database's
unfoldable pub is_consumption :
    (LessonTransaction → ℕ) → List Card → ConsumptionParams → LessonTransaction → Bool
is_consumption created_at cards params t =
    ltb_ℤ t.delta (pos 0)
    && is_of_student cards params.student_id t
    && in_range params.from params.to (created_at t)

abbrev pub sum_of_delta : List LessonTransaction → ℤ
sum_of_delta [] = pos 0
sum_of_delta (t ∷ rows) = t.delta +ℤ sum_of_delta rows

-- `lessonConsumption`: the lessons that were deducted
unfoldable pub lesson_consumption :
    (LessonTransaction → ℕ) → List Card → ConsumptionParams → List LessonTransaction → ℤ
unfolding is_consumption
lesson_consumption created_at cards params rows =
    pos 0 -ℤ sum_of_delta (select_where (is_consumption created_at cards params) rows)

abbrev pub sum_of_amount : List Order → ℕ
sum_of_amount [] = 0
sum_of_amount (o ∷ orders) = o.amount_cents + sum_of_amount orders

pub record RevenueSummary : Type 0 where
  pub order_count : ℕ
  pub total_amount_cents : ℕ
  pub total_amount : Codes

-- `revenueSummary`
unfoldable pub revenue_summary : Option ℕ → Option ℕ → List Order → RevenueSummary
revenue_summary from to orders =
    let rows = select_where (λ (o : Order). in_range_option from to o.paid_at) orders in
    record {
      order_count = length rows;
      total_amount_cents = sum_of_amount rows;
      total_amount = format_amount_from_cents (pos (sum_of_amount rows));
    }
