-- ===== src/Statistics/Summaries.antt =====
-- What modules/statistics/statistics.service.ts says agrees with the rows, and with the check-ins
-- that wrote them.
use mib_server.Prelude.{
  suc, ℕ, ◌+◌, ◌≤◌, ◌<◌, ◌≡◌, refl, Bool, List, [], ◌∷◌, arith, length, count_where, select_where,
}
use mib_server.Attendance.Data.{AttendanceRecord, AttendanceStatus, ScheduleInfo}
use mib_server.Statistics.{
  no_counts, AttendanceParams, ByStatus, is_counted, count_status, count_statuses,
  attendance_summary,
}

abbrev pub sum_of_counts : ByStatus → ℕ
sum_of_counts c = c.present + c.late + c.absent + c.leave

count_status-one :
    (s : AttendanceStatus) (c : ByStatus) → sum_of_counts (count_status s c) ≡ suc (sum_of_counts c)
unfolding count_status
count_status-one AttendanceStatus.present c = omega arith
count_status-one AttendanceStatus.late c = omega arith
count_status-one AttendanceStatus.absent c = omega arith
count_status-one AttendanceStatus.leave c = omega arith

count_statuses-all :
    (rows : List (AttendanceRecord × ScheduleInfo)) (c : ByStatus)
    → sum_of_counts (count_statuses rows c) ≡ length rows + sum_of_counts c
unfolding count_statuses
count_statuses-all [] c = omega arith
count_statuses-all (row ∷ rows) c =
    omega (
      arith,
      count_statuses-all rows (count_status row.0.status c),
      count_status-one row.0.status c,
    )

length-select_where :
    (p : AttendanceRecord × ScheduleInfo → Bool) (rows : List (AttendanceRecord × ScheduleInfo))
    → length (select_where p rows) ≡ count_where p rows
length-select_where p [] = refl
length-select_where p (row ∷ rows) = ground (arith, length-select_where p rows)

-- The counts by status add up to the number of records that the filter admits, and the rate is a
-- quotient between 0 and 1, whatever the parameters.
pub attendance_summary-adds_up :
    (params : AttendanceParams) (rows : List (AttendanceRecord × ScheduleInfo))
    → ((attendance_summary params rows).total_records ≡ count_where (is_counted params) rows)
      × (sum_of_counts (attendance_summary params rows).by_status
          ≡ (attendance_summary params rows).total_records)
      × ((attendance_summary params rows).attendance_rate.0
          ≤ (attendance_summary params rows).attendance_rate.1)
      × (0 < (attendance_summary params rows).attendance_rate.1)
unfolding attendance_summary
attendance_summary-adds_up params rows =
    let records = select_where (is_counted params) rows in
    let all_counted : sum_of_counts (count_statuses records no_counts) ≡ length records + 0 =
      count_statuses-all records no_counts in
    (length-select_where (is_counted params) rows, omega arith, ground arith, ground arith)
