-- ===== src/Attendance/Service.antt =====
-- modules/attendance/attendance.service.ts, over the tables that it reads and writes.
use mib_server.Prelude.{
  ℕ, ◌+◌, ◌*◌, String, str_eq, Bool, false, ◌&&◌, not, Option, none, some, List, Result, ok, err,
  ◌>>=◌, if◌then◌else◌, ltb,
}
use mib_server.Database.{DbError}
use mib_server.Http.{HttpError, rethrow}
use mib_server.Lessons.Data.{LessonDb}
use mib_server.Lessons.Deduct.{deduct_lessons_for_check_in}
use mib_server.Courses.Schedules.{is_cancelled}
use mib_server.Attendance.Data.{
  AttendanceDb, AttendanceMethod, AttendanceRecord, AttendanceStatus, CheckInDto, Delegates,
  LeaveRequest, LeaveStatus, ScheduleInfo, UpsertParams, amount_of, has_approved_leave,
  is_record_of, needs_deduct, new_record, set_record, was_deducted,
}

module _ (tables : Delegates) (audit : Option String) where
  -- `attendanceRecord.upsert`
  unfoldable pub upsert_record :
      String
      → String
      → UpsertParams
      → List AttendanceRecord
      → Result DbError (List AttendanceRecord)
  upsert_record student_id schedule_id p t =
      elim (tables.records.find_first (is_record_of student_id schedule_id) t) [
        | none ↦ tables.records.create (new_record student_id schedule_id p) t
        | some _ ↦
            tables.records.update (is_record_of student_id schedule_id) (set_record p) t >>= λ r.
            ok r.1
      ]

  -- `upsertAttendance`: its transaction; whether lessons were deducted
  unfoldable pub deduct_part :
      String → String → UpsertParams → ℕ → LessonDb → Result HttpError (Bool × LessonDb)
  deduct_part student_id schedule_id p now lessons =
      if not (needs_deduct p.deduct_amount)
      then ok (false, lessons)
      else rethrow (
          deduct_lessons_for_check_in tables.cards tables.transactions audit student_id schedule_id
            (amount_of p.deduct_amount) now lessons)
        >>= λ r. ok (was_deducted r.0, r.1)

  unfoldable pub upsert_attendance :
      String → String → UpsertParams → ℕ → AttendanceDb → Result HttpError (Bool × AttendanceDb)
  unfolding upsert_record deduct_part
  upsert_attendance student_id schedule_id p now db =
      rethrow (upsert_record student_id schedule_id p db.records) >>= λ t.
      deduct_part student_id schedule_id p now db.lessons >>= λ r.
      ok (r.0, record db { records = t; lessons = r.1 })

  -- The tests on the QR token and on the position, by the method.
  unfoldable pub check_method :
      CheckInDto → ScheduleInfo → ℕ → AttendanceDb → Result HttpError (Unit {0})
  check_method dto schedule now db = elim dto.method [
    | AttendanceMethod.manual ↦ ok tt
    | AttendanceMethod.qr ↦ elim dto.qr_token [
      | none ↦ err (HttpError.bad_request "缺少二维码令牌")
      | some token ↦
          if str_eq token ""
          then err (HttpError.bad_request "缺少二维码令牌")
          else elim (tables.tokens.find_first
              (λ q.
                str_eq q.schedule_id dto.schedule_id
                && (str_eq q.token token && ltb now q.expires_at))
              db.tokens) [ none ↦ err (HttpError.bad_request "二维码无效或已过期") | some _ ↦ ok tt ]
    ]
    | AttendanceMethod.gps ↦
        if not schedule.has_geofence
        then err (HttpError.bad_request "该场地未配置定位签到")
        else elim dto.in_range [
          | none ↦ err (HttpError.bad_request "缺少定位坐标")
          | some inside ↦ if inside then ok tt else err (HttpError.bad_request "不在允许签到范围内")
        ]
  ]

  -- The status by the time of the check-in.
  unfoldable pub status_at : ScheduleInfo → ℕ → AttendanceStatus
  status_at schedule now =
      if ltb (schedule.starts_at + schedule.late_grace_minutes * 60000) now
      then AttendanceStatus.late
      else AttendanceStatus.present

  -- What `checkIn` does for a student of the class, by the leave and the time. `meanwhile` is what
  -- other requests commit between the reads and the transaction.
  unfoldable pub check_in_enrolled :
      (AttendanceDb → AttendanceDb)
      → CheckInDto
      → ScheduleInfo
      → ℕ
      → AttendanceDb
      → Result HttpError (Bool × AttendanceDb)
  unfolding upsert_attendance check_method status_at
  check_in_enrolled meanwhile dto schedule now db =
      if has_approved_leave (
        tables.leaves.find_first
          (λ l. str_eq l.student_id dto.student_id && str_eq l.schedule_id dto.schedule_id)
          db.leaves)
      then upsert_attendance dto.student_id dto.schedule_id
          (record {
            status = AttendanceStatus.leave;
            method = dto.method;
            check_in_at = some now;
            deduct_amount = none;
          })
          now (meanwhile db)
      else if ltb schedule.ends_at now
      then upsert_attendance dto.student_id dto.schedule_id
          (record {
            status = AttendanceStatus.absent;
            method = dto.method;
            check_in_at = none;
            deduct_amount = none;
          })
          now (meanwhile db)
      else check_method dto schedule now db >>= λ _.
          upsert_attendance dto.student_id dto.schedule_id
            (record {
              status = status_at schedule now;
              method = dto.method;
              check_in_at = some now;
              deduct_amount = some schedule.default_lesson_deduct;
            })
            now (meanwhile db)

  -- `checkIn`
  unfoldable pub check_in :
      (AttendanceDb → AttendanceDb)
      → CheckInDto
      → ℕ
      → AttendanceDb
      → Result HttpError (Bool × AttendanceDb)
  unfolding check_in_enrolled
  check_in meanwhile dto now db =
      elim (tables.schedules.find_first (λ s. str_eq s.id dto.schedule_id) db.schedules) [
        | none ↦ err (HttpError.not_found "课次不存在")
        | some schedule ↦
            if is_cancelled schedule.status
            then err (HttpError.bad_request "课次已取消")
            else elim (tables.enrollments.find_first
                (λ e. str_eq e.class_id schedule.class_id && str_eq e.student_id dto.student_id)
                db.enrollments) [
                  | none ↦ err (HttpError.forbidden "学员未加入该班级")
                  | some _ ↦ check_in_enrolled meanwhile dto schedule now db
                ]
      ]

  -- `checkOut`, with what other requests commit between its read and its write
  unfoldable pub check_out :
      (List AttendanceRecord → List AttendanceRecord)
      → String
      → String
      → ℕ
      → AttendanceDb
      → Result HttpError AttendanceDb
  check_out meanwhile student_id schedule_id now db =
      elim (tables.records.find_first (is_record_of student_id schedule_id) db.records) [
        | none ↦ err (HttpError.not_found "无签到记录")
        | some _ ↦
            rethrow (
              tables.records.update (is_record_of student_id schedule_id)
                (λ r. record r { check_out_at = some now }) (meanwhile db.records))
            >>= λ r. ok (record db { records = r.1 })
      ]

  -- `issueQrToken`; `token` is what the generator gives
  unfoldable pub issue_qr_token : String → String → AttendanceDb → Result HttpError AttendanceDb
  issue_qr_token schedule_id token db =
      elim (tables.schedules.find_first (λ s. str_eq s.id schedule_id) db.schedules) [
        | none ↦ err (HttpError.not_found "课次不存在")
        | some schedule ↦
            if is_cancelled schedule.status
            then err (HttpError.bad_request "课次已取消")
            else rethrow (
                tables.tokens.create
                  (record {
                    schedule_id = schedule_id;
                    token = token;
                    expires_at = schedule.ends_at + 1800000;
                  })
                  db.tokens)
              >>= λ t. ok (record db { tokens = t })
      ]

  -- `createLeaveRequest`
  unfoldable pub create_leave_request :
      String → String → AttendanceDb → Result HttpError AttendanceDb
  create_leave_request student_id schedule_id db =
      let same =
        λ (l : LeaveRequest). str_eq l.student_id student_id && str_eq l.schedule_id schedule_id in
      elim (tables.leaves.find_first same db.leaves) [
        | none ↦
            rethrow (
              tables.leaves.create
                (record {
                  student_id = student_id;
                  schedule_id = schedule_id;
                  status = LeaveStatus.approved;
                })
                db.leaves)
            >>= λ t. ok (record db { leaves = t })
        | some _ ↦
            rethrow (
              tables.leaves.update same (λ l. record l { status = LeaveStatus.approved }) db.leaves)
            >>= λ r. ok (record db { leaves = r.1 })
      ]
