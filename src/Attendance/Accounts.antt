-- ===== src/Attendance/Accounts.antt =====
-- What a check-in of modules/attendance/attendance.service.ts does to the lessons of the cards.
use mib_server.Prelude.{
  ℕ, ◌≡◌, refl, subst, String, str_eq, Bool, true, false, ◌&&◌, not, inl, inr, Option, none, some,
  [], ◌∷◌, ◌++◌, arith, ok, err, >>=-eq-ok, ok-injective, Bool-cases, if◌then◌else◌, ltb,
}
use mib_server.Prelude.Int.{ℤ, ◌+ℤ◌, ◌≡ℤ◌}
use mib_server.Database.{is_consistent}
use mib_server.Http.{HttpError, rethrow}
use mib_server.Lessons.Data.{card_conflict, LessonDb, Card}
use mib_server.Lessons.Deduct.{LessonDeductOutcome, deduction_row, deduct_lessons_for_check_in}
use mib_server.Lessons.Totals.{total}
use mib_server.Lessons.Settlement.{Settles}
use mib_server.Lessons.CheckIn.{deduct_lessons-Settles}
use mib_server.Courses.Preservation.{rethrow-eq-ok}
use mib_server.Courses.Schedules.{is_cancelled}
use mib_server.Attendance.Data.{
  AttendanceDb, AttendanceStatus, CheckInDto, Delegates, Enrollment, ScheduleInfo, UpsertParams,
  amount_of, has_approved_leave, needs_deduct, was_deducted,
}
use mib_server.Attendance.Service.{
  check_in, check_in_enrolled, check_method, deduct_part, status_at, upsert_attendance,
  upsert_record,
}

-- How the lessons stand after an answer that says whether some were deducted.
abbrev pub Accounts : Option String → String → String → LessonDb → Bool × LessonDb → Type 0
Accounts audit student_id schedule_id before (true, after) =
    (amount : ℤ) × (card : Card) × (total after.cards +ℤ amount ≡ℤ total before.cards)
    × (after.transactions
        ≡ before.transactions ++ deduction_row audit student_id schedule_id amount card ∷ [])
Accounts audit student_id schedule_id before (false, after) =
    (total after.cards ≡ℤ total before.cards) × (after.transactions ≡ before.transactions)

Settles-Accounts :
    (audit : Option String) (student_id schedule_id : String) (amount : ℤ) (db : LessonDb)
    (r : LessonDeductOutcome × LessonDb)
    → Settles audit student_id schedule_id amount db r
    → Accounts audit student_id schedule_id db (was_deducted r.0, r.1)
Settles-Accounts audit student_id schedule_id amount db (LessonDeductOutcome.deducted, db') h =
    let (moved, (card, added)) = h in (amount, card, moved, added)
Settles-Accounts audit student_id schedule_id amount db (LessonDeductOutcome.already_deducted, db')
      h =
    h
Settles-Accounts audit student_id schedule_id amount db (LessonDeductOutcome.insufficient, db') h =
    h

module _ (tables : Delegates) (audit : Option String) where
  deduct_part-Accounts :
      (student_id schedule_id : String) (p : UpsertParams) (now : ℕ) (db : LessonDb)
      {r : Bool × LessonDb}
      → is_consistent card_conflict db.cards ≡ true
      → deduct_part tables audit student_id schedule_id p now db ≡ ok r
      → Accounts audit student_id schedule_id db r
  unfolding deduct_part
  deduct_part-Accounts student_id schedule_id p now db {r} unique h =
      elim (Bool-cases (not (needs_deduct p.deduct_amount))) [
        | inl e ↦
            subst (Accounts audit student_id schedule_id db) (ok-injective (rw e at h))
              (omega arith, refl)
        | inr e ↦
            let (o, settled, h') =
              >>=-eq-ok
                (rethrow (
                  deduct_lessons_for_check_in tables.cards tables.transactions audit student_id
                    schedule_id (amount_of p.deduct_amount) now db))
                _ (rw e at h) in
            subst (Accounts audit student_id schedule_id db) (ok-injective h') (
              Settles-Accounts audit student_id schedule_id (amount_of p.deduct_amount) db o (
                deduct_lessons-Settles tables.cards tables.transactions audit student_id schedule_id
                  (amount_of p.deduct_amount) now db unique (rethrow-eq-ok _ settled)))
      ]

  upsert_attendance-Accounts :
      (student_id schedule_id : String) (p : UpsertParams) (now : ℕ) (db : AttendanceDb)
      {q : Bool × AttendanceDb}
      → is_consistent card_conflict db.lessons.cards ≡ true
      → upsert_attendance tables audit student_id schedule_id p now db ≡ ok q
      → Accounts audit student_id schedule_id db.lessons (q.0, q.1.lessons)
  unfolding upsert_attendance
  upsert_attendance-Accounts student_id schedule_id p now db {q} unique h =
      let (t, written, h₁) =
        >>=-eq-ok (rethrow (upsert_record tables audit student_id schedule_id p db.records)) _ h in
      let (r, paid, h₂) =
        >>=-eq-ok (deduct_part tables audit student_id schedule_id p now db.lessons) _ h₁ in
      subst
        (λ (x : Bool × AttendanceDb).
          Accounts audit student_id schedule_id db.lessons (x.0, x.1.lessons))
        (ok-injective h₂) (deduct_part-Accounts student_id schedule_id p now db.lessons unique paid)

  check_in_enrolled-Accounts :
      (meanwhile : AttendanceDb → AttendanceDb) (dto : CheckInDto) (schedule : ScheduleInfo)
      (now : ℕ) (db : AttendanceDb) {q : Bool × AttendanceDb}
      → is_consistent card_conflict (meanwhile db).lessons.cards ≡ true
      → check_in_enrolled tables audit meanwhile dto schedule now db ≡ ok q
      → Accounts audit dto.student_id dto.schedule_id (meanwhile db).lessons (q.0, q.1.lessons)
  unfolding check_in_enrolled
  check_in_enrolled-Accounts meanwhile dto schedule now db {q} unique h =
      elim (Bool-cases (
        has_approved_leave (
          tables.leaves.find_first
            (λ l. str_eq l.student_id dto.student_id && str_eq l.schedule_id dto.schedule_id)
            db.leaves))) [
              | inl e ↦
                  upsert_attendance-Accounts dto.student_id dto.schedule_id
                    (record {
                      status = AttendanceStatus.leave;
                      method = dto.method;
                      check_in_at = some now;
                      deduct_amount = none;
                    })
                    now (meanwhile db) unique (rw e at h)
              | inr e ↦ elim (Bool-cases (ltb schedule.ends_at now)) [
                | inl e' ↦
                    upsert_attendance-Accounts dto.student_id dto.schedule_id
                      (record {
                        status = AttendanceStatus.absent;
                        method = dto.method;
                        check_in_at = none;
                        deduct_amount = none;
                      })
                      now (meanwhile db) unique (rw e' at (rw e at h))
                | inr e' ↦
                    let (_, tested, h') =
                      >>=-eq-ok (check_method tables audit dto schedule now db) _
                        (rw e' at (rw e at h)) in
                    upsert_attendance-Accounts dto.student_id dto.schedule_id
                      (record {
                        status = status_at tables audit schedule now;
                        method = dto.method;
                        check_in_at = some now;
                        deduct_amount = some schedule.default_lesson_deduct;
                      })
                      now (meanwhile db) unique h'
              ]
            ]

  -- A check-in that answers, with one row per card id, tells the truth about the lessons: if it says
  -- that some were deducted, the cards' total fell by some amount and the one row that was added
  -- records that amount for this student and schedule; if not, the total and the rows are as they
  -- were. What they were is what they are when its transaction begins, whatever other requests
  -- committed since its first read.
  pub check_in-Accounts :
      (meanwhile : AttendanceDb → AttendanceDb) (dto : CheckInDto) (now : ℕ) (db : AttendanceDb)
      {q : Bool × AttendanceDb}
      → is_consistent card_conflict (meanwhile db).lessons.cards ≡ true
      → check_in tables audit meanwhile dto now db ≡ ok q
      → Accounts audit dto.student_id dto.schedule_id (meanwhile db).lessons (q.0, q.1.lessons)
  unfolding check_in
  check_in-Accounts meanwhile dto now db {q} unique h =
      go (tables.schedules.find_first (λ s. str_eq s.id dto.schedule_id) db.schedules) h
    where
      enrolled :
          (schedule : ScheduleInfo) (found : Option Enrollment)
          → (elim found [
            | none ↦ err (HttpError.forbidden "学员未加入该班级")
            | some _ ↦ check_in_enrolled tables audit meanwhile dto schedule now db
          ])
            ≡ ok q
          → Accounts audit dto.student_id dto.schedule_id (meanwhile db).lessons (q.0, q.1.lessons)
      enrolled schedule none a = absurd (cc)
      enrolled schedule (some _) a =
          check_in_enrolled-Accounts meanwhile dto schedule now db unique a

      go :
          (found : Option ScheduleInfo)
          → (elim found [
            | none ↦ err (HttpError.not_found "课次不存在")
            | some schedule ↦
                if is_cancelled schedule.status
                then err (HttpError.bad_request "课次已取消")
                else elim (tables.enrollments.find_first
                    (λ e. str_eq e.class_id schedule.class_id && str_eq e.student_id dto.student_id)
                    db.enrollments) [
                      | none ↦ err (HttpError.forbidden "学员未加入该班级")
                      | some _ ↦ check_in_enrolled tables audit meanwhile dto schedule now db
                    ]
          ])
            ≡ ok q
          → Accounts audit dto.student_id dto.schedule_id (meanwhile db).lessons (q.0, q.1.lessons)
      go none a = absurd (cc)
      go (some schedule) a = elim (Bool-cases (is_cancelled schedule.status)) [
        | inl e ↦ absurd (cc (rw e at a))
        | inr e ↦ enrolled schedule (tables.enrollments.find_first _ db.enrollments) (rw e at a)
      ]
