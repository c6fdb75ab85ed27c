-- ===== src/Courses/Schedules.antt =====
-- modules/courses/courses.service.ts: the schedules. A transaction that throws changes nothing. The
-- Redis locks round the transactions are those of `Redis/Locks`; they only reduce contention, as
-- the code's comments say, and the transaction is modelled without them.
use mib_server.Prelude.{
  ℕ, String, str_eq, Bool, true, false, ◌&&◌, not, Option, none, some, List, Result, ok, err, ◌>>=◌,
  if◌then◌else◌, ltb,
}
use mib_server.Database.{DbError, Delegate}
use mib_server.Http.{HttpError, rethrow}
use mib_server.Lessons.Data.{audit_on_update}
use mib_server.Lessons.Memberships.{or_else}
use mib_server.Courses.Locks.{
  LockRow, lock_conflict, LockError, insert_schedule_resource_locks,
  release_schedule_resource_locks,
}

pub data ScheduleStatus : Type 0 where
  scheduled cancelled completed : ScheduleStatus

pub record Schedule : Type 0 where
  pub id : String
  pub tenant_id : Option String
  pub class_id : String
  pub venue_id : String
  pub coach_id : String
  pub starts_at : ℕ
  pub ends_at : ℕ
  pub late_grace_minutes : ℕ
  pub status : ScheduleStatus
  pub created_by : Option String
  pub updated_by : Option String
  pub deleted_by : Option String

abbrev pub schedule_conflict : Schedule → Schedule → Bool
schedule_conflict a b = str_eq a.id b.id

pub record ClassRow : Type 0 where
  pub id : String
  pub tenant_id : Option String

abbrev pub class_conflict : ClassRow → ClassRow → Bool
class_conflict a b = str_eq a.id b.id

pub record CourseDb : Type 0 where
  pub schedules : List Schedule
  pub locks : List LockRow

-- dto/create-schedule.dto.ts, with the times parsed
pub record CreateScheduleDto : Type 0 where
  pub class_id : String
  pub venue_id : String
  pub coach_id : String
  pub starts_at : ℕ
  pub ends_at : ℕ
  pub late_grace_minutes : Option ℕ
  pub status : Option ScheduleStatus

-- dto/update-schedule.dto.ts
pub record UpdateScheduleDto : Type 0 where
  pub class_id : Option String
  pub venue_id : Option String
  pub coach_id : Option String
  pub starts_at : Option ℕ
  pub ends_at : Option ℕ
  pub late_grace_minutes : Option ℕ
  pub status : Option ScheduleStatus

abbrev pub is_cancelled : ScheduleStatus → Bool
is_cancelled ScheduleStatus.cancelled = true
is_cancelled _ = false

abbrev pub has_schedule_id : String → Schedule → Bool
has_schedule_id id s = str_eq s.id id

-- The columns that an update sets.
abbrev pub update_data : Option String → UpdateScheduleDto → Schedule → Schedule
update_data audit dto s = record s {
  class_id = or_else dto.class_id s.class_id;
  venue_id = or_else dto.venue_id s.venue_id;
  coach_id = or_else dto.coach_id s.coach_id;
  starts_at = or_else dto.starts_at s.starts_at;
  ends_at = or_else dto.ends_at s.ends_at;
  late_grace_minutes = or_else dto.late_grace_minutes s.late_grace_minutes;
  status = or_else dto.status s.status;
  updated_by = audit_on_update audit s.updated_by;
}

-- `{ status: CANCELLED, ...auditOnDelete() }`
abbrev pub cancel_data : Option String → Schedule → Schedule
cancel_data audit s = record s {
  status = ScheduleStatus.cancelled;
  updated_by = audit_on_update audit s.updated_by;
  deleted_by = audit_on_update audit s.deleted_by;
}

module _ (classes : Delegate ClassRow class_conflict)
    (schedules : Delegate Schedule schedule_conflict) (locks : Delegate LockRow lock_conflict)
    (audit : Option String) where
  abbrev pub course_error : LockError → HttpError
  course_error LockError.resource_conflict =
      HttpError.bad_request "coach or venue is already booked for this time slot"
  course_error LockError.empty_time_range = HttpError.bad_request "invalid time range"
  course_error (LockError.database e) = HttpError.database e

  abbrev pub as_course_result : Result LockError (List LockRow) → Result HttpError (List LockRow)
  as_course_result (ok t) = ok t
  as_course_result (err e) = err (course_error e)

  -- `applyResourceLocks`
  unfoldable pub apply_resource_locks :
      String → String → String → ℕ → ℕ → List LockRow → Result HttpError (List LockRow)
  apply_resource_locks schedule_id coach_id venue_id starts_at ends_at t =
      as_course_result
        (insert_schedule_resource_locks locks schedule_id coach_id venue_id starts_at ends_at t)

  -- The row that `createSchedule` inserts.
  unfoldable pub new_schedule : String → Option String → CreateScheduleDto → Schedule
  new_schedule id tenant_id dto = record {
    id = id;
    tenant_id = tenant_id;
    class_id = dto.class_id;
    venue_id = dto.venue_id;
    coach_id = dto.coach_id;
    starts_at = dto.starts_at;
    ends_at = dto.ends_at;
    late_grace_minutes = or_else dto.late_grace_minutes 15;
    status = or_else dto.status ScheduleStatus.scheduled;
    created_by = audit;
    updated_by = audit;
    deleted_by = none;
  }

  -- The transaction of `createSchedule`, with the class found.
  unfoldable pub insert_schedule : Schedule → CourseDb → Result HttpError (Schedule × CourseDb)
  unfolding apply_resource_locks
  insert_schedule s db = rethrow (schedules.create s db.schedules) >>= λ t.
      apply_resource_locks s.id s.coach_id s.venue_id s.starts_at s.ends_at db.locks >>= λ l.
      ok (s, record { schedules = t; locks = l })

  -- `createSchedule`; `id` is the new row's
  unfoldable pub create_schedule :
      String → CreateScheduleDto → List ClassRow → CourseDb → Result HttpError (Schedule × CourseDb)
  unfolding new_schedule insert_schedule
  create_schedule id dto rows db =
      if not (ltb dto.starts_at dto.ends_at)
      then err (HttpError.bad_request "??????")
      else elim (classes.find_first (λ c. str_eq c.id dto.class_id) rows) [
        | none ↦ err (HttpError.database DbError.failure)
        | some klass ↦ insert_schedule (new_schedule id klass.tenant_id dto) db
      ]

  -- `getSchedule`; `visible` is the filter of the data scope
  unfoldable pub get_schedule : (Schedule → Bool) → String → CourseDb → Result HttpError Schedule
  get_schedule visible id db =
      elim (schedules.find_first (λ s. has_schedule_id id s && visible s) db.schedules) [
        | none ↦ err (HttpError.not_found "?????")
        | some s ↦ ok s
      ]

  -- The locks after an update: none for a cancelled schedule.
  unfoldable pub relock :
      Schedule → String → String → String → ℕ → ℕ → List LockRow → Result HttpError (List LockRow)
  unfolding apply_resource_locks
  relock updated id coach_id venue_id starts_at ends_at t =
      if is_cancelled updated.status
      then ok t
      else apply_resource_locks id coach_id venue_id starts_at ends_at t

  -- The transaction of `updateSchedule`; `current` is the schedule that was read before it.
  unfoldable pub rewrite_schedule :
      String → UpdateScheduleDto → Schedule → CourseDb → Result HttpError (Schedule × CourseDb)
  unfolding relock
  rewrite_schedule id dto current db =
      rethrow (release_schedule_resource_locks locks id db.locks) >>= λ freed.
      rethrow (schedules.update (has_schedule_id id) (update_data audit dto) db.schedules) >>= λ r.
      relock r.0 id (or_else dto.coach_id current.coach_id) (or_else dto.venue_id current.venue_id)
        (or_else dto.starts_at current.starts_at) (or_else dto.ends_at current.ends_at) freed
      >>= λ l. ok (r.0, record { schedules = r.1; locks = l })

  -- `updateSchedule`; `meanwhile` is what other requests commit between the read of the schedule,
  -- which is outside the transaction, and the transaction.
  unfoldable pub update_schedule :
      (Schedule → Bool)
      → (CourseDb → CourseDb)
      → String
      → UpdateScheduleDto
      → CourseDb
      → Result HttpError (Schedule × CourseDb)
  unfolding get_schedule rewrite_schedule
  update_schedule visible meanwhile id dto db = get_schedule visible id db >>= λ current.
      if not (ltb (or_else dto.starts_at current.starts_at) (or_else dto.ends_at current.ends_at))
      then err (HttpError.bad_request "??????")
      else rewrite_schedule id dto current (meanwhile db)

  -- `deleteSchedule`, with `meanwhile` as in `update_schedule`
  unfoldable pub delete_schedule :
      (Schedule → Bool) → (CourseDb → CourseDb) → String → CourseDb → Result HttpError CourseDb
  unfolding get_schedule
  delete_schedule visible meanwhile id db = get_schedule visible id db >>= λ _.
      rethrow (release_schedule_resource_locks locks id (meanwhile db).locks) >>= λ freed.
      rethrow (schedules.update (has_schedule_id id) (cancel_data audit) (meanwhile db).schedules)
      >>= λ r. ok (record { schedules = r.1; locks = freed })
