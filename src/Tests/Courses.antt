-- ===== src/Tests/Courses.antt =====
-- Two schedules of modules/courses/courses.service.ts that follow each other, one of which moves.
use mib_server.Prelude.{
  inr, ℕ, ◌+◌, ◌*◌, ◌≡◌, ◌<◌, ◌↔◌, refl, Bool, true, none, some, [], ◌∷◌, ok, err, inl, arith,
  Member,
}
use mib_server.Http.{HttpError}
use mib_server.Database.Memory.{memory}
use mib_server.Courses.Slots.{slot_ms, slots_from, build_time_slot_keys}
use mib_server.Courses.SlotKeys.{build_time_slot_keys_iff}
use mib_server.Courses.Locks.{
  ScheduleResourceType, lock_conflict, lock_row, rows_of_slots, build_schedule_resource_lock_rows,
  insert_schedule_resource_locks, release_schedule_resource_locks,
}
use mib_server.Courses.Schedules.{
  Schedule, ScheduleStatus, ClassRow, CourseDb, CreateScheduleDto, UpdateScheduleDto,
  schedule_conflict, class_conflict, apply_resource_locks, new_schedule, insert_schedule,
  create_schedule, get_schedule, relock, rewrite_schedule, update_schedule, delete_schedule,
}
use mib_server.Courses.Booking.{IsValid, no_double_booking}
use mib_server.Courses.Preservation.{create_schedule-IsValid}
use mib_server.Courses.Rescheduling.{update_schedule-IsValid, delete_schedule-IsValid, without}

abbrev empty : CourseDb
empty = record { schedules = []; locks = [] }

empty-IsValid : IsValid empty
empty-IsValid = record { unique_ids = refl; unique_locks = refl; booked = tt }

abbrev swimming : ClassRow
swimming = record { id = "swimming"; tenant_id = some "north" }

abbrev morning : CreateScheduleDto
morning = record {
  class_id = "swimming";
  venue_id = "pool";
  coach_id = "kim";
  starts_at = 1000;
  ends_at = 900000;
  late_grace_minutes = none;
  status = none;
}

abbrev monday : Schedule
monday = record {
  id = "monday";
  tenant_id = some "north";
  class_id = "swimming";
  venue_id = "pool";
  coach_id = "kim";
  starts_at = 1000;
  ends_at = 900000;
  late_grace_minutes = 15;
  status = ScheduleStatus.scheduled;
  created_by = none;
  updated_by = none;
  deleted_by = none;
}

abbrev booked_once : CourseDb
booked_once = record {
  schedules = monday ∷ [];
  locks =
      lock_row ScheduleResourceType.coach "kim" "monday" 0
      ∷ lock_row ScheduleResourceType.venue "pool" "monday" 0
      ∷ [];
}

create_monday :
    create_schedule
      (memory class_conflict)
      (memory schedule_conflict)
      (memory lock_conflict)
      none
      "monday"
      morning
      (swimming ∷ [])
      empty
    ≡ ok (monday, booked_once)
unfolding create_schedule new_schedule insert_schedule apply_resource_locks
    insert_schedule_resource_locks build_schedule_resource_lock_rows rows_of_slots
    build_time_slot_keys slots_from
create_monday = refl

create_schedule-IsValid_example : IsValid booked_once
create_schedule-IsValid_example =
    create_schedule-IsValid (memory class_conflict) (memory schedule_conflict)
      (memory lock_conflict) none "monday" morning (swimming ∷ []) empty empty-IsValid create_monday

-- The same coach cannot be given a second schedule in that slot.
create_clash :
    create_schedule
      (memory class_conflict)
      (memory schedule_conflict)
      (memory lock_conflict)
      none
      "other"
      (record morning { venue_id = "hall" })
      (swimming ∷ [])
      booked_once
    ≡ err (HttpError.bad_request "coach or venue is already booked for this time slot")
unfolding create_schedule new_schedule insert_schedule apply_resource_locks
    insert_schedule_resource_locks build_schedule_resource_lock_rows rows_of_slots
    build_time_slot_keys slots_from
create_clash = refl

booked_once-IsValid : IsValid booked_once
booked_once-IsValid =
    create_schedule-IsValid (memory class_conflict) (memory schedule_conflict)
      (memory lock_conflict) none "monday" morning (swimming ∷ []) empty empty-IsValid create_monday

abbrev later : UpdateScheduleDto
later = record {
  class_id = none;
  venue_id = none;
  coach_id = none;
  starts_at = some 900000;
  ends_at = some 1800000;
  late_grace_minutes = none;
  status = none;
}

abbrev anyone : Schedule → Bool
anyone s = true

abbrev moved : CourseDb
moved = record {
  schedules = record monday { starts_at = 900000; ends_at = 1800000 } ∷ [];
  locks =
      lock_row ScheduleResourceType.coach "kim" "monday" 900000
      ∷ lock_row ScheduleResourceType.venue "pool" "monday" 900000
      ∷ [];
}

update_monday :
    update_schedule
      (memory class_conflict)
      (memory schedule_conflict)
      (memory lock_conflict)
      none
      anyone
      (λ d. d)
      "monday"
      later
      booked_once
    ≡ ok (record monday { starts_at = 900000; ends_at = 1800000 }, moved)
unfolding update_schedule rewrite_schedule relock get_schedule release_schedule_resource_locks
    apply_resource_locks insert_schedule_resource_locks build_schedule_resource_lock_rows
    rows_of_slots build_time_slot_keys slots_from
update_monday = refl

only_monday : (s : Schedule) → Member s booked_once.schedules → s ≡ monday
only_monday s (inl e) = e
only_monday s (inr m) = absurd m

update_schedule-IsValid_example : IsValid moved
update_schedule-IsValid_example =
    update_schedule-IsValid (memory class_conflict) (memory schedule_conflict)
      (memory lock_conflict) none anyone (λ d. d) "monday" later booked_once booked_once-IsValid
      (λ a b m n _ _. rw (only_monday a m) (rw (only_monday b n) refl)) update_monday

abbrev cancelled : CourseDb
cancelled = record {
  schedules = record monday { status = ScheduleStatus.cancelled } ∷ [];
  locks = [];
}

delete_monday :
    delete_schedule
      (memory class_conflict)
      (memory schedule_conflict)
      (memory lock_conflict)
      none
      anyone
      (λ d. d)
      "monday"
      booked_once
    ≡ ok cancelled
unfolding delete_schedule get_schedule release_schedule_resource_locks
delete_monday = refl

delete_schedule-IsValid_example :
    IsValid cancelled × (cancelled.locks ≡ without "monday" booked_once.locks)
delete_schedule-IsValid_example =
    delete_schedule-IsValid (memory class_conflict) (memory schedule_conflict)
      (memory lock_conflict) none anyone (λ d. d) "monday" booked_once booked_once-IsValid
      delete_monday

no_double_booking_example : monday.id ≡ monday.id
no_double_booking_example =
    no_double_booking booked_once monday monday booked_once-IsValid (inl refl) (inl refl) refl refl
      (omega arith) (omega arith) (inl refl)

build_time_slot_keys_iff_example :
    Member 900000 (build_time_slot_keys 1000 900001)
    ↔ ((q : ℕ) × ((900000 ≡ q * slot_ms) × ((1000 < (q + 1) * slot_ms) × (q * slot_ms < 900001))))
build_time_slot_keys_iff_example = build_time_slot_keys_iff 1000 900001 900000

abbrev to_lee : UpdateScheduleDto
to_lee = record later { coach_id = some "lee"; starts_at = none; ends_at = none }

abbrev given_to_lee : CourseDb
given_to_lee = record {
  schedules = record monday { coach_id = "lee" } ∷ [];
  locks =
      lock_row ScheduleResourceType.coach "lee" "monday" 0
      ∷ lock_row ScheduleResourceType.venue "pool" "monday" 0
      ∷ [];
}

-- Another request gives the schedule to another coach after this one has read it: the lock rows of
-- the new times are then those of the old coach, who is no longer on the schedule.
update_stale :
    update_schedule
      (memory class_conflict)
      (memory schedule_conflict)
      (memory lock_conflict)
      none
      anyone
      (λ _. given_to_lee)
      "monday"
      later
      booked_once
    ≡ ok (
      record monday { coach_id = "lee"; starts_at = 900000; ends_at = 1800000 },
      record {
        schedules = record monday { coach_id = "lee"; starts_at = 900000; ends_at = 1800000 } ∷ [];
        locks =
            lock_row ScheduleResourceType.coach "kim" "monday" 900000
            ∷ lock_row ScheduleResourceType.venue "pool" "monday" 900000
            ∷ [];
      },
    )
unfolding update_schedule rewrite_schedule relock get_schedule release_schedule_resource_locks
    apply_resource_locks insert_schedule_resource_locks build_schedule_resource_lock_rows
    rows_of_slots build_time_slot_keys slots_from
update_stale = refl

give_to_lee :
    update_schedule
      (memory class_conflict)
      (memory schedule_conflict)
      (memory lock_conflict)
      none
      anyone
      (λ d. d)
      "monday"
      to_lee
      booked_once
    ≡ ok (record monday { coach_id = "lee" }, given_to_lee)
unfolding update_schedule rewrite_schedule relock get_schedule release_schedule_resource_locks
    apply_resource_locks insert_schedule_resource_locks build_schedule_resource_lock_rows
    rows_of_slots build_time_slot_keys slots_from
give_to_lee = refl
