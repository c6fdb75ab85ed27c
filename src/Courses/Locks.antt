-- ===== src/Courses/Locks.antt =====
-- modules/courses/schedule-resource-lock.ts: the rows that lock a coach and a venue for the slots of
-- a schedule.
use mib_server.Prelude.{
  ℕ, String, str_eq, Bool, true, false, ◌&&◌, ◌==◌, List, [], ◌∷◌, Result, ok, err,
}
use mib_server.Database.{DbError, Delegate}
use mib_server.Courses.Slots.{build_time_slot_keys}

pub data ScheduleResourceType : Type 0 where
  coach venue : ScheduleResourceType

pub record LockRow : Type 0 where
  pub resource_type : ScheduleResourceType
  pub resource_id : String
  pub time_slot_key : ℕ
  pub schedule_id : String

abbrev pub resource_type_eq : ScheduleResourceType → ScheduleResourceType → Bool
resource_type_eq ScheduleResourceType.coach ScheduleResourceType.coach = true
resource_type_eq ScheduleResourceType.venue ScheduleResourceType.venue = true
resource_type_eq _ _ = false

-- `@@unique([resourceType, resourceId, timeSlotKey])`
abbrev pub lock_conflict : LockRow → LockRow → Bool
lock_conflict a b =
    resource_type_eq a.resource_type b.resource_type
    && (str_eq a.resource_id b.resource_id && (a.time_slot_key == b.time_slot_key))

-- The two rows of a slot.
abbrev pub lock_row : ScheduleResourceType → String → String → ℕ → LockRow
lock_row resource_type resource_id schedule_id key = record {
  resource_type = resource_type;
  resource_id = resource_id;
  time_slot_key = key;
  schedule_id = schedule_id;
}

unfoldable pub rows_of_slots : String → String → String → List ℕ → List LockRow
rows_of_slots schedule_id coach_id venue_id [] = []
rows_of_slots schedule_id coach_id venue_id (key ∷ keys) =
    lock_row ScheduleResourceType.coach coach_id schedule_id key
    ∷ lock_row ScheduleResourceType.venue venue_id schedule_id key
    ∷ rows_of_slots schedule_id coach_id venue_id keys

-- `buildScheduleResourceLockRows`
unfoldable pub build_schedule_resource_lock_rows : String → String → String → ℕ → ℕ → List LockRow
unfolding rows_of_slots build_time_slot_keys
build_schedule_resource_lock_rows schedule_id coach_id venue_id starts_at ends_at =
    rows_of_slots schedule_id coach_id venue_id (build_time_slot_keys starts_at ends_at)

-- What `insertScheduleResourceLocks` throws.
pub data LockError : Type 0 where
  empty_time_range resource_conflict : LockError
  database : DbError → LockError

module _ (locks : Delegate LockRow lock_conflict) where
  -- The `catch` of the insert.
  abbrev pub lock_error : DbError → LockError
  lock_error DbError.unique_violation = LockError.resource_conflict
  lock_error DbError.failure = LockError.database DbError.failure

  abbrev pub as_lock_result : Result DbError (List LockRow) → Result LockError (List LockRow)
  as_lock_result (ok t) = ok t
  as_lock_result (err e) = err (lock_error e)

  -- `insertScheduleResourceLocks`
  unfoldable pub insert_schedule_resource_locks :
      String → String → String → ℕ → ℕ → List LockRow → Result LockError (List LockRow)
  unfolding build_schedule_resource_lock_rows
  insert_schedule_resource_locks schedule_id coach_id venue_id starts_at ends_at t =
      elim (build_schedule_resource_lock_rows schedule_id coach_id venue_id starts_at ends_at) [
        | [] ↦ err LockError.empty_time_range
        | row ∷ rows ↦ as_lock_result (locks.create_many (row ∷ rows) t)
      ]

  -- `releaseScheduleResourceLocks`
  unfoldable pub release_schedule_resource_locks :
      String → List LockRow → Result DbError (List LockRow)
  release_schedule_resource_locks schedule_id t =
      locks.delete_many (λ r. str_eq r.schedule_id schedule_id) t
