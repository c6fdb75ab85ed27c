-- ===== src/Tests/Listing.antt =====
-- Enrolment in a class, and the schedules that a coach sees.
use mib_server.Prelude.{
  ℕ, ◌≡◌, refl, String, Bool, true, false, ◌⊎◌, List, none, some, [], ◌∷◌, ok, err, Member,
}
use mib_server.Http.{HttpError}
use mib_server.Database.{DbError, IsSorted}
use mib_server.Database.Memory.{memory}
use mib_server.Rbac.Permissions.{UserRole}
use mib_server.Rbac.Scope.{AccessContext, DataScopeKind, schedule_data_scope_where}
use mib_server.Statistics.{in_range}
use mib_server.Courses.Catalog.{Class, ClassStudent, class_key_conflict, class_student_conflict}
use mib_server.Courses.Classes.{enroll_student, unenroll_student}
use mib_server.Courses.Enrolment.{enroll_student-undone}
use mib_server.Courses.Schedules.{Schedule, ScheduleStatus, schedule_conflict, is_cancelled}
use mib_server.Courses.Listing.{ScheduleFilters, list_schedules, schedule_view}
use mib_server.Courses.Visibility.{list_schedules-own}

abbrev swimming : Class
swimming = record {
  id = "swimming";
  course_type_id = "water";
  name = "Swimming";
  coach_id = none;
  max_students = none;
  created_at = 0;
}

abbrev entry : ClassStudent
entry = record { class_id = "swimming"; student_id = "amy" }

enrolled_once :
    enroll_student
      (memory class_key_conflict)
      (memory class_student_conflict)
      "swimming"
      "amy"
      (swimming ∷ [])
      []
    ≡ ok (entry, entry ∷ [])
unfolding enroll_student
enrolled_once = refl

enroll_student-undone_example :
    ((t : List ClassStudent)
      → unenroll_student
          (memory class_key_conflict)
          (memory class_student_conflict)
          "swimming"
          "amy"
          (entry ∷ [])
        ≡ ok t
      → t ≡ [])
    × ((enroll_student
            (memory class_key_conflict)
            (memory class_student_conflict)
            "swimming"
            "amy"
            (swimming ∷ [])
            (entry ∷ [])
          ≡ err (HttpError.conflict "????????"))
        ⊎ (enroll_student
              (memory class_key_conflict)
              (memory class_student_conflict)
              "swimming"
              "amy"
              (swimming ∷ [])
              (entry ∷ [])
            ≡ err (HttpError.database DbError.failure)))
enroll_student-undone_example =
    enroll_student-undone (memory class_key_conflict) (memory class_student_conflict) "swimming"
      "amy" (swimming ∷ []) [] (entry ∷ []) entry enrolled_once

abbrev lesson : String → ℕ → ScheduleStatus → Schedule
lesson coach_id starts_at status = record {
  id = coach_id;
  tenant_id = none;
  class_id = "swimming";
  venue_id = "pool";
  coach_id = coach_id;
  starts_at = starts_at;
  ends_at = 100;
  late_grace_minutes = 15;
  status = status;
  created_by = none;
  updated_by = none;
  deleted_by = none;
}

abbrev timetable : List Schedule
timetable =
    lesson "kim" 20 ScheduleStatus.scheduled
    ∷ lesson "lee" 10 ScheduleStatus.scheduled
    ∷ lesson "kim" 30 ScheduleStatus.cancelled
    ∷ []

abbrev kim : AccessContext
kim = record {
  user_id = "kim";
  role = UserRole.coach;
  permissions = [];
  tenant_ids = [];
  active_tenant_id = none;
  coach_id = some "kim";
  student_id = none;
  data_scope = DataScopeKind.coach_owned;
}

abbrev no_filters : ScheduleFilters
no_filters = record { from = none; to = none; class_id = none; coach_id = none }

abbrev unrelated : Schedule → String → String → Bool
unrelated s path value = false

listed :
    list_schedules (memory schedule_conflict) unrelated (some kim) no_filters timetable
    ≡ lesson "kim" 20 ScheduleStatus.scheduled ∷ []
unfolding list_schedules schedule_view schedule_data_scope_where
listed = refl

list_schedules-own_example :
    IsSorted
      (λ s. s.starts_at)
      (list_schedules (memory schedule_conflict) unrelated (some kim) no_filters timetable)
    × ((s : Schedule)
        → Member s
            (list_schedules (memory schedule_conflict) unrelated (some kim) no_filters timetable)
        → (s.coach_id ≡ "kim")
          × (is_cancelled s.status ≡ false)
          × (in_range none none s.starts_at ≡ true)
          × Member s timetable)
list_schedules-own_example =
    list_schedules-own (memory schedule_conflict) unrelated kim "kim" no_filters timetable refl refl
      refl
