-- ===== src/Routes/Courses.antt =====
-- The routes of modules/courses.
use mib_server.Prelude.{List, [], ◌∷◌, none, some}
use mib_server.Routes.{Route, Verb, in_class, managers, all_staff}

-- `CourseTypesController`
abbrev pub course_types_routes : List Route
course_types_routes =
    in_class all_staff Verb.post "course-types" "create" (some managers)
    ∷ in_class all_staff Verb.get "course-types" "findAll" none
    ∷ in_class all_staff Verb.patch "course-types/:id" "update" (some managers)
    ∷ in_class all_staff Verb.delete "course-types/:id" "remove" (some managers)
    ∷ []

-- `VenuesController`
abbrev pub venues_routes : List Route
venues_routes =
    in_class all_staff Verb.post "venues" "create" (some managers)
    ∷ in_class all_staff Verb.get "venues" "findAll" none
    ∷ in_class all_staff Verb.patch "venues/:id" "update" (some managers)
    ∷ in_class all_staff Verb.delete "venues/:id" "remove" (some managers)
    ∷ []

-- `SchedulesController`
abbrev pub schedules_routes : List Route
schedules_routes =
    record (in_class all_staff Verb.post "schedules" "create" (some managers)) {
      permissions = "schedules:write" ∷ [];
      idempotency = some "schedule:create";
    }
    ∷ record (in_class all_staff Verb.get "schedules" "findAll" none) {
      permissions = "schedules:read" ∷ [];
    }
    ∷ in_class all_staff Verb.get "schedules/:id" "findOne" none
    ∷ in_class all_staff Verb.patch "schedules/:id" "update" (some managers)
    ∷ in_class all_staff Verb.delete "schedules/:id" "remove" (some managers)
    ∷ []

-- `ClassesController`
abbrev pub classes_routes : List Route
classes_routes =
    in_class all_staff Verb.post "classes" "create" (some managers)
    ∷ in_class all_staff Verb.get "classes" "findAll" none
    ∷ in_class all_staff Verb.get "classes/:id" "findOne" none
    ∷ in_class all_staff Verb.patch "classes/:id" "update" (some managers)
    ∷ in_class all_staff Verb.delete "classes/:id" "remove" (some managers)
    ∷ in_class all_staff Verb.post "classes/:id/students" "enroll" (some managers)
    ∷ in_class all_staff Verb.delete "classes/:id/students/:studentId" "unenroll" (some managers)
    ∷ []
