-- ===== src/Tests/Routes.antt =====
-- A student, a coach and the routes.
use mib_server.Prelude.{◌≡◌, refl, true, false, none, some, inl, inr, Member}
use mib_server.Rbac.Permissions.{UserRole, role_permission_map, has_permission, includes}
use mib_server.Routes.{Route, Verb, in_class, all_staff, admits, is_write}
use mib_server.Routes.Services.{all_routes}
use mib_server.Routes.Reach.{public_paths, student_paths, student_with, routes-confined}

abbrev removal : Route
removal = in_class all_staff Verb.delete "students/:id" "remove" none

student_permissions :
    has_permission (role_permission_map UserRole.student) "schedules:write" ≡ false
unfolding role_permission_map has_permission
student_permissions = refl

removal_known : Member removal all_routes
removal_known = inr (inr (inr (inr (inl refl))))

-- A coach may remove a student by role, although no permission of a coach allows to write students.
coach_removes :
    (admits
        (some (record { role = "COACH"; permissions = role_permission_map UserRole.coach }))
        removal
      ≡ true)
    × (has_permission (role_permission_map UserRole.coach) "students:write" ≡ false)
unfolding admits role_permission_map has_permission
coach_removes = (refl, refl)

routes-confined_example :
    (admits none removal ≡ true → includes public_paths "students/:id" ≡ true)
    × (admits (some (student_with (role_permission_map UserRole.student))) removal ≡ true
        → is_write Verb.delete ≡ true
        → includes student_paths "students/:id" ≡ true)
routes-confined_example =
    routes-confined (role_permission_map UserRole.student) removal student_permissions removal_known
