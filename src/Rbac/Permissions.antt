-- ===== src/Rbac/Permissions.antt =====
-- common/rbac/permission.codes.ts, permission.utils.ts, rbac-seed.data.ts and
-- common/guards/roles.guard.ts.
use mib_server.Prelude.{
  String, str_eq, Bool, true, false, Option, none, some, List, [], ◌∷◌, ◌++◌, any, all, Result, ok,
  err, if◌then◌else◌,
}
use mib_server.Http.{HttpError}

pub data UserRole : Type 0 where
  admin coach staff student : UserRole

abbrev pub role_text : UserRole → String
role_text UserRole.admin = "ADMIN"
role_text UserRole.coach = "COACH"
role_text UserRole.staff = "STAFF"
role_text UserRole.student = "STUDENT"

-- `Permission`
abbrev pub org_cross : String
org_cross = "org:cross"

abbrev pub staff_coach_read : List String
staff_coach_read =
    "students:read" ∷ "coaches:read" ∷ "memberships:read" ∷ "course_types:read" ∷ "classes:read"
    ∷ "schedules:read" ∷ "venues:read" ∷ "attendance:read" ∷ "statistics:read" ∷ []

-- `ALL_PERMISSION_CODES`, in the order of the object's fields
abbrev pub all_permission_codes : List String
all_permission_codes =
    org_cross ∷ "auth:users:read" ∷ "auth:users:write" ∷ "students:read" ∷ "students:write"
    ∷ "students:tags:write" ∷ "coaches:read" ∷ "coaches:write" ∷ "memberships:read"
    ∷ "memberships:write" ∷ "course_types:read" ∷ "course_types:write" ∷ "classes:read"
    ∷ "classes:write" ∷ "schedules:read" ∷ "schedules:write" ∷ "venues:read" ∷ "venues:write"
    ∷ "attendance:read" ∷ "attendance:write" ∷ "attendance:check_in" ∷ "statistics:read"
    ∷ "billing:read" ∷ "billing:write" ∷ []

-- `ROLE_PERMISSION_MAP`
unfoldable pub role_permission_map : UserRole → List String
role_permission_map UserRole.admin = all_permission_codes
role_permission_map UserRole.staff =
    staff_coach_read
    ++ ("students:write" ∷ "students:tags:write" ∷ "coaches:write" ∷ "memberships:write"
        ∷ "course_types:write" ∷ "classes:write" ∷ "schedules:write" ∷ "venues:write"
        ∷ "attendance:write" ∷ "billing:read" ∷ "billing:write" ∷ [])
role_permission_map UserRole.coach = staff_coach_read ++ "attendance:check_in" ∷ []
role_permission_map UserRole.student =
    "schedules:read" ∷ "attendance:read" ∷ "attendance:check_in" ∷ []

-- `list.includes(value)`
abbrev pub includes : List String → String → Bool
includes xs v = any (λ x. str_eq x v) xs

-- `hasPermission`; an absent list is given as the empty one, which the code treats alike.
unfoldable pub has_permission : List String → String → Bool
has_permission [] required = false
has_permission (p ∷ ps) required =
    if includes (p ∷ ps) required then true else includes (p ∷ ps) "*"

-- `hasAnyPermission`, `hasAllPermissions`
unfoldable pub has_any_permission : List String → List String → Bool
has_any_permission user_permissions [] = true
has_any_permission user_permissions (r ∷ rs) = any (has_permission user_permissions) (r ∷ rs)

unfoldable pub has_all_permissions : List String → List String → Bool
has_all_permissions user_permissions [] = true
has_all_permissions user_permissions (r ∷ rs) = all (has_permission user_permissions) (r ∷ rs)

-- `request.user`, as far as the guard reads it
pub record GuardUser : Type 0 where
  pub role : String
  pub permissions : List String

-- The second half of `RolesGuard.canActivate`, for a route that requires something.
unfoldable pub check_user : List String → List String → GuardUser → Result HttpError Bool
check_user [] required_roles user = ok (includes required_roles user.role)
check_user (p ∷ ps) required_roles user =
    if includes required_roles user.role
    then ok true
    else if has_any_permission user.permissions (p ∷ ps)
    then ok true
    else err (HttpError.forbidden "权限不足")

-- `RolesGuard.canActivate`: absent metadata is given as an empty list.
unfoldable pub can_activate : List String → List String → Option GuardUser → Result HttpError Bool
unfolding check_user
can_activate [] [] user = ok true
can_activate required_permissions required_roles none = ok false
can_activate required_permissions required_roles (some user) =
    check_user required_permissions required_roles user
