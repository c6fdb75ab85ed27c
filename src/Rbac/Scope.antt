-- ===== src/Rbac/Scope.antt =====
-- common/rbac/data-scope.types.ts, data-scope.filters.ts and data-scope.service.ts.
use mib_server.Prelude.{
  String, str_eq, Bool, false, ◌||◌, ◌&&◌, Option, none, some, List, [], ◌∷◌, if◌then◌else◌, not,
}
use mib_server.Rbac.Permissions.{UserRole, role_text, org_cross, includes, has_permission}
use mib_server.Rbac.Where.{Where, merge_where}

pub data DataScopeKind : Type 0 where
  all organization coach_owned self : DataScopeKind

pub record AccessContext : Type 0 where
  pub user_id : String
  pub role : UserRole
  pub permissions : List String
  pub tenant_ids : List String
  pub active_tenant_id : Option String
  pub coach_id : Option String
  pub student_id : Option String
  pub data_scope : DataScopeKind

-- A text that is absent or empty is falsy.
abbrev pub truthy : Option String → Bool
truthy none = false
truthy (some s) = not (str_eq s "")

-- `{ id: '__no_access__' }`
abbrev pub no_access : Where
no_access = Where.equals "id" "__no_access__"

-- `effectiveTenantIds`
unfoldable pub effective_tenant_ids : AccessContext → List String
effective_tenant_ids ctx = elim ctx.active_tenant_id [
  | none ↦ ctx.tenant_ids
  | some t ↦ if not (str_eq t "") && includes ctx.tenant_ids t then t ∷ [] else ctx.tenant_ids
]

-- The test on an id that may be missing: `ctx.coachId ? filter : no access`.
abbrev pub when_present : Option String → (String → Where) → Option Where
when_present none filter = some no_access
when_present (some id) filter = if str_eq id "" then some no_access else some (filter id)

abbrev pub when_tenants : List String → (List String → Where) → Option Where
when_tenants [] filter = some no_access
when_tenants (t ∷ ts) filter = some (filter (t ∷ ts))

-- The switch on `ctx.dataScope`, with a filter for each case of `ctx`.
unfoldable pub student_scope : AccessContext → DataScopeKind → Option Where
unfolding effective_tenant_ids
student_scope ctx DataScopeKind.all = none
student_scope ctx DataScopeKind.organization =
    when_tenants (effective_tenant_ids ctx) (Where.one_of "tenantId")
student_scope ctx DataScopeKind.coach_owned = when_present ctx.coach_id (λ c.
    Where.either (Where.equals "classStudents.some.class.coachId" c)
      (Where.equals "attendanceRecords.some.schedule.coachId" c))
student_scope ctx DataScopeKind.self = when_present ctx.student_id (Where.equals "id")

unfoldable pub schedule_scope : AccessContext → DataScopeKind → Option Where
unfolding effective_tenant_ids
schedule_scope ctx DataScopeKind.all = none
schedule_scope ctx DataScopeKind.organization = when_tenants (effective_tenant_ids ctx) (λ ts.
    Where.either (Where.one_of "tenantId" ts)
      (Where.either (Where.one_of "venue.tenantId" ts) (Where.one_of "class.tenantId" ts)))
schedule_scope ctx DataScopeKind.coach_owned = when_present ctx.coach_id (Where.equals "coachId")
schedule_scope ctx DataScopeKind.self =
    when_present ctx.student_id (Where.equals "class.students.some.studentId")

unfoldable pub coach_scope : AccessContext → DataScopeKind → Option Where
unfolding effective_tenant_ids
coach_scope ctx DataScopeKind.all = none
coach_scope ctx DataScopeKind.organization =
    when_tenants (effective_tenant_ids ctx) (Where.one_of "tenantId")
coach_scope ctx DataScopeKind.coach_owned = when_present ctx.coach_id (Where.equals "id")
coach_scope ctx DataScopeKind.self = some no_access

unfoldable pub class_scope : AccessContext → DataScopeKind → Option Where
unfolding effective_tenant_ids
class_scope ctx DataScopeKind.all = none
class_scope ctx DataScopeKind.organization =
    when_tenants (effective_tenant_ids ctx) (Where.one_of "tenantId")
class_scope ctx DataScopeKind.coach_owned = when_present ctx.coach_id (Where.equals "coachId")
class_scope ctx DataScopeKind.self =
    when_present ctx.student_id (Where.equals "students.some.studentId")

-- `studentDataScopeWhere`, `scheduleDataScopeWhere`, `coachDataScopeWhere`, `classDataScopeWhere`
unfoldable pub student_data_scope_where : Option AccessContext → Option Where
unfolding student_scope
student_data_scope_where none = none
student_data_scope_where (some ctx) = student_scope ctx ctx.data_scope

unfoldable pub schedule_data_scope_where : Option AccessContext → Option Where
unfolding schedule_scope
schedule_data_scope_where none = none
schedule_data_scope_where (some ctx) = schedule_scope ctx ctx.data_scope

unfoldable pub coach_data_scope_where : Option AccessContext → Option Where
unfolding coach_scope
coach_data_scope_where none = none
coach_data_scope_where (some ctx) = coach_scope ctx ctx.data_scope

unfoldable pub class_data_scope_where : Option AccessContext → Option Where
unfolding class_scope
class_data_scope_where none = none
class_data_scope_where (some ctx) = class_scope ctx ctx.data_scope

-- `resolveDataScope`
unfoldable pub resolve_data_scope :
    UserRole → List String → Option String → Option String → DataScopeKind
resolve_data_scope role permissions coach_id student_id =
    if has_permission permissions org_cross
    then DataScopeKind.all
    else if truthy student_id || str_eq (role_text role) "STUDENT"
    then DataScopeKind.self
    else if truthy coach_id || str_eq (role_text role) "COACH"
    then DataScopeKind.coach_owned
    else DataScopeKind.organization

-- `DataScopeService`: the caller's filter with that of the request's context
unfoldable pub students_where : Option AccessContext → Option Where → Where
unfolding student_data_scope_where
students_where ctx base = merge_where base (student_data_scope_where ctx)

unfoldable pub schedules_where : Option AccessContext → Option Where → Where
unfolding schedule_data_scope_where
schedules_where ctx base = merge_where base (schedule_data_scope_where ctx)

unfoldable pub coaches_where : Option AccessContext → Option Where → Where
unfolding coach_data_scope_where
coaches_where ctx base = merge_where base (coach_data_scope_where ctx)

unfoldable pub classes_where : Option AccessContext → Option Where → Where
unfolding class_data_scope_where
classes_where ctx base = merge_where base (class_data_scope_where ctx)
