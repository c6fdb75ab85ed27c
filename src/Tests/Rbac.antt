-- ===== src/Tests/Rbac.antt =====
-- The tenant filters and scopes for a member of staff of two tenants.
use mib_server.Prelude.{◌≡◌, refl, str_eq, Bool, true, false, ◌&&◌, none, some, [], ◌∷◌, any}
use mib_server.Rbac.Permissions.{UserRole, includes}
use mib_server.Rbac.Where.{
  Where, RowView, matches, matches_option, merge_where, matches-merge_where,
}
use mib_server.Rbac.Scope.{
  AccessContext, DataScopeKind, students_where, student_data_scope_where, student_scope,
  effective_tenant_ids,
}
use mib_server.Rbac.Context.{
  UserRow, build_internal, intercept_context, collect_tenant_ids, add_id, add_all,
}
use mib_server.Rbac.Tenant.{Operation, Args, tenant_clause, all_operations}
use mib_server.Rbac.Confinement.{
  all_operations-confined, students_where-within, intercept_context-active,
}

abbrev staff_row : UserRow
staff_row = record {
  tenant_id = some "north";
  coach = none;
  student = none;
  tenants = "south" ∷ [];
}

abbrev staff : AccessContext
staff = record {
  user_id = "kim";
  role = UserRole.staff;
  permissions = "students:read" ∷ [];
  tenant_ids = "north" ∷ "south" ∷ [];
  active_tenant_id = some "south";
  coach_id = none;
  student_id = none;
  data_scope = DataScopeKind.organization;
}

-- A student of the southern tenant.
abbrev amy : RowView
amy path value =
    if_path (str_eq path "tenantId") (str_eq value "south") (str_eq path "id") (str_eq value "amy")
  where
    if_path : Bool → Bool → Bool → Bool → Bool
    if_path true b c d = b
    if_path false b true d = d
    if_path false b false d = false

abbrev all_students : Args
all_students = record { filter = none; data_tenants = []; create_tenant = none }

all_operations-confined_example :
    matches_option amy
      (all_operations false (some staff) "Student" Operation.find_many all_students).1.filter
    ≡ (matches_option amy none && matches amy (tenant_clause staff (some "south")))
all_operations-confined_example =
    all_operations-confined amy staff "Student" Operation.find_many all_students refl refl refl

found_amy : matches amy (students_where (some staff) none) ≡ true
unfolding students_where student_data_scope_where student_scope effective_tenant_ids merge_where
found_amy = refl

students_where-within_example : any (amy "tenantId") ("north" ∷ "south" ∷ []) ≡ true
students_where-within_example = students_where-within amy staff none refl refl found_amy

abbrev switched : AccessContext
switched = record (build_internal (some staff_row) none "kim" UserRole.staff (some "north")) {
  active_tenant_id = some "south";
}

switch_tenant :
    intercept_context
      (some "south")
      (some (build_internal (some staff_row) none "kim" UserRole.staff (some "north")))
    ≡ some switched
unfolding intercept_context build_internal collect_tenant_ids add_id add_all
switch_tenant = refl

intercept_context-active_example : includes (collect_tenant_ids (some staff_row)) "south" ≡ true
intercept_context-active_example =
    intercept_context-active (some staff_row) none "kim" UserRole.staff (some "north")
      (some "south") switched "south" switch_tenant refl

matches-merge_where_example :
    matches amy
      (merge_where (some (Where.equals "id" "amy")) (some (Where.equals "tenantId" "north")))
    ≡ (matches_option amy (some (Where.equals "id" "amy"))
        && matches_option amy (some (Where.equals "tenantId" "north")))
matches-merge_where_example =
    matches-merge_where amy (some (Where.equals "id" "amy"))
      (some (Where.equals "tenantId" "north"))
