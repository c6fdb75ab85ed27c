-- ===== src/Rbac/Context.antt =====
-- common/rbac/access-context.service.ts and access-context.interceptor.ts.
use mib_server.Prelude.{
  String, str_eq, ◌&&◌, Option, none, some, List, [], ◌∷◌, ◌++◌, not, if◌then◌else◌,
}
use mib_server.Rbac.Permissions.{UserRole, includes, role_permission_map}
use mib_server.Rbac.Scope.{AccessContext, resolve_data_scope}

-- A coach or student profile of a user, and the user row that `buildInternal` selects.
pub record Profile : Type 0 where
  pub id : String
  pub tenant_id : Option String

pub record UserRow : Type 0 where
  pub tenant_id : Option String
  pub coach : Option Profile
  pub student : Option Profile
  pub tenants : List String

-- `ids.add(id)` of a `Set` that keeps the order of insertion
unfoldable pub add_id : String → List String → List String
add_id id ids = if includes ids id then ids else ids ++ id ∷ []

abbrev pub add_truthy : Option String → List String → List String
add_truthy none ids = ids
add_truthy (some id) ids = if str_eq id "" then ids else add_id id ids

unfoldable pub add_all : List String → List String → List String
add_all [] ids = ids
add_all (m ∷ ms) ids = add_all ms (add_id m ids)

abbrev pub profile_tenant : Option Profile → Option String
profile_tenant none = none
profile_tenant (some p) = p.tenant_id

abbrev pub profile_id : Option Profile → Option String
profile_id none = none
profile_id (some p) = some p.id

-- `collectTenantIds`
unfoldable pub collect_tenant_ids : Option UserRow → List String
unfolding add_id add_all
collect_tenant_ids none = []
collect_tenant_ids (some user) =
    add_truthy (profile_tenant user.student)
      (add_truthy (profile_tenant user.coach) (add_all user.tenants (add_truthy user.tenant_id [])))

-- `loadPermissions`: the codes of the role's row, or the built-in map where it has none
unfoldable pub load_permissions : Option (List String) → UserRole → List String
load_permissions none role = role_permission_map role
load_permissions (some []) role = role_permission_map role
load_permissions (some (c ∷ cs)) role = c ∷ cs

abbrev pub coach_of : Option UserRow → Option String
coach_of none = none
coach_of (some user) = profile_id user.coach

abbrev pub student_of : Option UserRow → Option String
student_of none = none
student_of (some user) = profile_id user.student

-- `activeTenantId && tenantIds.includes(activeTenantId)`
abbrev pub resolve_active : Option String → List String → Option String
resolve_active none tenant_ids = none
resolve_active (some t) tenant_ids =
    if not (str_eq t "") && includes tenant_ids t then some t else none

-- `buildInternal`, over the rows that its two queries return
unfoldable pub build_internal :
    Option UserRow → Option (List String) → String → UserRole → Option String → AccessContext
unfolding collect_tenant_ids load_permissions
build_internal user db_role user_id role active =
    let permissions = load_permissions db_role role in
    let tenant_ids = collect_tenant_ids user in
    record {
      user_id = user_id;
      role = role;
      permissions = permissions;
      tenant_ids = tenant_ids;
      active_tenant_id = resolve_active active tenant_ids;
      coach_id = coach_of user;
      student_id = student_of user;
      data_scope = resolve_data_scope role permissions (coach_of user) (student_of user);
    }

-- `AccessContextInterceptor`: the context under which the handler runs, by the tenant header
unfoldable pub intercept_context : Option String → Option AccessContext → Option AccessContext
intercept_context header none = none
intercept_context none (some access) = some access
intercept_context (some t) (some access) =
    if not (str_eq t "") && includes access.tenant_ids t
    then some (record access { active_tenant_id = some t })
    else some access
