-- ===== src/Rbac/Tenant.antt =====
-- infrastructure/prisma/tenant: tenant-context.ts, tenant-scoped.models.ts and
-- prisma-tenant.extension.ts, which rewrites every query of a model with a `tenantId`.
use mib_server.Prelude.{
  String, str_eq, Bool, true, false, ◌&&◌, Option, none, some, List, [], ◌∷◌, map, not,
  if◌then◌else◌,
}
use mib_server.Rbac.Permissions.{includes}
use mib_server.Rbac.Where.{Where}
use mib_server.Rbac.Scope.{AccessContext, DataScopeKind, truthy}

abbrev pub tenant_scoped_models : List String
tenant_scoped_models =
    "User" ∷ "Student" ∷ "Coach" ∷ "CourseType" ∷ "Class" ∷ "Schedule" ∷ "MembershipCard" ∷ "Order"
    ∷ "Venue" ∷ []

-- The filter for the tenants of a context whose scope is not `all`.
unfoldable pub tenant_clause : AccessContext → Option String → Where
tenant_clause access none = elim access.tenant_ids [
  | [] ↦ Where.equals "tenantId" "__no_tenant_access__"
  | t ∷ ts ↦ Where.one_of "tenantId" (t ∷ ts)
]
tenant_clause access (some active) =
    if str_eq active ""
    then elim access.tenant_ids [
      | [] ↦ Where.equals "tenantId" "__no_tenant_access__"
      | t ∷ ts ↦ Where.one_of "tenantId" (t ∷ ts)
    ]
    else Where.equals "tenantId" active

abbrev pub is_all : DataScopeKind → Bool
is_all DataScopeKind.all = true
is_all _ = false

-- `resolveTenantWhere`; `bypass` is `isTenantBypass()`
unfoldable pub resolve_tenant_where : Bool → Option AccessContext → Option Where
unfolding tenant_clause
resolve_tenant_where true ctx = none
resolve_tenant_where false none = none
resolve_tenant_where false (some access) =
    if is_all access.data_scope then none else some (tenant_clause access access.active_tenant_id)

abbrev pub first_of_list : List String → Option String
first_of_list [] = none
first_of_list (t ∷ ts) = some t

abbrev pub or_first : Option String → List String → Option String
or_first none ids = first_of_list ids
or_first (some t) ids = some t

-- `resolveTenantIdForWrite`: `access.activeTenantId ?? access.tenantIds[0]`
unfoldable pub resolve_tenant_id_for_write : Option AccessContext → Option String
resolve_tenant_id_for_write none = none
resolve_tenant_id_for_write (some access) = or_first access.active_tenant_id access.tenant_ids

-- The Prisma operations that the code names, and any other (`findFirstOrThrow`, …).
pub data Operation : Type 0 where
  find_many find_first find_unique count aggregate group_by : Operation
  update delete update_many delete_many : Operation
  create create_many upsert : Operation
  other : String → Operation

-- The arguments that the extension reads or rewrites: `where`, the tenant columns of the rows in
-- `data`, and that of the row in `create` of an upsert.
pub record Args : Type 0 where
  pub filter : Option Where
  pub data_tenants : List (Option String)
  pub create_tenant : Option (Option String)

-- `mergeWhere` of the extension
unfoldable pub merge_tenant : Option Where → Where → Option Where
merge_tenant none tenant = some tenant
merge_tenant (some Where.everything) tenant = some tenant
merge_tenant (some filter) tenant = some (Where.both filter tenant)

-- `row.tenantId ?? tenantId`
abbrev pub inject_tenant : String → Option String → Option String
inject_tenant tenant_id none = some tenant_id
inject_tenant tenant_id (some own) = some own

abbrev pub inject_option : String → Option (Option String) → Option (Option String)
inject_option tenant_id none = none
inject_option tenant_id (some own) = some (inject_tenant tenant_id own)

-- The branch of `CREATE_OPS`.
unfoldable pub rewrite_create : Option String → Bool → Where → Operation → Args → Args
unfolding merge_tenant
rewrite_create tenant_id bypass tenant_where op a =
    if truthy tenant_id && not bypass
    then elim tenant_id [
      | none ↦ a
      | some t ↦ elim op [
        | Operation.create ↦ record a { data_tenants = map (inject_tenant t) a.data_tenants }
        | Operation.create_many ↦ record a { data_tenants = map (inject_tenant t) a.data_tenants }
        | Operation.upsert ↦ record a {
          filter = merge_tenant a.filter tenant_where;
          create_tenant = inject_option t a.create_tenant;
        }
        | _ ↦ a
      ]
    ]
    else a

-- The operation that is run and its arguments, for a query under a tenant filter.
unfoldable pub rewrite_query : Option String → Bool → Where → Operation → Args → Operation × Args
unfolding rewrite_create merge_tenant
rewrite_query tenant_id bypass tenant_where Operation.find_unique a =
    (Operation.find_first, record a { filter = merge_tenant a.filter tenant_where })
rewrite_query tenant_id bypass tenant_where Operation.find_many a =
    (Operation.find_many, record a { filter = merge_tenant a.filter tenant_where })
rewrite_query tenant_id bypass tenant_where Operation.find_first a =
    (Operation.find_first, record a { filter = merge_tenant a.filter tenant_where })
rewrite_query tenant_id bypass tenant_where Operation.count a =
    (Operation.count, record a { filter = merge_tenant a.filter tenant_where })
rewrite_query tenant_id bypass tenant_where Operation.aggregate a =
    (Operation.aggregate, record a { filter = merge_tenant a.filter tenant_where })
rewrite_query tenant_id bypass tenant_where Operation.group_by a =
    (Operation.group_by, record a { filter = merge_tenant a.filter tenant_where })
rewrite_query tenant_id bypass tenant_where Operation.update a =
    (Operation.update, record a { filter = merge_tenant a.filter tenant_where })
rewrite_query tenant_id bypass tenant_where Operation.delete a =
    (Operation.delete, record a { filter = merge_tenant a.filter tenant_where })
rewrite_query tenant_id bypass tenant_where Operation.update_many a =
    (Operation.update_many, record a { filter = merge_tenant a.filter tenant_where })
rewrite_query tenant_id bypass tenant_where Operation.delete_many a =
    (Operation.delete_many, record a { filter = merge_tenant a.filter tenant_where })
rewrite_query tenant_id bypass tenant_where Operation.create a =
    (Operation.create, rewrite_create tenant_id bypass tenant_where Operation.create a)
rewrite_query tenant_id bypass tenant_where Operation.create_many a =
    (Operation.create_many, rewrite_create tenant_id bypass tenant_where Operation.create_many a)
rewrite_query tenant_id bypass tenant_where Operation.upsert a =
    (Operation.upsert, rewrite_create tenant_id bypass tenant_where Operation.upsert a)
rewrite_query tenant_id bypass tenant_where (Operation.other name) a = (Operation.other name, a)

-- `$allOperations`
unfoldable pub all_operations :
    Bool → Option AccessContext → String → Operation → Args → Operation × Args
unfolding rewrite_query
all_operations bypass ctx model op a =
    if not (includes tenant_scoped_models model)
    then (op, a)
    else elim (resolve_tenant_where bypass ctx) [
      | none ↦ (op, a)
      | some tenant_where ↦ rewrite_query (resolve_tenant_id_for_write ctx) bypass tenant_where op a
    ]
