-- ===== src/Rbac/Confinement.antt =====
-- What the tenant filters of infrastructure/prisma/tenant and the scopes of common/rbac let through.
use mib_server.Prelude.{
  ◌≡◌, refl, sym, ap, ◌∙◌, subst, String, str_eq, Bool, true, false, ◌&&◌, not, inl, inr, Option,
  none, some, List, [], ◌∷◌, arith, any, Bool-cases, eq_iff, and-eq-true, if◌then◌else◌,
}
use mib_server.Rbac.Permissions.{UserRole, includes}
use mib_server.Rbac.Where.{Where, RowView, matches, matches_option, matches-merge_where}
use mib_server.Rbac.Scope.{
  AccessContext, DataScopeKind, effective_tenant_ids, student_scope, student_data_scope_where,
  students_where, when_tenants,
}
use mib_server.Rbac.Context.{
  UserRow, resolve_active, build_internal, intercept_context, collect_tenant_ids,
}
use mib_server.Rbac.Tenant.{
  Operation, Args, tenant_scoped_models, tenant_clause, is_all, resolve_tenant_where,
  resolve_tenant_id_for_write, merge_tenant, rewrite_query, all_operations,
}

-- The operations in `READ_OPS` and `WRITE_FILTER_OPS`.
abbrev pub is_filtered : Operation → Bool
is_filtered Operation.create = false
is_filtered Operation.create_many = false
is_filtered Operation.upsert = false
is_filtered (Operation.other name) = false
is_filtered _ = true

matches-merge_tenant :
    (row : RowView) (filter : Option Where) (tenant : Where)
    → matches_option row (merge_tenant filter tenant)
      ≡ (matches_option row filter && matches row tenant)
unfolding merge_tenant
matches-merge_tenant row none tenant = refl
matches-merge_tenant row (some Where.everything) tenant = refl
matches-merge_tenant row (some (Where.equals _ _)) tenant = refl
matches-merge_tenant row (some (Where.one_of _ _)) tenant = refl
matches-merge_tenant row (some (Where.either _ _)) tenant = refl
matches-merge_tenant row (some (Where.both _ _)) tenant = refl

rewrite_query-filter :
    (row : RowView) (tenant_id : Option String) (bypass : Bool) (tenant : Where) (op : Operation)
    (a : Args)
    → is_filtered op ≡ true
    → matches_option row (rewrite_query tenant_id bypass tenant op a).1.filter
      ≡ (matches_option row a.filter && matches row tenant)
unfolding rewrite_query
rewrite_query-filter row tenant_id bypass tenant Operation.find_many a h =
    matches-merge_tenant row a.filter tenant
rewrite_query-filter row tenant_id bypass tenant Operation.find_first a h =
    matches-merge_tenant row a.filter tenant
rewrite_query-filter row tenant_id bypass tenant Operation.find_unique a h =
    matches-merge_tenant row a.filter tenant
rewrite_query-filter row tenant_id bypass tenant Operation.count a h =
    matches-merge_tenant row a.filter tenant
rewrite_query-filter row tenant_id bypass tenant Operation.aggregate a h =
    matches-merge_tenant row a.filter tenant
rewrite_query-filter row tenant_id bypass tenant Operation.group_by a h =
    matches-merge_tenant row a.filter tenant
rewrite_query-filter row tenant_id bypass tenant Operation.update a h =
    matches-merge_tenant row a.filter tenant
rewrite_query-filter row tenant_id bypass tenant Operation.delete a h =
    matches-merge_tenant row a.filter tenant
rewrite_query-filter row tenant_id bypass tenant Operation.update_many a h =
    matches-merge_tenant row a.filter tenant
rewrite_query-filter row tenant_id bypass tenant Operation.delete_many a h =
    matches-merge_tenant row a.filter tenant
rewrite_query-filter row tenant_id bypass tenant Operation.create a h = absurd (cc)
rewrite_query-filter row tenant_id bypass tenant Operation.create_many a h = absurd (cc)
rewrite_query-filter row tenant_id bypass tenant Operation.upsert a h = absurd (cc)
rewrite_query-filter row tenant_id bypass tenant (Operation.other name) a h = absurd (cc)

-- For a user whose scope is not `all`, outside a bypass, an operation that the extension lists as a
-- read, update or delete, of a model with a tenant, selects exactly the rows that the caller's filter
-- selects and that the clause for the user's tenants admits. Of the reads findFirstOrThrow and
-- findUniqueOrThrow are not listed.
pub all_operations-confined :
    (row : RowView) (access : AccessContext) (model : String) (op : Operation) (a : Args)
    → includes tenant_scoped_models model ≡ true
    → is_all access.data_scope ≡ false
    → is_filtered op ≡ true
    → matches_option row (all_operations false (some access) model op a).1.filter
      ≡ (matches_option row a.filter && matches row (tenant_clause access access.active_tenant_id))
unfolding all_operations resolve_tenant_where
all_operations-confined row access model op a scoped narrow filtered = rw scoped (
    rw narrow (
      rewrite_query-filter row (resolve_tenant_id_for_write (some access)) false
        (tenant_clause access access.active_tenant_id) op a filtered))

-- A tenant that is one of several is admitted where each of them is.
any-includes :
    (p : String → Bool) (t : String) (ts : List String)
    → includes ts t ≡ true
    → p t ≡ true
    → any p ts ≡ true
any-includes p t [] h k = absurd (cc)
any-includes p t (x ∷ ts) h k = elim (Bool-cases (str_eq x t)) [
  | inl e ↦ let hit : p x ≡ true = ap p ((eq_iff x t).0 e) ∙ k in ground arith
  | inr e ↦ ground (arith, any-includes p t ts (ground arith) k)
]

when_tenants-matches :
    (row : RowView) (ts : List String)
    → row "id" "__no_access__" ≡ false
    → matches_option row (when_tenants ts (Where.one_of "tenantId")) ≡ true
    → any (row "tenantId") ts ≡ true
when_tenants-matches row [] none_such h = absurd (cc)
when_tenants-matches row (t ∷ ts) none_such h = h

effective_tenant_ids-within :
    (row : RowView) (ctx : AccessContext)
    → any (row "tenantId") (effective_tenant_ids ctx) ≡ true
    → any (row "tenantId") ctx.tenant_ids ≡ true
unfolding effective_tenant_ids
effective_tenant_ids-within row ctx h = go ctx.active_tenant_id h
  where
    go :
        (active : Option String)
        → any (row "tenantId") (elim active [
          | none ↦ ctx.tenant_ids
          | some t ↦
              if not (str_eq t "") && includes ctx.tenant_ids t then t ∷ [] else ctx.tenant_ids
        ])
          ≡ true
        → any (row "tenantId") ctx.tenant_ids ≡ true
    go none a = a
    go (some t) a = elim (Bool-cases (not (str_eq t "") && includes ctx.tenant_ids t)) [
      | inl e ↦
          let hit : any (row "tenantId") (t ∷ []) ≡ true = rw e at a in
          any-includes (row "tenantId") t ctx.tenant_ids (and-eq-true (not (str_eq t "")) _ e).1
            (ground arith)
      | inr e ↦ rw e at a
    ]

-- Whatever filter the caller adds, a student that a user of organization scope finds belongs to one
-- of the user's tenants; the only hypothesis on the row is that no id is the reserved text.
pub students_where-within :
    (row : RowView) (ctx : AccessContext) (base : Option Where)
    → ctx.data_scope ≡ DataScopeKind.organization
    → row "id" "__no_access__" ≡ false
    → matches row (students_where (some ctx) base) ≡ true
    → any (row "tenantId") ctx.tenant_ids ≡ true
unfolding students_where student_data_scope_where student_scope
students_where-within row ctx base scope none_such h = effective_tenant_ids-within row ctx (
    when_tenants-matches row (effective_tenant_ids ctx) none_such (
      rw scope at
        (and-eq-true (matches_option row base) _
          (sym (matches-merge_where row base (student_scope ctx ctx.data_scope)) ∙ h)).1))

resolve_active-included :
    (asked : Option String) (ids : List String) (active : String)
    → resolve_active asked ids ≡ some active
    → includes ids active ≡ true
resolve_active-included none ids active h = absurd (cc)
resolve_active-included (some t) ids active h =
    elim (Bool-cases (not (str_eq t "") && includes ids t)) [
      | inl e ↦
          let same : some t ≡ some active = rw e at h in
          let same' : t ≡ active = cc in
          subst (λ x. includes ids x ≡ true) same' (and-eq-true (not (str_eq t "")) _ e).1
      | inr e ↦ absurd (cc (rw e at h))
    ]

-- A header changes the active tenant of a context only to one of its tenants.
intercept_context-included :
    (header : Option String) (access₀ access : AccessContext) (active : String)
    → ((t : String) → access₀.active_tenant_id ≡ some t → includes access₀.tenant_ids t ≡ true)
    → intercept_context header (some access₀) ≡ some access
    → access.active_tenant_id ≡ some active
    → includes access₀.tenant_ids active ≡ true
unfolding intercept_context
intercept_context-included none access₀ access active old h k = old active (cc)
intercept_context-included (some t) access₀ access active old h k =
    elim (Bool-cases (not (str_eq t "") && includes access₀.tenant_ids t)) [
      | inl e ↦
          let new : some (record access₀ { active_tenant_id = some t }) ≡ some access = rw e at h in
          let same : some t ≡ some active = chosen new in
          let same' : t ≡ active = cc in
          subst (λ x. includes access₀.tenant_ids x ≡ true) same'
            (and-eq-true (not (str_eq t "")) _ e).1
      | inr e ↦ let kept : some access₀ ≡ some access = rw e at h in old active (kept_active kept)
    ]
  where
    active_of : Option AccessContext → Option String
    active_of none = none
    active_of (some a) = a.active_tenant_id

    chosen :
        some (record access₀ { active_tenant_id = some t }) ≡ some access → some t ≡ some active
    chosen new = ap active_of new ∙ k

    kept_active : some access₀ ≡ some access → access₀.active_tenant_id ≡ some active
    kept_active kept = ap active_of kept ∙ k

-- The tenant that a request acts in is one of its user's tenants: as the access context is built,
-- and after the header of the request has chosen another.
pub intercept_context-active :
    (user : Option UserRow) (db_role : Option (List String)) (user_id : String) (role : UserRole)
    (asked header : Option String) (access : AccessContext) (active : String)
    → intercept_context header (some (build_internal user db_role user_id role asked)) ≡ some access
    → access.active_tenant_id ≡ some active
    → includes (collect_tenant_ids user) active ≡ true
unfolding build_internal
intercept_context-active user db_role user_id role asked header access active h k =
    intercept_context-included header (build_internal user db_role user_id role asked) access active
      (λ t e. resolve_active-included asked (collect_tenant_ids user) t e) h k
