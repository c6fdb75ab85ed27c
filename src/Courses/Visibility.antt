-- ===== src/Courses/Visibility.antt =====
-- Which schedules a coach sees: modules/courses/courses.service.ts under
-- common/rbac/data-scope.filters.ts.
use mib_server.Prelude.{
  ◌≡◌, String, str_eq, Bool, true, false, some, List, arith, Member, All-member, eq_iff,
}
use mib_server.Database.{Delegate, IsSorted}
use mib_server.Rbac.Where.{matches_option}
use mib_server.Rbac.Scope.{AccessContext, DataScopeKind, schedule_data_scope_where}
use mib_server.Statistics.{in_range}
use mib_server.Courses.Schedules.{Schedule, schedule_conflict, is_cancelled}
use mib_server.Courses.Listing.{ScheduleFilters, is_listed, list_schedules, schedule_view}

coach_scope-own :
    (related : Schedule → String → String → Bool) (ctx : AccessContext) (c : String) (s : Schedule)
    → ctx.data_scope ≡ DataScopeKind.coach_owned
    → ctx.coach_id ≡ some c
    → str_eq c "" ≡ false
    → matches_option (schedule_view related s) (schedule_data_scope_where (some ctx)) ≡ true
    → str_eq s.coach_id c ≡ true
unfolding schedule_data_scope_where schedule_view
coach_scope-own related ctx c s scope coach named h = rw named at (rw coach at (rw scope at h))

-- The tests that a listed schedule passes.
is_listed-parts :
    (related : Schedule → String → String → Bool) (ctx : AccessContext) (filters : ScheduleFilters)
    (s : Schedule)
    → is_listed related (some ctx) filters s ≡ true
    → (is_cancelled s.status ≡ false)
      × (in_range filters.from filters.to s.starts_at ≡ true)
      × (matches_option (schedule_view related s) (schedule_data_scope_where (some ctx)) ≡ true)
unfolding is_listed
is_listed-parts related ctx filters s h = (ground arith, ground arith, ground arith)

module _ (schedules : Delegate Schedule schedule_conflict)
    (related : Schedule → String → String → Bool) where
  -- Whatever filters a coach gives: each schedule that is listed is the coach's own, is not cancelled
  -- and begins within the range of times, and they come in the order of their beginnings.
  pub list_schedules-own :
      (ctx : AccessContext) (c : String) (filters : ScheduleFilters) (t : List Schedule)
      → ctx.data_scope ≡ DataScopeKind.coach_owned
      → ctx.coach_id ≡ some c
      → str_eq c "" ≡ false
      → IsSorted (λ s. s.starts_at) (list_schedules schedules related (some ctx) filters t)
        × ((s : Schedule)
            → Member s (list_schedules schedules related (some ctx) filters t)
            → (s.coach_id ≡ c)
              × (is_cancelled s.status ≡ false)
              × (in_range filters.from filters.to s.starts_at ≡ true)
              × Member s t)
  unfolding list_schedules
  list_schedules-own ctx c filters t scope coach named =
      let select = is_listed related (some ctx) filters in
      (
        schedules.find_many_sorted select (λ s. s.starts_at) t,
        λ s m.
            let (listed, member) =
              All-member (λ r. (select r ≡ true) × Member r t)
                (schedules.find_many select (λ s. s.starts_at) t)
                (schedules.find_many_law select (λ s. s.starts_at) t) s m in
            let (live, time, scoped) = is_listed-parts related ctx filters s listed in
            let own = coach_scope-own related ctx c s scope coach named scoped in
            ((eq_iff s.coach_id c).0 own, live, time, member),
      )
