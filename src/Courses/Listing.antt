-- ===== src/Courses/Listing.antt =====
-- modules/courses/courses.service.ts: the listing of schedules, and the Redis locks round the
-- transactions of the others. `related` tells whether a schedule has a value at a path through
-- relations. The fields of the base filter are tests on the row here; `schedulesWhere` joins the
-- scope to them.
use Prim.Native.String.{◌++◌ as ◌+++◌}
use mib_server.Prelude.{
  ℕ, String, str_eq, Bool, true, false, not, ◌&&◌, Option, none, some, List, [], ◌∷◌, Result, ok,
  err, if◌then◌else◌,
}
use mib_server.Database.{Delegate}
use mib_server.Http.{HttpError}
use mib_server.Rbac.Where.{RowView, matches_option}
use mib_server.Rbac.Scope.{AccessContext, DataScopeKind, schedule_data_scope_where, truthy}
use mib_server.Statistics.{in_range, is_given_text}
use mib_server.People.Students.{column_is, or_option}
use mib_server.Redis.Store.{Server}
use mib_server.Redis.Locks.{LockError, busy, operation_timeout, thrown, run_with_business_locks}
use mib_server.Courses.Schedules.{Schedule, schedule_conflict, is_cancelled}

-- The filters of `listSchedules`, with the times parsed; an empty text is none.
pub record ScheduleFilters : Type 0 where
  pub from : Option ℕ
  pub to : Option ℕ
  pub class_id : Option String
  pub coach_id : Option String

abbrev pub is_coach_owned : DataScopeKind → Bool
is_coach_owned DataScopeKind.coach_owned = true
is_coach_owned _ = false

-- `base.coachId`: a coach sees the own schedules unless the filter names another coach
unfoldable pub listed_coach : Option AccessContext → Option String → Option String
listed_coach none coach_id = coach_id
listed_coach (some ctx) coach_id =
    or_option coach_id
      (if is_coach_owned ctx.data_scope && truthy ctx.coach_id then ctx.coach_id else none)

-- A schedule as a filter sees it.
unfoldable pub schedule_view : (Schedule → String → String → Bool) → Schedule → RowView
schedule_view related s path value =
    if str_eq path "id"
    then str_eq s.id value
    else if str_eq path "coachId"
    then str_eq s.coach_id value
    else if str_eq path "tenantId"
    then column_is s.tenant_id value
    else related s path value

unfoldable pub is_listed :
    (Schedule → String → String → Bool) → Option AccessContext → ScheduleFilters → Schedule → Bool
unfolding listed_coach schedule_view
is_listed related ctx filters s =
    not (is_cancelled s.status)
    && is_given_text filters.class_id s.class_id
    && is_given_text (listed_coach ctx filters.coach_id) s.coach_id
    && in_range filters.from filters.to s.starts_at
    && matches_option (schedule_view related s) (schedule_data_scope_where ctx)

module _ (schedules : Delegate Schedule schedule_conflict)
    (related : Schedule → String → String → Bool) where
  -- `listSchedules`
  unfoldable pub list_schedules :
      Option AccessContext → ScheduleFilters → List Schedule → List Schedule
  unfolding is_listed
  list_schedules ctx filters t =
      schedules.find_many (is_listed related ctx filters) (λ s. s.starts_at) t

-- `withScheduleResourceRedisLocks`: the run under the locks of a coach and a venue, for 30 seconds,
-- with 28 seconds for the transaction
abbrev pub schedule_resources : String → String → List String
schedule_resources coach_id venue_id =
    ("schedule:coach:" +++ coach_id) ∷ ("schedule:venue:" +++ venue_id) ∷ []

abbrev pub as_schedule_result : {A : Type 0} → Result LockError A → Result HttpError A
as_schedule_result (ok a) = ok a
as_schedule_result (err (thrown e)) = err e
as_schedule_result (err (operation_timeout resources ms)) =
    err (HttpError.request_timeout "????????????")
as_schedule_result (err (busy resource)) = err (HttpError.internal resource)

module _ {R : Type 0} (server : Server R) where
  unfoldable pub with_schedule_resource_redis_locks :
      {A : Type 0}
      → ℕ
      → ℕ
      → String
      → String
      → (String → String)
      → Option (ℕ × Result HttpError A)
      → (R → R)
      → R
      → Result HttpError A × R
  with_schedule_resource_redis_locks now done coach_id venue_id token ends world r =
      let (answer, r') =
        run_with_business_locks server now done (schedule_resources coach_id venue_id) 30 token
          (some 28000) (some (HttpError.conflict "????????????")) ends world r in
      (as_schedule_result answer, r')
