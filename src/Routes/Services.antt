-- ===== src/Routes/Services.antt =====
-- The routes of modules/attendance, memberships, billing, statistics and auth, and of common/health.
use mib_server.Prelude.{String, List, [], ◌∷◌, ◌++◌, none, some, false}
use mib_server.Rbac.Permissions.{UserRole}
use mib_server.Routes.{Route, Verb, in_class, managers, all_staff}
use mib_server.Routes.People.{students_routes, coaches_routes}
use mib_server.Routes.Courses.{course_types_routes, venues_routes, schedules_routes, classes_routes}

abbrev everybody : List UserRole
everybody = UserRole.admin ∷ UserRole.staff ∷ UserRole.coach ∷ UserRole.student ∷ []

-- `AttendanceController`
abbrev pub attendance_routes : List Route
attendance_routes =
    record (in_class everybody Verb.post "attendance/check-in" "checkIn" none) {
      idempotency = some "attendance:check-in";
      audit = some "签到";
    }
    ∷ record (in_class everybody Verb.post "attendance/check-out" "checkOut" none) {
      audit = some "签退";
    }
    ∷ record (in_class everybody Verb.post "attendance/leave-requests" "leave" (some managers)) {
      audit = some "提交请假申请";
    }
    ∷ record (in_class everybody Verb.post "attendance/schedules/:scheduleId/qr-token" "issueQr"
        (some all_staff)) { audit = some "签发签到二维码" }
    ∷ []

-- `MembershipsController`
abbrev pub memberships_routes : List Route
memberships_routes =
    record (in_class all_staff Verb.post "memberships" "create" (some managers)) {
      idempotency = some "membership:create";
    }
    ∷ in_class all_staff Verb.get "memberships/student/:studentId" "listByStudent" none
    ∷ in_class all_staff Verb.get "memberships/:id" "findOne" none
    ∷ in_class all_staff Verb.patch "memberships/:id" "update" (some managers)
    ∷ record (in_class all_staff Verb.post "memberships/:id/adjust-lessons" "adjust"
        (some managers)) { idempotency = some "membership:adjust-lessons" }
    ∷ []

-- `BillingController`
abbrev pub billing_routes : List Route
billing_routes =
    record (in_class managers Verb.post "orders" "create" none) {
      idempotency = some "order:create";
    }
    ∷ in_class managers Verb.get "orders" "findAll" none
    ∷ []

-- `StatisticsController`
abbrev pub statistics_routes : List Route
statistics_routes =
    in_class all_staff Verb.get "statistics/attendance" "attendance" none
    ∷ in_class all_staff Verb.get "statistics/lessons" "lessons" none
    ∷ in_class all_staff Verb.get "statistics/revenue" "revenue" none
    ∷ []

-- A handler without `RolesGuard`; `open_route` has no guard at all.
abbrev pub signed_in : Verb → String → String → Route
signed_in verb path handler = record (in_class [] verb path handler none) { guarded = false }

abbrev pub open_route : Verb → String → String → Route
open_route verb path handler = record (signed_in verb path handler) { jwt = false }

-- `AuthController`
abbrev pub auth_routes : List Route
auth_routes =
    record (open_route Verb.post "auth/login" "login") { audit = some "用户登录" }
    ∷ record (in_class [] Verb.post "auth/register" "register" (some (UserRole.admin ∷ []))) {
      audit = some "管理员创建用户";
    }
    ∷ record (signed_in Verb.post "auth/change-password" "changePassword") { audit = some "修改密码" }
    ∷ signed_in Verb.post "auth/logout" "logout"
    ∷ in_class [] Verb.get "auth/admin-only" "adminOnly" (some (UserRole.admin ∷ []))
    ∷ signed_in Verb.get "auth/profile" "profile"
    ∷ []

-- `BillingWebhookController` and `HealthController`
abbrev pub webhook_routes : List Route
webhook_routes =
    record (open_route Verb.post "webhooks/payment" "handlePaymentCallback") {
      idempotency = some "payment:callback";
    }
    ∷ []

abbrev pub health_routes : List Route
health_routes = open_route Verb.get "health" "health" ∷ []

abbrev pub all_routes : List Route
all_routes =
    students_routes ++ coaches_routes ++ course_types_routes ++ venues_routes ++ schedules_routes
    ++ classes_routes ++ attendance_routes ++ memberships_routes ++ billing_routes
    ++ statistics_routes ++ auth_routes ++ webhook_routes ++ health_routes
