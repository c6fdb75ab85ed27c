-- ===== src/Lib.antt =====
-- The services of the sports-club server under src/ of the repository, to which every path below is
-- relative. Each part is translated function by function, with the source's words in this language's
-- spelling.
--
-- How the parts interact: a request passes the guard (common/guards/roles.guard.ts) under an access
-- context (common/rbac), its queries are filtered by tenant (infrastructure/prisma/tenant) and by data
-- scope (common/rbac), a write may be kept idempotent and locked through Redis
-- (common/idempotency, infrastructure/redis), and the services (modules/) read and write tables.
--
-- Lessons: common/prisma/membership-lessons.ts (Balance), common/prisma/lesson-transaction.ts and
-- common/audit (Data), modules/attendance/attendance-lesson-deduct.ts (Deduct), modules/memberships
-- (Adjust, Memberships); proofs in Totals, Settlement, Deduction, CheckIn and Refusal.
-- Courses: modules/courses/schedule-resource-lock.ts (Slots, Locks) and
-- modules/courses/courses.service.ts (Schedules, Catalog, Classes, Listing); proofs in SlotKeys,
-- Booking, Preservation, Rescheduling, Enrolment and Visibility.
-- Billing: modules/billing (Orders, Signature, Callback); proofs in Trade, Payment, Status,
-- Refund and Idempotence.
-- Rbac: common/rbac, common/guards and infrastructure/prisma/tenant (Permissions, Where, Scope,
-- Context, Tenant); proofs in Confinement.
-- Redis: infrastructure/redis (Store, Locks), common/idempotency (Idempotency, Interceptor) and
-- modules/auth/auth-login-security.service.ts (LoginSecurity); proofs in Mutual, Distinct, Progress
-- and Replay.
-- Attendance and Auth: modules/attendance/attendance.service.ts, modules/auth/auth.service.ts and
-- modules/auth/jwt/jwt.strategy.ts (Data and Service in each) and modules/auth/auth-client.util.ts
-- (Client); proofs in Attendance/Accounts and Auth/Revocation.
-- People: modules/students and modules/coaches (Students, Coaches); proofs in Hidden.
-- Statistics: modules/statistics/statistics.service.ts; proofs in Summaries and Conservation.
-- Config: common/config (Env, Schema) and infrastructure/redis/redis.config.ts (RedisOptions); proofs in
-- Secrets and Backoff.
-- Money: common/money/money.ts; proofs in Digits, Trim and RoundTrip.
-- Logging: common/utils/log-redact.ts (Redaction), common/logger (Visits), common/interceptors (Access)
-- and common/errors (Errors); proofs in Redacted and Trail, and in Visits and Errors themselves.
-- Routes: the controllers, each handler with what its guards ask for (People, Courses, Services); proof in
-- Reach.
-- Swagger: the guards of the documentation in common/swagger; proofs in Guarded.
-- Prelude holds results, integers over the native numbers and lemmas on lists; Http the exceptions;
-- Tests the components at concrete inputs.
--
-- State is passed explicitly. A table is the list of its rows, behind `Delegate` of Database.antt: the
-- operations of Prisma that the code calls, with the documented behaviour of each as laws, the errors of
-- writes included; Database/Memory.antt is an instance. A Redis server is `Server` of Redis/Store.antt,
-- with its instance in Redis/Memory.antt. A write to a table may fail with any error, which the
-- operations carry on; a find and a command of Redis always answer, so a connection that is lost in one
-- is not modelled. A transaction that throws changes nothing, so an error carries no tables.
--
-- What other requests do between two steps of an operation is an argument, a function on the tables or
-- the server: in the payment callbacks and createOrder, in adjustLessons, in every change or removal of a
-- schedule, student, coach, class, course type, venue or card that follows a read outside a transaction,
-- in checkIn between its reads and its transaction and in checkOut, in changePassword, register and login
-- between the look-up of the user and what follows it, in consumeVerificationCode, in beginning an
-- idempotent request, in waiting for its answer and in a run under locks. The other sequences of Redis
-- commands (rate limits, strikes, the release of several locks) are one step each, and so are the transactions
-- but for those of the payment callbacks and of adjustLessons; those of a new schedule, a changed one and a
-- check-in are serializable. Interference inside such a step is left out.
--
-- The tenant filter of Rbac/Tenant is a rewriting of queries of its own; the services are modelled without
-- it, but for the tenant that it adds to a new order. Times are milliseconds; the clock, generators of
-- ids, hashes and the runtime's text functions are arguments.
--
-- The loop over time slots runs on fuel, the number of slots between its bounds, which is enough since
-- each step moves one slot on; the equivalence for the slot keys rests on it. The other loops are
-- structural, over the lists that the code walks.
--
-- Amounts are exact: the quotient that money.ts prints is exact below 2^46 * 100 cents, and what it
-- reads below 2^53. Digits are printed by recursion on the accessibility of the order of numbers.
--
-- Not modelled: Swagger descriptions and the bodies of controllers beyond their guards, the reading of .env
-- files, the loggers and health checks, which are wiring; zod's parse, which is an argument; the timers that renew a lock while a run
-- holds it; distances on the sphere, which are floating-point arithmetic.
pub mod Prelude
pub mod Database
pub mod Http
pub mod Config
pub mod Money
pub mod Logging
pub mod Swagger
pub mod Lessons
pub mod Billing
pub mod Rbac
pub mod Redis
pub mod Courses
pub mod Attendance
pub mod People
pub mod Statistics
pub mod Auth
pub mod Routes
pub mod Tests
