-- ===== src/Tests.antt =====
-- The components at concrete inputs, over the tables and the server in memory: what the theorems
-- assume can hold.
mod Lessons
mod Courses
mod Listing
mod Billing
mod Rbac
mod Redis
mod Auth
mod Attendance
mod Config
mod Money
mod Logging
mod Statistics
mod People
mod Routes
