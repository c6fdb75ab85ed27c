-- ===== src/Attendance.antt =====
-- modules/attendance/attendance.service.ts: check-in, check-out, leave requests and QR tokens. The
-- distance of two points is floating-point arithmetic and enters as what the geofence test says.
-- The Redis lock round the transaction is that of `Redis/Locks`; the transaction is modelled
-- without it, since the code relies on the database alone.
pub mod Data
pub mod Service
pub mod Accounts
