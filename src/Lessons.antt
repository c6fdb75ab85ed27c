-- ===== src/Lessons.antt =====
-- Lessons on membership cards: common/audit/audit-context.ts, common/prisma/membership-lessons.ts,
-- common/prisma/lesson-transaction.ts, modules/memberships/memberships-lesson-adjust.ts,
-- modules/memberships/memberships.service.ts and modules/attendance/attendance-lesson-deduct.ts.
pub mod Data
pub mod Balance
pub mod Deduct
pub mod Adjust
pub mod Totals
pub mod Settlement
pub mod Deduction
pub mod CheckIn
pub mod Memberships
pub mod Refusal
