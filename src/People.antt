-- ===== src/People.antt =====
-- Students and coaches: modules/students and modules/coaches.
pub mod Students
pub mod Coaches
pub mod Hidden
