-- ===== src/Courses.antt =====
-- Schedules and their resource locks: modules/courses/schedule-resource-lock.ts and
-- modules/courses/courses.service.ts.
pub mod Slots
pub mod SlotKeys
pub mod Locks
pub mod Schedules
pub mod Catalog
pub mod Classes
pub mod Enrolment
pub mod Listing
pub mod Visibility
pub mod Booking
pub mod Preservation
pub mod Rescheduling
