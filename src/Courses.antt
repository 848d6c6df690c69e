-- ===== src/Courses.antt =====
-- apps/course-service: courses, lessons and enrollments.
pub mod State
pub mod Catalog
pub mod Lessons
pub mod Enrollments
pub mod Calls
pub mod Dto
pub mod Messages
pub mod Access
mod Examples
