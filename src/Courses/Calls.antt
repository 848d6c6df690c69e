-- ===== src/Courses/Calls.antt =====
-- apps/course-service/src/course-service.service.ts: the service as a sequence of calls that write.
pub mod References
pub mod Integrity
pub mod Apart
pub mod ById
pub mod Isolation
pub mod Limits
use nestjs_saas.Prelude.{ℕ, String, List, [], ◌∷◌}
use nestjs_saas.Prisma.{Prisma}
use nestjs_saas.Courses.State.{Db}
use nestjs_saas.Courses.Catalog.{CreateCourse, create_course, update_course, delete_course}
use nestjs_saas.Courses.Lessons.{
  CreateLesson, UpdateLesson, create_lesson, update_lesson, delete_lesson,
}
use nestjs_saas.Courses.Enrollments.{
  CreateEnrollment, UpdateEnrollment, create_enrollment, update_enrollment, delete_enrollment,
}

pub data Call : Type 0 where
  creates_course : CreateCourse → (id : String) (now : ℕ) → Call
  updates_course : (tenant_id course_id title : String) (now : ℕ) → Call
  deletes_course : (tenant_id course_id : String) → Call
  creates_lesson : CreateLesson → (id : String) (now : ℕ) → Call
  updates_lesson : UpdateLesson → (now : ℕ) → Call
  deletes_lesson : (tenant_id course_id lesson_id : String) → Call
  creates_enrollment : CreateEnrollment → (id : String) (now : ℕ) → Call
  updates_enrollment : UpdateEnrollment → (now : ℕ) → Call
  deletes_enrollment : (tenant_id enrollment_id : String) → Call

abbrev pub caller : Call → String
caller (creates_course payload id now) = payload.tenant_id
caller (updates_course tenant_id course_id title now) = tenant_id
caller (deletes_course tenant_id course_id) = tenant_id
caller (creates_lesson payload id now) = payload.tenant_id
caller (updates_lesson payload now) = payload.tenant_id
caller (deletes_lesson tenant_id course_id lesson_id) = tenant_id
caller (creates_enrollment payload id now) = payload.tenant_id
caller (updates_enrollment payload now) = payload.tenant_id
caller (deletes_enrollment tenant_id enrollment_id) = tenant_id

module _ (prisma : Prisma) where
  -- What a call leaves, whether it returned or threw.
  unfoldable pub after_call_of : Call → Db → Db
  unfolding create_course update_course delete_course create_lesson update_lesson delete_lesson
      create_enrollment update_enrollment delete_enrollment
  after_call_of (creates_course payload id now) db = (create_course prisma payload id now db).1
  after_call_of (updates_course tenant_id course_id title now) db =
      (update_course prisma tenant_id course_id title now db).1
  after_call_of (deletes_course tenant_id course_id) db =
      (delete_course prisma tenant_id course_id db).1
  after_call_of (creates_lesson payload id now) db = (create_lesson prisma payload id now db).1
  after_call_of (updates_lesson payload now) db = (update_lesson prisma payload now db).1
  after_call_of (deletes_lesson tenant_id course_id lesson_id) db =
      (delete_lesson prisma tenant_id course_id lesson_id db).1
  after_call_of (creates_enrollment payload id now) db =
      (create_enrollment prisma payload id now db).1
  after_call_of (updates_enrollment payload now) db = (update_enrollment prisma payload now db).1
  after_call_of (deletes_enrollment tenant_id enrollment_id) db =
      (delete_enrollment prisma tenant_id enrollment_id db).1

  unfoldable pub run : List Call → Db → Db
  unfolding after_call_of
  run [] db = db
  run (call ∷ calls) db = run calls (after_call_of call db)
