-- ===== src/Courses/Messages.antt =====
-- apps/course-service/src/course-service.controller.ts: the messages that the service answers, each
-- after its payload has passed the DTO.
pub mod Effects
pub mod Fits
pub mod Bounds
pub mod Reads
pub mod ReadBack
use nestjs_saas.Prelude.{String, List}
use nestjs_saas.Exec.{Result, ok, err, Action, lift, ◌>>=◌, ◌>>◌}
use nestjs_saas.Prisma.{Prisma}
use nestjs_saas.Common.Roles.{Role}
use nestjs_saas.Courses.State.{Course, Lesson, Db, Deleted}
use nestjs_saas.Courses.Catalog.{
  ListedCourse, CourseDetail, list_courses, get_course, create_course, update_course, delete_course,
}
use nestjs_saas.Courses.Lessons.{
  list_lessons, get_lesson, create_lesson, update_lesson, delete_lesson,
}
use nestjs_saas.Courses.Enrollments.{
  EnrollmentView, create_enrollment, list_enrollments_by_course, list_enrollments_by_user,
  get_enrollment, update_enrollment, delete_enrollment,
}
use nestjs_saas.Courses.Calls.{
  Call, creates_course, updates_course, deletes_course, creates_lesson, updates_lesson,
  deletes_lesson, creates_enrollment, updates_enrollment, deletes_enrollment,
}
use nestjs_saas.Courses.Dto.{
  Validator, accepted, create_course_dto, update_course_dto, ids_dto, three_ids_dto,
  create_lesson_dto, update_lesson_dto, create_enrollment_dto, update_enrollment_dto,
}

-- The messages that only read, and those that write.
pub data Message : Type 0 where
  lists_courses : (tenant_id : String) → Message
  gets_course : (tenant_id course_id : String) → Message
  lists_lessons : (tenant_id course_id : String) → Message
  gets_lesson : (tenant_id course_id lesson_id : String) → Message
  lists_by_course : (tenant_id course_id : String) → Message
  lists_by_user : (tenant_id user_id : String) → Message
  gets_enrollment : (tenant_id enrollment_id : String) → Role → (acting_user_id : String) → Message
  writes : Call → Message

pub data Reply : Type 0 where
  courses : List ListedCourse → Reply
  course_detail : CourseDetail → Reply
  course : Course → Reply
  lessons : List Lesson → Reply
  lesson : Lesson → Reply
  enrollments : List EnrollmentView → Reply
  enrollment : EnrollmentView → Reply
  deleted : Deleted → Reply

abbrev pub result_as : {A : Type 0} → (A → Reply) → Result A → Result Reply
result_as f (ok a) = ok (f a)
result_as f (err e) = err e

abbrev pub replied : {A : Type 0} → (A → Reply) → Action Db A → Action Db Reply
replied f method db = (result_as f (method db).0, (method db).1)

-- The payload of a message that writes, after its DTO.
abbrev pub call_dto : Validator → Call → Result Call
call_dto v (creates_course p id now) = elim (create_course_dto v p) [
  | ok p' ↦ ok (creates_course p' id now)
  | err e ↦ err e
]
call_dto v (updates_course t c title now) = elim (update_course_dto v t c title) [
  | ok title' ↦ ok (updates_course t c title' now)
  | err e ↦ err e
]
call_dto v (deletes_course t c) = elim (ids_dto v t c) [
  | ok _ ↦ ok (deletes_course t c)
  | err e ↦ err e
]
call_dto v (creates_lesson p id now) = elim (create_lesson_dto v p) [
  | ok p' ↦ ok (creates_lesson p' id now)
  | err e ↦ err e
]
call_dto v (updates_lesson p now) = elim (update_lesson_dto v p) [
  | ok p' ↦ ok (updates_lesson p' now)
  | err e ↦ err e
]
call_dto v (deletes_lesson t c l) = elim (three_ids_dto v t c l) [
  | ok _ ↦ ok (deletes_lesson t c l)
  | err e ↦ err e
]
call_dto v (creates_enrollment p id now) = elim (create_enrollment_dto v p) [
  | ok p' ↦ ok (creates_enrollment p' id now)
  | err e ↦ err e
]
call_dto v (updates_enrollment p now) = elim (update_enrollment_dto v p) [
  | ok p' ↦ ok (updates_enrollment p' now)
  | err e ↦ err e
]
call_dto v (deletes_enrollment t e) = elim (ids_dto v t e) [
  | ok _ ↦ ok (deletes_enrollment t e)
  | err x ↦ err x
]

module _ (prisma : Prisma) where
  abbrev pub perform : Call → Action Db Reply
  perform (creates_course p id now) = replied course (create_course prisma p id now)
  perform (updates_course t c title now) = replied course (update_course prisma t c title now)
  perform (deletes_course t c) = replied deleted (delete_course prisma t c)
  perform (creates_lesson p id now) = replied lesson (create_lesson prisma p id now)
  perform (updates_lesson p now) = replied lesson (update_lesson prisma p now)
  perform (deletes_lesson t c l) = replied deleted (delete_lesson prisma t c l)
  perform (creates_enrollment p id now) = replied enrollment (create_enrollment prisma p id now)
  perform (updates_enrollment p now) = replied enrollment (update_enrollment prisma p now)
  perform (deletes_enrollment t e) = replied deleted (delete_enrollment prisma t e)

  unfoldable pub handle_message : Validator → Message → Action Db Reply
  unfolding ◌>>=◌
  handle_message v (lists_courses t) =
      lift (accepted v (v.is_uuid t) tt) >> replied courses (list_courses prisma t)
  handle_message v (gets_course t c) =
      lift (ids_dto v t c) >> replied course_detail (get_course prisma t c)
  handle_message v (lists_lessons t c) =
      lift (ids_dto v t c) >> replied lessons (list_lessons prisma t c)
  handle_message v (gets_lesson t c l) =
      lift (three_ids_dto v t c l) >> replied lesson (get_lesson prisma t c l)
  handle_message v (lists_by_course t c) =
      lift (ids_dto v t c) >> replied enrollments (list_enrollments_by_course prisma t c)
  handle_message v (lists_by_user t u) =
      lift (ids_dto v t u) >> replied enrollments (list_enrollments_by_user prisma t u)
  handle_message v (gets_enrollment t e role u) =
      lift (three_ids_dto v t e u) >> replied enrollment (get_enrollment prisma t e role u)
  handle_message v (writes call) = lift (call_dto v call) >>= λ checked. perform checked
