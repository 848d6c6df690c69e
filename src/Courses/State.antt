-- ===== src/Courses/State.antt =====
-- apps/course-service: the exceptions of src/course-service.service.ts, and of prisma/schema.prisma
-- the tables, their keys, and what the foreign keys of
-- lessons and enrollments do when a course is deleted. Times are milliseconds.
use nestjs_saas.Prelude.{ℕ, String, Option, Bool, not, ◌&&◌, ◌||◌, List, ◌==◌, exists}
use nestjs_saas.Exec.{Error, rpc_exception}
use nestjs_saas.Prisma.{Prisma}

pub record Course : Type 0 where
  pub id : String
  pub tenant_id : String
  pub title : String
  pub created_at : ℕ
  pub updated_at : ℕ

pub record Lesson : Type 0 where
  pub id : String
  pub tenant_id : String
  pub course_id : String
  pub title : String
  pub body : Option String
  pub sort_order : ℕ
  pub created_at : ℕ
  pub updated_at : ℕ

pub record Enrollment : Type 0 where
  pub id : String
  pub tenant_id : String
  pub course_id : String
  pub user_id : String
  pub enrolled_at : ℕ
  pub updated_at : ℕ
  pub last_accessed_at : Option ℕ
  pub completed_at : Option ℕ
  pub progress_percent : ℕ
  pub lessons_completed : ℕ

pub record Db : Type 0 where
  pub courses : List Course
  pub lessons : List Lesson
  pub enrollments : List Enrollment

abbrev pub same_course : Course → Course → Bool
same_course new old = old.id == new.id

abbrev pub same_lesson : Lesson → Lesson → Bool
same_lesson new old = old.id == new.id

-- `@@unique([tenantId, courseId, userId])`
abbrev pub same_enrollment : Enrollment → Enrollment → Bool
same_enrollment new old =
    (old.id == new.id)
    || ((old.tenant_id == new.tenant_id)
        && (old.course_id == new.course_id)
        && (old.user_id == new.user_id))

-- `where: { id: courseId, tenantId }`
abbrev pub is_course : String → String → Course → Bool
is_course tenant_id course_id c = (c.id == course_id) && (c.tenant_id == tenant_id)

abbrev pub is_lesson : String → String → String → Lesson → Bool
is_lesson tenant_id course_id lesson_id l =
    (l.id == lesson_id) && (l.course_id == course_id) && (l.tenant_id == tenant_id)

abbrev pub is_enrollment : String → String → Enrollment → Bool
is_enrollment tenant_id enrollment_id e = (e.id == enrollment_id) && (e.tenant_id == tenant_id)

-- `onDelete: Cascade`: the database keeps the rows whose course is still there.
abbrev pub cascade : Prisma → List Course → Db → Db
cascade prisma courses db = record {
  courses = courses;
  lessons =
      (prisma.delete_many (λ l. not (exists (λ c. c.id == l.course_id) courses)) db.lessons).1;
  enrollments =
      (prisma.delete_many (λ e. not (exists (λ c. c.id == e.course_id) courses)) db.enrollments).1;
}

pub record Deleted : Type 0 where
  pub deleted_id : String

abbrev pub bad_request : String → Error
bad_request = rpc_exception 400

abbrev pub not_found : String → Error
not_found = rpc_exception 404

abbrev pub forbidden : String → Error
forbidden = rpc_exception 403

abbrev pub conflict : String → Error
conflict = rpc_exception 409
