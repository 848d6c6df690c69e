-- ===== src/Courses/Lessons.antt =====
-- apps/course-service/src/course-service.service.ts: `listLessons`, `getLesson`, `createLesson`,
-- `updateLesson` and `deleteLesson`. Payloads have passed their DTOs.
use nestjs_saas.Prelude.{
  ℕ, String, Option, none, Bool, ◌&&◌, List, nat_eq, ◌==◌, or_default, is_none,
}
use nestjs_saas.Exec.{prisma_error, Action, pure, gets, or_throw, ◌>>=◌, ◌>>◌, throw_if, modify}
use nestjs_saas.Prisma.{Prisma}
use nestjs_saas.Courses.State.{
  Course, Lesson, Db, same_lesson, is_course, is_lesson, Deleted, bad_request, not_found,
}
use nestjs_saas.Courses.Catalog.{lesson_order}

-- `body` is absent, null or a text.
pub record CreateLesson : Type 0 where
  pub tenant_id : String
  pub course_id : String
  pub title : String
  pub body : Option (Option String)
  pub sort_order : Option ℕ

pub record UpdateLesson : Type 0 where
  pub tenant_id : String
  pub course_id : String
  pub lesson_id : String
  pub title : Option String
  pub body : Option (Option String)
  pub sort_order : Option ℕ

module _ (prisma : Prisma) where
  -- The course of a call, which has to be the tenant's.
  abbrev pub course_of : String → String → Db → Action Db Course
  course_of tenant_id course_id db =
      or_throw (prisma.find_first (is_course tenant_id course_id) db.courses)
        (not_found "Course not found")

  unfoldable pub list_lessons : String → String → Action Db (List Lesson)
  list_lessons tenant_id course_id = do
    db ← gets (λ db. db)
    course ← course_of tenant_id course_id db
    pure (
        prisma.find_many (λ l. (l.tenant_id == tenant_id) && (l.course_id == course_id))
          (lesson_order prisma) db.lessons)

  unfoldable pub get_lesson : String → String → String → Action Db Lesson
  get_lesson tenant_id course_id lesson_id = do
    db ← gets (λ db. db)
    or_throw (prisma.find_first (is_lesson tenant_id course_id lesson_id) db.lessons)
        (not_found "Lesson not found")

  abbrev pub new_lesson : CreateLesson → String → ℕ → Lesson
  new_lesson payload id now = record {
    id = id;
    tenant_id = payload.tenant_id;
    course_id = payload.course_id;
    title = payload.title;
    body = or_default payload.body none;
    sort_order = or_default payload.sort_order 0;
    created_at = now;
    updated_at = now;
  }

  unfoldable pub create_lesson : CreateLesson → String → ℕ → Action Db Lesson
  create_lesson payload id now =
      let lesson = new_lesson payload id now in
      do
        db ← gets (λ db. db)
        course ← course_of payload.tenant_id payload.course_id db
        lessons ←
            or_throw (prisma.create (same_lesson lesson) lesson db.lessons) (prisma_error "P2002")
        modify (λ db. record db { lessons = lessons })
        pure lesson

  -- `data`: the fields that are there
  abbrev pub edited : UpdateLesson → ℕ → Lesson → Lesson
  edited payload now l = record l {
    title = or_default payload.title l.title;
    body = or_default payload.body l.body;
    sort_order = or_default payload.sort_order l.sort_order;
    updated_at = now;
  }

  abbrev pub edits_nothing : UpdateLesson → Bool
  edits_nothing payload =
      is_none payload.title && is_none payload.body && is_none payload.sort_order

  unfoldable pub update_lesson : UpdateLesson → ℕ → Action Db Lesson
  update_lesson payload now = do
    db ← gets (λ db. db)
    existing ←
        or_throw
          (prisma.find_first (is_lesson payload.tenant_id payload.course_id payload.lesson_id)
            db.lessons)
          (not_found "Lesson not found")
    throw_if (edits_nothing payload) (bad_request "No fields to update")
    modify (λ db. record db {
      lessons =
          (prisma.update_many (λ l. l.id == payload.lesson_id) (edited payload now) db.lessons).1;
    })
    pure (edited payload now existing)

  unfoldable pub delete_lesson : String → String → String → Action Db Deleted
  delete_lesson tenant_id course_id lesson_id = do
    db ← gets (λ db. db)
    let (count, lessons) = prisma.delete_many (is_lesson tenant_id course_id lesson_id) db.lessons
    modify (λ db. record db { lessons = lessons })
    throw_if (nat_eq count 0) (not_found "Lesson not found")
    pure (record { deleted_id = lesson_id })
