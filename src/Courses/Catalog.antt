-- ===== src/Courses/Catalog.antt =====
-- apps/course-service/src/course-service.service.ts: `listCourses`, `getCourse`, `createCourse`,
-- `updateCourse` and `deleteCourse`. Payloads have passed their DTOs.
use nestjs_saas.Prelude.{
  ℕ, String, Option, none, some, Bool, false, List, [], ◌∷◌, map, leb, nat_eq, ◌==◌,
}
use nestjs_saas.Exec.{prisma_error, Action, pure, gets, or_throw, ◌>>=◌, ◌>>◌, throw_if, modify}
use nestjs_saas.Prisma.{Prisma}
use nestjs_saas.Common.Tiers.{
  SubscriptionTier, max_courses_for_subscription_tier, subscription_tier_course_limit_message,
}
use nestjs_saas.Ordering.{Key, ascending, descending}
use nestjs_saas.Courses.State.{
  Course, Lesson, Db, same_course, is_course, cascade, Deleted, forbidden, not_found,
}

-- A course with `_count` of its lessons and enrollments.
pub record ListedCourse : Type 0 where
  pub course : Course
  pub lessons : ℕ
  pub enrollments : ℕ

pub record CourseDetail : Type 0 where
  pub course : Course
  pub lessons : List Lesson

pub record CreateCourse : Type 0 where
  pub tenant_id : String
  pub title : String
  pub subscription_tier : SubscriptionTier

module _ (prisma : Prisma) where
  abbrev pub listed : Db → Course → ListedCourse
  listed db c = record {
    course = c;
    lessons = prisma.count (λ l. l.course_id == c.id) db.lessons;
    enrollments = prisma.count (λ e. e.course_id == c.id) db.enrollments;
  }

  unfoldable pub list_courses : String → Action Db (List ListedCourse)
  list_courses tenant_id = gets (λ db. map (listed db) (
      prisma.find_many (λ c. c.tenant_id == tenant_id) (descending (λ c. c.updated_at) ∷ [])
        db.courses))

  -- `orderBy: [{ sortOrder: 'asc' }, { createdAt: 'asc' }]`
  abbrev pub lesson_order : List (Key Lesson)
  lesson_order = ascending (λ l. l.sort_order) ∷ ascending (λ l. l.created_at) ∷ []

  unfoldable pub get_course : String → String → Action Db CourseDetail
  get_course tenant_id course_id = do
    db ← gets (λ db. db)
    course ←
        or_throw (prisma.find_first (is_course tenant_id course_id) db.courses)
          (not_found "Course not found")
    pure (record {
      course = course;
      lessons = prisma.find_many (λ l. l.course_id == course.id) lesson_order db.lessons;
    })

  abbrev pub new_course : CreateCourse → String → ℕ → Course
  new_course payload id now = record {
    id = id;
    tenant_id = payload.tenant_id;
    title = payload.title;
    created_at = now;
    updated_at = now;
  }

  -- Is the tenant at the limit of its tier?
  abbrev pub at_limit : CreateCourse → Option ℕ → Db → Bool
  at_limit payload none db = false
  at_limit payload (some max_courses) db =
      leb max_courses (prisma.count (λ c. c.tenant_id == payload.tenant_id) db.courses)

  abbrev pub limit_message : SubscriptionTier → String
  limit_message tier = elim (max_courses_for_subscription_tier tier) [
    | none ↦ ""
    | some max_courses ↦ subscription_tier_course_limit_message tier max_courses
  ]

  unfoldable pub create_course : CreateCourse → String → ℕ → Action Db Course
  unfolding subscription_tier_course_limit_message
  create_course payload id now =
      let max_courses = max_courses_for_subscription_tier payload.subscription_tier in
      let course = new_course payload id now in
      do
        db ← gets (λ db. db)
        throw_if (at_limit payload max_courses db)
            (forbidden (limit_message payload.subscription_tier))
        courses ←
            or_throw (prisma.create (same_course course) course db.courses) (prisma_error "P2002")
        modify (λ db. record db { courses = courses })
        pure course

  abbrev pub retitled : String → ℕ → Course → Course
  retitled title now c = record c { title = title; updated_at = now }

  unfoldable pub update_course : String → String → String → ℕ → Action Db Course
  update_course tenant_id course_id title now = do
    db ← gets (λ db. db)
    let (count, courses) =
        prisma.update_many (is_course tenant_id course_id) (retitled title now) db.courses
    modify (λ db. record db { courses = courses })
    throw_if (nat_eq count 0) (not_found "Course not found")
    or_throw (prisma.find_first (is_course tenant_id course_id) courses) (prisma_error "P2025")

  unfoldable pub delete_course : String → String → Action Db Deleted
  delete_course tenant_id course_id = do
    db ← gets (λ db. db)
    let (count, courses) = prisma.delete_many (is_course tenant_id course_id) db.courses
    modify (cascade prisma courses)
    throw_if (nat_eq count 0) (not_found "Course not found")
    pure (record { deleted_id = course_id })
