-- ===== src/Courses/Enrollments.antt =====
-- apps/course-service/src/course-service.service.ts: the operations on enrollments. Payloads have
-- passed their DTOs.
use nestjs_saas.Prelude.{
  ℕ, String, Option, none, some, Bool, false, not, ◌&&◌, List, [], ◌∷◌, map, nat_eq, if◌then◌else◌,
  ◌==◌, or_default, is_none,
}
use nestjs_saas.Exec.{Action, pure, gets, or_throw, ◌>>=◌, ◌>>◌, throw_if, modify}
use nestjs_saas.Prisma.{Prisma}
use nestjs_saas.Common.Roles.{Role, learner, role_eq}
use nestjs_saas.Ordering.{descending}
use nestjs_saas.Courses.State.{
  Enrollment, Db, same_enrollment, is_enrollment, Deleted, bad_request, forbidden, not_found,
  conflict,
}
use nestjs_saas.Courses.Lessons.{course_of}

-- An enrollment with `course: { select: { id: true, title: true } }`
pub record EnrollmentView : Type 0 where
  pub enrollment : Enrollment
  pub course_title : Option String

pub record CreateEnrollment : Type 0 where
  pub tenant_id : String
  pub course_id : String
  pub user_id : String

pub record UpdateEnrollment : Type 0 where
  pub tenant_id : String
  pub enrollment_id : String
  pub acting_role : Role
  pub acting_user_id : String
  pub progress_percent : Option ℕ
  pub lessons_completed : Option ℕ
  pub completed : Option Bool
  pub touch_access : Option Bool

-- The test of `assertLearnerOwnsEnrollment`
abbrev pub is_foreign : Enrollment → Role → String → Bool
is_foreign enrollment acting_role acting_user_id =
    role_eq acting_role learner && not (enrollment.user_id == acting_user_id)

abbrev pub assert_learner_owns_enrollment : Enrollment → Role → String → Action Db (Unit {0})
assert_learner_owns_enrollment enrollment acting_role acting_user_id =
    throw_if (is_foreign enrollment acting_role acting_user_id)
      (forbidden "You can only access your own enrollment")

module _ (prisma : Prisma) where
  abbrev pub title_of : Db → String → Option String
  title_of db course_id = elim (prisma.find_first (λ c. c.id == course_id) db.courses) [
    | none ↦ none
    | some c ↦ some c.title
  ]

  abbrev pub viewed : Db → Enrollment → EnrollmentView
  viewed db e = record { enrollment = e; course_title = title_of db e.course_id }

  abbrev pub new_enrollment : CreateEnrollment → String → ℕ → Enrollment
  new_enrollment payload id now = record {
    id = id;
    tenant_id = payload.tenant_id;
    course_id = payload.course_id;
    user_id = payload.user_id;
    enrolled_at = now;
    updated_at = now;
    last_accessed_at = none;
    completed_at = none;
    progress_percent = 0;
    lessons_completed = 0;
  }

  unfoldable pub create_enrollment : CreateEnrollment → String → ℕ → Action Db EnrollmentView
  create_enrollment payload id now =
      let enrollment = new_enrollment payload id now in
      do
        db ← gets (λ db. db)
        course ← course_of prisma payload.tenant_id payload.course_id db
        -- a unique violation is the only rejection that the client makes of this call
        enrollments ←
            or_throw (prisma.create (same_enrollment enrollment) enrollment db.enrollments)
              (conflict "User is already enrolled in this course")
        modify (λ db. record db { enrollments = enrollments })
        pure (record { enrollment = enrollment; course_title = some course.title })

  unfoldable pub list_enrollments_by_course : String → String → Action Db (List EnrollmentView)
  list_enrollments_by_course tenant_id course_id = do
    db ← gets (λ db. db)
    course ← course_of prisma tenant_id course_id db
    pure (
        map (viewed db) (
          prisma.find_many (λ e. (e.tenant_id == tenant_id) && (e.course_id == course_id))
            (descending (λ e. e.enrolled_at) ∷ []) db.enrollments))

  unfoldable pub list_enrollments_by_user : String → String → Action Db (List EnrollmentView)
  list_enrollments_by_user tenant_id user_id = gets (λ db. map (viewed db) (
      prisma.find_many (λ e. (e.tenant_id == tenant_id) && (e.user_id == user_id))
        (descending (λ e. e.updated_at) ∷ []) db.enrollments))

  abbrev pub enrollment_of : String → String → Db → Action Db Enrollment
  enrollment_of tenant_id enrollment_id db =
      or_throw (prisma.find_first (is_enrollment tenant_id enrollment_id) db.enrollments)
        (not_found "Enrollment not found")

  unfoldable pub get_enrollment : String → String → Role → String → Action Db EnrollmentView
  get_enrollment tenant_id enrollment_id acting_role acting_user_id = do
    db ← gets (λ db. db)
    enrollment ← enrollment_of tenant_id enrollment_id db
    assert_learner_owns_enrollment enrollment acting_role acting_user_id
    pure (viewed db enrollment)

  abbrev pub progresses_nothing : UpdateEnrollment → Bool
  progresses_nothing payload =
      is_none payload.progress_percent
      && is_none payload.lessons_completed
      && is_none payload.completed
      && not (or_default payload.touch_access false)

  abbrev pub completion : Option Bool → ℕ → Option ℕ → Option ℕ
  completion none now completed_at = completed_at
  completion (some completed) now completed_at = if completed then some now else none

  abbrev pub progressed : UpdateEnrollment → ℕ → Enrollment → Enrollment
  progressed payload now e = record e {
    progress_percent = or_default payload.progress_percent e.progress_percent;
    lessons_completed = or_default payload.lessons_completed e.lessons_completed;
    completed_at = completion payload.completed now e.completed_at;
    last_accessed_at = some now;
    updated_at = now;
  }

  unfoldable pub update_enrollment : UpdateEnrollment → ℕ → Action Db EnrollmentView
  update_enrollment payload now = do
    throw_if (progresses_nothing payload) (bad_request "No fields to update")
    db ← gets (λ db. db)
    enrollment ← enrollment_of payload.tenant_id payload.enrollment_id db
    assert_learner_owns_enrollment enrollment payload.acting_role payload.acting_user_id
    modify (λ db. record db {
      enrollments =
          (prisma.update_many (λ e. e.id == payload.enrollment_id) (progressed payload now)
            db.enrollments).1;
    })
    pure (viewed db (progressed payload now enrollment))

  unfoldable pub delete_enrollment : String → String → Action Db Deleted
  delete_enrollment tenant_id enrollment_id = do
    db ← gets (λ db. db)
    let (count, enrollments) =
        prisma.delete_many (is_enrollment tenant_id enrollment_id) db.enrollments
    modify (λ db. record db { enrollments = enrollments })
    throw_if (nat_eq count 0) (not_found "Enrollment not found")
    pure (record { deleted_id = enrollment_id })
